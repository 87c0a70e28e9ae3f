-- ===== src/Bucket/S3/Config/Laws.antt =====
-- A configuration that passes its validation can be turned into those of the client libraries.
use blockstorageingestor.Prelude.{
  ℤ, pos, negsuc, at_most, above, ℕ, zero, suc, ◌+◌, ◌-◌, ◌*◌, ◌/◌, ◌%◌, ◌^◌, ◌≤◌, ◌<◌, ◌≡◌, refl,
  sym, ap, ◌∙◌, ◌≢◌, ◌↔◌, ◌⊎◌, inl, inr, Bool, true, false, not, ◌&&◌, ◌||◌, Option, none, some,
  List, [], ◌∷◌, ◌++◌, map, append-nil, append_assoc, arith, ltb, leb, nat_beq, nat_beq_iff,
  if◌then◌else◌, Comparable, ◌==◌, nat_eq, Bool-cases, Option-cases, length, get_elem?, take, drop,
  length-append, contains, All, All-append, Lacks, select, get_elem?-append, Str, codes, str_beq,
  str_beq_iff, str_eq, str_beq_refl, str_beq-append,
}
use blockstorageingestor.Errors.{Result-cases, Result, ok, err}
use blockstorageingestor.Bucket.S3.ClientConfig.{new_s3_config}
use blockstorageingestor.Bucket.S3.Config.{
  Library, SseConfig, supported_sse_types, validate_sse, sse_kms, sse_s3, Config, validate,
  build_thanos_config, bucket_lookup_type, supported_bucket_lookup_types,
  bucket_virtual_host_lookup, bucket_auto_lookup, bucket_path_lookup, parse_kms_encryption_context,
}

-- `util.StringsContain` tells whether the text is in the list.
abbrev pub IsMembership : Library → Type 0
IsMembership L = (l : List Str) (s : Str) → L.strings_contain l s ≡ contains l s

abbrev pub Succeeds {ℓ} : {A : Type ℓ} → Result A → Type 0
Succeeds (ok a) = Unit
Succeeds (err e) = ⊥

succeeded {ℓ} : {A : Type ℓ} {r : Result A} → Succeeds r → (a : A) × (r ≡ ok a)
succeeded {r = ok a} h = (a, refl)
succeeded {r = err _} h = elim h [ ]

module _ (L : Library) (mem : IsMembership L) where
  supported_type :
      (cfg : SseConfig)
      → validate_sse L cfg ≡ ok tt
      → ((cfg.type == []) ≡ false)
      → ((cfg.type == sse_kms) ≡ false)
      → (cfg.type == sse_s3) ≡ true
  unfolding validate_sse
  supported_type cfg v h k = ground (
    arith,
    mem supported_sse_types cfg.type,
    str_beq_iff cfg.type [],
    str_beq_iff cfg.type sse_kms,
    str_beq_iff sse_kms cfg.type,
    str_beq_iff sse_s3 cfg.type,
    str_beq_iff cfg.type sse_s3,
  )

  parsed :
      (cfg : SseConfig)
      → validate_sse L cfg ≡ ok tt
      → (m : Option L.Map) × (parse_kms_encryption_context L cfg.kms_encryption_context ≡ ok m)
  unfolding validate_sse
  parsed cfg v = elim (Result-cases (parse_kms_encryption_context L cfg.kms_encryption_context)) [
    | inl r ↦ r
    | inr (e, q) ↦ ground arith
  ]

  build_thanos_config-Succeeds :
      (cfg : SseConfig) → validate_sse L cfg ≡ ok tt → Succeeds (build_thanos_config L cfg)
  unfolding build_thanos_config
  build_thanos_config-Succeeds cfg v = elim (Bool-cases (cfg.type == [])) [
    | inl h ↦ rw h tt
    | inr h ↦ elim (Bool-cases (cfg.type == sse_kms)) [
      | inl k ↦ let (m, q) = parsed cfg v in rw (h, k, q) tt
      | inr k ↦ rw (h, k, supported_type cfg v h k) tt
    ]
  ]

  known_lookup :
      (s : Str)
      → contains supported_bucket_lookup_types s ≡ true
      → (s ≡ bucket_auto_lookup) ⊎ (s ≡ bucket_virtual_host_lookup) ⊎ (s ≡ bucket_path_lookup)
  known_lookup s h = ground (
    arith,
    str_beq_iff bucket_auto_lookup s,
    str_beq_iff bucket_virtual_host_lookup s,
    str_beq_iff bucket_path_lookup s,
  )

  bucket_lookup_type-Succeeds :
      (cfg : Config L)
      → contains supported_bucket_lookup_types cfg.bucket_lookup_type ≡ true
      → Succeeds (bucket_lookup_type L cfg)
  unfolding bucket_lookup_type blockstorageingestor.Prelude.str_beq
  bucket_lookup_type-Succeeds cfg h = elim (known_lookup cfg.bucket_lookup_type h) [
    | inl p ↦ rw p tt
    | inr (inl p) ↦ rw p tt
    | inr (inr p) ↦ rw p tt
  ]

  -- A configuration that passes its validation gives a configuration of the S3 client: neither its
  -- encryption nor its lookup type is refused there.
  pub validate-new_s3_config :
      (cfg : Config L) → validate L cfg ≡ ok tt → Succeeds (new_s3_config L cfg)
  unfolding validate new_s3_config
  validate-new_s3_config cfg v =
      let known : contains supported_bucket_lookup_types cfg.bucket_lookup_type ≡ true =
        ground (arith, mem supported_bucket_lookup_types cfg.bucket_lookup_type) in
      let sse : validate_sse L cfg.sse ≡ ok tt = ground arith in
      let (c, p) = succeeded (build_thanos_config-Succeeds cfg.sse sse) in
      let (l, q) = succeeded (bucket_lookup_type-Succeeds cfg known) in rw (p, q) tt

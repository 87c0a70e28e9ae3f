-- ===== src/Bucket/Client/Laws.antt =====
-- A validated choice of the backend is carried out.
use blockstorageingestor.Prelude.{
  ℤ, pos, negsuc, at_most, above, ℕ, zero, suc, ◌+◌, ◌-◌, ◌*◌, ◌/◌, ◌%◌, ◌^◌, ◌≤◌, ◌<◌, ◌≡◌, refl,
  sym, ap, ◌∙◌, ◌≢◌, ◌↔◌, ◌⊎◌, inl, inr, Bool, true, false, not, ◌&&◌, ◌||◌, Option, none, some,
  List, [], ◌∷◌, ◌++◌, map, append-nil, append_assoc, arith, ltb, leb, nat_beq, nat_beq_iff,
  if◌then◌else◌, Comparable, ◌==◌, nat_eq, Bool-cases, Option-cases, length, get_elem?, take, drop,
  length-append, contains, All, All-append, Lacks, select, get_elem?-append, Str, codes, str_beq,
  str_beq_iff, str_eq, str_beq_refl, str_beq-append,
}
use blockstorageingestor.Errors.{ok, passed}
use blockstorageingestor.Bucket.S3.Config.{Library}
use blockstorageingestor.Bucket.S3.Config.Laws.{IsMembership, Succeeds, validate-new_s3_config}
use blockstorageingestor.Bucket.S3.ClientConfig.{new_s3_config}
use blockstorageingestor.Bucket.Client.{
  Providers, BackendConfig, default_backends, supported_backends, validate_backend, new_s3_bucket,
  finish, new_client, s3, gcs, azure, swift, filesystem,
}

module _ (L : Library) (mem : IsMembership L) (K : Providers L) where
  known_backend :
      (s : Str) (extra : List Str)
      → contains (default_backends ++ extra) s ≡ true
      → contains extra s ≡ false
      → (s ≡ s3) ⊎ (s ≡ gcs) ⊎ (s ≡ azure) ⊎ (s ≡ swift) ⊎ (s ≡ filesystem)
  known_backend s extra h k = ground (
    arith,
    str_beq_iff s3 s,
    str_beq_iff gcs s,
    str_beq_iff azure s,
    str_beq_iff swift s,
    str_beq_iff filesystem s,
  )

  supported : (s : Str) (l : List Str) → not (L.strings_contain l s) ≡ false → contains l s ≡ true
  supported s l p = sym (mem l s) ∙ true_of p
    where
      true_of : {b : Bool} → not b ≡ false → b ≡ true
      true_of {b = true} h = refl
      true_of {b = false} h = sym h

  -- With `util.StringsContain` a test of membership: where the options pass their validation and the
  -- backend is not one that the caller has added, the client is that of the backend named, with the
  -- metrics, the tracing and the middlewares over it, and for S3 its configuration is not refused.
  pub new_client_lem :
      (cfg : BackendConfig L K) (name : Str)
      → validate_backend L K cfg ≡ ok tt
      → contains cfg.extra_backends cfg.backend ≡ false
      → let made = new_client L K cfg name in
        ((cfg.backend ≡ s3)
          × (made ≡ finish L K cfg name (new_s3_bucket L K cfg.s3_options name))
          × Succeeds (new_s3_config L cfg.s3_options))
        ⊎ ((cfg.backend ≡ gcs) × (made ≡ finish L K cfg name (K.new_gcs cfg.gcs_options name)))
        ⊎ ((cfg.backend ≡ azure)
            × (made ≡ finish L K cfg name (K.new_azure cfg.azure_options name)))
        ⊎ ((cfg.backend ≡ swift)
            × (made ≡ finish L K cfg name (K.new_swift cfg.swift_options name)))
        ⊎ ((cfg.backend ≡ filesystem)
            × (made ≡ finish L K cfg name (K.new_filesystem cfg.filesystem_options)))
  unfolding new_client validate_backend blockstorageingestor.Prelude.str_beq
  new_client_lem cfg name v x =
      let (p, w) =
        passed (not (L.strings_contain (supported_backends L K cfg) cfg.backend)) _ _ _ v in
      let known = supported cfg.backend (supported_backends L K cfg) p in
      elim (known_backend cfg.backend cfg.extra_backends known x) [
        | inl e ↦ inl (e, rw e refl, validate-new_s3_config L mem cfg.s3_options (rw e at w))
        | inr (inl e) ↦ inr (inl (e, rw e refl))
        | inr (inr (inl e)) ↦ inr (inr (inl (e, rw e refl)))
        | inr (inr (inr (inl e))) ↦ inr (inr (inr (inl (e, rw e refl))))
        | inr (inr (inr (inr e))) ↦ inr (inr (inr (inr (e, rw e refl))))
      ]

-- ===== src/Bucket/S3/Config.antt =====
-- pkg/storage/bucket/s3/config.go: the options of an S3 backend and of its server-side encryption.
pub mod Laws
use blockstorageingestor.Prelude.{
  ℤ, pos, negsuc, at_most, above, ℕ, zero, suc, ◌+◌, ◌-◌, ◌*◌, ◌/◌, ◌%◌, ◌^◌, ◌≤◌, ◌<◌, ◌≡◌, refl,
  sym, ap, ◌∙◌, ◌≢◌, ◌↔◌, ◌⊎◌, inl, inr, Bool, true, false, not, ◌&&◌, ◌||◌, Option, none, some,
  List, [], ◌∷◌, ◌++◌, map, append-nil, append_assoc, arith, ltb, leb, nat_beq, nat_beq_iff,
  if◌then◌else◌, Comparable, ◌==◌, nat_eq, Bool-cases, Option-cases, length, get_elem?, take, drop,
  length-append, contains, All, All-append, Lacks, select, get_elem?-append, Str, codes, str_beq,
  str_beq_iff, str_eq, str_beq_refl, str_beq-append,
}
use blockstorageingestor.Errors.{
  Error, sentinel, wrap, Result, ok, err, wrapped, unsupported_signature_version,
  unsupported_sse_type, invalid_sse_context, invalid_bucket_lookup_type,
}

abbrev pub signature_version_v4 : Str
signature_version_v4 = codes "v4"

abbrev pub signature_version_v2 : Str
signature_version_v2 = codes "v2"

abbrev pub sse_kms : Str
sse_kms = codes "SSE-KMS"

abbrev pub sse_s3 : Str
sse_s3 = codes "SSE-S3"

abbrev pub bucket_auto_lookup : Str
bucket_auto_lookup = codes "auto"

abbrev pub bucket_virtual_host_lookup : Str
bucket_virtual_host_lookup = codes "virtual-hosted"

abbrev pub bucket_path_lookup : Str
bucket_path_lookup = codes "path"

abbrev pub supported_signature_versions : List Str
supported_signature_versions = signature_version_v4 ∷ signature_version_v2 ∷ []

abbrev pub supported_sse_types : List Str
supported_sse_types = sse_kms ∷ sse_s3 ∷ []

abbrev pub supported_bucket_lookup_types : List Str
supported_bucket_lookup_types =
    bucket_auto_lookup ∷ bucket_virtual_host_lookup ∷ bucket_path_lookup ∷ []

-- What the file calls outside the repository. `strings_contain` is `util.StringsContain`;
-- `unmarshal` is `json.Unmarshal` into an empty map of strings, which leaves a map, nil (`none`)
-- for the JSON text `null`, or fails; `new_sse` and `new_sse_kms` are the constructors of the
-- package `encrypt` of minio; `Transport` is `http.RoundTripper`.
pub record Library : Type 1 where
  pub strings_contain : List Str → Str → Bool
  pub Map : Type 0
  pub unmarshal : Str → Result (Option Map)
  pub ServerSide : Type 0
  pub new_sse : ServerSide
  pub new_sse_kms : Str → Option Map → Result ServerSide
  pub Transport : Type 0

pub record SseConfig : Type 0 where
  pub type : Str
  pub kms_key_id : Str
  pub kms_encryption_context : Str

-- The lookup types of the S3 client of Thanos.
pub data BucketLookupType : Type 0 where
  auto_lookup virtual_host_lookup path_lookup : BucketLookupType

-- `Config` of pkg/storage/bucket/http/config.go
pub record HttpOptions : Type 0 where
  pub idle_conn_timeout : ℤ
  pub response_header_timeout : ℤ
  pub insecure_skip_verify : Bool
  pub tls_handshake_timeout : ℤ
  pub expect_continue_timeout : ℤ
  pub max_idle_conns : ℤ
  pub max_idle_conns_per_host : ℤ
  pub max_conns_per_host : ℤ

module _ (L : Library) where
  pub record HttpConfig : Type 0 where
    pub config : HttpOptions
    pub transport : L.Transport

  pub record Config : Type 0 where
    pub endpoint : Str
    pub region : Str
    pub bucket_name : Str
    pub secret_access_key : Str
    pub access_key_id : Str
    pub insecure : Bool
    pub signature_version : Str
    pub bucket_lookup_type : Str
    pub sse : SseConfig
    pub http : HttpConfig

  unfoldable pub bucket_lookup_type : Config → Result BucketLookupType
  bucket_lookup_type cfg =
      if cfg.bucket_lookup_type == bucket_virtual_host_lookup
      then ok virtual_host_lookup
      else if cfg.bucket_lookup_type == bucket_path_lookup
      then ok path_lookup
      else if cfg.bucket_lookup_type == bucket_auto_lookup
      then ok auto_lookup
      else err (sentinel invalid_bucket_lookup_type)

  unfoldable pub parse_kms_encryption_context : Str → Result (Option L.Map)
  parse_kms_encryption_context text =
      if text == []
      then ok none
      else wrapped (L.unmarshal text) (codes "unable to parse KMS encryption context")

  -- The SSE configuration of Thanos: none, or its type with the key and the context.
  pub data ThanosSseConfig : Type 0 where
    no_sse : ThanosSseConfig
    thanos_sse_kms : Str → Option L.Map → ThanosSseConfig
    thanos_sse_s3 : ThanosSseConfig

  -- `(*SSEConfig).Validate`
  validate_context : Result (Option L.Map) → Result (Unit {0})
  validate_context (ok m) = ok tt
  validate_context (err e) = err (sentinel invalid_sse_context)

  unfoldable pub validate_sse : SseConfig → Result (Unit {0})
  unfolding validate_context
  validate_sse cfg =
      if not (cfg.type == []) && not (L.strings_contain supported_sse_types cfg.type)
      then err (sentinel unsupported_sse_type)
      else validate_context (parse_kms_encryption_context cfg.kms_encryption_context)

  with_context : Str → Result (Option L.Map) → Result ThanosSseConfig
  with_context key (ok m) = ok (thanos_sse_kms key m)
  with_context key (err e) = err e

  unfoldable pub build_thanos_config : SseConfig → Result ThanosSseConfig
  unfolding with_context
  build_thanos_config cfg =
      if cfg.type == []
      then ok no_sse
      else if cfg.type == sse_kms
      then with_context cfg.kms_key_id (parse_kms_encryption_context cfg.kms_encryption_context)
      else if cfg.type == sse_s3
      then ok thanos_sse_s3
      else err (sentinel unsupported_sse_type)

  lifted : Result L.ServerSide → Result (Option L.ServerSide)
  lifted (ok s) = ok (some s)
  lifted (err e) = err e

  kms_of : Str → Result (Option L.Map) → Result (Option L.ServerSide)
  unfolding lifted
  kms_of key (ok m) = lifted (L.new_sse_kms key m)
  kms_of key (err e) = err e

  -- `nil` is the encryption of a configuration with no type.
  unfoldable pub build_minio_config : SseConfig → Result (Option L.ServerSide)
  unfolding kms_of
  build_minio_config cfg =
      if cfg.type == []
      then ok none
      else if cfg.type == sse_kms
      then kms_of cfg.kms_key_id (parse_kms_encryption_context cfg.kms_encryption_context)
      else if cfg.type == sse_s3
      then ok (some L.new_sse)
      else err (sentinel unsupported_sse_type)

  -- `(*Config).Validate`
  unfoldable pub validate : Config → Result (Unit {0})
  validate cfg =
      if not (L.strings_contain supported_signature_versions cfg.signature_version)
      then err (sentinel unsupported_signature_version)
      else if not (L.strings_contain supported_bucket_lookup_types cfg.bucket_lookup_type)
      then err (sentinel invalid_bucket_lookup_type)
      else validate_sse cfg.sse

-- ===== src/Bucket/Client.antt =====
-- pkg/storage/bucket/client.go: the choice of the object store's backend by the options.
pub mod Laws
use blockstorageingestor.Prelude.{
  ℤ, pos, negsuc, at_most, above, ℕ, zero, suc, ◌+◌, ◌-◌, ◌*◌, ◌/◌, ◌%◌, ◌^◌, ◌≤◌, ◌<◌, ◌≡◌, refl,
  sym, ap, ◌∙◌, ◌≢◌, ◌↔◌, ◌⊎◌, inl, inr, Bool, true, false, not, ◌&&◌, ◌||◌, Option, none, some,
  List, [], ◌∷◌, ◌++◌, map, append-nil, append_assoc, arith, ltb, leb, nat_beq, nat_beq_iff,
  if◌then◌else◌, Comparable, ◌==◌, nat_eq, Bool-cases, Option-cases, length, get_elem?, take, drop,
  length-append, contains, All, All-append, Lacks, select, get_elem?-append, Str, codes, str_beq,
  str_beq_iff, str_eq, str_beq_refl, str_beq-append,
}
use blockstorageingestor.Errors.{
  Error, Result, ok, err, sentinel, unsupported_storage_backend, ◌>>=◌,
}
use blockstorageingestor.Bucket.S3.Config
use blockstorageingestor.Bucket.S3.Config.{Library}
use blockstorageingestor.Bucket.S3.ClientConfig.{ThanosConfig, new_s3_config}

-- What stands behind the interface `objstore.Bucket` here, as values of a type `Client`. For S3,
-- `new_bucket_with_config` is the constructor of Thanos and `retrying` our `BucketWithRetries` over a
-- bucket. The other backends' packages only hand their options to a constructor of Thanos: their
-- options are types, and the constructors functions on them. `with_metrics` takes the name of the
-- component (or does nothing, without a registry), `tracing` is `objstore.NewTracingBucket`.
pub record Providers (L : Library) : Type 1 where
  pub Client : Type 0
  pub new_bucket_with_config : ThanosConfig L → Str → Result Client
  pub retrying : Client → Client
  pub Gcs : Type 0
  pub new_gcs : Gcs → Str → Result Client
  pub Azure : Type 0
  pub new_azure : Azure → Str → Result Client
  pub Swift : Type 0
  pub new_swift : Swift → Str → Result Client
  pub Filesystem : Type 0
  pub new_filesystem : Filesystem → Result Client
  pub with_metrics : Client → Str → Client
  pub tracing : Client → Client

abbrev pub s3 : Str
s3 = codes "s3"

abbrev pub gcs : Str
gcs = codes "gcs"

abbrev pub azure : Str
azure = codes "azure"

abbrev pub swift : Str
swift = codes "swift"

abbrev pub filesystem : Str
filesystem = codes "filesystem"

abbrev pub default_backends : List Str
default_backends = s3 ∷ gcs ∷ azure ∷ swift ∷ filesystem ∷ []

module _ (L : Library) (K : Providers L) where
  pub record BackendConfig : Type 0 where
    pub backend : Str
    pub s3_options : Config.Config L
    pub gcs_options : K.Gcs
    pub azure_options : K.Azure
    pub swift_options : K.Swift
    pub filesystem_options : K.Filesystem
    pub middlewares : List (K.Client → Result K.Client)
    pub extra_backends : List Str

  abbrev pub supported_backends : BackendConfig → List Str
  supported_backends cfg = default_backends ++ cfg.extra_backends

  unfoldable pub validate_backend : BackendConfig → Result (Unit {0})
  validate_backend cfg =
      if not (L.strings_contain (supported_backends cfg) cfg.backend)
      then err (sentinel unsupported_storage_backend)
      else if cfg.backend == s3
      then Config.validate L cfg.s3_options
      else ok tt

  -- `s3.NewBucketClient`
  unfoldable pub new_s3_bucket : Config.Config L → Str → Result K.Client
  new_s3_bucket cfg name = do
    thanos ← new_s3_config L cfg
    bucket ← K.new_bucket_with_config thanos name
    ok (K.retrying bucket)

  -- `s3.NewBucketReaderClient`, whose client is used for reading
  unfoldable pub new_s3_bucket_reader : Config.Config L → Str → Result K.Client
  new_s3_bucket_reader cfg name = do
    thanos ← new_s3_config L cfg
    bucket ← K.new_bucket_with_config thanos name
    ok (K.retrying bucket)

  unfoldable pub wrap_all : List (K.Client → Result K.Client) → K.Client → Result K.Client
  wrap_all [] client = ok client
  wrap_all (wrapper ∷ wrappers) client = wrapper client >>= wrap_all wrappers

  -- what is done with the backend's client
  unfoldable pub finish : BackendConfig → Str → Result K.Client → Result K.Client
  finish cfg name (err e) = err e
  finish cfg name (ok client) = wrap_all cfg.middlewares (K.tracing (K.with_metrics client name))

  unfoldable pub new_client : BackendConfig → Str → Result K.Client
  new_client cfg name =
      if cfg.backend == s3
      then finish cfg name (new_s3_bucket cfg.s3_options name)
      else if cfg.backend == gcs
      then finish cfg name (K.new_gcs cfg.gcs_options name)
      else if cfg.backend == azure
      then finish cfg name (K.new_azure cfg.azure_options name)
      else if cfg.backend == swift
      then finish cfg name (K.new_swift cfg.swift_options name)
      else if cfg.backend == filesystem
      then finish cfg name (K.new_filesystem cfg.filesystem_options)
      else err (sentinel unsupported_storage_backend)

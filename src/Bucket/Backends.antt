-- ===== src/Bucket/Backends.antt =====
-- pkg/storage/bucket/client.go: the backends with their own options, and the flags of all.
pub mod Names
pub mod Kept
use blockstorageingestor.Prelude.{
  ℤ, pos, negsuc, at_most, above, ℕ, zero, suc, ◌+◌, ◌-◌, ◌*◌, ◌/◌, ◌%◌, ◌^◌, ◌≤◌, ◌<◌, ◌≡◌, refl,
  sym, ap, ◌∙◌, ◌≢◌, ◌↔◌, ◌⊎◌, inl, inr, Bool, true, false, not, ◌&&◌, ◌||◌, Option, none, some,
  List, [], ◌∷◌, ◌++◌, map, append-nil, append_assoc, arith, ltb, leb, nat_beq, nat_beq_iff,
  if◌then◌else◌, Comparable, ◌==◌, nat_eq, Bool-cases, Option-cases, length, get_elem?, take, drop,
  length-append, contains, All, All-append, Lacks, select, get_elem?-append, Str, codes, str_beq,
  str_beq_iff, str_eq, str_beq_refl, str_beq-append,
}
use blockstorageingestor.Errors.{Result}
use blockstorageingestor.Go.FlagVars.{Texts, Registering, string_var, inside, in_order, join_comma}
use blockstorageingestor.Bucket.S3.Config.{Library}
use blockstorageingestor.Bucket.S3.ClientConfig.{ThanosConfig}
use blockstorageingestor.Bucket.S3.Flags.{register_s3}
use blockstorageingestor.Bucket.Gcs.{GcsConfig, register_gcs, ThanosGcsConfig, new_gcs_bucket}
use blockstorageingestor.Bucket.Azure.{
  AzureConfig, register_azure, ThanosAzureConfig, new_azure_bucket,
}
use blockstorageingestor.Bucket.Swift.{
  SwiftConfig, register_swift, ThanosSwiftConfig, new_swift_bucket,
}
use blockstorageingestor.Bucket.Filesystem.{
  FilesystemConfig, register_filesystem, new_filesystem_bucket,
}
use blockstorageingestor.Bucket.Client.{Providers, BackendConfig, s3, supported_backends}

-- The constructors of Thanos, `yaml.Marshal` on their configurations, and our `BucketWithRetries`
-- over a bucket, on buckets of a type `Client`. Without a registry there are no metrics.
pub record Sdk (L : Library) : Type 1 where
  pub Client : Type 0
  pub Registerer : Type 0
  pub new_s3 : ThanosConfig L → Str → Result Client
  pub retrying : Client → Client
  pub marshal_gcs : ThanosGcsConfig → Result Str
  pub new_gcs : Str → Str → Result Client
  pub marshal_azure : ThanosAzureConfig → Result Str
  pub new_azure : Str → Str → Result Client
  pub marshal_swift : ThanosSwiftConfig → Result Str
  pub swift_chunk_size : ℤ
  pub new_swift : Str → Result Client
  pub new_filesystem : Str → Result Client
  pub bucket_with_metrics : Client → Str → Registerer → Client
  pub tracing : Client → Client

module _ (L : Library) (S : Sdk L) where
  -- `bucketWithMetrics`: the registry labels its metrics with the name of the component
  unfoldable pub bucket_with_metrics : Option S.Registerer → S.Client → Str → S.Client
  bucket_with_metrics none client name = client
  bucket_with_metrics (some reg) client name = S.bucket_with_metrics client name reg

  -- The backends that `NewClient` chooses from.
  abbrev pub backends : Option S.Registerer → Providers L
  backends reg = record {
    Client = S.Client;
    new_bucket_with_config = S.new_s3;
    retrying = S.retrying;
    Gcs = GcsConfig;
    new_gcs = new_gcs_bucket S.marshal_gcs S.new_gcs;
    Azure = AzureConfig;
    new_azure = new_azure_bucket S.marshal_azure S.new_azure;
    Swift = SwiftConfig;
    new_swift = new_swift_bucket S.marshal_swift S.new_swift S.swift_chunk_size;
    Filesystem = FilesystemConfig;
    new_filesystem = new_filesystem_bucket S.new_filesystem;
    with_metrics = bucket_with_metrics reg;
    tracing = S.tracing;
  }

  module _ (X : Texts) (reg : Option S.Registerer) where
    -- the step for the backend, whose usage names the backends of the options
    register_backend : Str → Registering (BackendConfig L (backends reg))
    register_backend prefix (c, fs) =
        string_var (λ v c. record c { backend = v }) (prefix ++ codes "backend") s3
          (codes "Backend storage to use. Supported backends are: "
            ++ join_comma (supported_backends L (backends reg) c)
            ++ codes ".")
          (c, fs)

    -- `RegisterFlagsWithPrefix` of Config
    unfoldable pub register_bucket : Str → Registering (BackendConfig L (backends reg))
    unfolding register_backend
    register_bucket prefix = in_order (
        inside (λ c. c.s3_options) (λ v c. record c { s3_options = v }) (register_s3 L X prefix)
        ∷ inside (λ c. c.gcs_options) (λ v c. record c { gcs_options = v }) (register_gcs prefix)
        ∷ inside (λ c. c.azure_options) (λ v c. record c { azure_options = v })
            (register_azure X prefix)
        ∷ inside (λ c. c.swift_options) (λ v c. record c { swift_options = v })
            (register_swift X prefix)
        ∷ inside (λ c. c.filesystem_options) (λ v c. record c { filesystem_options = v })
            (register_filesystem prefix)
        ∷ register_backend prefix
        ∷ [])

    -- `RegisterFlags` of Config
    abbrev pub register_bucket_flags : Registering (BackendConfig L (backends reg))
    register_bucket_flags = register_bucket []

-- ===== src/Bucket/Gcs.antt =====
-- pkg/storage/bucket/gcs: the options of a GCS backend, their flags and the client.
use blockstorageingestor.Prelude.{[], ◌∷◌, ◌++◌, nat_eq, Str, codes, str_eq}
use blockstorageingestor.Errors.{Result, ◌>>=◌}
use blockstorageingestor.Go.FlagVars.{Registering, string_var, value_var, in_order}

pub record GcsConfig : Type 0 where
  pub bucket_name : Str
  pub service_account : Str

unfoldable pub register_gcs : Str → Registering GcsConfig
register_gcs prefix = in_order (
    string_var (λ v c. record c { bucket_name = v }) (prefix ++ codes "gcs.bucket-name") []
      (codes "GCS bucket name")
    ∷ value_var (λ c. c.service_account) (prefix ++ codes "gcs.service-account")
        (codes "JSON representing either a Google Developers Console client_credentials.json "
          ++ codes "file or a Google Developers service account key file. If empty, fallback to "
          ++ codes "Google default logic.")
    ∷ [])

-- `RegisterFlags`
abbrev pub register_gcs_flags : Registering GcsConfig
register_gcs_flags = register_gcs []

-- `gcs.Config` of Thanos, as far as it is filled
pub record ThanosGcsConfig : Type 0 where
  pub bucket : Str
  pub service_account : Str

unfoldable pub thanos_gcs_config : GcsConfig → ThanosGcsConfig
thanos_gcs_config cfg = record { bucket = cfg.bucket_name; service_account = cfg.service_account }

-- `NewBucketClient`, with `yaml.Marshal` and the constructor of Thanos on the text and a name
unfoldable pub new_gcs_bucket :
    {Client : Type 0}
    → (ThanosGcsConfig → Result Str)
    → (Str → Str → Result Client)
    → GcsConfig
    → Str
    → Result Client
new_gcs_bucket marshal new_bucket cfg name =
    marshal (thanos_gcs_config cfg) >>= λ serialized. new_bucket serialized name

-- ===== src/Bucket/Backends/Kept.antt =====
-- The options of the backends reach the constructors of Thanos.
use blockstorageingestor.Prelude.{ℤ, ◌≡◌, refl, sym, ap, ◌∙◌, nat_eq, str_eq}
use blockstorageingestor.Bucket.Gcs.{GcsConfig, thanos_gcs_config, ThanosGcsConfig}
use blockstorageingestor.Bucket.Azure.{AzureConfig, thanos_azure_config, ThanosAzureConfig}
use blockstorageingestor.Bucket.Swift.{SwiftConfig, thanos_swift_config, ThanosSwiftConfig}

-- the translations, read backwards
azure_of : ThanosAzureConfig → AzureConfig
azure_of t = record {
  storage_account_name = t.storage_account_name;
  storage_account_key = t.storage_account_key;
  container_name = t.container_name;
  endpoint = t.endpoint;
  max_retries = t.max_retries;
  msi_resource = t.msi_resource;
  user_assigned_id = t.user_assigned_id;
  config = t.http_config;
}

azure_of-thanos_azure_config : (a : AzureConfig) → azure_of (thanos_azure_config a) ≡ a
unfolding azure_of thanos_azure_config
azure_of-thanos_azure_config a = refl

gcs_of : ThanosGcsConfig → GcsConfig
gcs_of t = record { bucket_name = t.bucket; service_account = t.service_account }

gcs_of-thanos_gcs_config : (a : GcsConfig) → gcs_of (thanos_gcs_config a) ≡ a
unfolding gcs_of thanos_gcs_config
gcs_of-thanos_gcs_config a = refl

swift_of : ThanosSwiftConfig → SwiftConfig
swift_of t = record {
  auth_version = t.auth_version;
  auth_url = t.auth_url;
  username = t.username;
  user_domain_name = t.user_domain_name;
  user_domain_id = t.user_domain_id;
  user_id = t.user_id;
  password = t.password;
  domain_id = t.domain_id;
  domain_name = t.domain_name;
  project_id = t.project_id;
  project_name = t.project_name;
  project_domain_id = t.project_domain_id;
  project_domain_name = t.project_domain_name;
  region_name = t.region_name;
  container_name = t.container_name;
  max_retries = t.retries;
  connect_timeout = t.connect_timeout;
  request_timeout = t.timeout;
}

swift_of-thanos_swift_config : (n : ℤ) (a : SwiftConfig) → swift_of (thanos_swift_config n a) ≡ a
unfolding swift_of thanos_swift_config
swift_of-thanos_swift_config n a = refl

retract-injective {ℓ κ} :
    {A : Type ℓ} {B : Type κ} (f : A → B) (g : B → A)
    → ((a : A) → g (f a) ≡ a)
    → (a b : A) → f a ≡ f b
    → a ≡ b
retract-injective f g r a b e = sym (r a) ∙ ap g e ∙ r b

-- No option of a backend is dropped or mixed up on its way to Thanos: options of Azure, GCS or Swift
-- that give the same configuration there are the same.
pub options_kept :
    (chunk_size : ℤ) (a b : AzureConfig) (c d : GcsConfig) (e f : SwiftConfig)
    → thanos_azure_config a ≡ thanos_azure_config b
    → thanos_gcs_config c ≡ thanos_gcs_config d
    → thanos_swift_config chunk_size e ≡ thanos_swift_config chunk_size f
    → (a ≡ b) × (c ≡ d) × (e ≡ f)
options_kept chunk_size a b c d e f x y z = (
  retract-injective thanos_azure_config azure_of azure_of-thanos_azure_config a b x,
  retract-injective thanos_gcs_config gcs_of gcs_of-thanos_gcs_config c d y,
  retract-injective (thanos_swift_config chunk_size) swift_of
      (swift_of-thanos_swift_config chunk_size) e f z,
)

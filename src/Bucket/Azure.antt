-- ===== src/Bucket/Azure.antt =====
-- pkg/storage/bucket/azure: the options of an Azure backend, their flags and the client.
use blockstorageingestor.Prelude.{ℤ, pos, [], ◌∷◌, ◌++◌, nat_eq, Str, codes, str_eq}
use blockstorageingestor.Errors.{Result, ◌>>=◌}
use blockstorageingestor.Bucket.S3.Config.{HttpOptions}
use blockstorageingestor.Bucket.S3.Flags.{register_http}
use blockstorageingestor.Go.FlagVars.{
  Texts, Registering, string_var, value_var, int_var, inside, in_order,
}

-- The options of the HTTP client are embedded.
pub record AzureConfig : Type 0 where
  pub storage_account_name : Str
  pub storage_account_key : Str
  pub container_name : Str
  pub endpoint : Str
  pub max_retries : ℤ
  pub msi_resource : Str
  pub user_assigned_id : Str
  pub config : HttpOptions

unfoldable pub register_azure : Texts → Str → Registering AzureConfig
register_azure X prefix = in_order (
    string_var (λ v c. record c { storage_account_name = v }) (prefix ++ codes "azure.account-name")
      [] (codes "Azure storage account name")
    ∷ value_var (λ c. c.storage_account_key) (prefix ++ codes "azure.account-key")
        (codes "Azure storage account key")
    ∷ string_var (λ v c. record c { container_name = v }) (prefix ++ codes "azure.container-name")
        [] (codes "Azure storage container name")
    ∷ string_var (λ v c. record c { endpoint = v }) (prefix ++ codes "azure.endpoint-suffix") []
        (codes "Azure storage endpoint suffix without schema. The account name will be "
          ++ codes "prefixed to this value to create the FQDN")
    ∷ int_var X (λ v c. record c { max_retries = v }) (prefix ++ codes "azure.max-retries") (pos 20)
        (codes "Number of retries for recoverable errors")
    ∷ string_var (λ v c. record c { msi_resource = v }) (prefix ++ codes "azure.msi-resource") []
        (codes "Azure storage MSI resource. Either this or account key must be set.")
    ∷ string_var (λ v c. record c { user_assigned_id = v })
        (prefix ++ codes "azure.user-assigned-id") []
        (codes "Azure storage MSI resource managed identity client Id. If not supplied system "
          ++ codes "assigned identity is used")
    ∷ inside (λ c. c.config) (λ v c. record c { config = v })
        (register_http X (prefix ++ codes "azure."))
    ∷ [])

-- `RegisterFlags`
abbrev pub register_azure_flags : Texts → Registering AzureConfig
register_azure_flags X = register_azure X []

-- `azure.Config` of Thanos, as far as it is filled; its `HTTPConfig` has the fields of ours.
pub record ThanosAzureConfig : Type 0 where
  pub storage_account_name : Str
  pub storage_account_key : Str
  pub container_name : Str
  pub endpoint : Str
  pub max_retries : ℤ
  pub msi_resource : Str
  pub user_assigned_id : Str
  pub http_config : HttpOptions

unfoldable pub thanos_azure_config : AzureConfig → ThanosAzureConfig
thanos_azure_config cfg = record {
  storage_account_name = cfg.storage_account_name;
  storage_account_key = cfg.storage_account_key;
  container_name = cfg.container_name;
  endpoint = cfg.endpoint;
  max_retries = cfg.max_retries;
  msi_resource = cfg.msi_resource;
  user_assigned_id = cfg.user_assigned_id;
  http_config = record {
    idle_conn_timeout = cfg.config.idle_conn_timeout;
    response_header_timeout = cfg.config.response_header_timeout;
    insecure_skip_verify = cfg.config.insecure_skip_verify;
    tls_handshake_timeout = cfg.config.tls_handshake_timeout;
    expect_continue_timeout = cfg.config.expect_continue_timeout;
    max_idle_conns = cfg.config.max_idle_conns;
    max_idle_conns_per_host = cfg.config.max_idle_conns_per_host;
    max_conns_per_host = cfg.config.max_conns_per_host;
  };
}

-- `NewBucketClient`, with `yaml.Marshal` and the constructor of Thanos on the text and a name
unfoldable pub new_azure_bucket :
    {Client : Type 0}
    → (ThanosAzureConfig → Result Str)
    → (Str → Str → Result Client)
    → AzureConfig
    → Str
    → Result Client
new_azure_bucket marshal new_bucket cfg name =
    marshal (thanos_azure_config cfg) >>= λ serialized. new_bucket serialized name

-- ===== src/Bucket/Swift.antt =====
-- pkg/storage/bucket/swift: the options of a Swift backend, their flags and the client.
use blockstorageingestor.Prelude.{
  ℤ, pos, ◌*◌, Bool, false, [], ◌∷◌, ◌++◌, nat_eq, Str, codes, str_eq,
}
use blockstorageingestor.Errors.{Result, ◌>>=◌}
use blockstorageingestor.Go.FlagVars.{
  Texts, Registering, string_var, int_var, duration_var, in_order, second,
}

pub record SwiftConfig : Type 0 where
  pub auth_version : ℤ
  pub auth_url : Str
  pub username : Str
  pub user_domain_name : Str
  pub user_domain_id : Str
  pub user_id : Str
  pub password : Str
  pub domain_id : Str
  pub domain_name : Str
  pub project_id : Str
  pub project_name : Str
  pub project_domain_id : Str
  pub project_domain_name : Str
  pub region_name : Str
  pub container_name : Str
  pub max_retries : ℤ
  pub connect_timeout : ℤ
  pub request_timeout : ℤ

unfoldable pub register_swift : Texts → Str → Registering SwiftConfig
register_swift X prefix = in_order (
    int_var X (λ v c. record c { auth_version = v }) (prefix ++ codes "swift.auth-version") (pos 0)
      (codes "OpenStack Swift authentication API version. 0 to autodetect.")
    ∷ string_var (λ v c. record c { auth_url = v }) (prefix ++ codes "swift.auth-url") []
        (codes "OpenStack Swift authentication URL")
    ∷ string_var (λ v c. record c { username = v }) (prefix ++ codes "swift.username") []
        (codes "OpenStack Swift username.")
    ∷ string_var (λ v c. record c { user_domain_name = v })
        (prefix ++ codes "swift.user-domain-name") [] (codes "OpenStack Swift user's domain name.")
    ∷ string_var (λ v c. record c { user_domain_id = v }) (prefix ++ codes "swift.user-domain-id")
        [] (codes "OpenStack Swift user's domain ID.")
    ∷ string_var (λ v c. record c { user_id = v }) (prefix ++ codes "swift.user-id") []
        (codes "OpenStack Swift user ID.")
    ∷ string_var (λ v c. record c { password = v }) (prefix ++ codes "swift.password") []
        (codes "OpenStack Swift API key.")
    ∷ string_var (λ v c. record c { domain_id = v }) (prefix ++ codes "swift.domain-id") []
        (codes "OpenStack Swift user's domain ID.")
    ∷ string_var (λ v c. record c { domain_name = v }) (prefix ++ codes "swift.domain-name") []
        (codes "OpenStack Swift user's domain name.")
    ∷ string_var (λ v c. record c { project_id = v }) (prefix ++ codes "swift.project-id") []
        (codes "OpenStack Swift project ID (v2,v3 auth only).")
    ∷ string_var (λ v c. record c { project_name = v }) (prefix ++ codes "swift.project-name") []
        (codes "OpenStack Swift project name (v2,v3 auth only).")
    ∷ string_var (λ v c. record c { project_domain_id = v })
        (prefix ++ codes "swift.project-domain-id") []
        (codes "ID of the OpenStack Swift project's domain (v3 auth only), only needed if it "
          ++ codes "differs the from user domain.")
    ∷ string_var (λ v c. record c { project_domain_name = v })
        (prefix ++ codes "swift.project-domain-name") []
        (codes "Name of the OpenStack Swift project's domain (v3 auth only), only needed if "
          ++ codes "it differs from the user domain.")
    ∷ string_var (λ v c. record c { region_name = v }) (prefix ++ codes "swift.region-name") []
        (codes "OpenStack Swift Region to use (v2,v3 auth only).")
    ∷ string_var (λ v c. record c { container_name = v }) (prefix ++ codes "swift.container-name")
        [] (codes "Name of the OpenStack Swift container to put chunks in.")
    ∷ int_var X (λ v c. record c { max_retries = v }) (prefix ++ codes "swift.max-retries") (pos 3)
        (codes "Max retries on requests error.")
    ∷ duration_var X (λ v c. record c { connect_timeout = v })
        (prefix ++ codes "swift.connect-timeout") (pos (10 * second))
        (codes "Time after which a connection attempt is aborted.")
    ∷ duration_var X (λ v c. record c { request_timeout = v })
        (prefix ++ codes "swift.request-timeout") (pos (5 * second))
        (codes "Time after which an idle request is aborted. The timeout watchdog is reset "
          ++ codes "each time some data is received, so the timeout triggers after X time no data "
          ++ codes "is received on a request.")
    ∷ [])

-- `RegisterFlags`
abbrev pub register_swift_flags : Texts → Registering SwiftConfig
register_swift_flags X = register_swift X []

-- `swift.Config` of Thanos, as far as it is filled
pub record ThanosSwiftConfig : Type 0 where
  pub auth_version : ℤ
  pub auth_url : Str
  pub username : Str
  pub user_domain_name : Str
  pub user_domain_id : Str
  pub user_id : Str
  pub password : Str
  pub domain_id : Str
  pub domain_name : Str
  pub project_id : Str
  pub project_name : Str
  pub project_domain_id : Str
  pub project_domain_name : Str
  pub region_name : Str
  pub container_name : Str
  pub retries : ℤ
  pub connect_timeout : ℤ
  pub timeout : ℤ
  pub chunk_size : ℤ
  pub use_dynamic_large_objects : Bool

-- The chunk size is that of `swift.DefaultConfig` of Thanos.
unfoldable pub thanos_swift_config : ℤ → SwiftConfig → ThanosSwiftConfig
thanos_swift_config default_chunk_size cfg = record {
  auth_version = cfg.auth_version;
  auth_url = cfg.auth_url;
  username = cfg.username;
  user_domain_name = cfg.user_domain_name;
  user_domain_id = cfg.user_domain_id;
  user_id = cfg.user_id;
  password = cfg.password;
  domain_id = cfg.domain_id;
  domain_name = cfg.domain_name;
  project_id = cfg.project_id;
  project_name = cfg.project_name;
  project_domain_id = cfg.project_domain_id;
  project_domain_name = cfg.project_domain_name;
  region_name = cfg.region_name;
  container_name = cfg.container_name;
  retries = cfg.max_retries;
  connect_timeout = cfg.connect_timeout;
  timeout = cfg.request_timeout;
  chunk_size = default_chunk_size;
  use_dynamic_large_objects = false;
}

-- `NewBucketClient`, with `yaml.Marshal` and the constructor of Thanos, which takes no name
unfoldable pub new_swift_bucket :
    {Client : Type 0}
    → (ThanosSwiftConfig → Result Str)
    → (Str → Result Client)
    → ℤ
    → SwiftConfig
    → Str
    → Result Client
new_swift_bucket marshal new_container default_chunk_size cfg name =
    marshal (thanos_swift_config default_chunk_size cfg) >>= new_container

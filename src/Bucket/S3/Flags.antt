-- ===== src/Bucket/S3/Flags.antt =====
-- The flags of pkg/storage/bucket/http/config.go and pkg/storage/bucket/s3/config.go.
use blockstorageingestor.Prelude.{pos, ◌*◌, false, [], ◌∷◌, ◌++◌, nat_eq, Str, codes, str_eq}
use blockstorageingestor.Go.FlagVars.{
  Texts, Registering, string_var, bool_var, value_var, int_var, duration_var, inside, in_order,
  join_comma, second, minute,
}
use blockstorageingestor.Bucket.S3.Config.{
  Library, HttpOptions, HttpConfig, Config, SseConfig, signature_version_v4, bucket_auto_lookup,
  supported_signature_versions, supported_bucket_lookup_types, supported_sse_types,
}

-- `RegisterFlagsWithPrefix` of http.Config
unfoldable pub register_http : Texts → Str → Registering HttpOptions
register_http X prefix = in_order (
    duration_var X (λ v c. record c { idle_conn_timeout = v })
      (prefix ++ codes "http.idle-conn-timeout") (pos (90 * second))
      (codes "The time an idle connection will remain idle before closing.")
    ∷ duration_var X (λ v c. record c { response_header_timeout = v })
        (prefix ++ codes "http.response-header-timeout") (pos (2 * minute))
        (codes "The amount of time the client will wait for a servers response headers.")
    ∷ bool_var (λ v c. record c { insecure_skip_verify = v })
        (prefix ++ codes "http.insecure-skip-verify") false
        (codes "If the client connects via HTTPS and this option is enabled, the client will "
          ++ codes "accept any certificate and hostname.")
    ∷ duration_var X (λ v c. record c { tls_handshake_timeout = v })
        (prefix ++ codes "tls-handshake-timeout") (pos (10 * second))
        (codes "Maximum time to wait for a TLS handshake. 0 means no limit.")
    ∷ duration_var X (λ v c. record c { expect_continue_timeout = v })
        (prefix ++ codes "expect-continue-timeout") (pos second)
        (codes "The time to wait for a server's first response headers after fully writing "
          ++ codes "the request headers if the request has an Expect header. 0 to send the "
          ++ codes "request body immediately.")
    ∷ int_var X (λ v c. record c { max_idle_conns = v }) (prefix ++ codes "max-idle-connections")
        (pos 100)
        (codes "Maximum number of idle (keep-alive) connections across all hosts. 0 means no "
          ++ codes "limit.")
    ∷ int_var X (λ v c. record c { max_idle_conns_per_host = v })
        (prefix ++ codes "max-idle-connections-per-host") (pos 100)
        (codes "Maximum number of idle (keep-alive) connections to keep per-host. If 0, a "
          ++ codes "built-in default value is used.")
    ∷ int_var X (λ v c. record c { max_conns_per_host = v })
        (prefix ++ codes "max-connections-per-host") (pos 0)
        (codes "Maximum number of connections per host. 0 means no limit.")
    ∷ [])

-- `RegisterFlags` of http.Config
abbrev pub register_http_flags : Texts → Registering HttpOptions
register_http_flags X = register_http X []

-- `RegisterFlagsWithPrefix` of SSEConfig
unfoldable pub register_sse : Str → Registering SseConfig
register_sse prefix = in_order (
    string_var (λ v c. record c { type = v }) (prefix ++ codes "type") []
      (codes "Enable AWS Server Side Encryption. Supported values: "
        ++ join_comma supported_sse_types
        ++ codes ".")
    ∷ string_var (λ v c. record c { kms_key_id = v }) (prefix ++ codes "kms-key-id") []
        (codes "KMS Key ID used to encrypt objects in S3")
    ∷ string_var (λ v c. record c { kms_encryption_context = v })
        (prefix ++ codes "kms-encryption-context") []
        (codes "KMS Encryption Context used for object encryption. It expects JSON formatted "
          ++ codes "string.")
    ∷ [])

-- `RegisterFlags` of SSEConfig
abbrev pub register_sse_flags : Registering SseConfig
register_sse_flags = register_sse []

module _ (L : Library) where
  -- `RegisterFlagsWithPrefix` of HTTPConfig
  unfoldable pub register_http_config : Texts → Str → Registering (HttpConfig L)
  register_http_config X prefix =
      inside (λ c. c.config) (λ v c. record c { config = v })
        (register_http X (prefix ++ codes "s3."))

  -- `RegisterFlagsWithPrefix` of Config
  unfoldable pub register_s3 : Texts → Str → Registering (Config L)
  register_s3 X prefix = in_order (
      string_var (λ v c. record c { access_key_id = v }) (prefix ++ codes "s3.access-key-id") []
        (codes "S3 access key ID")
      ∷ value_var (λ c. c.secret_access_key) (prefix ++ codes "s3.secret-access-key")
          (codes "S3 secret access key")
      ∷ string_var (λ v c. record c { bucket_name = v }) (prefix ++ codes "s3.bucket-name") []
          (codes "S3 bucket name")
      ∷ string_var (λ v c. record c { region = v }) (prefix ++ codes "s3.region") []
          (codes "S3 region. If unset, the client will issue a S3 GetBucketLocation API call to "
            ++ codes "autodetect it.")
      ∷ string_var (λ v c. record c { endpoint = v }) (prefix ++ codes "s3.endpoint") []
          (codes "The S3 bucket endpoint. It could be an AWS S3 endpoint listed at "
            ++ codes "https://docs.aws.amazon.com/general/latest/gr/s3.html or the address of an "
            ++ codes "S3-compatible service in hostname:port format.")
      ∷ bool_var (λ v c. record c { insecure = v }) (prefix ++ codes "s3.insecure") false
          (codes "If enabled, use http:// for the S3 endpoint instead of https://. This could "
            ++ codes
                "be useful in local dev/test environments while using an S3-compatible backend "
            ++ codes "storage, like Minio.")
      ∷ string_var (λ v c. record c { signature_version = v })
          (prefix ++ codes "s3.signature-version") signature_version_v4
          (codes "The signature version to use for authenticating against S3. Supported values "
            ++ codes "are: "
            ++ join_comma supported_signature_versions
            ++ codes ".")
      ∷ string_var (λ v c. record c { bucket_lookup_type = v })
          (prefix ++ codes "s3.bucket-lookup-type") bucket_auto_lookup
          (codes "The s3 bucket lookup style. Supported values are: "
            ++ join_comma supported_bucket_lookup_types
            ++ codes ".")
      ∷ inside (λ c. c.sse) (λ v c. record c { sse = v }) (register_sse (prefix ++ codes "s3.sse."))
      ∷ inside (λ c. c.http) (λ v c. record c { http = v }) (register_http_config X prefix)
      ∷ [])

  -- `RegisterFlags` of Config
  abbrev pub register_s3_flags : Texts → Registering (Config L)
  register_s3_flags X = register_s3 X []

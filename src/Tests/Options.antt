-- ===== src/Tests/Options.antt =====
-- Options that pass their validation.
use blockstorageingestor.Prelude.{
  pos, ◌*◌, ◌≡◌, refl, ◌⊎◌, false, [], ◌∷◌, ◌++◌, nat_eq, contains, Str, codes, str_beq, str_eq,
}
use blockstorageingestor.Errors.{ok}
use blockstorageingestor.Bucket.S3.Config.{Config, SseConfig, HttpConfig, HttpOptions, validate}
use blockstorageingestor.Bucket.S3.ClientConfig.{new_s3_config}
use blockstorageingestor.Bucket.S3.Config.Laws.{Succeeds, validate-new_s3_config}
use blockstorageingestor.Bucket.Client.{
  Providers, BackendConfig, validate_backend, new_client, new_s3_bucket, finish, s3, gcs, azure,
  swift, filesystem,
}
use blockstorageingestor.Bucket.Client.Laws.{new_client_lem}
use blockstorageingestor.Tsdb.Config.{Chunks, TsdbConfig, validate_tsdb}
use blockstorageingestor.Tsdb.Config.Laws.{IsValid, validate_tsdb-IsValid}
use blockstorageingestor.Tsdb.Config.Caches.{
  CacheLibrary, IndexCacheConfig, MemcachedClientConfig, validate_index_cache, new_index_cache,
  inmemory, memcached, redis,
}
use blockstorageingestor.Tests.Data.{library, library-IsMembership, alice}

abbrev pub http : HttpOptions
http = record {
  idle_conn_timeout = pos 90;
  response_header_timeout = pos 120;
  insecure_skip_verify = false;
  tls_handshake_timeout = pos 10;
  expect_continue_timeout = pos 1;
  max_idle_conns = pos 100;
  max_idle_conns_per_host = pos 100;
  max_conns_per_host = pos 0;
}

abbrev pub s3_config : Config library
s3_config = record {
  endpoint = codes "s3";
  region = [];
  bucket_name = codes "blocks";
  secret_access_key = [];
  access_key_id = [];
  insecure = false;
  signature_version = codes "v4";
  bucket_lookup_type = codes "path";
  sse = record { type = codes "SSE-KMS"; kms_key_id = alice; kms_encryption_context = [] };
  http = record { config = http; transport = tt };
}

s3_config_valid : validate library s3_config ≡ ok tt
unfolding validate blockstorageingestor.Bucket.S3.Config.validate_sse
    blockstorageingestor.Bucket.S3.Config.parse_kms_encryption_context str_beq
s3_config_valid = refl

validate-new_s3_config_example : Succeeds (new_s3_config library s3_config)
validate-new_s3_config_example =
    validate-new_s3_config library library-IsMembership s3_config s3_config_valid

abbrev pub chunk_bounds : Chunks
chunk_bounds = record {
  min_write_buffer_size = 64 * 1024;
  max_write_buffer_size = 8 * 1024 * 1024;
  decimal = λ n. n ∷ [];
}

-- The defaults of the flags.
abbrev pub tsdb_config : TsdbConfig
tsdb_config = record {
  dir = codes "tsdb";
  block_ranges = pos (2 * 60 * 60 * 1000000000) ∷ [];
  retention = pos (6 * 60 * 60 * 1000000000);
  ship_interval = pos (60 * 1000000000);
  ship_concurrency = pos 10;
  head_compaction_interval = pos (60 * 1000000000);
  head_compaction_concurrency = pos 5;
  head_compaction_idle_timeout = pos (60 * 60 * 1000000000);
  head_chunks_write_buffer_size = pos (4 * 1024 * 1024);
  stripe_size = pos 16384;
  wal_compression_enabled = false;
  wal_segment_size_bytes = pos (128 * 1024 * 1024);
  flush_blocks_on_shutdown = false;
  close_idle_tsdb_timeout = pos 0;
  head_chunks_write_queue_size = pos 0;
  max_tsdb_opening_concurrency_on_startup = pos 10;
  keep_user_tsdb_open_on_shutdown = false;
  close_idle_tsdb_interval = pos 0;
  max_exemplars = pos 0;
  memory_snapshot_on_shutdown = false;
  out_of_order_cap_max = pos 32;
}

tsdb_config_valid : validate_tsdb chunk_bounds tsdb_config ≡ ok tt
unfolding validate_tsdb blockstorageingestor.Tsdb.Config.Bits.land
tsdb_config_valid = refl

validate_tsdb-IsValid_example : IsValid chunk_bounds tsdb_config
validate_tsdb-IsValid_example =
    validate_tsdb-IsValid chunk_bounds tsdb_config refl tsdb_config_valid

abbrev pub cache_library : CacheLibrary
cache_library = record {
  strings_contain = contains;
  RedisClientConfig = Str;
  validate_redis = λ r. ok tt;
}

abbrev memcached_options : MemcachedClientConfig
memcached_options = record {
  addresses = codes "dns+m:11211";
  timeout = pos 100;
  max_idle_connections = pos 16;
  max_async_concurrency = pos 50;
  max_async_buffer_size = pos 10000;
  max_get_multi_concurrency = pos 100;
  max_get_multi_batch_size = pos 0;
  max_item_size = pos 1048576;
  auto_discovery = false;
}

abbrev pub cache_config : IndexCacheConfig cache_library
cache_config = record {
  backend = codes "memcached";
  max_size_bytes = 1;
  memcached = memcached_options;
  redis = [];
}

pub cache_config_valid : validate_index_cache cache_library cache_config ≡ ok tt
unfolding validate_index_cache blockstorageingestor.Tsdb.Config.Caches.validate_memcached
    blockstorageingestor.Tsdb.Config.Caches.get_addresses blockstorageingestor.Go.Strings.split
    str_beq
cache_config_valid = refl

-- Clients that are named by how they were made.
abbrev providers : Providers library
providers = record {
  Client = Str;
  new_bucket_with_config = λ c n. ok n;
  retrying = λ c. codes "retrying " ++ c;
  Gcs = Unit {0};
  new_gcs = λ c n. ok n;
  Azure = Unit {0};
  new_azure = λ c n. ok n;
  Swift = Unit {0};
  new_swift = λ c n. ok n;
  Filesystem = Str;
  new_filesystem = λ c. ok c;
  with_metrics = λ c n. c;
  tracing = λ c. c;
}

abbrev backend_config : BackendConfig library providers
backend_config = record {
  backend = codes "s3";
  s3_options = s3_config;
  gcs_options = tt;
  azure_options = tt;
  swift_options = tt;
  filesystem_options = codes "/data";
  middlewares = (λ c. ok c) ∷ [];
  extra_backends = codes "vault" ∷ [];
}

backend_config_valid : validate_backend library providers backend_config ≡ ok tt
unfolding validate_backend validate blockstorageingestor.Bucket.S3.Config.validate_sse
    blockstorageingestor.Bucket.S3.Config.parse_kms_encryption_context str_beq
backend_config_valid = refl

not_added : contains backend_config.extra_backends backend_config.backend ≡ false
unfolding str_beq
not_added = refl

new_client_lem_example :
    let cfg = backend_config in
    let made = new_client library providers cfg alice in
    let done = finish library providers cfg alice in
    ((cfg.backend ≡ s3)
      × (made ≡ done (new_s3_bucket library providers s3_config alice))
      × Succeeds (new_s3_config library s3_config))
    ⊎ ((cfg.backend ≡ gcs) × (made ≡ done (ok alice)))
    ⊎ ((cfg.backend ≡ azure) × (made ≡ done (ok alice)))
    ⊎ ((cfg.backend ≡ swift) × (made ≡ done (ok alice)))
    ⊎ ((cfg.backend ≡ filesystem) × (made ≡ done (ok (codes "/data"))))
new_client_lem_example =
    new_client_lem library library-IsMembership providers backend_config alice backend_config_valid
      not_added

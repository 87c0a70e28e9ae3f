-- ===== src/Tests/Storage.antt =====
-- The options of all stores: their flags, their defaults and the caches that they give.
use blockstorageingestor.Prelude.{
  pos, ◌*◌, ◌≡◌, refl, ◌≢◌, ◌⊎◌, true, false, none, [], nat_eq, All, Str, codes, str_eq,
}
use blockstorageingestor.Errors.{ok}
use blockstorageingestor.Go.FlagVars.{Texts}
use blockstorageingestor.Go.Strings.{has_prefix}
use blockstorageingestor.Bucket.Gcs.{GcsConfig}
use blockstorageingestor.Bucket.Azure.{AzureConfig}
use blockstorageingestor.Bucket.Swift.{SwiftConfig}
use blockstorageingestor.Bucket.Client.{BackendConfig}
use blockstorageingestor.Bucket.Backends.{Sdk, backends, register_bucket}
use blockstorageingestor.Bucket.Backends.Names.{names, are_distinct, register_bucket-names}
use blockstorageingestor.Tsdb.Config.Caches.{inmemory, memcached, redis}
use blockstorageingestor.Tsdb.Config.CacheFlags.{RedisFlags}
use blockstorageingestor.Tsdb.Config.DurationList.{Durations}
use blockstorageingestor.Tsdb.Config.Flags.{Constants}
use blockstorageingestor.Tsdb.Config.BucketStore.{BucketStoreConfig}
use blockstorageingestor.Tsdb.BlocksStorage.{
  BlocksStorageConfig, validate_blocks_storage, register_blocks_storage,
}
use blockstorageingestor.Tsdb.BlocksStorage.Laws.{IsConstants, validate-register_blocks_storage}
use blockstorageingestor.Tsdb.IndexCache.{
  IndexCaches, InMemoryConfig, make_index_cache, new_memcached_index_cache, new_redis_index_cache,
}
use blockstorageingestor.Tsdb.IndexCache.Laws.{Fits, make_index_cache_lem}
use blockstorageingestor.Tests.Options.{
  http, s3_config, chunk_bounds, tsdb_config, cache_library, cache_config, cache_config_valid,
}
use blockstorageingestor.Tests.CachedNames.{chunks_cache, metadata_cache}
use blockstorageingestor.Tests.Data.{library, library-IsMembership}

-- Clients are named by how they were made.
abbrev sdk : Sdk library
sdk = record {
  Client = Str;
  Registerer = Unit {0};
  new_s3 = λ c n. ok n;
  retrying = λ c. c;
  marshal_gcs = λ c. ok c.bucket;
  new_gcs = λ t n. ok t;
  marshal_azure = λ c. ok c.container_name;
  new_azure = λ t n. ok t;
  marshal_swift = λ c. ok c.container_name;
  swift_chunk_size = pos 1024;
  new_swift = λ t. ok t;
  new_filesystem = λ d. ok d;
  bucket_with_metrics = λ c n r. c;
  tracing = λ c. c;
}

abbrev texts : Texts
texts = record { int_text = λ z. []; duration_text = λ z. [] }

abbrev gcs_options : GcsConfig
gcs_options = record { bucket_name = codes "blocks"; service_account = [] }

abbrev azure_options : AzureConfig
azure_options = record {
  storage_account_name = codes "account";
  storage_account_key = [];
  container_name = codes "blocks";
  endpoint = [];
  max_retries = pos 20;
  msi_resource = [];
  user_assigned_id = [];
  config = http;
}

abbrev swift_options : SwiftConfig
swift_options = record {
  auth_version = pos 0;
  auth_url = [];
  username = [];
  user_domain_name = [];
  user_domain_id = [];
  user_id = [];
  password = [];
  domain_id = [];
  domain_name = [];
  project_id = [];
  project_name = [];
  project_domain_id = [];
  project_domain_name = [];
  region_name = [];
  container_name = [];
  max_retries = pos 3;
  connect_timeout = pos 10;
  request_timeout = pos 5;
}

abbrev bucket_options : BackendConfig library (backends library sdk none)
bucket_options = record {
  backend = codes "s3";
  s3_options = s3_config;
  gcs_options = gcs_options;
  azure_options = azure_options;
  swift_options = swift_options;
  filesystem_options = record { directory = codes "d" };
  middlewares = [];
  extra_backends = [];
}

register_bucket-names_example :
    let flags =
      names
        (register_bucket library sdk texts none (codes "blocks-storage.") (bucket_options, [])).1 in
    (are_distinct flags ≡ true) × All (λ n. has_prefix n (codes "blocks-storage.") ≡ true) flags
register_bucket-names_example =
    register_bucket-names library sdk texts none (codes "blocks-storage.") bucket_options

abbrev constants : Constants
constants = record {
  default_write_buffer_size = pos (4 * 1024 * 1024);
  default_write_queue_size = pos 0;
  default_segment_size = pos (128 * 1024 * 1024);
  default_out_of_order_cap_max = pos 32;
  default_posting_offset_in_memory_sampling = pos 32;
  partitioner_max_gap_size = 512 * 1024;
  estimated_max_chunk_size = pos 16000;
  gibibyte = 1024 * 1024 * 1024;
}

constants-IsConstants : IsConstants chunk_bounds constants
constants-IsConstants = record {
  above_min = refl;
  below_max = refl;
  divides = refl;
  segment = refl;
  out_of_order = refl;
}

abbrev redis_flags : RedisFlags cache_library
redis_flags prefix s = s

abbrev durations : Durations
durations = record {
  show_duration = λ z. [];
  parse_duration = λ t. ok (pos 1);
  milliseconds = λ z. z;
}

abbrev store_options : BucketStoreConfig cache_library
store_options = record {
  sync_dir = [];
  sync_interval = pos 0;
  max_concurrent = pos 0;
  tenant_sync_concurrency = pos 0;
  block_sync_concurrency = pos 0;
  meta_sync_concurrency = pos 0;
  consistency_delay = pos 0;
  index_cache = cache_config;
  chunks_cache = chunks_cache;
  metadata_cache = metadata_cache;
  ignore_deletion_marks_delay = pos 0;
  ignore_blocks_within = pos 0;
  bucket_index = record {
    enabled = true;
    update_on_error_interval = pos 0;
    idle_timeout = pos 0;
    max_stale_period = pos 0;
  };
  max_chunk_pool_bytes = 0;
  chunk_pool_min_bucket_size_bytes = pos 0;
  chunk_pool_max_bucket_size_bytes = pos 0;
  index_header_lazy_loading_enabled = false;
  index_header_lazy_loading_idle_timeout = pos 0;
  partitioner_max_gap_bytes = 0;
  posting_offsets_in_mem_sampling = pos 0;
}

abbrev storage_options : BlocksStorageConfig library sdk none cache_library
storage_options = record {
  bucket = bucket_options;
  bucket_store = store_options;
  tsdb = tsdb_config;
}

validate-register_blocks_storage_example :
    validate_blocks_storage library sdk none cache_library chunk_bounds
      (register_blocks_storage library sdk none cache_library texts durations constants redis_flags
        (storage_options, [])).0
    ≡ ok tt
validate-register_blocks_storage_example =
    validate-register_blocks_storage texts constants cache_library redis_flags (λ l s. refl) library
      library-IsMembership sdk none chunk_bounds constants-IsConstants durations
      (storage_options, [])

abbrev index_caches : IndexCaches cache_library
index_caches = record {
  Cache = Str;
  MemcachedClient = Str;
  RedisClient = Str;
  mib = 1024 * 1024;
  new_inmemory = λ c. ok (codes "memory");
  new_memcached_client = λ n c. ok n;
  new_memcached = λ c. ok c;
  new_redis_client = λ n c. ok c;
  new_remote = λ c. ok c;
}

make_index_cache_lem_example :
    let made = make_index_cache cache_library index_caches cache_config in
    ((cache_config.backend ≡ inmemory)
      × ((c : InMemoryConfig) × Fits cache_library index_caches
            (λ l s. refl)
            cache_config.max_size_bytes
            c
          × (made ≡ ok (codes "memory"))))
    ⊎ ((cache_config.backend ≡ memcached)
        × (cache_config.memcached.addresses ≢ [])
        × (made ≡ new_memcached_index_cache cache_library index_caches cache_config.memcached))
    ⊎ ((cache_config.backend ≡ redis)
        × (cache_library.validate_redis cache_config.redis ≡ ok tt)
        × (made ≡ new_redis_index_cache cache_library index_caches cache_config.redis))
make_index_cache_lem_example =
    make_index_cache_lem cache_library index_caches (λ l s. refl) cache_config cache_config_valid

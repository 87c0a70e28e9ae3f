-- ===== src/Tsdb/Config/BucketStore.antt =====
-- pkg/storage/tsdb/config.go: the options of the bucket stores and their flags.
use blockstorageingestor.Prelude.{
  ℤ, pos, ℕ, ◌*◌, Bool, false, [], ◌∷◌, ◌++◌, nat_eq, Str, codes, str_eq,
}
use blockstorageingestor.Go.FlagVars.{
  Texts, Registering, string_var, bool_var, int_var, uint_var, duration_var, inside, in_order,
  minute, hour,
}
use blockstorageingestor.Errors.{Result}
use blockstorageingestor.Tsdb.Config.{validate_bucket_store}
use blockstorageingestor.Tsdb.Config.Caches.{CacheLibrary, IndexCacheConfig}
use blockstorageingestor.Tsdb.Config.BucketCaches.{ChunksCacheConfig, MetadataCacheConfig}
use blockstorageingestor.Tsdb.Config.CacheFlags.{
  RedisFlags, register_index_cache, register_chunks_cache, register_metadata_cache,
}
use blockstorageingestor.Tsdb.Config.Flags.{
  Constants, chunk_pool_default_min_bucket_size, chunk_pool_default_max_bucket_size,
}

pub record BucketIndexConfig : Type 0 where
  pub enabled : Bool
  pub update_on_error_interval : ℤ
  pub idle_timeout : ℤ
  pub max_stale_period : ℤ

-- `RegisterFlagsWithPrefix` of BucketIndexConfig
unfoldable pub register_bucket_index : Texts → Str → Registering BucketIndexConfig
register_bucket_index X prefix = in_order (
    bool_var (λ v c. record c { enabled = v }) (prefix ++ codes "enabled") false
      (codes "True to enable querier and store-gateway to discover blocks in the storage "
        ++ codes "via bucket index instead of bucket scanning.")
    ∷ duration_var X (λ v c. record c { update_on_error_interval = v })
        (prefix ++ codes "update-on-error-interval") (pos minute)
        (codes "How frequently a bucket index, which previously failed to load, should be "
          ++ codes "tried to load again. This option is used only by querier.")
    ∷ duration_var X (λ v c. record c { idle_timeout = v }) (prefix ++ codes "idle-timeout")
        (pos hour)
        (codes "How long a unused bucket index should be cached. Once this timeout expires, "
          ++ codes "the unused bucket index is removed from the in-memory cache. This option is "
          ++ codes "used only by querier.")
    ∷ duration_var X (λ v c. record c { max_stale_period = v }) (prefix ++ codes "max-stale-period")
        (pos hour)
        (codes "The maximum allowed age of a bucket index (last updated) before queries start "
          ++ codes "failing because the bucket index is too old. The bucket index is periodically "
          ++ codes "updated by the compactor, while this check is enforced in the querier (at "
          ++ codes "query time).")
    ∷ [])

module _ (R : CacheLibrary) where
  -- Durations are in nanoseconds.
  pub record BucketStoreConfig : Type 0 where
    pub sync_dir : Str
    pub sync_interval : ℤ
    pub max_concurrent : ℤ
    pub tenant_sync_concurrency : ℤ
    pub block_sync_concurrency : ℤ
    pub meta_sync_concurrency : ℤ
    pub consistency_delay : ℤ
    pub index_cache : IndexCacheConfig R
    pub chunks_cache : ChunksCacheConfig R
    pub metadata_cache : MetadataCacheConfig R
    pub ignore_deletion_marks_delay : ℤ
    pub ignore_blocks_within : ℤ
    pub bucket_index : BucketIndexConfig
    pub max_chunk_pool_bytes : ℕ
    pub chunk_pool_min_bucket_size_bytes : ℤ
    pub chunk_pool_max_bucket_size_bytes : ℤ
    pub index_header_lazy_loading_enabled : Bool
    pub index_header_lazy_loading_idle_timeout : ℤ
    pub partitioner_max_gap_bytes : ℕ
    pub posting_offsets_in_mem_sampling : ℤ

  -- `(*BucketStoreConfig).Validate`; the caches' `Validate` is that of the backend they embed.
  unfoldable pub validate_store : BucketStoreConfig → Result (Unit {0})
  validate_store cfg =
      validate_bucket_store R cfg.index_cache cfg.chunks_cache.cache_backend
        cfg.metadata_cache.cache_backend

  module _ (F : RedisFlags R) (X : Texts) (D : Constants) where
    register_store_vars : Registering BucketStoreConfig
    register_store_vars = in_order (
        string_var (λ v c. record c { sync_dir = v }) (codes "blocks-storage.bucket-store.sync-cmd")
          (codes "tsdb-sync") (codes "Directory to store synchronized TSDB index headers.")
        ∷ duration_var X (λ v c. record c { sync_interval = v })
            (codes "blocks-storage.bucket-store.sync-interval") (pos (15 * minute))
            (codes "How frequently to scan the bucket, or to refresh the bucket index (if "
              ++ codes
                  "enabled), in order to look for changes (new blocks shipped by ingesters and "
              ++ codes "blocks deleted by retention or compaction).")
        ∷ uint_var X (λ v c. record c { max_chunk_pool_bytes = v })
            (codes "blocks-storage.bucket-store.max-chunk-pool-bytes") (2 * D.gibibyte)
            (codes "Max size - in bytes - of a chunks pool, used to reduce memory allocations. "
              ++ codes "The pool is shared across all tenants. 0 to disable the limit.")
        ∷ int_var X (λ v c. record c { chunk_pool_min_bucket_size_bytes = v })
            (codes "blocks-storage.bucket-store.chunk-pool-min-bucket-size-bytes")
            (chunk_pool_default_min_bucket_size D)
            (codes "Size - in bytes - of the smallest chunks pool bucket.")
        ∷ int_var X (λ v c. record c { chunk_pool_max_bucket_size_bytes = v })
            (codes "blocks-storage.bucket-store.chunk-pool-max-bucket-size-bytes")
            (chunk_pool_default_max_bucket_size)
            (codes "Size - in bytes - of the largest chunks pool bucket.")
        ∷ int_var X (λ v c. record c { max_concurrent = v })
            (codes "blocks-storage.bucket-store.max-concurrent") (pos 100)
            (codes "Max number of concurrent queries to execute against the long-term storage. "
              ++ codes "The limit is shared across all tenants.")
        ∷ int_var X (λ v c. record c { tenant_sync_concurrency = v })
            (codes "blocks-storage.bucket-store.tenant-sync-concurrency") (pos 10)
            (codes "Maximum number of concurrent tenants synching blocks.")
        ∷ int_var X (λ v c. record c { block_sync_concurrency = v })
            (codes "blocks-storage.bucket-store.block-sync-concurrency") (pos 20)
            (codes "Maximum number of concurrent blocks synching per tenant.")
        ∷ int_var X (λ v c. record c { meta_sync_concurrency = v })
            (codes "blocks-storage.bucket-store.meta-sync-concurrency") (pos 20)
            (codes "Number of Go routines to use when syncing block meta files from object "
              ++ codes "storage per tenant.")
        ∷ duration_var X (λ v c. record c { consistency_delay = v })
            (codes "blocks-storage.bucket-store.consistency-delay") (pos 0)
            (codes "Minimum age of a block before it's being read. Set it to safe value (e.g 30m) "
              ++ codes "if your object storage is eventually consistent. GCS and S3 are (roughly) "
              ++ codes "strongly consistent.")
        ∷ duration_var X (λ v c. record c { ignore_deletion_marks_delay = v })
            (codes "blocks-storage.bucket-store.ignore-deletion-marks-delay") (pos (6 * hour))
            (codes "Duration after which the blocks marked for deletion will be filtered out "
              ++ codes
                  "while fetching blocks. The idea of ignore-deletion-marks-delay is to ignore "
              ++ codes
                  "blocks that are marked for deletion with some delay. This ensures store can "
              ++ codes
                  "still serve blocks that are meant to be deleted but do not have a replacement "
              ++ codes
                  "yet. Default is 6h, half of the default value for -compactor.deletion-delay.")
        ∷ duration_var X (λ v c. record c { ignore_blocks_within = v })
            (codes "blocks-storage.bucket-store.ignore-blocks-within") (pos 0)
            (codes "The blocks created since `now() - ignore_blocks_within` will not be synced. "
              ++ codes
                  "This should be used together with `-querier.query-store-after` to filter out "
              ++ codes
                  "the blocks that are too new to be queried. A reasonable value for this flag "
              ++ codes "would be `-querier.query-store-after - "
              ++ codes "blocks-storage.bucket-store.bucket-index.max-stale-period` to give some "
              ++ codes "buffer. 0 to disable.")
        ∷ int_var X (λ v c. record c { posting_offsets_in_mem_sampling = v })
            (codes "blocks-storage.bucket-store.posting-offsets-in-mem-sampling")
            (D.default_posting_offset_in_memory_sampling)
            (codes "Controls what is the ratio of postings offsets that the store will hold in "
              ++ codes "memory.")
        ∷ bool_var (λ v c. record c { index_header_lazy_loading_enabled = v })
            (codes "blocks-storage.bucket-store.index-header-lazy-loading-enabled") false
            (codes "If enabled, store-gateway will lazily memory-map an index-header only once "
              ++ codes "required by a query.")
        ∷ duration_var X (λ v c. record c { index_header_lazy_loading_idle_timeout = v })
            (codes "blocks-storage.bucket-store.index-header-lazy-loading-idle-timeout")
            (pos (20 * minute))
            (codes "If index-header lazy loading is enabled and this setting is > 0, the "
              ++ codes
                  "store-gateway will release memory-mapped index-headers after 'idle timeout' "
              ++ codes "inactivity.")
        ∷ uint_var X (λ v c. record c { partitioner_max_gap_bytes = v })
            (codes "blocks-storage.bucket-store.partitioner-max-gap-bytes")
            (D.partitioner_max_gap_size)
            (codes "Max size - in bytes - of a gap for which the partitioner aggregates together "
              ++ codes "two bucket GET object requests.")
        ∷ [])

    register_store_parts : Registering BucketStoreConfig
    register_store_parts = in_order (
        inside (λ c. c.index_cache) (λ v c. record c { index_cache = v })
          (register_index_cache R F X D.gibibyte (codes "blocks-storage.bucket-store.index-cache."))
        ∷ inside (λ c. c.chunks_cache) (λ v c. record c { chunks_cache = v })
            (register_chunks_cache R F X (codes "blocks-storage.bucket-store.chunks-cache."))
        ∷ inside (λ c. c.metadata_cache) (λ v c. record c { metadata_cache = v })
            (register_metadata_cache R F X (codes "blocks-storage.bucket-store.metadata-cache."))
        ∷ inside (λ c. c.bucket_index) (λ v c. record c { bucket_index = v })
            (register_bucket_index X (codes "blocks-storage.bucket-store.bucket-index."))
        ∷ [])

    -- `RegisterFlags` of BucketStoreConfig
    unfoldable pub register_store : Registering BucketStoreConfig
    unfolding register_store_vars register_store_parts
    register_store s = register_store_vars (register_store_parts s)

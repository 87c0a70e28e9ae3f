-- ===== src/Tsdb/Config/CacheFlags.antt =====
-- The flags of pkg/storage/tsdb/memcache_client_config.go, index_cache.go and caching_bucket.go.
use blockstorageingestor.Prelude.{pos, ℕ, ◌*◌, false, [], ◌∷◌, ◌++◌, nat_eq, Str, codes, str_eq}
use blockstorageingestor.Go.FlagVars.{
  Texts, Registering, string_var, bool_var, int_var, uint_var, duration_var, inside, in_order,
  join_comma, millisecond, minute, hour,
}
use blockstorageingestor.Tsdb.Config.Caches.{
  CacheLibrary, MemcachedClientConfig, IndexCacheConfig, CacheBackend, inmemory, memcached,
  supported_index_cache_backends,
}
use blockstorageingestor.Tsdb.Config.BucketCaches.{ChunksCacheConfig, MetadataCacheConfig}

-- `RegisterFlagsWithPrefix` of MemcachedClientConfig
unfoldable pub register_memcached : Texts → Str → Registering MemcachedClientConfig
register_memcached X prefix = in_order (
    string_var (λ v c. record c { addresses = v }) (prefix ++ codes "addresses") []
      (codes "Comma separated list of memcached addresses. Supported prefixes are: dns+ "
        ++ codes "(looked up as an A/AAAA query), dnssrv+ (looked up as a SRV query, dnssrvnoa+ "
        ++ codes "(looked up as a SRV query, with no A/AAAA lookup made after that).")
    ∷ duration_var X (λ v c. record c { timeout = v }) (prefix ++ codes "timeout")
        (pos (100 * millisecond)) (codes "The socket read/write timeout.")
    ∷ int_var X (λ v c. record c { max_idle_connections = v })
        (prefix ++ codes "max-idle-connections") (pos 16)
        (codes "The maximum number of idle connections that will be maintained per address.")
    ∷ int_var X (λ v c. record c { max_async_concurrency = v })
        (prefix ++ codes "max-async-concurrency") (pos 50)
        (codes "The maximum number of concurrent asynchronous operations can occur.")
    ∷ int_var X (λ v c. record c { max_async_buffer_size = v })
        (prefix ++ codes "max-async-buffer-size") (pos 10000)
        (codes "The maximum number of enqueued asynchronous operations allowed.")
    ∷ int_var X (λ v c. record c { max_get_multi_concurrency = v })
        (prefix ++ codes "max-get-multi-concurrency") (pos 100)
        (codes "The maximum number of concurrent connections running get operations. If set "
          ++ codes "to 0, concurrency is unlimited.")
    ∷ int_var X (λ v c. record c { max_get_multi_batch_size = v })
        (prefix ++ codes "max-get-multi-batch-size") (pos 0)
        (codes "The maximum number of keys a single underlying get operation should run. If "
          ++ codes "more keys are specified, internally keys are split into multiple batches and "
          ++ codes "fetched concurrently, honoring the max concurrency. If set to 0, the max "
          ++ codes "batch size is unlimited.")
    ∷ int_var X (λ v c. record c { max_item_size = v }) (prefix ++ codes "max-item-size")
        (pos (1024 * 1024))
        (codes "The maximum size of an item stored in memcached. Bigger items are not stored. "
          ++ codes "If set to 0, no maximum size is enforced.")
    ∷ bool_var (λ v c. record c { auto_discovery = v }) (prefix ++ codes "auto-discovery") false
        (codes "Use memcached auto-discovery mechanism provided by some cloud provider like "
          ++ codes "GCP and AWS")
    ∷ [])

abbrev pub index_cache_backend_default : Str
index_cache_backend_default = inmemory

-- The registration of `RedisClientConfig`, whose file is empty in the repository.
abbrev pub RedisFlags : CacheLibrary → Type 0
RedisFlags R = Str → Registering R.RedisClientConfig

-- `RegisterFlagsWithPrefix` of InMemoryIndexCacheConfig, whose one field is the size, with
-- `units.Gibibyte`
unfoldable pub register_inmemory : Texts → ℕ → Str → Registering ℕ
register_inmemory X gibibyte prefix = in_order (
    uint_var X (λ v c. v) (prefix ++ codes "max-size-bytes") (1 * gibibyte)
      (codes "Maximum size in bytes of in-memory index cache used to speed up blocks index "
        ++ codes "lookups (shared between all tenants).")
    ∷ [])

module _ (R : CacheLibrary) (F : RedisFlags R) (X : Texts) where
  -- `RegisterFlagsWithPrefix` of IndexCacheConfig
  unfoldable pub register_index_cache : ℕ → Str → Registering (IndexCacheConfig R)
  register_index_cache gibibyte prefix = in_order (
      string_var (λ v c. record c { backend = v }) (prefix ++ codes "backend")
        index_cache_backend_default
        (codes "The index cache backend type. Supported values: "
          ++ join_comma supported_index_cache_backends
          ++ codes ".")
      ∷ inside (λ c. c.max_size_bytes) (λ v c. record c { max_size_bytes = v })
          (register_inmemory X gibibyte (prefix ++ codes "inmemory."))
      ∷ inside (λ c. c.memcached) (λ v c. record c { memcached = v })
          (register_memcached X (prefix ++ codes "memcached."))
      ∷ inside (λ c. c.redis) (λ v c. record c { redis = v }) (F (prefix ++ codes "redis."))
      ∷ [])

  -- `RegisterFlags` of IndexCacheConfig
  abbrev pub register_index_cache_flags : ℕ → Registering (IndexCacheConfig R)
  register_index_cache_flags gibibyte =
      register_index_cache gibibyte (codes "blocks-storage.bucket-store.index-cache.")

  -- the backend of a cache, with its usage
  unfoldable pub register_cache_backend : Str → Str → Registering (CacheBackend R)
  register_cache_backend prefix usage = in_order (
      string_var (λ v c. record c { backend = v }) (prefix ++ codes "backend") [] usage
      ∷ inside (λ c. c.memcached) (λ v c. record c { memcached = v })
          (register_memcached X (prefix ++ codes "memcached."))
      ∷ inside (λ c. c.redis) (λ v c. record c { redis = v }) (F (prefix ++ codes "redis."))
      ∷ [])

  -- `RegisterFlagsWithPrefix` of ChunksCacheConfig
  unfoldable pub register_chunks_cache : Str → Registering (ChunksCacheConfig R)
  register_chunks_cache prefix = in_order (
      inside (λ c. c.cache_backend) (λ v c. record c { cache_backend = v })
        (register_cache_backend prefix (
          codes "Backend for chunks cache, if not empty. Supported values: "
          ++ memcached
          ++ codes "."))
      ∷ int_var X (λ v c. record c { subrange_size = v }) (prefix ++ codes "subrange-size")
          (pos 16000)
          (codes "Size of each subrange that bucket object is split into for better caching.")
      ∷ int_var X (λ v c. record c { max_get_range_requests = v })
          (prefix ++ codes "max-get-range-requests") (pos 3)
          (codes "Maximum number of sub-GetRange requests that a single GetRange request can be "
            ++ codes
                "split into when fetching chunks. Zero or negative value = unlimited number of "
            ++ codes "sub-requests.")
      ∷ duration_var X (λ v c. record c { attributes_ttl = v }) (prefix ++ codes "attributes-ttl")
          (pos (168 * hour)) (codes "TTL for caching object attributes for chunks.")
      ∷ duration_var X (λ v c. record c { subrange_ttl = v }) (prefix ++ codes "subrange-ttl")
          (pos (24 * hour)) (codes "TTL for caching individual chunks subranges.")
      ∷ [])

  -- `RegisterFlagsWithPrefix` of MetadataCacheConfig
  unfoldable pub register_metadata_cache : Str → Registering (MetadataCacheConfig R)
  register_metadata_cache prefix = in_order (
      inside (λ c. c.cache_backend) (λ v c. record c { cache_backend = v })
        (register_cache_backend prefix (
          codes "Backend for metadata cache, if not empty. Supported values: "
          ++ memcached
          ++ codes "."))
      ∷ duration_var X (λ v c. record c { tenants_list_ttl = v })
          (prefix ++ codes "tenants-list-ttl") (pos (15 * minute))
          (codes "How long to cache list of tenants in the bucket.")
      ∷ duration_var X (λ v c. record c { tenant_blocks_list_ttl = v })
          (prefix ++ codes "tenant-blocks-list-ttl") (pos (5 * minute))
          (codes "How long to cache list of blocks for each tenant.")
      ∷ duration_var X (λ v c. record c { chunks_list_ttl = v }) (prefix ++ codes "chunks-list-ttl")
          (pos (24 * hour)) (codes "How long to cache list of chunks for a block.")
      ∷ duration_var X (λ v c. record c { metafile_exists_ttl = v })
          (prefix ++ codes "metafile-exists-ttl") (pos (2 * hour))
          (codes "How long to cache information that block metafile exists. Also used for user "
            ++ codes "deletion mark file.")
      ∷ duration_var X (λ v c. record c { metafile_doesnt_exist_ttl = v })
          (prefix ++ codes "metafile-doesnt-exist-ttl") (pos (5 * minute))
          (codes "How long to cache information that block metafile doesn't exist. Also used "
            ++ codes "for user deletion mark file.")
      ∷ duration_var X (λ v c. record c { metafile_content_ttl = v })
          (prefix ++ codes "metafile-content-ttl") (pos (24 * hour))
          (codes "How long to cache content of the metafile.")
      ∷ int_var X (λ v c. record c { metafile_max_size = v })
          (prefix ++ codes "metafile-max-size-bytes") (pos (1 * 1024 * 1024))
          (codes "Maximum size of metafile content to cache in bytes. Caching will be skipped "
            ++ codes "if the content exceeds this size. This is useful to avoid network round trip "
            ++ codes "for large content if the configured caching backend has an hard limit on "
            ++ codes "cached items size (in this case, you should set this limit to the same limit "
            ++ codes "in the caching backend).")
      ∷ duration_var X (λ v c. record c { metafile_attributes_ttl = v })
          (prefix ++ codes "metafile-attributes-ttl") (pos (168 * hour))
          (codes "How long to cache attributes of the block metafile.")
      ∷ duration_var X (λ v c. record c { block_index_attributes_ttl = v })
          (prefix ++ codes "block-index-attributes-ttl") (pos (168 * hour))
          (codes "How long to cache attributes of the block index.")
      ∷ duration_var X (λ v c. record c { bucket_index_content_ttl = v })
          (prefix ++ codes "bucket-index-content-ttl") (pos (5 * minute))
          (codes "How long to cache content of the bucket index.")
      ∷ int_var X (λ v c. record c { bucket_index_max_size = v })
          (prefix ++ codes "bucket-index-max-size-bytes") (pos (1 * 1024 * 1024))
          (codes "Maximum size of bucket index content to cache in bytes. Caching will be "
            ++ codes "skipped if the content exceeds this size. This is useful to avoid network "
            ++ codes "round trip for large content if the configured caching backend has an hard "
            ++ codes "limit on cached items size (in this case, you should set this limit to the "
            ++ codes "same limit in the caching backend).")
      ∷ [])

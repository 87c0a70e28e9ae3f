-- ===== src/Tsdb/Config/BucketCaches.antt =====
-- pkg/storage/tsdb/caching_bucket.go: the options of the caches of chunks and of metadata.
use blockstorageingestor.Prelude.{ℤ, nat_eq, str_eq}
use blockstorageingestor.Errors.{Result}
use blockstorageingestor.Tsdb.Config.Caches.{CacheLibrary, CacheBackend, validate_cache_backend}

module _ (R : CacheLibrary) where
  -- The backend is embedded. Durations are in nanoseconds.
  pub record ChunksCacheConfig : Type 0 where
    pub cache_backend : CacheBackend R
    pub subrange_size : ℤ
    pub max_get_range_requests : ℤ
    pub attributes_ttl : ℤ
    pub subrange_ttl : ℤ

  unfoldable pub validate_chunks_cache : ChunksCacheConfig → Result (Unit {0})
  validate_chunks_cache cfg = validate_cache_backend R cfg.cache_backend

  pub record MetadataCacheConfig : Type 0 where
    pub cache_backend : CacheBackend R
    pub tenants_list_ttl : ℤ
    pub tenant_blocks_list_ttl : ℤ
    pub chunks_list_ttl : ℤ
    pub metafile_exists_ttl : ℤ
    pub metafile_doesnt_exist_ttl : ℤ
    pub metafile_content_ttl : ℤ
    pub metafile_max_size : ℤ
    pub metafile_attributes_ttl : ℤ
    pub block_index_attributes_ttl : ℤ
    pub bucket_index_content_ttl : ℤ
    pub bucket_index_max_size : ℤ

  unfoldable pub validate_metadata_cache : MetadataCacheConfig → Result (Unit {0})
  validate_metadata_cache cfg = validate_cache_backend R cfg.cache_backend

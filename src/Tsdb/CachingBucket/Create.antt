-- ===== src/Tsdb/CachingBucket/Create.antt =====
-- pkg/storage/tsdb/caching_bucket.go, `CreateCachingBucket`: what is cached, and for how long.
pub mod Laws
pub mod Outcomes
use blockstorageingestor.Prelude.{
  ℤ, pos, negsuc, at_most, above, ℕ, zero, suc, ◌+◌, ◌-◌, ◌*◌, ◌/◌, ◌%◌, ◌^◌, ◌≤◌, ◌<◌, ◌≡◌, refl,
  sym, ap, ◌∙◌, ◌≢◌, ◌↔◌, ◌⊎◌, inl, inr, Bool, true, false, not, ◌&&◌, ◌||◌, Option, none, some,
  List, [], ◌∷◌, ◌++◌, map, append-nil, append_assoc, arith, ltb, leb, nat_beq, nat_beq_iff,
  if◌then◌else◌, Comparable, ◌==◌, nat_eq, Bool-cases, Option-cases, length, get_elem?, take, drop,
  length-append, contains, All, All-append, Lacks, select, get_elem?-append, Str, codes, str_beq,
  str_beq_iff, str_eq, str_beq_refl, str_beq-append,
}
use blockstorageingestor.Errors.{Error, Result, ok, err, wrapped, ◌>>=◌}
use blockstorageingestor.Tsdb.Config.Caches.{CacheLibrary, CacheBackend}
use blockstorageingestor.Tsdb.Config.BucketCaches.{ChunksCacheConfig, MetadataCacheConfig}
use blockstorageingestor.Tsdb.CachingBucket.{CacheClients, create_cache}
use blockstorageingestor.Tsdb.CachingBucket.Names.{
  FileNames, is_tsdb_chunk_file, is_meta_file, is_block_index_file, is_bucket_index_file,
  is_tenants_dir, is_tenant_blocks_dir, is_chunks_dir,
}

-- The operations of a bucket that `cache.CachingBucketConfig` of Thanos caches.
pub data Operation : Type 0 where
  get_range exists get attributes iter : Operation

-- The limits of an entry: the arguments of `CacheGetRange`, `CacheExists`, `CacheGet`,
-- `CacheAttributes` and `CacheIter`, in their order.
pub data Limits : Type 0 where
  subranges : ℤ → ℤ → ℤ → ℤ → Limits
  existence : ℤ → ℤ → Limits
  content : ℤ → ℤ → ℤ → ℤ → Limits
  attribute : ℤ → Limits
  listing : ℤ → Limits

-- An entry of the configuration: a name, a cache, the test on the names that it is for.
pub record Entry (Cache : Type 0) : Type 0 where
  pub config_name : Str
  pub cache : Cache
  pub matcher : Str → Bool
  pub limits : Limits

abbrev pub operation : Limits → Operation
operation (subranges a b c d) = get_range
operation (existence a b) = exists
operation (content a b c d) = get
operation (attribute a) = attributes
operation (listing a) = iter

-- `cache.NewTracingCache`, and `storecache.NewCachingBucket` on buckets of a type `Client`
pub record CachingLibrary (Cache : Type 0) : Type 1 where
  pub Client : Type 0
  pub new_tracing_cache : Cache → Cache
  pub new_caching_bucket : Client → List (Entry Cache) → Result Client

module _ (N : FileNames) (R : CacheLibrary) {Cache : Type 0} where
  abbrev pub chunks_entries : ChunksCacheConfig R → Cache → List (Entry Cache)
  chunks_entries cfg cache =
      record {
        config_name = codes "chunks";
        cache = cache;
        matcher = is_tsdb_chunk_file;
        limits =
            subranges cfg.subrange_size cfg.attributes_ttl cfg.subrange_ttl
              cfg.max_get_range_requests;
      }
      ∷ []

  abbrev pub metadata_entries : MetadataCacheConfig R → Cache → List (Entry Cache)
  metadata_entries cfg cache =
      record {
        config_name = codes "metafile";
        cache = cache;
        matcher = is_meta_file N;
        limits = existence cfg.metafile_exists_ttl cfg.metafile_doesnt_exist_ttl;
      }
      ∷ record {
        config_name = codes "metafile";
        cache = cache;
        matcher = is_meta_file N;
        limits =
            content cfg.metafile_max_size cfg.metafile_content_ttl cfg.metafile_exists_ttl
              cfg.metafile_doesnt_exist_ttl;
      }
      ∷ record {
        config_name = codes "metafile";
        cache = cache;
        matcher = is_meta_file N;
        limits = attribute cfg.metafile_attributes_ttl;
      }
      ∷ record {
        config_name = codes "block-index";
        cache = cache;
        matcher = is_block_index_file N;
        limits = attribute cfg.block_index_attributes_ttl;
      }
      ∷ record {
        config_name = codes "bucket-index";
        cache = cache;
        matcher = is_bucket_index_file;
        limits = content cfg.bucket_index_max_size cfg.bucket_index_content_ttl (pos 0) (pos 0);
      }
      ∷ record {
        config_name = codes "tenants-iter";
        cache = cache;
        matcher = is_tenants_dir;
        limits = listing cfg.tenants_list_ttl;
      }
      ∷ record {
        config_name = codes "tenant-blocks-iter";
        cache = cache;
        matcher = is_tenant_blocks_dir;
        limits = listing cfg.tenant_blocks_list_ttl;
      }
      ∷ record {
        config_name = codes "chunks-iter";
        cache = cache;
        matcher = is_chunks_dir;
        limits = listing cfg.chunks_list_ttl;
      }
      ∷ []

module _ (N : FileNames) (R : CacheLibrary) (K : CacheClients R) (Q : CachingLibrary K.Cache) where
  -- what a cache that was made adds to the configuration
  abbrev pub entries_of : (K.Cache → List (Entry K.Cache)) → Option K.Cache → List (Entry K.Cache)
  entries_of entries none = []
  entries_of entries (some cache) = entries (Q.new_tracing_cache cache)

  -- `cachingConfigured` is set where a cache was made.
  abbrev pub with_caches :
      Q.Client → Option K.Cache → Option K.Cache → List (Entry K.Cache) → Result Q.Client
  with_caches bkt none none cfg = ok bkt
  with_caches bkt _ _ cfg = Q.new_caching_bucket bkt cfg

  unfoldable pub create_caching_bucket :
      ChunksCacheConfig R → MetadataCacheConfig R → Q.Client → Result Q.Client
  create_caching_bucket chunks metadata bkt = do
    chunks_cache ←
        wrapped (create_cache R K (codes "chunks-cache") chunks.cache_backend)
          (codes "chunks-cache")
    metadata_cache ←
        wrapped (create_cache R K (codes "metadata-cache") metadata.cache_backend)
          (codes "metadata-cache")
    with_caches bkt chunks_cache metadata_cache (
        entries_of (chunks_entries N R chunks) chunks_cache
        ++ entries_of (metadata_entries N R metadata) metadata_cache)

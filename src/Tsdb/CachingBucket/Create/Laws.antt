-- ===== src/Tsdb/CachingBucket/Create/Laws.antt =====
-- What the caching bucket caches.
use blockstorageingestor.Prelude.{
  ◌≤◌, Bool, true, false, ◌&&◌, List, ◌++◌, arith, nat_eq, length, select, Str, str_eq,
}
use blockstorageingestor.Tsdb.Config.Caches.{CacheLibrary}
use blockstorageingestor.Tsdb.Config.BucketCaches.{ChunksCacheConfig, MetadataCacheConfig}
use blockstorageingestor.Tsdb.CachingBucket.Create.{
  Operation, get_range, exists, get, attributes, iter, Entry, operation, chunks_entries,
  metadata_entries,
}
use blockstorageingestor.Tsdb.CachingBucket.Names.{FileNames}
use blockstorageingestor.Tsdb.CachingBucket.Names.Apart.{
  IsFileNames, meta-index-apart, meta-bucket_index-apart, tenants-blocks-apart,
  tenants-chunks-apart, blocks-chunks-apart,
}

abbrev pub op_beq : Operation → Operation → Bool
op_beq get_range get_range = true
op_beq exists exists = true
op_beq get get = true
op_beq attributes attributes = true
op_beq iter iter = true
op_beq _ _ = false

-- The entries by which the operation on that name is cached.
abbrev pub cached_by : {Cache : Type 0} → List (Entry Cache) → Operation → Str → List (Entry Cache)
cached_by cfg op name = select (λ e. op_beq (operation e.limits) op && e.matcher name) cfg

module _ (N : FileNames) (W : IsFileNames N) (R : CacheLibrary) {Cache : Type 0} where
  -- For lawful file names: each operation on each name is cached by at most one entry of
  -- both caches together, so that the order in which the entries are searched does not matter.
  pub cached_once :
      (chunks : ChunksCacheConfig R) (metadata : MetadataCacheConfig R) (c m : Cache)
      (op : Operation) (name : Str)
      → length (cached_by (chunks_entries N R chunks c ++ metadata_entries N R metadata m) op name)
        ≤ 1
  cached_once chunks metadata c m get_range name = ground arith
  cached_once chunks metadata c m exists name = ground arith
  cached_once chunks metadata c m get name = ground (arith, meta-bucket_index-apart N W name)
  cached_once chunks metadata c m attributes name = ground (arith, meta-index-apart N W name)
  cached_once chunks metadata c m iter name = ground (
    arith,
    tenants-blocks-apart N W name,
    tenants-chunks-apart N W name,
    blocks-chunks-apart N W name,
  )

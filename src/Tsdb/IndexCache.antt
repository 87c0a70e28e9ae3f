-- ===== src/Tsdb/IndexCache.antt =====
-- pkg/storage/tsdb/index_cache.go: the constructors of the index cache; util.go: the hash of a block.
pub mod Laws
use blockstorageingestor.Prelude.{
  ℤ, pos, negsuc, at_most, above, ℕ, zero, suc, ◌+◌, ◌-◌, ◌*◌, ◌/◌, ◌%◌, ◌^◌, ◌≤◌, ◌<◌, ◌≡◌, refl,
  sym, ap, ◌∙◌, ◌≢◌, ◌↔◌, ◌⊎◌, inl, inr, Bool, true, false, not, ◌&&◌, ◌||◌, Option, none, some,
  List, [], ◌∷◌, ◌++◌, map, append-nil, append_assoc, arith, ltb, leb, nat_beq, nat_beq_iff,
  if◌then◌else◌, Comparable, ◌==◌, nat_eq, Bool-cases, Option-cases, length, get_elem?, take, drop,
  length-append, contains, All, All-append, Lacks, select, get_elem?-append, Str, codes, str_beq,
  str_beq_iff, str_eq, str_beq_refl, str_beq-append,
}
use blockstorageingestor.Errors.{Result, wrapped, ◌>>=◌}
use blockstorageingestor.Tsdb.Config.Caches.{
  CacheLibrary, MemcachedClientConfig, IndexCacheConfig, new_index_cache,
}
use blockstorageingestor.Tsdb.CachingBucket.{ThanosMemcachedConfig, to_memcached_client_config}

-- `storecache.InMemoryIndexCacheConfig` of Thanos
pub record InMemoryConfig : Type 0 where
  pub max_size : ℕ
  pub max_item_size : ℕ

-- The constructors of Thanos: clients by the name of a cache, and index caches over them. `mib` is
-- `units.MiB`.
pub record IndexCaches (R : CacheLibrary) : Type 1 where
  pub Cache : Type 0
  pub MemcachedClient : Type 0
  pub RedisClient : Type 0
  pub mib : ℕ
  pub new_inmemory : InMemoryConfig → Result Cache
  pub new_memcached_client : Str → ThanosMemcachedConfig → Result MemcachedClient
  pub new_memcached : MemcachedClient → Result Cache
  pub new_redis_client : Str → R.RedisClientConfig → Result RedisClient
  pub new_remote : RedisClient → Result Cache

module _ (R : CacheLibrary) (K : IndexCaches R) where
  abbrev pub default_max_item_size : ℕ
  default_max_item_size = 128 * K.mib

  unfoldable pub inmemory_config : ℕ → InMemoryConfig
  inmemory_config max_cache_size = record {
    max_size = max_cache_size;
    max_item_size =
        if ltb max_cache_size default_max_item_size then max_cache_size else default_max_item_size;
  }

  unfoldable pub new_inmemory_index_cache : ℕ → Result K.Cache
  new_inmemory_index_cache max_size_bytes = K.new_inmemory (inmemory_config max_size_bytes)

  unfoldable pub new_memcached_index_cache : MemcachedClientConfig → Result K.Cache
  new_memcached_index_cache cfg = do
    client ←
        wrapped (K.new_memcached_client (codes "index-cache") (to_memcached_client_config cfg))
          (codes "create index cache memcached client")
    K.new_memcached client

  unfoldable pub new_redis_index_cache : R.RedisClientConfig → Result K.Cache
  new_redis_index_cache cfg = do
    client ←
        wrapped (K.new_redis_client (codes "index-cache") cfg)
          (codes "create index cache redis client")
    K.new_remote client

  -- `NewIndexCache` with its constructors
  unfoldable pub make_index_cache : IndexCacheConfig R → Result K.Cache
  make_index_cache =
      new_index_cache R new_inmemory_index_cache new_memcached_index_cache new_redis_index_cache

-- `HashBlockID`: `client.HashNew32` and `client.HashAddByte32` of Cortex over the bytes of an
-- identifier
module _ {Hash : Type 0} (hash_add_byte_32 : Hash → ℕ → Hash) where
  hash_bytes : Hash → List ℕ → Hash
  hash_bytes h [] = h
  hash_bytes h (b ∷ bytes) = hash_bytes (hash_add_byte_32 h b) bytes

  unfoldable pub hash_block_id : Hash → List ℕ → Hash
  unfolding hash_bytes
  hash_block_id hash_new_32 id = hash_bytes hash_new_32 id

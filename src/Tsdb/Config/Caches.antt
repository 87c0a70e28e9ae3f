-- ===== src/Tsdb/Config/Caches.antt =====
-- pkg/storage/tsdb/memcache_client_config.go, index_cache.go and caching_bucket.go: the options of the
-- caches, their validation, and the choice of a cache by them.
use blockstorageingestor.Prelude.{
  ℤ, ℕ, Bool, not, List, [], ◌∷◌, ◌++◌, if◌then◌else◌, ◌==◌, nat_eq, Str, codes, str_eq,
}
use blockstorageingestor.Errors.{
  Result, ok, err, sentinel, errorf, unsupported_index_cache_backend, no_index_cache_addresses,
}
use blockstorageingestor.Go.Strings.{split}

pub record MemcachedClientConfig : Type 0 where
  pub addresses : Str
  pub timeout : ℤ
  pub max_idle_connections : ℤ
  pub max_async_concurrency : ℤ
  pub max_async_buffer_size : ℤ
  pub max_get_multi_concurrency : ℤ
  pub max_get_multi_batch_size : ℤ
  pub max_item_size : ℤ
  pub auto_discovery : Bool

unfoldable pub get_addresses : MemcachedClientConfig → List Str
get_addresses cfg = if cfg.addresses == [] then [] else split cfg.addresses b','

-- the test on their number
no_addresses : List Str → Result (Unit {0})
no_addresses [] = err (sentinel no_index_cache_addresses)
no_addresses (a ∷ as') = ok tt

unfoldable pub validate_memcached : MemcachedClientConfig → Result (Unit {0})
unfolding no_addresses
validate_memcached cfg = no_addresses (get_addresses cfg)

-- `util.StringsContain` of Cortex, and `RedisClientConfig`, whose file is empty in the repository, with
-- its `Validate`.
pub record CacheLibrary : Type 1 where
  pub strings_contain : List Str → Str → Bool
  pub RedisClientConfig : Type 0
  pub validate_redis : RedisClientConfig → Result (Unit {0})

abbrev pub inmemory : Str
inmemory = codes "inmemory"

abbrev pub memcached : Str
memcached = codes "memcached"

abbrev pub redis : Str
redis = codes "redis"

abbrev pub supported_index_cache_backends : List Str
supported_index_cache_backends = inmemory ∷ memcached ∷ redis ∷ []

module _ (R : CacheLibrary) where
  pub record IndexCacheConfig : Type 0 where
    pub backend : Str
    pub max_size_bytes : ℕ
    pub memcached : MemcachedClientConfig
    pub redis : R.RedisClientConfig

  unfoldable pub validate_index_cache : IndexCacheConfig → Result (Unit {0})
  validate_index_cache cfg =
      if not (R.strings_contain supported_index_cache_backends cfg.backend)
      then err (sentinel unsupported_index_cache_backend)
      else if cfg.backend == memcached
      then validate_memcached cfg.memcached
      else if cfg.backend == redis
      then R.validate_redis cfg.redis
      else ok tt

  pub record CacheBackend : Type 0 where
    pub backend : Str
    pub memcached : MemcachedClientConfig
    pub redis : R.RedisClientConfig

  unfoldable pub validate_cache_backend : CacheBackend → Result (Unit {0})
  validate_cache_backend cfg =
      if cfg.backend == memcached
      then validate_memcached cfg.memcached
      else if cfg.backend == redis
      then R.validate_redis cfg.redis
      else if cfg.backend == []
      then ok tt
      else err (errorf (codes "unsupported cache backend: " ++ cfg.backend))

  -- `NewIndexCache`, with the three constructors of caches that it chooses from
  unfoldable pub new_index_cache :
      {Cache : Type 0}
      → (ℕ → Result Cache)
      → (MemcachedClientConfig → Result Cache)
      → (R.RedisClientConfig → Result Cache)
      → IndexCacheConfig
      → Result Cache
  new_index_cache new_inmemory new_memcached new_redis cfg =
      if cfg.backend == inmemory
      then new_inmemory cfg.max_size_bytes
      else if cfg.backend == memcached
      then new_memcached cfg.memcached
      else if cfg.backend == redis
      then new_redis cfg.redis
      else err (sentinel unsupported_index_cache_backend)

-- ===== src/Tsdb/CachingBucket.antt =====
-- pkg/storage/tsdb/caching_bucket.go, `createCache` and `snappyIterCodec`: the caches of the caching
-- bucket, and how they keep listings; `ToMemcachedClientConfig` of memcache_client_config.go.
pub mod Laws
pub mod Names
pub mod Create
use blockstorageingestor.Prelude.{
  ℤ, pos, negsuc, at_most, above, ℕ, zero, suc, ◌+◌, ◌-◌, ◌*◌, ◌/◌, ◌%◌, ◌^◌, ◌≤◌, ◌<◌, ◌≡◌, refl,
  sym, ap, ◌∙◌, ◌≢◌, ◌↔◌, ◌⊎◌, inl, inr, Bool, true, false, not, ◌&&◌, ◌||◌, Option, none, some,
  List, [], ◌∷◌, ◌++◌, map, append-nil, append_assoc, arith, ltb, leb, nat_beq, nat_beq_iff,
  if◌then◌else◌, Comparable, ◌==◌, nat_eq, Bool-cases, Option-cases, length, get_elem?, take, drop,
  length-append, contains, All, All-append, Lacks, select, get_elem?-append, Str, codes, str_beq,
  str_beq_iff, str_eq, str_beq_refl, str_beq-append,
}
use blockstorageingestor.Errors.{Error, Result, ok, err, errorf, wrapped, ◌>>=◌}
use blockstorageingestor.Tsdb.Config.Caches.{
  CacheLibrary, MemcachedClientConfig, CacheBackend, get_addresses, memcached, redis,
}

-- `cacheutil.MemcachedClientConfig` of Thanos, as far as it is filled
pub record ThanosMemcachedConfig : Type 0 where
  pub addresses : List Str
  pub timeout : ℤ
  pub max_idle_connections : ℤ
  pub max_async_concurrency : ℤ
  pub max_async_buffer_size : ℤ
  pub max_get_multi_concurrency : ℤ
  pub max_get_multi_batch_size : ℤ
  pub max_item_size : ℤ
  pub dns_provider_update_interval : ℤ
  pub auto_discovery : Bool

unfoldable pub to_memcached_client_config : MemcachedClientConfig → ThanosMemcachedConfig
to_memcached_client_config cfg = record {
  addresses = get_addresses cfg;
  timeout = cfg.timeout;
  max_idle_connections = cfg.max_idle_connections;
  max_async_concurrency = cfg.max_async_concurrency;
  max_async_buffer_size = cfg.max_async_buffer_size;
  max_get_multi_concurrency = cfg.max_get_multi_concurrency;
  max_get_multi_batch_size = cfg.max_get_multi_batch_size;
  max_item_size = cfg.max_item_size;
  dns_provider_update_interval = pos (30 * 1000000000);
  auto_discovery = cfg.auto_discovery;
}

-- The clients of Thanos with the caches over them, by the name of a cache.
pub record CacheClients (R : CacheLibrary) : Type 1 where
  pub Cache : Type 0
  pub new_memcached : Str → ThanosMemcachedConfig → Result Cache
  pub new_redis : Str → R.RedisClientConfig → Result Cache

abbrev pub made {ℓ} : {A : Type ℓ} → Result A → Result (Option A)
made (ok cache) = ok (some cache)
made (err e) = err e

module _ (R : CacheLibrary) (K : CacheClients R) where
  -- `createCache`, with `none` for the nil cache
  unfoldable pub create_cache : Str → CacheBackend R → Result (Option K.Cache)
  create_cache name cfg =
      if cfg.backend == []
      then ok none
      else if cfg.backend == memcached
      then made (
          wrapped (K.new_memcached name (to_memcached_client_config cfg.memcached))
            (codes "failed to create memcached client"))
      else if cfg.backend == redis
      then made (wrapped (K.new_redis name cfg.redis) (codes "failed to create redis client"))
      else err
          (errorf (codes "unsupported cache type for cache " ++ name ++ codes ": " ++ cfg.backend))

-- `cache.IterCodec` of Thanos, and the package `snappy`
pub record IterCodec : Type 0 where
  pub encode_names : List Str → Result Str
  pub decode_names : Str → Result (List Str)

pub record Snappy : Type 0 where
  pub encode : Str → Str
  pub decode : Str → Result Str

module _ (C : IterCodec) (Z : Snappy) where
  unfoldable pub encode_listing : List Str → Result Str
  encode_listing files = C.encode_names files >>= λ b. ok (Z.encode b)

  unfoldable pub decode_listing : Str → Result (List Str)
  decode_listing cached = wrapped (Z.decode cached) (codes "snappyIterCodec") >>= C.decode_names

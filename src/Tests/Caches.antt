-- ===== src/Tests/Caches.antt =====
-- Caches that are named by how they were made.
use blockstorageingestor.Prelude.{
  pos, ◌≡◌, refl, false, [], nat_eq, contains, Str, codes, str_beq, str_eq,
}
use blockstorageingestor.Errors.{ok}
use blockstorageingestor.Tsdb.Config.Caches.{CacheLibrary, CacheBackend, validate_cache_backend}
use blockstorageingestor.Tsdb.CachingBucket.{CacheClients}

abbrev pub cache_library : CacheLibrary
cache_library = record {
  strings_contain = contains;
  RedisClientConfig = Str;
  validate_redis = λ r. ok tt;
}

abbrev pub cache_clients : CacheClients cache_library
cache_clients = record { Cache = Str; new_memcached = λ n c. ok n; new_redis = λ n c. ok c }

abbrev pub redis_backend : CacheBackend cache_library
redis_backend = record {
  backend = codes "redis";
  memcached = record {
    addresses = [];
    timeout = pos 100;
    max_idle_connections = pos 16;
    max_async_concurrency = pos 50;
    max_async_buffer_size = pos 10000;
    max_get_multi_concurrency = pos 100;
    max_get_multi_batch_size = pos 0;
    max_item_size = pos 1048576;
    auto_discovery = false;
  };
  redis = codes "r:6379";
}

redis_backend_valid : validate_cache_backend cache_library redis_backend ≡ ok tt
unfolding validate_cache_backend str_beq
redis_backend_valid = refl

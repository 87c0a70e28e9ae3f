-- ===== src/Tsdb/IndexCache/Laws.antt =====
-- The index cache that validated options give.
use blockstorageingestor.Prelude.{
  ℕ, ◌≤◌, ◌≡◌, refl, ◌≢◌, ◌⊎◌, inl, inr, List, [], arith, ltb, nat_eq, Bool-cases, contains, Str,
  str_eq,
}
use blockstorageingestor.Errors.{ok}
use blockstorageingestor.Tsdb.Config.Caches.{
  CacheLibrary, IndexCacheConfig, validate_index_cache, inmemory, memcached, redis,
}
use blockstorageingestor.Tsdb.Config.Laws.{new_index_cache_lem}
use blockstorageingestor.Tsdb.IndexCache.{
  IndexCaches, InMemoryConfig, inmemory_config, default_max_item_size, new_inmemory_index_cache,
  new_memcached_index_cache, new_redis_index_cache, make_index_cache,
}

module _ (R : CacheLibrary) (K : IndexCaches R)
    (mem : (l : List Str) (s : Str) → R.strings_contain l s ≡ contains l s) where
  -- the limits of an index cache in memory
  abbrev pub Fits : ℕ → InMemoryConfig → Type 0
  Fits size c =
      (c.max_size ≡ size)
      × (c.max_item_size ≤ size)
      × (c.max_item_size ≤ default_max_item_size R K)
      × ((c.max_item_size ≡ size) ⊎ (c.max_item_size ≡ default_max_item_size R K))

  fits : (size : ℕ) → Fits size (inmemory_config R K size)
  unfolding inmemory_config
  fits size = elim (Bool-cases (ltb size (default_max_item_size R K))) [
    | inl e ↦ rw e (refl, omega arith, ground (arith, e), inl refl)
    | inr e ↦ rw e (refl, ground (arith, e), omega arith, inr refl)
  ]

  -- With `util.StringsContain` a test of membership, validated options give the cache in memory
  -- with a limit for items that is the smaller of the default and of the cache's size, or one over a
  -- client that is made from the options of the backend named.
  pub make_index_cache_lem :
      (cfg : IndexCacheConfig R)
      → validate_index_cache R cfg ≡ ok tt
      → ((cfg.backend ≡ inmemory)
          × ((c : InMemoryConfig) × Fits cfg.max_size_bytes c
              × (make_index_cache R K cfg ≡ K.new_inmemory c)))
        ⊎ ((cfg.backend ≡ memcached)
            × (cfg.memcached.addresses ≢ [])
            × (make_index_cache R K cfg ≡ new_memcached_index_cache R K cfg.memcached))
        ⊎ ((cfg.backend ≡ redis)
            × (R.validate_redis cfg.redis ≡ ok tt)
            × (make_index_cache R K cfg ≡ new_redis_index_cache R K cfg.redis))
  unfolding make_index_cache new_inmemory_index_cache
  make_index_cache_lem cfg v =
      elim (new_index_cache_lem R mem (new_inmemory_index_cache R K) (new_memcached_index_cache R K)
        (new_redis_index_cache R K) cfg v) [
          | inl (e, f) ↦
              inl (e, (inmemory_config R K cfg.max_size_bytes, fits cfg.max_size_bytes, f))
          | inr (inl (e, f, g)) ↦ inr (inl (e, g, f))
          | inr (inr (e, f, g)) ↦ inr (inr (e, g, f))
        ]

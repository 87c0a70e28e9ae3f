-- ===== src/Tsdb/CachingBucket/Laws.antt =====
-- Validated options give a cache or none; listings are read back from a cache.
use blockstorageingestor.Prelude.{
  ◌≡◌, refl, ◌⊎◌, inl, inr, none, List, [], ◌==◌, nat_eq, Bool-cases, Str, codes, str_beq,
  str_beq_iff, str_eq,
}
use blockstorageingestor.Errors.{ok, err, wrapped, Result-cases}
use blockstorageingestor.Tsdb.Config.Caches.{
  CacheLibrary, CacheBackend, validate_cache_backend, memcached, redis,
}
use blockstorageingestor.Tsdb.CachingBucket.{
  CacheClients, made, create_cache, to_memcached_client_config, IterCodec, Snappy, encode_listing,
  decode_listing,
}

module _ (R : CacheLibrary) (K : CacheClients R) where
  known_cache :
      (cfg : CacheBackend R)
      → validate_cache_backend R cfg ≡ ok tt
      → (cfg.backend ≡ []) ⊎ (cfg.backend ≡ memcached) ⊎ (cfg.backend ≡ redis)
  unfolding validate_cache_backend
  known_cache cfg v = elim (Bool-cases (cfg.backend == [])) [
    | inl h ↦ inl ((str_beq_iff _ _).0 h)
    | inr h ↦ elim (Bool-cases (cfg.backend == memcached)) [
      | inl k ↦ inr (inl ((str_beq_iff _ _).0 k))
      | inr k ↦ elim (Bool-cases (cfg.backend == redis)) [
        | inl m ↦ inr (inr ((str_beq_iff _ _).0 m))
        | inr m ↦ let bad = rw (h, k, m) at v in let no : ⊥ = cc in elim no [ ]
      ]
    ]
  ]

  -- Where the options of a cache pass their validation, `createCache` makes none if no backend is
  -- named, and else the cache of the backend named, whose constructor's error is the only one.
  pub create_cache_lem :
      (name : Str) (cfg : CacheBackend R)
      → validate_cache_backend R cfg ≡ ok tt
      → ((cfg.backend ≡ []) × (create_cache R K name cfg ≡ ok none))
        ⊎ ((cfg.backend ≡ memcached)
            × (create_cache R K name cfg
                ≡ made (
                    wrapped
                      (K.new_memcached name (to_memcached_client_config cfg.memcached))
                      (codes "failed to create memcached client"))))
        ⊎ ((cfg.backend ≡ redis)
            × (create_cache R K name cfg
                ≡ made
                    (wrapped (K.new_redis name cfg.redis) (codes "failed to create redis client"))))
  unfolding create_cache str_beq
  create_cache_lem name cfg v = elim (known_cache cfg v) [
    | inl e ↦ inl (e, rw e refl)
    | inr (inl e) ↦ inr (inl (e, rw e refl))
    | inr (inr e) ↦ inr (inr (e, rw e refl))
  ]

-- With a codec that reads back the listing that it writes, and a compression that gives the text
-- back: a listing that is encoded for the cache is decoded to itself.
decode_listing-encode_listing :
    (C : IterCodec) (Z : Snappy) (files : List Str) (cached : Str)
    → ((names : List Str) (b : Str) → C.encode_names names ≡ ok b → C.decode_names b ≡ ok names)
    → ((b : Str) → Z.decode (Z.encode b) ≡ ok b)
    → encode_listing C Z files ≡ ok cached
    → decode_listing C Z cached ≡ ok files
unfolding encode_listing decode_listing
decode_listing-encode_listing C Z files cached codec snappy e =
    elim (Result-cases (C.encode_names files)) [
      | inl (b, p) ↦
          let q : ok (Z.encode b) ≡ ok cached = rw p at e in
          let d : Z.encode b ≡ cached = cc in rw (← d, snappy b) (codec files b p)
      | inr (x, p) ↦ let q : err x ≡ ok cached = rw p at e in let no : ⊥ = cc in elim no [ ]
    ]

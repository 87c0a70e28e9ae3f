-- ===== src/Tsdb/CachingBucket/Create/Outcomes.antt =====
-- What `CreateCachingBucket` gives for each choice of the backends.
use blockstorageingestor.Prelude.{
  ◌≤◌, ◌≡◌, refl, ◌⊎◌, inl, inr, Bool, true, false, not, ◌&&◌, Option, none, some, List, [], ◌++◌,
  arith, if◌then◌else◌, ◌==◌, nat_eq, Bool-cases, length, Str, codes, str_eq,
}
use blockstorageingestor.Errors.{Error, Result, ok, err, errorf, wrap}
use blockstorageingestor.Tsdb.Config.Caches.{CacheLibrary, CacheBackend, memcached, redis}
use blockstorageingestor.Tsdb.Config.BucketCaches.{ChunksCacheConfig, MetadataCacheConfig}
use blockstorageingestor.Tsdb.CachingBucket.{CacheClients, made, create_cache}
use blockstorageingestor.Tsdb.CachingBucket.Names.{FileNames, is_tsdb_chunk_file}
use blockstorageingestor.Tsdb.CachingBucket.Names.Apart.{IsFileNames}
use blockstorageingestor.Tsdb.CachingBucket.Create.{
  Operation, get_range, exists, get, attributes, iter, Entry, CachingLibrary, create_caching_bucket,
  chunks_entries, metadata_entries,
}
use blockstorageingestor.Tsdb.CachingBucket.Create.Laws.{op_beq, cached_by, cached_once}

made-cases :
    {A : Type 0} (r : Result A)
    → ((a : A) × (made r ≡ ok (some a))) ⊎ ((e : Error) × (made r ≡ err e))
made-cases (ok a) = inl (a, refl)
made-cases (err e) = inr (e, refl)

module _ (N : FileNames) (W : IsFileNames N) (R : CacheLibrary) (K : CacheClients R)
    (Q : CachingLibrary K.Cache) (chunks : ChunksCacheConfig R)
    (metadata : MetadataCacheConfig R) where
  create_cache-cases :
      (name : Str) (cfg : CacheBackend R)
      → (((cfg.backend == []) ≡ true) × (create_cache R K name cfg ≡ ok none))
        ⊎ (((cfg.backend == []) ≡ false)
            × (((cache : K.Cache) × (create_cache R K name cfg ≡ ok (some cache)))
                ⊎ ((e : Error) × (create_cache R K name cfg ≡ err e))))
  unfolding create_cache
  create_cache-cases name cfg = elim (Bool-cases (cfg.backend == [])) [
    | inl h ↦ inl (h, rw h refl)
    | inr h ↦ elim (Bool-cases (cfg.backend == memcached)) [
      | inl k ↦ inr (h, rw (h, k) (made-cases _))
      | inr k ↦ elim (Bool-cases (cfg.backend == redis)) [
        | inl m ↦ inr (h, rw (h, k, m) (made-cases _))
        | inr m ↦ inr (
          h,
          inr (
            errorf (codes "unsupported cache type for cache " ++ name ++ codes ": " ++ cfg.backend),
            rw (h, k, m) refl,
          ),
        )
      ]
    ]
  ]

  -- Ranges are cached of the chunks' files if the first cache is there, other operations only if
  -- the second one is, and each operation on each name by at most one entry.
  abbrev pub IsFor : Bool → Bool → List (Entry K.Cache) → Type 0
  IsFor with_chunks with_metadata entries =
      ((name : Str)
        → length (cached_by entries get_range name)
          ≡ (if with_chunks && is_tsdb_chunk_file name then 1 else 0))
      × ((op : Operation) (name : Str)
          → op_beq op get_range ≡ false
          → with_metadata ≡ false
          → cached_by entries op name ≡ [])
      × ((op : Operation) (name : Str) → length (cached_by entries op name) ≤ 1)

  metadata_once :
      (m : K.Cache) (op : Operation) (name : Str)
      → length (cached_by (metadata_entries N R metadata m) op name) ≤ 1
  metadata_once m get_range name = ground arith
  metadata_once m exists name = cached_once N W R chunks metadata m m exists name
  metadata_once m get name = cached_once N W R chunks metadata m m get name
  metadata_once m attributes name = cached_once N W R chunks metadata m m attributes name
  metadata_once m iter name = cached_once N W R chunks metadata m m iter name

  both-IsFor :
      (c m : K.Cache)
      → IsFor true true (chunks_entries N R chunks c ++ metadata_entries N R metadata m)
  both-IsFor c m = (λ name. ground arith, λ op name o f. cc, cached_once N W R chunks metadata c m)

  metadata-IsFor : (m : K.Cache) → IsFor false true (metadata_entries N R metadata m)
  metadata-IsFor m = (λ name. refl, λ op name o f. cc, metadata_once m)

  chunks-lacks :
      (c : K.Cache) (op : Operation) (name : Str)
      → op_beq op get_range ≡ false
      → cached_by (chunks_entries N R chunks c ++ []) op name ≡ []
  chunks-lacks c get_range name o = cc
  chunks-lacks c exists name o = refl
  chunks-lacks c get name o = refl
  chunks-lacks c attributes name o = refl
  chunks-lacks c iter name o = refl

  chunks_once :
      (c : K.Cache) (op : Operation) (name : Str)
      → length (cached_by (chunks_entries N R chunks c ++ []) op name) ≤ 1
  chunks_once c get_range name = ground arith
  chunks_once c exists name = ground arith
  chunks_once c get name = ground arith
  chunks_once c attributes name = ground arith
  chunks_once c iter name = ground arith

  chunks-IsFor : (c : K.Cache) → IsFor true false (chunks_entries N R chunks c ++ [])
  chunks-IsFor c = (λ name. ground arith, λ op name o f. chunks-lacks c op name o, chunks_once c)

  -- For lawful file names: without a backend for either cache the bucket is returned as it is; else
  -- the error of the first cache that cannot be made, under that cache's name, or a caching bucket
  -- over the bucket whose entries cache ranges of exactly the chunks' files if the cache of chunks
  -- has a backend, nothing else without a backend for metadata, and each operation on each name by
  -- at most one entry.
  pub create_caching_bucket_lem :
      (bkt : Q.Client)
      → let no_chunks = chunks.cache_backend.backend == [] in
        let no_metadata = metadata.cache_backend.backend == [] in
        let got = create_caching_bucket N R K Q chunks metadata bkt in
        let chunks_cache = create_cache R K (codes "chunks-cache") chunks.cache_backend in
        let metadata_cache = create_cache R K (codes "metadata-cache") metadata.cache_backend in
        (((no_chunks && no_metadata) ≡ true) × (got ≡ ok bkt))
        ⊎ ((e : Error) × (chunks_cache ≡ err e) × (got ≡ err (wrap e (codes "chunks-cache"))))
        ⊎ ((e : Error) × ((c : Option K.Cache) × (chunks_cache ≡ ok c))
            × (metadata_cache ≡ err e)
            × (got ≡ err (wrap e (codes "metadata-cache"))))
        ⊎ (((no_chunks && no_metadata) ≡ false)
            × ((entries : List (Entry K.Cache)) × (got ≡ Q.new_caching_bucket bkt entries)
                × IsFor (not no_chunks) (not no_metadata) entries))
  unfolding create_caching_bucket
  create_caching_bucket_lem bkt =
      elim (create_cache-cases (codes "chunks-cache") chunks.cache_backend) [
        | inr (h, inr (e, p)) ↦ inr (inl (e, p, rw p refl))
        | inl (h, p) ↦ elim (create_cache-cases (codes "metadata-cache") metadata.cache_backend) [
          | inl (k, q) ↦ inl (rw (h, k) refl, rw (p, q) refl)
          | inr (k, inr (e, q)) ↦ inr (inr (inl (e, (_, p), q, rw (p, q) refl)))
          | inr (k, inl (m, q)) ↦ inr (
              inr (
                inr (
                  rw (h, k) refl,
                  (
                    metadata_entries N R metadata (Q.new_tracing_cache m),
                    rw (p, q) refl,
                    rw (h, k) (metadata-IsFor (Q.new_tracing_cache m)),
                  ),
                )))
        ]
        | inr (h, inl (c, p)) ↦
            elim (create_cache-cases (codes "metadata-cache") metadata.cache_backend) [
              | inl (k, q) ↦ inr (
                  inr (
                    inr (
                      rw h refl,
                      (
                        chunks_entries N R chunks (Q.new_tracing_cache c) ++ [],
                        rw (p, q) refl,
                        rw (h, k) (chunks-IsFor (Q.new_tracing_cache c)),
                      ),
                    )))
              | inr (k, inr (e, q)) ↦ inr (inr (inl (e, (_, p), q, rw (p, q) refl)))
              | inr (k, inl (m, q)) ↦ inr (
                  inr (
                    inr (
                      rw h refl,
                      (
                        chunks_entries N R chunks (Q.new_tracing_cache c)
                            ++ metadata_entries N R metadata (Q.new_tracing_cache m),
                        rw (p, q) refl,
                        rw (h, k) (both-IsFor (Q.new_tracing_cache c) (Q.new_tracing_cache m)),
                      ),
                    )))
            ]
      ]

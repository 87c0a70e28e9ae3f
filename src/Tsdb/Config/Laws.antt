-- ===== src/Tsdb/Config/Laws.antt =====
-- What a validated configuration satisfies.
use blockstorageingestor.Prelude.{
  ℤ, pos, negsuc, at_most, above, ℕ, zero, suc, ◌+◌, ◌-◌, ◌*◌, ◌/◌, ◌%◌, ◌^◌, ◌≤◌, ◌<◌, ◌≡◌, refl,
  sym, ap, ◌∙◌, ◌≢◌, ◌↔◌, ◌⊎◌, inl, inr, Bool, true, false, not, ◌&&◌, ◌||◌, Option, none, some,
  List, [], ◌∷◌, ◌++◌, map, append-nil, append_assoc, arith, ltb, leb, nat_beq, nat_beq_iff,
  if◌then◌else◌, Comparable, ◌==◌, nat_eq, Bool-cases, Option-cases, length, get_elem?, take, drop,
  length-append, contains, All, All-append, Lacks, select, get_elem?-append, Str, codes, str_beq,
  str_beq_iff, str_eq, str_beq_refl, str_beq-append,
}
use blockstorageingestor.Errors.{Error, Result, ok, err, passed}
use blockstorageingestor.Tsdb.Config.{
  Chunks, TsdbConfig, validate_tsdb, is_blocks_shipping_enabled, five_minutes, below, leaves_rest,
  shares_bits, is_empty,
}
use blockstorageingestor.Tsdb.Config.Bits.{IsPowerOfTwo, land-pred}
use blockstorageingestor.Tsdb.Config.Caches.{
  CacheLibrary, IndexCacheConfig, MemcachedClientConfig, validate_memcached, get_addresses,
  validate_index_cache, new_index_cache, supported_index_cache_backends, inmemory, memcached, redis,
}

-- Shards: a power of two, and more than one
pub data IsStripe : ℤ → Type 0 where
  stripe : (n : ℕ) → 1 < n → IsPowerOfTwo n → IsStripe (pos n)

pub record IsValid (C : Chunks) (cfg : TsdbConfig) : Type 0 where
  pub ship_concurrency : is_blocks_shipping_enabled cfg ≡ true → above cfg.ship_concurrency 0 ≡ true
  pub opening : above cfg.max_tsdb_opening_concurrency_on_startup 0 ≡ true
  pub compaction_positive : above cfg.head_compaction_interval 0 ≡ true
  pub compaction_short : at_most cfg.head_compaction_interval five_minutes ≡ true
  pub compaction_concurrency : above cfg.head_compaction_concurrency 0 ≡ true
  pub buffer :
      (n : ℕ) × (cfg.head_chunks_write_buffer_size ≡ pos (1024 * n))
      × (C.min_write_buffer_size ≤ 1024 * n)
      × (1024 * n ≤ C.max_write_buffer_size)
  pub stripe_size : IsStripe cfg.stripe_size
  pub ranges : cfg.block_ranges ≢ []
  pub wal_segment : above cfg.wal_segment_size_bytes 0 ≡ true
  pub out_of_order : above cfg.out_of_order_cap_max 0 ≡ true

at_most-above : (z : ℤ) (n : ℕ) → at_most z n ≡ not (above z n)
at_most-above (pos a) n = ground arith
at_most-above (negsuc a) n = refl

positive : (z : ℤ) → at_most z 0 ≡ false → above z 0 ≡ true
positive (pos a) h = ground arith
positive (negsuc a) h = let no : ⊥ = ground arith in elim no [ ]

neither : (a b : Bool) → (a || b) ≡ false → (a ≡ false) × (b ≡ false)
neither a b h = ground arith

both : (a b : Bool) → a ≡ true → (a && b) ≡ false → b ≡ false
both a b h k = ground arith

some_range : (xs : List ℤ) → is_empty xs ≡ false → xs ≢ []
some_range [] h e = let no : ⊥ = ground arith in no
some_range (x ∷ xs) h e = let no : ⊥ = ground arith in no

shares_bits-IsStripe :
    (z : ℤ)
    → at_most z (2 ^ 63 - 1) ≡ true
    → at_most z 1 ≡ false
    → shares_bits z ≡ false
    → IsStripe z
shares_bits-IsStripe (pos zero) b p q = let no : ⊥ = ground arith in elim no [ ]
shares_bits-IsStripe (pos (suc a)) b p q =
    stripe (suc a) (ground arith) ((land-pred 64 a (ground arith)).0 (ground arith))
shares_bits-IsStripe (negsuc a) b p q = let no : ⊥ = ground arith in elim no [ ]

buffer_test :
    (C : Chunks) (z : ℤ)
    → below z C.min_write_buffer_size ≡ false
    → above z C.max_write_buffer_size ≡ false
    → leaves_rest z 1024 ≡ false
    → (n : ℕ) × (z ≡ pos (1024 * n))
      × (C.min_write_buffer_size ≤ 1024 * n)
      × (1024 * n ≤ C.max_write_buffer_size)
buffer_test C (pos a) p q r = (a / 1024, ap pos (ground arith), ground arith, ground arith)
buffer_test C (negsuc a) p q r = let no : ⊥ = ground arith in elim no [ ]

-- A configuration that passes the validation has all that its comments ask for; in particular the
-- stripe size, a Go `int`, is a power of two greater than one and the write buffer is a multiple of
-- 1024 within its bounds.
pub validate_tsdb-IsValid :
    (C : Chunks) (cfg : TsdbConfig)
    → at_most cfg.stripe_size (2 ^ 63 - 1) ≡ true
    → validate_tsdb C cfg ≡ ok tt
    → IsValid C cfg
unfolding validate_tsdb is_blocks_shipping_enabled
validate_tsdb-IsValid C cfg b v =
    let (p1, v1) = passed (above cfg.ship_interval 0 && at_most cfg.ship_concurrency 0) _ _ _ v in
    let (p2, v2) = passed (at_most cfg.max_tsdb_opening_concurrency_on_startup 0) _ _ _ v1 in
    let (p3, v3) =
      passed
        (at_most cfg.head_compaction_interval 0 || above cfg.head_compaction_interval five_minutes)
        _ _ _ v2 in
    let (p4, v4) = passed (at_most cfg.head_compaction_concurrency 0) _ _ _ v3 in
    let (p5, v5) =
      passed
        (below cfg.head_chunks_write_buffer_size C.min_write_buffer_size
          || above cfg.head_chunks_write_buffer_size C.max_write_buffer_size
          || leaves_rest cfg.head_chunks_write_buffer_size 1024)
        _ _ _ v4 in
    let (p6, v6) = passed (at_most cfg.stripe_size 1 || shares_bits cfg.stripe_size) _ _ _ v5 in
    let (p7, v7) = passed (is_empty cfg.block_ranges) _ _ _ v6 in
    let (p8, v8) = passed (at_most cfg.wal_segment_size_bytes 0) _ _ _ v7 in
    let (p9, _) = passed (at_most cfg.out_of_order_cap_max 0) _ _ _ v8 in
    let (q1, q2) = neither _ _ p3 in
    let (q34, q5) = neither _ _ p5 in
    let (q3, q4) = neither _ _ q34 in
    let (q6, q7) = neither _ _ p6 in
    record {
      ship_concurrency = λ s. positive cfg.ship_concurrency (both _ _ s p1);
      opening = positive cfg.max_tsdb_opening_concurrency_on_startup p2;
      compaction_positive = positive cfg.head_compaction_interval q1;
      compaction_short = at_most-above cfg.head_compaction_interval five_minutes ∙ ap not q2;
      compaction_concurrency = positive cfg.head_compaction_concurrency p4;
      buffer = buffer_test C cfg.head_chunks_write_buffer_size q3 q4 q5;
      stripe_size = shares_bits-IsStripe cfg.stripe_size b q6 q7;
      ranges = some_range cfg.block_ranges p7;
      wal_segment = positive cfg.wal_segment_size_bytes p8;
      out_of_order = positive cfg.out_of_order_cap_max p9;
    }

module _ (R : CacheLibrary)
    (mem : (l : List Str) (s : Str) → R.strings_contain l s ≡ contains l s) where
  known_backend :
      (s : Str)
      → contains supported_index_cache_backends s ≡ true
      → (s ≡ inmemory) ⊎ (s ≡ memcached) ⊎ (s ≡ redis)
  known_backend s h =
      ground (arith, str_beq_iff inmemory s, str_beq_iff memcached s, str_beq_iff redis s)

  supported :
      (s : Str)
      → not (R.strings_contain supported_index_cache_backends s) ≡ false
      → contains supported_index_cache_backends s ≡ true
  supported s p = sym (mem supported_index_cache_backends s) ∙ true_of p
    where
      true_of : {b : Bool} → not b ≡ false → b ≡ true
      true_of {b = true} h = refl
      true_of {b = false} h = sym h

  err-ne-ok : (e : Error) (r : Result (Unit {0})) → r ≡ err e → r ≡ ok tt → ⊥
  err-ne-ok e r p q = cc

  nonempty : (m : MemcachedClientConfig) → validate_memcached m ≡ ok tt → m.addresses ≢ []
  unfolding validate_memcached get_addresses blockstorageingestor.Prelude.str_beq
  nonempty m v e = err-ne-ok _ _ refl (rw e at v)

  -- With `util.StringsContain` a test of membership: where the options of the index cache pass
  -- their validation, the cache is made by the constructor of the backend that they name, with its
  -- own options, and these have been validated too.
  pub new_index_cache_lem :
      {Cache : Type 0} (new_inmemory : ℕ → Result Cache)
      (new_memcached : MemcachedClientConfig → Result Cache)
      (new_redis : R.RedisClientConfig → Result Cache) (cfg : IndexCacheConfig R)
      → validate_index_cache R cfg ≡ ok tt
      → let made = new_index_cache R new_inmemory new_memcached new_redis cfg in
        ((cfg.backend ≡ inmemory) × (made ≡ new_inmemory cfg.max_size_bytes))
        ⊎ ((cfg.backend ≡ memcached)
            × (made ≡ new_memcached cfg.memcached)
            × (cfg.memcached.addresses ≢ []))
        ⊎ ((cfg.backend ≡ redis)
            × (made ≡ new_redis cfg.redis)
            × (R.validate_redis cfg.redis ≡ ok tt))
  unfolding new_index_cache validate_index_cache blockstorageingestor.Prelude.str_beq
  new_index_cache_lem new_inmemory new_memcached new_redis cfg v =
      let (p, w) =
        passed (not (R.strings_contain supported_index_cache_backends cfg.backend)) _ _ _ v in
      let known = supported cfg.backend p in
      elim (known_backend cfg.backend known) [
        | inl e ↦ inl (e, rw e refl)
        | inr (inl e) ↦ inr (inl (e, rw e refl, nonempty cfg.memcached (rw e at w)))
        | inr (inr e) ↦ inr (inr (e, rw e refl, (rw e at w)))
      ]

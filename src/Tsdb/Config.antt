-- ===== src/Tsdb/Config.antt =====
-- pkg/storage/tsdb/config.go: the options of the TSDBs and of the bucket stores, and their validation.
pub mod Caches
pub mod BucketCaches
pub mod CacheFlags
pub mod Flags
pub mod BucketStore
pub mod DurationList
pub mod Bits
pub mod Laws
use blockstorageingestor.Prelude.{
  ℤ, pos, negsuc, at_most, above, ℕ, zero, suc, ◌+◌, ◌-◌, ◌*◌, ◌/◌, ◌%◌, ◌^◌, ◌≤◌, ◌<◌, ◌≡◌, refl,
  sym, ap, ◌∙◌, ◌≢◌, ◌↔◌, ◌⊎◌, inl, inr, Bool, true, false, not, ◌&&◌, ◌||◌, Option, none, some,
  List, [], ◌∷◌, ◌++◌, map, append-nil, append_assoc, arith, ltb, leb, nat_beq, nat_beq_iff,
  if◌then◌else◌, Comparable, ◌==◌, nat_eq, Bool-cases, Option-cases, length, get_elem?, take, drop,
  length-append, contains, All, All-append, Lacks, select, get_elem?-append, Str, codes, str_beq,
  str_beq_iff, str_eq, str_beq_refl, str_beq-append,
}
use blockstorageingestor.Errors.{
  Error, sentinel, errorf, wrap, Result, ok, err, wrapped, ◌>>◌, invalid_ship_concurrency,
  invalid_opening_concurrency, invalid_compaction_interval, invalid_compaction_concurrency,
  invalid_wal_segment_size_bytes, invalid_stripe_size, invalid_out_of_order_cap_max,
  empty_block_ranges,
}
use blockstorageingestor.Go.FilePath.{path_join}
use blockstorageingestor.Tsdb.Config.Bits.{land}
use blockstorageingestor.Tsdb.Config.Caches.{
  CacheLibrary, IndexCacheConfig, validate_index_cache, CacheBackend, validate_cache_backend,
}

-- The bounds of the package `chunks` of Prometheus, and `%d` of `fmt`.
pub record Chunks : Type 0 where
  pub min_write_buffer_size : ℕ
  pub max_write_buffer_size : ℕ
  pub decimal : ℕ → Str

-- Durations are in nanoseconds.
pub record TsdbConfig : Type 0 where
  pub dir : Str
  pub block_ranges : List ℤ
  pub retention : ℤ
  pub ship_interval : ℤ
  pub ship_concurrency : ℤ
  pub head_compaction_interval : ℤ
  pub head_compaction_concurrency : ℤ
  pub head_compaction_idle_timeout : ℤ
  pub head_chunks_write_buffer_size : ℤ
  pub stripe_size : ℤ
  pub wal_compression_enabled : Bool
  pub wal_segment_size_bytes : ℤ
  pub flush_blocks_on_shutdown : Bool
  pub close_idle_tsdb_timeout : ℤ
  pub head_chunks_write_queue_size : ℤ
  pub max_tsdb_opening_concurrency_on_startup : ℤ
  pub keep_user_tsdb_open_on_shutdown : Bool
  pub close_idle_tsdb_interval : ℤ
  pub max_exemplars : ℤ
  pub memory_snapshot_on_shutdown : Bool
  pub out_of_order_cap_max : ℤ

-- `5*time.Minute`
abbrev pub five_minutes : ℕ
five_minutes = 5 * 60 * 1000000000

-- `z < n`, and whether Go's `z % n` is not 0
abbrev pub below : ℤ → ℕ → Bool
below (pos a) n = ltb a n
below (negsuc a) n = true

abbrev pub leaves_rest : ℤ → ℕ → Bool
leaves_rest (pos a) n = not ((a % n) == 0)
leaves_rest (negsuc a) n = not ((suc a % n) == 0)

-- `z & (z - 1) != 0` on the 64 bits of an `int`
abbrev pub shares_bits : ℤ → Bool
shares_bits (pos zero) = not (land 64 0 (2 ^ 64 - 1) == 0)
shares_bits (pos (suc a)) = not (land 64 (suc a) a == 0)
shares_bits (negsuc a) = not (land 64 (2 ^ 64 - suc a) (2 ^ 64 - suc (suc a)) == 0)

unfoldable pub is_blocks_shipping_enabled : TsdbConfig → Bool
is_blocks_shipping_enabled cfg = above cfg.ship_interval 0

unfoldable pub blocks_dir : TsdbConfig → Str → Str
blocks_dir cfg user = path_join (cfg.dir ∷ user ∷ [])

abbrev pub is_empty : List ℤ → Bool
is_empty [] = true
is_empty (x ∷ xs) = false

module _ (C : Chunks) where
  abbrev pub buffer_size_error : Error
  buffer_size_error = errorf (
      codes "head chunks write buffer size must be a multiple of 1024 between "
      ++ C.decimal C.min_write_buffer_size
      ++ codes " and "
      ++ C.decimal C.max_write_buffer_size)

  -- `(*TSDBConfig).Validate`
  unfoldable pub validate_tsdb : TsdbConfig → Result (Unit {0})
  validate_tsdb cfg =
      if above cfg.ship_interval 0 && at_most cfg.ship_concurrency 0
      then err (sentinel invalid_ship_concurrency)
      else if at_most cfg.max_tsdb_opening_concurrency_on_startup 0
      then err (sentinel invalid_opening_concurrency)
      else if at_most cfg.head_compaction_interval 0
          || above cfg.head_compaction_interval five_minutes
      then err (sentinel invalid_compaction_interval)
      else if at_most cfg.head_compaction_concurrency 0
      then err (sentinel invalid_compaction_concurrency)
      else if below cfg.head_chunks_write_buffer_size C.min_write_buffer_size
          || above cfg.head_chunks_write_buffer_size C.max_write_buffer_size
          || leaves_rest cfg.head_chunks_write_buffer_size 1024
      then err buffer_size_error
      else if at_most cfg.stripe_size 1 || shares_bits cfg.stripe_size
      then err (sentinel invalid_stripe_size)
      else if is_empty cfg.block_ranges
      then err (sentinel empty_block_ranges)
      else if at_most cfg.wal_segment_size_bytes 0
      then err (sentinel invalid_wal_segment_size_bytes)
      else if at_most cfg.out_of_order_cap_max 0
      then err (sentinel invalid_out_of_order_cap_max)
      else ok tt

module _ (R : CacheLibrary) where
  -- `(*BucketStoreConfig).Validate`, on the options that it reads
  unfoldable pub validate_bucket_store :
      IndexCacheConfig R → CacheBackend R → CacheBackend R → Result (Unit {0})
  validate_bucket_store index chunks metadata =
      wrapped (validate_index_cache R index) (codes "index-cache configuration")
      >> wrapped (validate_cache_backend R chunks) (codes "chunks-cache configuration")
      >> wrapped (validate_cache_backend R metadata) (codes "metadata-cache configuration")

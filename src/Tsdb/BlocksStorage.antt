-- ===== src/Tsdb/BlocksStorage.antt =====
-- pkg/storage/tsdb/config.go, `BlocksStorageConfig`: the options of the bucket, of the bucket stores
-- and of the TSDBs together.
pub mod Laws
use blockstorageingestor.Prelude.{
  ℤ, pos, negsuc, at_most, above, ℕ, zero, suc, ◌+◌, ◌-◌, ◌*◌, ◌/◌, ◌%◌, ◌^◌, ◌≤◌, ◌<◌, ◌≡◌, refl,
  sym, ap, ◌∙◌, ◌≢◌, ◌↔◌, ◌⊎◌, inl, inr, Bool, true, false, not, ◌&&◌, ◌||◌, Option, none, some,
  List, [], ◌∷◌, ◌++◌, map, append-nil, append_assoc, arith, ltb, leb, nat_beq, nat_beq_iff,
  if◌then◌else◌, Comparable, ◌==◌, nat_eq, Bool-cases, Option-cases, length, get_elem?, take, drop,
  length-append, contains, All, All-append, Lacks, select, get_elem?-append, Str, codes, str_beq,
  str_beq_iff, str_eq, str_beq_refl, str_beq-append,
}
use blockstorageingestor.Go.FlagVars.{
  Texts, Registering, string_var, bool_var, value_var, int_var, uint_var, duration_var, inside,
  in_order, join_comma, millisecond, second, minute, hour,
}
use blockstorageingestor.Errors.{Result, ◌>>◌}
use blockstorageingestor.Bucket.S3.Config.{Library}
use blockstorageingestor.Bucket.Client.{BackendConfig, validate_backend}
use blockstorageingestor.Bucket.Backends.{Sdk, backends, register_bucket}
use blockstorageingestor.Tsdb.Config.{Chunks, TsdbConfig, validate_tsdb}
use blockstorageingestor.Tsdb.Config.Caches.{CacheLibrary}
use blockstorageingestor.Tsdb.Config.CacheFlags.{RedisFlags}
use blockstorageingestor.Tsdb.Config.DurationList.{Durations}
use blockstorageingestor.Tsdb.Config.Flags.{Constants, register_tsdb}
use blockstorageingestor.Tsdb.Config.BucketStore.{BucketStoreConfig, validate_store, register_store}

module _ (L : Library) (S : Sdk L) (reg : Option S.Registerer) (R : CacheLibrary) where
  pub record BlocksStorageConfig : Type 0 where
    pub bucket : BackendConfig L (backends L S reg)
    pub bucket_store : BucketStoreConfig R
    pub tsdb : TsdbConfig

  -- `Validate`
  unfoldable pub validate_blocks_storage : Chunks → BlocksStorageConfig → Result (Unit {0})
  validate_blocks_storage C cfg =
      validate_backend L (backends L S reg) cfg.bucket
      >> validate_tsdb C cfg.tsdb
      >> validate_store R cfg.bucket_store

  -- `RegisterFlags`
  unfoldable pub register_blocks_storage :
      Texts → Durations → Constants → RedisFlags R → Registering BlocksStorageConfig
  register_blocks_storage X Z D F = in_order (
      inside (λ c. c.bucket) (λ v c. record c { bucket = v })
        (register_bucket L S X reg (codes "blocks-storage."))
      ∷ inside (λ c. c.bucket_store) (λ v c. record c { bucket_store = v }) (register_store R F X D)
      ∷ inside (λ c. c.tsdb) (λ v c. record c { tsdb = v }) (register_tsdb X Z D)
      ∷ [])

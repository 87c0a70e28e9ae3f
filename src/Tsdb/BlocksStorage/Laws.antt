-- ===== src/Tsdb/BlocksStorage/Laws.antt =====
-- The defaults that the registration of the flags sets are valid.
use blockstorageingestor.Prelude.{
  at_most, above, ◌≡◌, refl, inl, inr, true, false, not, Option, List, ◌++◌, nat_eq, Bool-cases,
  contains, Str, codes, str_beq, str_eq,
}
use blockstorageingestor.Errors.{ok}
use blockstorageingestor.Go.Flags.{FlagSet}
use blockstorageingestor.Go.FlagVars.{Texts}
use blockstorageingestor.Bucket.S3.Config
use blockstorageingestor.Bucket.S3.Config.{
  Library, validate_sse, supported_signature_versions, signature_version_v4,
  supported_bucket_lookup_types, bucket_auto_lookup, parse_kms_encryption_context,
}
use blockstorageingestor.Bucket.S3.Config.Laws.{IsMembership}
use blockstorageingestor.Bucket.S3.Flags.{register_s3, register_sse}
use blockstorageingestor.Bucket.Client.{BackendConfig, validate_backend, s3, default_backends}
use blockstorageingestor.Bucket.Backends.{Sdk, backends, register_bucket}
use blockstorageingestor.Tsdb.Config.{
  Chunks, TsdbConfig, validate_tsdb, is_empty, below, leaves_rest, validate_bucket_store,
}
use blockstorageingestor.Tsdb.Config.Bits.{land}
use blockstorageingestor.Tsdb.Config.Caches.{
  CacheLibrary, validate_index_cache, validate_cache_backend, supported_index_cache_backends,
  inmemory,
}
use blockstorageingestor.Tsdb.Config.CacheFlags.{
  RedisFlags, register_index_cache, register_chunks_cache, register_metadata_cache,
  register_cache_backend,
}
use blockstorageingestor.Tsdb.Config.DurationList.{Durations}
use blockstorageingestor.Tsdb.Config.Flags.{Constants, register_tsdb, with_block_ranges}
use blockstorageingestor.Tsdb.Config.BucketStore.{BucketStoreConfig, validate_store, register_store}
use blockstorageingestor.Tsdb.BlocksStorage.{
  BlocksStorageConfig, validate_blocks_storage, register_blocks_storage,
}

module _ (L : Library) (mem : IsMembership L) where
  has_default : (l : List Str) (s : Str) → contains l s ≡ true → not (L.strings_contain l s) ≡ false
  has_default l s h = rw (mem l s, h) refl

  validate-register_s3 :
      (X : Texts) (prefix : Str) (s : Config.Config L × FlagSet)
      → Config.validate L (register_s3 L X prefix s).0 ≡ ok tt
  unfolding Config.validate register_s3 register_sse validate_sse parse_kms_encryption_context
      str_beq
  validate-register_s3 X prefix s =
      rw
        (
          has_default supported_signature_versions signature_version_v4 refl,
          has_default supported_bucket_lookup_types bucket_auto_lookup refl,
        )
        refl

  validate-register_bucket :
      (S : Sdk L) (reg : Option S.Registerer) (X : Texts) (prefix : Str)
      (s : BackendConfig L (backends L S reg) × FlagSet)
      → validate_backend L (backends L S reg) (register_bucket L S X reg prefix s).0 ≡ ok tt
  unfolding validate_backend register_bucket str_beq
  validate-register_bucket S reg X prefix (c, fs) =
      rw (has_default (default_backends ++ c.extra_backends) s3 refl)
        (validate-register_s3 X prefix (c.s3_options, fs))

-- The documented constants of Prometheus: the default of the write buffer is a multiple of 1024
-- within the bounds, and the defaults of the other sizes are positive.
pub record IsConstants (C : Chunks) (D : Constants) : Type 0 where
  pub above_min : below D.default_write_buffer_size C.min_write_buffer_size ≡ false
  pub below_max : above D.default_write_buffer_size C.max_write_buffer_size ≡ false
  pub divides : leaves_rest D.default_write_buffer_size 1024 ≡ false
  pub segment : at_most D.default_segment_size 0 ≡ false
  pub out_of_order : at_most D.default_out_of_order_cap_max 0 ≡ false

module _ (X : Texts) (D : Constants) where
  some_ranges :
      (Z : Durations) (c : TsdbConfig) → is_empty (with_block_ranges X Z D c).block_ranges ≡ false
  some_ranges Z c = elim (Bool-cases (is_empty c.block_ranges)) [
    | inl e ↦ rw e refl
    | inr e ↦ rw (e, e) refl
  ]

  validate-register_tsdb :
      (C : Chunks) (W : IsConstants C D) (Z : Durations) (s : TsdbConfig × FlagSet)
      → validate_tsdb C (register_tsdb X Z D s).0 ≡ ok tt
  unfolding validate_tsdb register_tsdb land
  validate-register_tsdb C W Z (c, fs) =
      rw (W.above_min, W.below_max, W.divides, some_ranges Z c, W.segment, W.out_of_order) refl

  module _ (R : CacheLibrary) (F : RedisFlags R)
      (mem : (l : List Str) (s : Str) → R.strings_contain l s ≡ contains l s) where
    validate-register_store :
        (s : BucketStoreConfig R × FlagSet) → validate_store R (register_store R F X D s).0 ≡ ok tt
    unfolding validate_store register_store validate_bucket_store validate_index_cache
        validate_cache_backend register_index_cache register_chunks_cache register_metadata_cache
        register_cache_backend str_beq
    validate-register_store (c, fs) =
        let known : not (R.strings_contain supported_index_cache_backends inmemory) ≡ false =
          rw (mem supported_index_cache_backends inmemory) refl in
        rw known refl

    -- For the documented constants, and with `util.StringsContain` a test of membership: whatever
    -- the options held before, those that the registration of all flags leaves behind pass the
    -- validation of the bucket, of the TSDBs and of the bucket stores.
    pub validate-register_blocks_storage :
        (L : Library) (is_member : IsMembership L) (S : Sdk L) (reg : Option S.Registerer)
        (C : Chunks) (W : IsConstants C D) (Z : Durations)
        (s : BlocksStorageConfig L S reg R × FlagSet)
        → validate_blocks_storage L S reg R C (register_blocks_storage L S reg R X Z D F s).0
          ≡ ok tt
    unfolding validate_blocks_storage register_blocks_storage
    validate-register_blocks_storage L is_member S reg C W Z (c, fs) =
        rw
          (
            validate-register_bucket L is_member S reg X (codes "blocks-storage.") (c.bucket, fs),
            validate-register_tsdb C W Z (c.tsdb, _),
          )
          (validate-register_store (c.bucket_store, _))

-- ===== src/Tsdb/Config/Flags.antt =====
-- pkg/storage/tsdb/config.go: the flags of the TSDBs.
use blockstorageingestor.Prelude.{
  ℤ, pos, ℕ, ◌*◌, false, [], ◌∷◌, ◌++◌, if◌then◌else◌, nat_eq, codes, str_eq,
}
use blockstorageingestor.Go.FlagVars.{
  Texts, Registering, string_var, bool_var, value_var, int_var, duration_var, in_order, minute,
  hour,
}
use blockstorageingestor.Tsdb.Config.{TsdbConfig, is_empty}
use blockstorageingestor.Tsdb.Config.DurationList.{Durations, to_string}

-- Constants of Prometheus, Thanos and the package `units`.
pub record Constants : Type 0 where
  pub default_write_buffer_size : ℤ
  pub default_write_queue_size : ℤ
  pub default_segment_size : ℤ
  pub default_out_of_order_cap_max : ℤ
  pub default_posting_offset_in_memory_sampling : ℤ
  pub partitioner_max_gap_size : ℕ
  pub estimated_max_chunk_size : ℤ
  pub gibibyte : ℕ

-- `DefaultCloseIdleTSDBInterval` and `DeletionMarkCheckInterval`
abbrev pub default_close_idle_tsdb_interval : ℤ
default_close_idle_tsdb_interval = pos (5 * minute)

abbrev pub deletion_mark_check_interval : ℤ
deletion_mark_check_interval = pos (1 * hour)

-- `ChunkPoolDefaultMinBucketSize` and `ChunkPoolDefaultMaxBucketSize`
abbrev pub chunk_pool_default_min_bucket_size : Constants → ℤ
chunk_pool_default_min_bucket_size D = D.estimated_max_chunk_size

abbrev pub chunk_pool_default_max_bucket_size : ℤ
chunk_pool_default_max_bucket_size = pos 50000000

module _ (X : Texts) (Z : Durations) (D : Constants) where
  -- the default of the block ranges, two hours
  abbrev pub with_block_ranges : TsdbConfig → TsdbConfig
  with_block_ranges cfg =
      if is_empty cfg.block_ranges then record cfg { block_ranges = pos (2 * hour) ∷ [] } else cfg

  register_tsdb_vars : Registering TsdbConfig
  register_tsdb_vars = in_order (
      string_var (λ v c. record c { dir = v }) (codes "blocks-storage.tsdb.cmd") (codes "tsdb")
        (codes "Local directory to store TSDBs in the ingesters.")
      ∷ value_var (λ c. to_string Z c.block_ranges)
          (codes "blocks-storage.tsdb.block-ranges-period") (codes "TSDB blocks range period.")
      ∷ duration_var X (λ v c. record c { retention = v })
          (codes "blocks-storage.tsdb.retention-period") (pos (6 * hour))
          (codes "TSDB blocks retention in the ingester before a block is removed. This should "
            ++ codes "be larger than the block_ranges_period and large enough to give "
            ++ codes "store-gateways and queriers enough time to discover newly uploaded blocks.")
      ∷ duration_var X (λ v c. record c { ship_interval = v })
          (codes "blocks-storage.tsdb.ship-interval") (pos minute)
          (codes "How frequently the TSDB blocks are scanned and new ones are shipped to the "
            ++ codes "storage. 0 means shipping is disabled.")
      ∷ int_var X (λ v c. record c { ship_concurrency = v })
          (codes "blocks-storage.tsdb.ship-concurrency") (pos 10)
          (codes "Maximum number of tenants concurrently shipping blocks to the storage.")
      ∷ int_var X (λ v c. record c { max_tsdb_opening_concurrency_on_startup = v })
          (codes "blocks-storage.tsdb.max-tsdb-opening-concurrency-on-startup") (pos 10)
          (codes "limit the number of concurrently opening TSDB's on startup")
      ∷ duration_var X (λ v c. record c { head_compaction_interval = v })
          (codes "blocks-storage.tsdb.head-compaction-interval") (pos minute)
          (codes "How frequently does Cortex try to compact TSDB head. Block is only created if "
            ++ codes "data covers smallest block range. Must be greater than 0 and max 5 minutes.")
      ∷ int_var X (λ v c. record c { head_compaction_concurrency = v })
          (codes "blocks-storage.tsdb.head-compaction-concurrency") (pos 5)
          (codes "Maximum number of tenants concurrently compacting TSDB head into a new block")
      ∷ duration_var X (λ v c. record c { head_compaction_idle_timeout = v })
          (codes "blocks-storage.tsdb.head-compaction-idle-timeout") (pos hour)
          (codes "If TSDB head is idle for this duration, it is compacted. Note that up to 25% "
            ++ codes "jitter is added to the value to avoid ingesters compacting concurrently. 0 "
            ++ codes "means disabled.")
      ∷ int_var X (λ v c. record c { head_chunks_write_buffer_size = v })
          (codes "blocks-storage.tsdb.head-chunks-write-buffer-size-bytes")
          (D.default_write_buffer_size)
          (codes "The write buffer size used by the head chunks mapper. Lower values reduce "
            ++ codes "memory utilisation on clusters with a large number of tenants at the cost of "
            ++ codes "increased disk I/O operations.")
      ∷ int_var X (λ v c. record c { stripe_size = v }) (codes "blocks-storage.tsdb.stripe-size")
          (pos 16384)
          (codes "The number of shards of series to use in TSDB (must be a power of 2). "
            ++ codes "Reducing this will decrease memory footprint, but can negatively impact "
            ++ codes "performance.")
      ∷ bool_var (λ v c. record c { wal_compression_enabled = v })
          (codes "blocks-storage.tsdb.wal-compression-enabled") false
          (codes "True to enable TSDB WAL compression.")
      ∷ int_var X (λ v c. record c { wal_segment_size_bytes = v })
          (codes "blocks-storage.tsdb.wal-segment-size-bytes") (D.default_segment_size)
          (codes "TSDB WAL segments files max size (bytes).")
      ∷ bool_var (λ v c. record c { flush_blocks_on_shutdown = v })
          (codes "blocks-storage.tsdb.flush-blocks-on-shutdown") false
          (codes "True to flush blocks to storage on shutdown. If false, incomplete blocks will "
            ++ codes "be reused after restart.")
      ∷ duration_var X (λ v c. record c { close_idle_tsdb_timeout = v })
          (codes "blocks-storage.tsdb.close-idle-tsdb-timeout") (pos 0)
          (codes "If TSDB has not received any data for this duration, and all blocks from TSDB "
            ++ codes "have been shipped, TSDB is closed and deleted from local disk. If set to "
            ++ codes "positive value, this value should be equal or higher than "
            ++ codes "-querier.query-ingesters-within flag to make sure that TSDB is not closed "
            ++ codes "prematurely, which could cause partial query results. 0 or negative value "
            ++ codes "disables closing of idle TSDB.")
      ∷ int_var X (λ v c. record c { head_chunks_write_queue_size = v })
          (codes "blocks-storage.tsdb.head-chunks-write-queue-size") (D.default_write_queue_size)
          (codes "The size of the in-memory queue used before flushing chunks to the disk.")
      ∷ int_var X (λ v c. record c { max_exemplars = v })
          (codes "blocks-storage.tsdb.max-exemplars") (pos 0)
          (codes "Deprecated, use maxExemplars in limits instead. If the MaxExemplars value in "
            ++ codes "limits is set to zero, cortex will fallback on this value. This setting "
            ++ codes "enables support for exemplars in TSDB and sets the maximum number that will "
            ++ codes "be stored. 0 or less means disabled.")
      ∷ bool_var (λ v c. record c { memory_snapshot_on_shutdown = v })
          (codes "blocks-storage.tsdb.memory-snapshot-on-shutdown") false
          (codes "True to enable snapshotting of in-memory TSDB data on disk when shutting down.")
      ∷ int_var X (λ v c. record c { out_of_order_cap_max = v })
          (codes "blocks-storage.tsdb.out-of-order-cap-max") (D.default_out_of_order_cap_max)
          (codes "[EXPERIMENTAL] Configures the maximum number of samples per chunk that can be "
            ++ codes "out-of-order.")
      ∷ [])

  -- `RegisterFlags` of TSDBConfig
  unfoldable pub register_tsdb : Registering TsdbConfig
  unfolding register_tsdb_vars
  register_tsdb (cfg, fs) = register_tsdb_vars (with_block_ranges cfg, fs)

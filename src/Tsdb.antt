-- ===== src/Tsdb.antt =====
-- Package `tsdb` (pkg/storage/tsdb): what the ingester keeps in the object store.
pub mod DeletionMark
pub mod BucketIndex
pub mod UsersScanner
pub mod Config
pub mod CachingBucket
pub mod BlocksStorage
pub mod IndexCache
pub mod TestBlocks

-- ===== src/Tsdb/BucketIndex.antt =====
-- Package `bucketindex` (pkg/storage/tsdb/bucketindex): the index of a tenant's bucket, and the
-- marks of its blocks.
pub mod Markers
pub mod GlobalMarkers
pub mod Storage
pub mod Migration

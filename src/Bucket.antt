-- ===== src/Bucket.antt =====
-- Package `bucket` (pkg/storage/bucket): clients that wrap an object store, and its configuration.
pub mod Prefixed
pub mod S3
pub mod Sse
pub mod User
pub mod Client
pub mod Gcs
pub mod Azure
pub mod Swift
pub mod Filesystem
pub mod Backends
pub mod DeletePrefix
pub mod Testify
pub mod Mock

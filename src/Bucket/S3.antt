-- ===== src/Bucket/S3.antt =====
-- pkg/storage/bucket/s3: the S3 backend.
pub mod Config
pub mod Flags
pub mod ClientConfig
pub mod Retries

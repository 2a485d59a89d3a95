-- ===== src/S3api.antt =====
-- internal/s3api: the S3 handlers.
pub mod Range
pub mod Conditions
pub mod Read
pub mod Chunked
pub mod Write
pub mod Uri
pub mod Copy
pub mod Assembly
pub mod Multipart
pub mod Bulk
pub mod Router
pub mod Canonical
pub mod Signature
pub mod Service

-- ===== src/Storage.antt =====
-- backend/internal/storage: the object storage on the local disk and in a bucket of S3.
pub mod Keys
pub mod Local
pub mod Objects
pub mod S3
pub mod Examples

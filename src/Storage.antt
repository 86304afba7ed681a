-- ===== src/Storage.antt =====
-- components/buffered_file_transfer/buffered_file_transfer/storage: the file systems that buffer a
-- file in RAM, and the common file handle.
pub mod File
pub mod Bounded
pub mod Documented
pub mod Flushing
pub mod Ram
mod Tests

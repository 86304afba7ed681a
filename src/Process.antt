-- ===== src/Process.antt =====
-- components/buffered_file_transfer/buffered_file_transfer/process: what happens to a buffered file.
pub mod FileSystemTransfer
mod Tests

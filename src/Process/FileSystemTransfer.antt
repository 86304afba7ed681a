-- ===== src/Process/FileSystemTransfer.antt =====
-- process/FileSystemTransferImplementor.{hpp,cpp}: a listener that copies a flushed file into
-- another file system, 128 bytes at a time.
pub mod Chunks
pub mod Copy
use esp32cam.Base.{
  ℕ, zero, suc, ◌+◌, List, [], ◌∷◌, Bool, true, false, ◌==◌, not, if◌then◌else◌, length, ltb,
}
use esp32cam.Storage.File.{
  FileSystem, File, FileDescriptor, descriptor_is_valid, position_start, file_seek, file_read,
  current_position,
}
use esp32cam.Storage.Flushing.{Outcome, done, panicked, out_of_fuel}

-- `provided` is `fileSystem != nullptr`.
pub record Transfer (D : Type 0) : Type 0 where
  pub provided : Bool
  pub descriptor : FileDescriptor
  pub store : D

abbrev pub temporary_buffer_size : ℕ
temporary_buffer_size = 128

module _ {D S : Type 0} (dst : FileSystem D) (src : FileSystem S) where
  -- `while (nFlushed < fileSize)`, with the size that is left for `fileSize - nFlushed`.
  unfoldable pub copy_loop : ℕ → File → FileDescriptor → ℕ → ℕ → D → S → Outcome (D × S)
  copy_loop zero f fd size flushed d s = out_of_fuel
  copy_loop (suc fuel) f fd size flushed d s =
      let (bytes, s') = file_read src f temporary_buffer_size s in
      let (written, d') = dst.append fd bytes d in
      let rest = copy_loop fuel f fd size (flushed + written) d' s' in
      if not (ltb flushed size)
      then done (d, s)
      else if length bytes == 0
      then panicked
      else if not (written == length bytes)
      then panicked
      else rest

  unfoldable pub on_file_buffering_finished :
      (D → FileDescriptor × D) → File → Bool → Transfer D → S → Outcome (Transfer D × S)
  on_file_buffering_finished open_file f last t s =
      if not t.provided
      then done (t, s)
      else let (fd, d) =
          if descriptor_is_valid t.descriptor then (t.descriptor, t.store) else open_file t.store in
        let (size, s1) = current_position src f s in
        let s2 = (file_seek src f 0 position_start s1).1 in
        elim (copy_loop (size + 1) f fd size 0 d s2) [
          | done (d', s3) ↦ done (record t { descriptor = fd; store = d' }, s3)
          | panicked ↦ panicked
          | out_of_fuel ↦ out_of_fuel
        ]

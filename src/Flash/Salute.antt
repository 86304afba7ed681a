-- ===== src/Flash/Salute.antt =====
-- components/buffered_file_transfer/buffered_file_transfer: process/SaluteFlashMemoryTransferImplementor.cpp
-- and storage/SaluteFlashMemoryPartitionTable.cpp: a file in flash memory, behind its size.
use esp32cam.Base.{
  ℕ, ◌+◌, ◌-◌, ◌/◌, ◌%◌, List, [], ◌∷◌, Bool, true, false, not, ◌==◌, ltb, Option, some, none,
  if◌then◌else◌, length, overwrite, sub32,
}
use esp32cam.Storage.File.{FileSystem, File, file_read}
use esp32cam.Storage.Flushing.{Outcome, done, panicked}
use esp32cam.Flash.{FlashMemory, write_block_offset}
use esp32cam.Flash.Crc.{calculate_crc32}
use esp32cam.Flash.Transfer.{
  FlushingState, Format, PostChunk, is_first_chunk, format_page, FlashTransfer,
  on_file_buffering_finished,
}
pub mod Laws
pub mod Spot
pub mod Page
pub mod Loop
pub mod Finish
pub mod Flush
pub mod Complete
pub mod Misplaced
pub mod Working

-- `kFileHeaderOffset`.
abbrev pub file_header_offset : ℕ
file_header_offset = 4

-- `EndiannessAwareRepresentation` of a `std::uint32_t`, both of whose flags are false: the bytes as
-- they stand in the memory of the ESP32, which is little-endian.
abbrev pub size_bytes : ℕ → List ℕ
size_bytes n = n % 256 ∷ n / 256 % 256 ∷ n / 65536 % 256 ∷ n / 16777216 % 256 ∷ []

-- The name "show" in the table, whose address is 0.
abbrev pub show : List ℕ
show = 115 ∷ 104 ∷ 111 ∷ 119 ∷ []

-- `tryGetFlashMemoryAddressByFile`, of the hash of the file's name.
unfoldable pub address_by_file : ℕ → Option ℕ
address_by_file hash = if hash == calculate_crc32 show then some 0 else none

module _ {M S : Type 0} (flash : FlashMemory M) (fs : FileSystem S) where
  -- `formatFlashMemoryPageContent`.
  unfoldable pub format_file_page : Format S
  format_file_page st page f last s =
      let (bytes, s') =
        file_read fs f (sub32 flash.geometry.write_block_size file_header_offset) s in
      if not (is_first_chunk st)
      then format_page flash fs st page f last s
      else if ltb 0 (sub32 flash.geometry.write_block_size file_header_offset)
      then (
        (
          overwrite page file_header_offset bytes,
          (length bytes + file_header_offset, length bytes),
        ),
        s',
      )
      else ((page, (0, 0)), s)

module _ {M : Type 0} (flash : FlashMemory M) where
  -- `onFileBufferingFinishedPostChunkFlushed`: the size of the file is written in front of it.
  unfoldable pub write_header : PostChunk M
  write_header st false m = done m
  write_header st true m =
      let id = write_block_offset flash.geometry st.base_address in
      let (got, m1) = flash.read_block id 0 flash.geometry.write_block_size m in
      elim got [
        | none ↦ panicked
        | some page ↦
            let header = size_bytes (sub32 st.address file_header_offset) in
            let (ok, m2) = flash.write_block id 0 (overwrite page 0 header) m1 in
            if ok then done m2 else panicked
      ]

module _ {M S : Type 0} (flash : FlashMemory M) (fs : FileSystem S) where
  abbrev pub salute_transfer :
      Option File → Bool → FlashTransfer M → S → Outcome (FlashTransfer M × S)
  salute_transfer =
      on_file_buffering_finished flash fs (format_file_page flash fs) (write_header flash)
        address_by_file

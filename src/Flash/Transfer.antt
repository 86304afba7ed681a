-- ===== src/Flash/Transfer.antt =====
-- components/buffered_file_transfer/buffered_file_transfer/process/FlashMemoryTransferImplementor.cpp
-- and its header: a listener that writes a flushed file into a flash memory, page by page.
use esp32cam.Base.{
  ℕ, zero, suc, ◌+◌, ◌-◌, List, Bool, true, false, not, ◌||◌, ◌==◌, ltb, Option, some, none,
  if◌then◌else◌, length, take, drop, overwrite, min, add32, sub32,
}
use esp32cam.Storage.File.{FileSystem, File, position_start, file_seek, file_read, current_position}
use esp32cam.Storage.Flushing.{Outcome, done, panicked, out_of_fuel}
use esp32cam.Flash.{FlashMemory, erase_block_offset, write_block_offset, inner_offset}
use esp32cam.Flash.Crc.{initial_crc32, update_crc32}

-- `FlushingState`, with the two checksums of its `Crc32CalculationState`.
pub record FlushingState : Type 0 where
  pub base_address : ℕ
  pub address : ℕ
  pub last_erased : ℕ
  pub ongoing : Bool
  pub buffer_checksum : ℕ
  pub memory_checksum : ℕ

-- `FlushingState{}`, and so `reset`.
abbrev pub reset_state : FlushingState
reset_state = record {
  base_address = 0;
  address = 0;
  last_erased = 0;
  ongoing = false;
  buffer_checksum = initial_crc32;
  memory_checksum = initial_crc32;
}

abbrev pub is_first_chunk : FlushingState → Bool
is_first_chunk st = st.base_address == st.address

-- `memory_provided` and `table_provided` are `flashMemory != nullptr` and
-- `memoryPartitionTable != nullptr`, `memory` the state of the flash memory.
pub record FlashTransfer (M : Type 0) : Type 0 where
  pub memory_provided : Bool
  pub table_provided : Bool
  pub state : FlushingState
  pub memory : M

-- `formatFlashMemoryPageContent`: the page, the number of its bytes that are written, the number of
-- bytes read from the file.
abbrev pub Format : Type 0 → Type 0
Format S = FlushingState → List ℕ → File → Bool → S → (List ℕ × (ℕ × ℕ)) × S

-- `onFileBufferingFinishedPostChunkFlushed`.
abbrev pub PostChunk : Type 0 → Type 0
PostChunk M = FlushingState → Bool → M → Outcome M

module _ {M S : Type 0} (flash : FlashMemory M) (fs : FileSystem S) where
  -- `shouldEraseCurrentFlashMemoryBlock`; `shouldEraseMemoryBeforeWriting` is true.
  abbrev pub should_erase : FlushingState → Bool
  should_erase st =
      not st.ongoing || not (st.last_erased == erase_block_offset flash.geometry st.address)

  -- `tryEraseCurrentFlashMemoryBlock`, where needed; that it fails is only logged.
  unfoldable pub erase_current : FlashTransfer M → FlashTransfer M
  erase_current t =
      let id = erase_block_offset flash.geometry t.state.address in
      if should_erase t.state
      then record t {
        state = record t.state { last_erased = id };
        memory = (flash.erase_block id t.memory).1;
      }
      else t

  -- The base's `formatFlashMemoryPageContent`.
  unfoldable pub format_page : Format S
  format_page st page f last s =
      let inner = inner_offset flash.geometry st.base_address in
      let (bytes, s') = file_read fs f (flash.geometry.write_block_size - inner) s in
      if ltb 0 (flash.geometry.write_block_size - inner)
      then ((overwrite page inner bytes, (length bytes, length bytes)), s')
      else ((page, (0, 0)), s)

  module _ (format : Format S) where
    -- Behind a page that was read: the formatting, the checksum, the write. Whether the function
    -- goes on, the number of bytes taken from the file, and the states.
    unfoldable pub write_page :
        List ℕ → File → Bool → FlashTransfer M → S → Outcome (Bool × (ℕ × (FlashTransfer M × S)))
    write_page page f last t s =
        let ((formatted, (written, processed)), s') = format t.state page f last s in
        let part = take written (drop (inner_offset flash.geometry t.state.address) formatted) in
        let st = record t.state { buffer_checksum = update_crc32 t.state.buffer_checksum part } in
        let (ok, m) =
          flash.write_block (write_block_offset flash.geometry t.state.address) 0 formatted
            t.memory in
        if processed == 0
        then panicked
        else if not ok
        then done (false, (processed, (record t { state = st; memory = m }, s')))
        else done (
          true,
          (
            processed,
            (record t { state = record st { address = add32 st.address written }; memory = m }, s'),
          ),
        )

    -- The body of the loop.
    unfoldable pub round :
        File → Bool → FlashTransfer M → S → Outcome (Bool × (ℕ × (FlashTransfer M × S)))
    round f last t s =
        let (got, m) =
          flash.read_block (write_block_offset flash.geometry t.state.address) 0
            flash.geometry.write_block_size t.memory in
        let t' = record t { memory = m } in
        elim got [ none ↦ done (false, (0, (t', s))) | some page ↦ write_page page f last t' s ]

    -- The loop, with the bytes that have been processed: whether the function goes on behind it,
    -- `aIsLastChunk`, and the states.
    unfoldable pub page_loop :
        ℕ
        → ℕ
        → ℕ
        → File
        → Bool
        → FlashTransfer M
        → S
        → Outcome (Bool × (Bool × (FlashTransfer M × S)))
    page_loop zero size total f last t s = out_of_fuel
    page_loop (suc fuel) size total f last t s =
        if total == size
        then done (true, (last, (t, s)))
        else (let erased = erase_current t in
            if ltb size total
            then done (true, (true, (erased, s)))
            else elim (round f last erased s) [
              | panicked ↦ panicked
              | out_of_fuel ↦ out_of_fuel
              | done (go_on, (processed, (t', s'))) ↦
                  let rest = page_loop fuel size (total + processed) f last t' s' in
                  if go_on then rest else done (false, (last, (t', s')))
            ])

    -- `updateFlashMemoryCrc32`: the checksum of what the memory holds.
    unfoldable pub checksum_loop : ℕ → ℕ → ℕ → ℕ → M → Outcome (ℕ × M)
    checksum_loop zero from to checksum m = out_of_fuel
    checksum_loop (suc fuel) from to checksum m =
        let size = min (sub32 to from) flash.geometry.write_block_size in
        let (got, m') =
          flash.read_block (write_block_offset flash.geometry from)
            (inner_offset flash.geometry from) size m in
        if from == to then done (checksum, m) else elim got [
          | none ↦ done (checksum, m')
          | some bytes ↦ checksum_loop fuel (add32 from size) to (update_crc32 checksum bytes) m'
        ]

    unfoldable pub update_memory_checksum : FlashTransfer M → Outcome (FlashTransfer M)
    update_memory_checksum t =
        if not t.state.ongoing
        then done t
        else elim (checksum_loop (sub32 t.state.address t.state.base_address + 1)
            t.state.base_address t.state.address t.state.memory_checksum t.memory) [
              | done (checksum, m) ↦
                  done
                    (record t { state = record t.state { memory_checksum = checksum }; memory = m })
              | panicked ↦ panicked
              | out_of_fuel ↦ out_of_fuel
            ]

    module _ (post : PostChunk M) where
      -- Behind the loop.
      unfoldable pub finish_chunk : Bool → FlashTransfer M → S → Outcome (FlashTransfer M × S)
      finish_chunk last t s = elim (if last then update_memory_checksum t else done t) [
        | panicked ↦ panicked
        | out_of_fuel ↦ out_of_fuel
        | done t1 ↦ elim (post t1.state last t1.memory) [
          | panicked ↦ panicked
          | out_of_fuel ↦ out_of_fuel
          | done m ↦
              done (record t1 { state = if last then reset_state else t1.state; memory = m }, s)
        ]
      ]

      -- Behind the checks and the lookup of the address.
      unfoldable pub flush_chunk : File → Bool → FlashTransfer M → S → Outcome (FlashTransfer M × S)
      flush_chunk f last t s =
          let t1 = erase_current t in
          let t2 = record t1 { state = record t1.state { ongoing = true } } in
          let (size, s1) = current_position fs f s in
          let s2 = (file_seek fs f 0 position_start s1).1 in
          elim (page_loop (size + 1) size 0 f last t2 s2) [
            | panicked ↦ panicked
            | out_of_fuel ↦ out_of_fuel
            | done (go_on, (last', (t3, s3))) ↦
                if go_on then finish_chunk last' t3 s3 else done (t3, s3)
          ]

      -- `onFileBufferingFinished`; the partition table gives the address for the hash of a name.
      unfoldable pub on_file_buffering_finished :
          (ℕ → Option ℕ) → Option File → Bool → FlashTransfer M → S → Outcome (FlashTransfer M × S)
      on_file_buffering_finished table none last t s = panicked
      on_file_buffering_finished table (some f) last t s =
          if not t.memory_provided
          then panicked
          else if not t.table_provided
          then panicked
          else if t.state.ongoing
          then flush_chunk f last t s
          else elim (table f.name_hash) [
            | none ↦ done (t, s)
            | some base ↦
                flush_chunk f last
                  (record t { state = record t.state { base_address = base; address = base } }) s
          ]

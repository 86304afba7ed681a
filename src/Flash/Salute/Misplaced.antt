-- ===== src/Flash/Salute/Misplaced.antt =====
-- A chunk that does not begin at the start of a page: where formatFlashMemoryPageContent of
-- process/FlashMemoryTransferImplementor.cpp puts it.
use esp32cam.Base.{
  ℕ, ◌+◌, ◌-◌, ◌*◌, ◌/◌, ◌%◌, ◌^◌, ◌≡◌, ◌≤◌, ◌<◌, ◌∙◌, ap, List, Bool, true, length, get_or,
  overwrite, take, drop, arith, min, length-take, length-drop, length-overwrite, add32,
}
use esp32cam.Storage.File.{File}
use esp32cam.Storage.Ram.{Ram, ram_fs}
use esp32cam.Storage.Ram.Inv.{IsValid}
use esp32cam.Storage.Flushing.{done}
use esp32cam.Flash.{FlashMemory}
use esp32cam.Flash.Crc.{update_crc32}
use esp32cam.Flash.Transfer.{FlushingState, FlashTransfer, write_page, format_page}
use esp32cam.Flash.Salute.{format_file_page}
use esp32cam.Flash.Salute.Laws.{IsFlash, get_or-copied}
use esp32cam.Flash.Salute.Spot.{on_zd35}
use esp32cam.Flash.Salute.Page.{file_read-eq}

module _ (f : File) (s : Ram) (v : IsValid s) (e : f.descriptor ≡ s.pool)
    (attached : f.attached ≡ true) {M : Type 0} (ops : FlashMemory M) (cell : M → ℕ → ℕ)
    (law : IsFlash M (on_zd35 ops) cell) where
  format_later :
      (total k : ℕ) (st : FlushingState) (page : List ℕ) (last : Bool)
      → st.base_address ≡ 0
      → 1 ≤ st.address
      → total ≤ s.next_write
      → k ≡ min 2048 (s.next_write - total)
      → format_file_page (on_zd35 ops) ram_fs st page f last (record s { current = total }) ≡ (
        (overwrite page 0 (take k (drop total s.bytes)), (k, k)),
        record s { current = total + k },
      )
  unfolding format_file_page format_page
  format_later total k st page last base later le h = ground (
    arith,
    base,
    file_read-eq f s v e attached 2048 total k le (ground arith),
    length-take k (drop total s.bytes),
    length-drop total s.bytes,
    v.block,
    v.written,
  )

  -- In a flash memory with the geometry of the ZD35X2 that works within its 2 ^ 28 bytes, behind the
  -- first page's header, wherever in a page of the memory the address stands, the next bytes of the
  -- file are written to the start of that page, over what has been written there, and the address
  -- moves on by their number.
  pub misplaced_lem :
      (total k : ℕ) (t : FlashTransfer M) (page : List ℕ) (last : Bool)
      → t.state.base_address ≡ 0
      → 1 ≤ t.state.address
      → t.state.address < 2 ^ 28
      → total < s.next_write
      → k ≡ min 2048 (s.next_write - total)
      → length page ≡ 2048
      → (m : M) × (c : ℕ) × (write_page
            (on_zd35 ops)
            ram_fs
            (format_file_page (on_zd35 ops) ram_fs)
            page
            f
            last
            t
            (record s { current = total })
          ≡ done (
            true,
            (
              k,
              (
                record t {
                  state = record t.state { address = add32 t.state.address k; buffer_checksum = c };
                  memory = m;
                },
                record s { current = total + k },
              ),
            ),
          ))
        × ((i : ℕ)
            → i < k
            → cell m (t.state.address / 2048 * 2048 + i) ≡ get_or s.bytes (total + i) 0)
  unfolding write_page
  misplaced_lem total k t page last base later inside le h len =
      let formatted = overwrite page 0 (take k (drop total s.bytes)) in
      let flen : length formatted ≡ 2048 =
        length-overwrite page 0 (take k (drop total s.bytes)) ∙ len in
      let (m, call, cells) =
        law.write_lem (t.state.address / 2048) 0 formatted t.memory (omega arith)
          (omega (arith, flen)) in
      let part = take k (drop (t.state.address % 2048) formatted) in
      let some_read : 1 ≤ k = ground arith in
      let start = t.state.address / 2048 * 2048 in
      (
        m,
        update_crc32 t.state.buffer_checksum part,
        ground (
          arith,
          format_later total k t.state page last base later (omega arith) h,
          call,
          some_read,
        ),
        λ i less.
            let at : start + i - (start + 0) ≡ 0 + i = omega arith in
            ground (
              arith,
              cells (start + i),
              flen,
              ap (λ x. get_or formatted x 0) at,
              get_or-copied page s.bytes 0 total k i less (ground (arith, v.block, v.written))
                  (ground arith),
            ),
      )

-- ===== src/Flash/Salute/Page.antt =====
-- One round of the loop of process/FlashMemoryTransferImplementor.cpp, with the pages of
-- process/SaluteFlashMemoryTransferImplementor.cpp, on a working ZD35X2.
use esp32cam.Base.{
  ℕ, ◌+◌, ◌-◌, ◌*◌, ◌/◌, ◌%◌, ◌^◌, ◌≡◌, ◌≤◌, ◌<◌, ◌∙◌, ap, List, Bool, true, if◌then◌else◌, length,
  get_or, overwrite, take, drop, arith, ltb, min, inl, inr, Bool-cases, length-take, length-drop,
  length-overwrite, add32,
}
use esp32cam.Storage.File.{File, file_read}
use esp32cam.Storage.Ram.{Ram, ram_fs}
use esp32cam.Storage.Ram.Inv.{IsValid, read-eq}
use esp32cam.Storage.Flushing.{done}
use esp32cam.Flash.{FlashMemory, within}
use esp32cam.Flash.Crc.{update_crc32}
use esp32cam.Flash.Transfer.{FlushingState, FlashTransfer, write_page, format_page}
use esp32cam.Flash.Salute.{format_file_page}
use esp32cam.Flash.Salute.Laws.{IsFlash, get_or-copied}
use esp32cam.Flash.Salute.Spot.{on_zd35, IsSpot, place, IsStored}

module _ (f : File) (s : Ram) (v : IsValid s) (e : f.descriptor ≡ s.pool)
    (attached : f.attached ≡ true) where
  -- Reading from a place in the file.
  pub file_read-eq :
      (size total n : ℕ)
      → total ≤ s.next_write
      → n ≡ min size (s.next_write - total)
      → file_read ram_fs f size (record s { current = total })
        ≡ (take n (drop total s.bytes), record s { current = total + n })
  unfolding file_read
  file_read-eq size total n le h = rw attached (
      read-eq f.descriptor
        (record { block = v.block; small = v.small; written = v.written; cursor = le }) size n e h)

  module _ {M : Type 0} (ops : FlashMemory M) where
    -- The page with the bytes that fit in it.
    pub format_file_page-eq :
        (n total k : ℕ) (st : FlushingState) (page : List ℕ) (last : Bool)
        → IsSpot n st
        → st.base_address ≡ 0
        → total ≤ s.next_write
        → k ≡ min (2048 - place n) (s.next_write - total)
        → format_file_page (on_zd35 ops) ram_fs st page f last (record s { current = total }) ≡ (
          (overwrite page (place n) (take k (drop total s.bytes)), (k + place n, k)),
          record s { current = total + k },
        )
    unfolding format_file_page format_page
    format_file_page-eq n total k st page last spot base le h =
        let e1 : 1 ≤ 2048 = omega arith in
        elim spot.1 [
          | inl (none_yet, start) ↦ ground (
            arith,
            base,
            file_read-eq 2044 total k le (ground arith),
            length-take k (drop total s.bytes),
            length-drop total s.bytes,
            v.block,
            v.written,
          )
          | inr (later, behind) ↦ ground (
            arith,
            base,
            file_read-eq 2048 total k le (ground arith),
            length-take k (drop total s.bytes),
            length-drop total s.bytes,
            v.block,
            v.written,
          )
        ]

  module _ {M : Type 0} (ops : FlashMemory M) (cell : M → ℕ → ℕ)
      (law : IsFlash M (on_zd35 ops) cell) (d : ℕ → ℕ) where
    -- The bytes of the file from a place on are those to be stored.
    abbrev pub Agrees : ℕ → ℕ → Type 0
    Agrees n total = (i : ℕ) → i < s.next_write - total → d (n + i) ≡ get_or s.bytes (total + i) 0

    -- The page that is written holds what was there and the next bytes.
    page-IsStored :
        (n total k : ℕ) (st : FlushingState) (page : List ℕ) (m m' : M)
        → IsSpot n st
        → total ≤ s.next_write
        → k ≡ min (2048 - place n) (s.next_write - total)
        → length page ≡ 2048
        → Agrees n total
        → IsStored cell d n m
        → (let formatted = overwrite page (place n) (take k (drop total s.bytes)) in
            let start = st.address / 2048 * 2048 + 0 in
            (i : ℕ)
            → cell m' i ≡ (
                if within start (length formatted) i
                then get_or formatted (i - start) 0
                else cell m i))
        → IsStored cell d (n + k) m'
    page-IsStored n total k st page m m' spot le h len agrees stored cells i less =
        let formatted = overwrite page (place n) (take k (drop total s.bytes)) in
        let flen : length formatted ≡ 2048 =
          length-overwrite page (place n) (take k (drop total s.bytes)) ∙ len in
        elim (Bool-cases (ltb i n)) [
          | inl old ↦ ground (arith, cells (4 + i), flen, stored i, spot)
          | inr new ↦
              let j = i - n in
              let byte =
                get_or-copied page s.bytes (place n) total k j (ground arith)
                  (ground (arith, v.block, v.written)) (ground arith) in
              let at : 4 + i - (st.address / 2048 * 2048 + 0) ≡ place n + j =
                ground (arith, spot) in
              let back : n + j ≡ i = ground arith in
              ground (
                arith,
                cells (4 + i),
                flen,
                spot,
                byte,
                ap (λ x. get_or formatted x 0) at,
                agrees j (ground arith),
                ap d back,
              )
        ]

    pub write_page_lem :
        (n total k : ℕ) (t : FlashTransfer M) (page : List ℕ) (last : Bool)
        → IsSpot n t.state
        → t.state.base_address ≡ 0
        → total < s.next_write
        → k ≡ min (2048 - place n) (s.next_write - total)
        → 4 + n + k ≤ 2 ^ 28
        → length page ≡ 2048
        → Agrees n total
        → IsStored cell d n t.memory
        → (m : M) × (c : ℕ) × (write_page
              (on_zd35 ops)
              ram_fs
              (format_file_page (on_zd35 ops) ram_fs)
              page
              f
              last
              t
              (record s { current = total })
            ≡ done (
              true,
              (
                k,
                (
                  record t {
                    state = record t.state { address = 4 + n + k; buffer_checksum = c };
                    memory = m;
                  },
                  record s { current = total + k },
                ),
              ),
            ))
          × IsStored cell d (n + k) m
    unfolding write_page
    write_page_lem n total k t page last spot base le h small len agrees stored =
        let formatted = overwrite page (place n) (take k (drop total s.bytes)) in
        let flen : length formatted ≡ 2048 =
          length-overwrite page (place n) (take k (drop total s.bytes)) ∙ len in
        let (m, call, cells) =
          law.write_lem (t.state.address / 2048) 0 formatted t.memory (ground (arith, spot))
            (omega (arith, flen)) in
        let part = take (k + place n) (drop (t.state.address % 2048) formatted) in
        let some_read : 1 ≤ k = ground arith in
        let next : add32 t.state.address (k + place n) ≡ 4 + n + k = ground (arith, spot) in
        (
          m,
          update_crc32 t.state.buffer_checksum part,
          ground (
            arith,
            format_file_page-eq ops n total k t.state page last spot base (omega arith) h,
            call,
            some_read,
            next,
          ),
          page-IsStored n total k t.state page t.memory m spot (omega arith) h len agrees stored
              cells,
        )

-- ===== src/Flash/Salute/Flush.antt =====
-- One call of `onFileBufferingFinished` of process/FlashMemoryTransferImplementor.cpp up to the end of
-- its loop, on a working ZD35X2.
use esp32cam.Base.{
  ℕ, ◌+◌, ◌/◌, ◌^◌, ◌≡◌, ◌≤◌, ◌∙◌, ap, refl, Bool, true, false, get_or, arith, min, add32, inl, inr,
}
use esp32cam.Storage.File.{File, position_start, position_current, current_position, file_seek}
use esp32cam.Storage.Ram.{Ram, ram_fs}
use esp32cam.Storage.Ram.Inv.{IsValid, seek-eq}
use esp32cam.Storage.Flushing.{done}
use esp32cam.Flash.{FlashMemory}
use esp32cam.Flash.Transfer.{FlashTransfer, erase_current, page_loop, finish_chunk, flush_chunk}
use esp32cam.Flash.Salute.{format_file_page, write_header}
use esp32cam.Flash.Salute.Laws.{IsFlash}
use esp32cam.Flash.Salute.Spot.{on_zd35, IsWritten}
use esp32cam.Flash.Salute.Loop.{page_loop_lem}

module _ (f : File) (s : Ram) (v : IsValid s) (e : f.descriptor ≡ s.pool)
    (attached : f.attached ≡ true) where
  -- The size of the file, and the cursor at its start.
  rewind_lem :
      s.current ≡ s.next_write
      → let (size, s1) = current_position ram_fs f s in
        (size ≡ s.next_write)
        × ((file_seek ram_fs f 0 position_start s1).1 ≡ record s { current = 0 })
  unfolding current_position file_seek
  rewind_lem at =
      let c = min (add32 s.current 0) s.next_write in
      let v1 : IsValid (record s { current = c }) = record {
        block = v.block;
        small = v.small;
        written = v.written;
        cursor = omega arith;
      } in
      let there = seek-eq f.descriptor v 0 position_current e in
      let back = seek-eq f.descriptor v1 0 position_start e in
      let start : min (add32 0 0) s.next_write ≡ 0 = omega arith in
      rw (attached, there) (at, ap (λ r. r.1) back ∙ ap (λ k. record s { current = k }) start)

  module _ {M : Type 0} (ops : FlashMemory M) (cell : M → ℕ → ℕ)
      (law : IsFlash M (on_zd35 ops) cell) where
    -- Behind the erasing and the loop.
    pub flush_chunk_loop :
        (t t1 t' : FlashTransfer M) (last : Bool) (s' : Ram)
        → s.current ≡ s.next_write
        → erase_current (on_zd35 ops) ram_fs t ≡ t1
        → page_loop
            (on_zd35 ops)
            ram_fs
            (format_file_page (on_zd35 ops) ram_fs)
            (s.next_write + 1)
            s.next_write
            0
            f
            last
            (record t1 { state = record t1.state { ongoing = true } })
            (record s { current = 0 })
          ≡ done (true, (last, (t', s')))
        → flush_chunk
            (on_zd35 ops)
            ram_fs
            (format_file_page (on_zd35 ops) ram_fs)
            (write_header (on_zd35 ops))
            f
            last
            t
            s
          ≡ finish_chunk
              (on_zd35 ops)
              ram_fs
              (format_file_page (on_zd35 ops) ram_fs)
              (write_header (on_zd35 ops))
              last
              t'
              s'
    unfolding flush_chunk
    flush_chunk_loop t t1 t' last s' at erasing run = ground (arith, erasing, rewind_lem at, run)

    erased :
        (t : FlashTransfer M) (m : M)
        → t.state.ongoing ≡ false
        → t.state.address ≡ 0
        → ops.erase_block 0 t.memory ≡ (true, m)
        → erase_current (on_zd35 ops) ram_fs t
          ≡ record t { state = record t.state { last_erased = 0 }; memory = m }
    unfolding erase_current
    erased t m rest start erase =
        let zeroth : t.state.address / 131072 ≡ 0 = omega arith in
        ground (arith, rest, zeroth, erase, ap (λ i. ops.erase_block i t.memory) zeroth)

    -- The first chunk: what the loop leaves.
    pub first_chunk_lem :
        (t : FlashTransfer M) (last : Bool)
        → t.state.ongoing ≡ false
        → t.state.base_address ≡ 0
        → t.state.address ≡ 0
        → s.current ≡ s.next_write
        → 1 ≤ s.next_write
        → 4 + s.next_write ≤ 2 ^ 28
        → (t' : FlashTransfer M) × (flush_chunk
              (on_zd35 ops)
              ram_fs
              (format_file_page (on_zd35 ops) ram_fs)
              (write_header (on_zd35 ops))
              f
              last
              t
              s
            ≡ finish_chunk
                (on_zd35 ops)
                ram_fs
                (format_file_page (on_zd35 ops) ram_fs)
                (write_header (on_zd35 ops))
                last
                t'
                (record s { current = s.next_write }))
          × (t'.state.address ≡ 4 + s.next_write)
          × IsWritten cell (λ i. get_or s.bytes i 0) s.next_write t'
    first_chunk_lem t last rest base start at some_byte small =
        let (m, erase, _) = law.erase_lem 0 t.memory (omega arith) in
        let t2 : FlashTransfer M = record t {
          state = record t.state { last_erased = 0; ongoing = true };
          memory = m;
        } in
        let w : IsWritten cell (λ i. get_or s.bytes i 0) 0 t2 = record {
          base = base;
          going = refl;
          erased = λ one. absurd (omega arith);
          stored = λ i less. absurd (omega arith);
        } in
        let (t', run, there, written) =
          page_loop_lem f s v e attached ops cell law (λ i. get_or s.bytes i 0) (s.next_write + 1) 0
            0 s.next_write t2 last (inr (some_byte, (ground arith, inl (refl, start)))) w
            (omega arith) (omega arith) (omega arith) (λ i less. refl) in
        (
          t',
          flush_chunk_loop t (record t { state = record t.state { last_erased = 0 }; memory = m })
              t' last (record s { current = s.next_write }) at (erased t m rest start erase) run,
          there,
          written,
        )

-- ===== src/Flash/Salute/Loop.antt =====
-- The loop of process/FlashMemoryTransferImplementor.cpp, with the pages of
-- process/SaluteFlashMemoryTransferImplementor.cpp, on a working ZD35X2.
use esp32cam.Base.{
  ℕ, zero, suc, ◌+◌, ◌-◌, ◌/◌, ◌%◌, ◌^◌, ◌≡◌, ◌≤◌, ◌<◌, ◌∙◌, sym, ap, refl, List, Bool, true, some,
  get_or, arith, ltb, min, ◌⊎◌, inl, inr, Bool-cases, subst,
}
use esp32cam.Storage.File.{File, FileSystem}
use esp32cam.Storage.Ram.{Ram, ram_fs}
use esp32cam.Storage.Ram.Inv.{IsValid}
use esp32cam.Storage.Flushing.{done}
use esp32cam.Flash.{FlashMemory}
use esp32cam.Flash.Transfer.{FlushingState, FlashTransfer, Format, round, write_page, page_loop}
use esp32cam.Flash.Salute.{format_file_page}
use esp32cam.Flash.Salute.Laws.{IsFlash}
use esp32cam.Flash.Salute.Spot.{on_zd35, IsSpot, place, IsStored, IsWritten, erase_current_lem}
use esp32cam.Flash.Salute.Page.{write_page_lem, Agrees}

round_of_read :
    {M S : Type 0} (flash : FlashMemory M) (fs : FileSystem S) (format : Format S) (f : File)
    (last : Bool) (t : FlashTransfer M) (s : S) (page : List ℕ) (m : M)
    → flash.read_block
        (t.state.address / flash.geometry.write_block_size)
        0
        flash.geometry.write_block_size
        t.memory
      ≡ (some page, m)
    → round flash fs format f last t s
      ≡ write_page flash fs format page f last (record t { memory = m }) s
unfolding round
round_of_read flash fs format f last t s page m h = ground (arith, h)

-- Behind a page, the loop is over or at the start of the next page.
next-IsSpot :
    (n total size k : ℕ) (st st' : FlushingState)
    → IsSpot n st
    → total < size
    → k ≡ min (2048 - place n) (size - total)
    → st'.address ≡ 4 + n + k
    → ((total + k ≡ size) × (st'.address ≡ 4 + (n + k))) ⊎ ((total + k < size) × IsSpot (n + k) st')
next-IsSpot n total size k st st' spot less h at = elim (Bool-cases (ltb (total + k) size)) [
  | inl more ↦ inr (ground arith, (ground (arith, spot), inr (ground (arith, spot), ground arith)))
  | inr over ↦ inl (ground arith, omega arith)
]

-- A page lies in one block.
same_block : (a x : ℕ) → a % 2048 ≡ 0 → a ≤ x → x < a + 2048 → a / 131072 ≡ x / 131072
same_block a x h lo hi = omega arith

module _ (f : File) (s : Ram) (v : IsValid s) (e : f.descriptor ≡ s.pool)
    (attached : f.attached ≡ true) {M : Type 0} (ops : FlashMemory M) (cell : M → ℕ → ℕ)
    (law : IsFlash M (on_zd35 ops) cell) (d : ℕ → ℕ) where
  -- What one round leaves, `k` bytes on.
  abbrev Moved : ℕ → ℕ → FlashTransfer M → FlashTransfer M → Type 0
  Moved n k t t' =
      (t'.state.address ≡ 4 + n + k)
      × (t'.state.base_address ≡ t.state.base_address)
      × (t'.state.ongoing ≡ t.state.ongoing)
      × (t'.state.last_erased ≡ t.state.last_erased)
      × IsStored cell d (n + k) t'.memory

  round_lem :
      (n total k : ℕ) (t : FlashTransfer M) (last : Bool)
      → IsSpot n t.state
      → t.state.base_address ≡ 0
      → total < s.next_write
      → k ≡ min (2048 - place n) (s.next_write - total)
      → 4 + n + k ≤ 2 ^ 28
      → Agrees f s v e attached ops cell law d n total
      → IsStored cell d n t.memory
      → (t' : FlashTransfer M) × (round
            (on_zd35 ops)
            ram_fs
            (format_file_page (on_zd35 ops) ram_fs)
            f
            last
            t
            (record s { current = total })
          ≡ done (true, (k, (t', record s { current = total + k }))))
        × Moved n k t t'
  round_lem n total k t last spot base le h small agrees stored =
      let (page, m1, call, len, _, same) =
        law.read_lem (t.state.address / 2048) 0 2048 t.memory (ground (arith, spot))
          (omega arith) in
      let (m, c, done_lem, now) =
        write_page_lem f s v e attached ops cell law d n total k (record t { memory = m1 }) page
          last spot base le h small len agrees (λ i less. same (4 + i) ∙ stored i less) in
      (
        record t {
          state = record t.state { address = 4 + n + k; buffer_checksum = c };
          memory = m;
        },
        round_of_read (on_zd35 ops) ram_fs (format_file_page (on_zd35 ops) ram_fs) f last t
              (record s { current = total }) page m1 call
            ∙ done_lem,
        (refl, refl, refl, refl, now),
      )

  -- One turn of the loop.
  turn_lem :
      (fuel n total k : ℕ) (t : FlashTransfer M) (last : Bool)
      → IsSpot n t.state
      → IsWritten cell d n t
      → total < s.next_write
      → k ≡ min (2048 - place n) (s.next_write - total)
      → 4 + n + k ≤ 2 ^ 28
      → Agrees f s v e attached ops cell law d n total
      → (t' : FlashTransfer M) × (page_loop
            (on_zd35 ops)
            ram_fs
            (format_file_page (on_zd35 ops) ram_fs)
            (suc fuel)
            s.next_write
            total
            f
            last
            t
            (record s { current = total })
          ≡ page_loop
              (on_zd35 ops)
              ram_fs
              (format_file_page (on_zd35 ops) ram_fs)
              fuel
              s.next_write
              (total + k)
              f
              last
              t'
              (record s { current = total + k }))
        × (t'.state.address ≡ 4 + n + k)
        × IsWritten cell d (n + k) t'
  unfolding page_loop
  turn_lem fuel n total k t last spot w le h small agrees =
      let (m, erasing, kept) = erase_current_lem ops cell law d n t spot (ground (arith, spot)) w in
      let (t', call, (at, base, going, block, now)) =
        round_lem n total k
          (record t {
            state = record t.state { last_erased = t.state.address / 131072 };
            memory = m;
          })
          last spot w.base le h small agrees kept in
      (
        t',
        ground (arith, erasing, call),
        at,
        record {
          base = base ∙ w.base;
          going = going ∙ w.going;
          erased = λ one. inl (
              block
              ∙ same_block t.state.address (4 + n + k - 1) spot.0 (ground (arith, spot))
                  (ground (arith, spot))
              ∙ ap (λ a. (a - 1) / 131072) (sym at));
          stored = now;
        },
      )

  Agrees-on :
      (n total k : ℕ)
      → Agrees f s v e attached ops cell law d n total
      → Agrees f s v e attached ops cell law d (n + k) (total + k)
  Agrees-on n total k agrees i inside =
      let p : n + k + i ≡ n + (k + i) = omega arith in
      let q : total + (k + i) ≡ total + k + i = omega arith in
      ap d p ∙ agrees (k + i) (omega arith) ∙ ap (λ j. get_or s.bytes j 0) q

  -- With more fuel than bytes are left, the loop writes them all behind those that are there.
  pub page_loop_lem :
      (fuel n total all : ℕ) (t : FlashTransfer M) (last : Bool)
      → ((total ≡ s.next_write) × (t.state.address ≡ 4 + n))
        ⊎ ((total < s.next_write) × IsSpot n t.state)
      → IsWritten cell d n t
      → s.next_write - total < fuel
      → n + (s.next_write - total) ≡ all
      → 4 + all ≤ 2 ^ 28
      → Agrees f s v e attached ops cell law d n total
      → (t' : FlashTransfer M) × (page_loop
            (on_zd35 ops)
            ram_fs
            (format_file_page (on_zd35 ops) ram_fs)
            fuel
            s.next_write
            total
            f
            last
            t
            (record s { current = total })
          ≡ done (true, (last, (t', record s { current = s.next_write }))))
        × (t'.state.address ≡ 4 + all)
        × IsWritten cell d all t'
  unfolding page_loop
  page_loop_lem zero n total all t last where_now w more sum small agrees = absurd (omega arith)
  page_loop_lem (suc fuel) n total all t last (inl (over, at)) w more sum small agrees =
      let same : n ≡ all = omega arith in
      (t, ground (arith, over), ground (arith, at), subst (λ j. IsWritten cell d j t) same w)
  page_loop_lem (suc fuel) n total all t last (inr (less, spot)) w more sum small agrees =
      let k = min (2048 - place n) (s.next_write - total) in
      let room : 1 ≤ k = ground arith in
      let (t1, turn, at, w1) =
        turn_lem fuel n total k t last spot w less refl (ground arith) agrees in
      let next = next-IsSpot n total s.next_write k t.state t1.state spot less refl at in
      let (t', loop, there, done_lem) =
        page_loop_lem fuel (n + k) (total + k) all t1 last next w1 (omega arith) (ground arith)
          small (Agrees-on n total k agrees) in
      (t', turn ∙ loop, there, done_lem)

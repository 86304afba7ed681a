-- ===== src/Flash/Salute/Finish.antt =====
-- What process/FlashMemoryTransferImplementor.cpp and process/SaluteFlashMemoryTransferImplementor.cpp
-- do behind the loop, on a working ZD35X2: the checksum of the memory and the header.
use esp32cam.Base.{
  ℕ, zero, suc, ◌+◌, ◌-◌, ◌*◌, ◌/◌, ◌%◌, ◌^◌, ◌≡◌, ◌≤◌, ◌<◌, ◌∙◌, ap, refl, true, false, length,
  get_or, overwrite, arith, ltb, ◌==◌, min, add32, sub32, Bool-cases, ◌⊎◌, inl, inr,
  length-overwrite,
}
use esp32cam.Storage.File.{FileSystem}
use esp32cam.Storage.Flushing.{done}
use esp32cam.Flash.{FlashMemory}
use esp32cam.Flash.Crc.{update_crc32}
use esp32cam.Flash.Transfer.{
  FlushingState, FlashTransfer, Format, checksum_loop, update_memory_checksum,
}
use esp32cam.Flash.Salute.{size_bytes, write_header, file_header_offset}
use esp32cam.Flash.Salute.Laws.{IsFlash, get_or-overwrite}
use esp32cam.Flash.Salute.Spot.{on_zd35}

zero_less : (i : ℕ) → i - 0 ≡ i
zero_less i = omega arith

pub zero_plus : (i : ℕ) → 0 + i ≡ i
zero_plus i = omega arith

next_aligned :
    (from to : ℕ)
    → (from % 2048 ≡ 0) ⊎ (from ≡ to)
    → (from == to) ≡ false
    → from ≤ to
    → to < 2 ^ 32
    → let next = add32 from (min (sub32 to from) 2048) in (next % 2048 ≡ 0) ⊎ (next ≡ to)
next_aligned from to at left le small = elim (Bool-cases (ltb (to - from) 2048)) [
  | inl short ↦ inr (ground arith)
  | inr full ↦ inl (ground arith)
]

module _ {M : Type 0} (ops : FlashMemory M) (cell : M → ℕ → ℕ)
    (law : IsFlash M (on_zd35 ops) cell) where
  abbrev pub Same : M → M → Type 0
  Same m m' = (i : ℕ) → cell m' i ≡ cell m i

  -- The checksum of the memory ends and changes nothing.
  checksum_loop_lem :
      {S : Type 0} (fs : FileSystem S) (format : Format S) (fuel from to c : ℕ) (m : M)
      → (from % 2048 ≡ 0) ⊎ (from ≡ to)
      → from ≤ to
      → to ≤ 2 ^ 28
      → to - from < fuel
      → (c' : ℕ) × (m' : M) × (checksum_loop (on_zd35 ops) fs format fuel from to c m
          ≡ done (c', m'))
        × Same m m'
  unfolding checksum_loop
  checksum_loop_lem fs format zero from to c m at le small more = absurd (omega arith)
  checksum_loop_lem fs format (suc fuel) from to c m at le small more =
      elim (Bool-cases (from == to)) [
        | inl over ↦ (c, m, ground (arith, over), λ i. refl)
        | inr left ↦
            let size = min (sub32 to from) 2048 in
            let next = add32 from size in
            let (bytes, m1, call, len, _, same) =
              law.read_lem (from / 2048) (from % 2048) size m (ground arith) (ground arith) in
            let (c', m', loop, kept) =
              checksum_loop_lem fs format fuel next to (update_crc32 c bytes) m1
                (next_aligned from to at left le (omega arith)) (ground arith) small
                (ground arith) in
            (c', m', ground (arith, left, call, loop), λ i. kept i ∙ same i)
      ]

  pub update_memory_checksum_lem :
      {S : Type 0} (fs : FileSystem S) (format : Format S) (t : FlashTransfer M)
      → t.state.base_address ≡ 0
      → t.state.address ≤ 2 ^ 28
      → (c : ℕ) × (m : M) × (update_memory_checksum (on_zd35 ops) fs format t
          ≡ done (record t { state = record t.state { memory_checksum = c }; memory = m }))
        × Same t.memory m
  unfolding update_memory_checksum
  update_memory_checksum_lem fs format t base small = elim (Bool-cases t.state.ongoing) [
    | inl going ↦
        let (c, m, loop, kept) =
          checksum_loop_lem fs format (sub32 t.state.address t.state.base_address + 1)
            t.state.base_address t.state.address t.state.memory_checksum t.memory
            (inl (ground (arith, base))) (omega arith) small (ground (arith, base)) in
        (c, m, ground (arith, going, loop), kept)
    | inr still ↦ (t.state.memory_checksum, t.memory, ground (arith, still), λ i. refl)
  ]

  -- The size of the file stands in the first four bytes, and the others stay.
  pub write_header_lem :
      (st : FlushingState) (size : ℕ) (m : M)
      → st.base_address ≡ 0
      → st.address ≡ 4 + size
      → 4 + size < 2 ^ 32
      → (m' : M) × (write_header (on_zd35 ops) st true m ≡ done m')
        × ((i : ℕ) → i < 4 → cell m' i ≡ get_or (size_bytes size) i 0)
        × ((i : ℕ) → 4 ≤ i → cell m' i ≡ cell m i)
  unfolding write_header
  write_header_lem st size m base at small =
      let id = st.base_address / 2048 in
      let (page, m1, read, len, bytes, same) =
        law.read_lem id 0 2048 m (ground (arith, base)) (omega arith) in
      let header = size_bytes (sub32 st.address file_header_offset) in
      let written = overwrite page 0 header in
      let wlen : length written ≡ 2048 = length-overwrite page 0 header ∙ len in
      let (m2, write, cells) =
        law.write_lem id 0 written m1 (ground (arith, base)) (omega (arith, wlen)) in
      let value : sub32 st.address 4 ≡ size = ground (arith, at) in
      let start : id * 2048 + 0 ≡ 0 = ground (arith, base) in
      (
        m2,
        ground (arith, read, write),
        (λ i less. ground (
          arith,
          cells i,
          wlen,
          start,
          ap (λ x. get_or written (i - x) 0) start,
          len,
          get_or-overwrite page header 0 i (omega (arith, len)),
          ap (λ x. get_or header x 0) (zero_less i),
          ap (λ x. get_or written x 0) (zero_less i),
          ap (λ x. get_or (size_bytes x) i 0) value,
        )),
        λ i more. ground (
          arith,
          cells i,
          wlen,
          start,
          ap (λ x. get_or written (i - x) 0) start,
          len,
          get_or-overwrite page header 0 i (omega (arith, len)),
          ap (λ x. get_or written x 0) (zero_less i),
          bytes i,
          same i,
          ap (λ x. cell m (x + i)) start,
          ap (cell m) (zero_plus i),
        ),
      )

-- ===== src/Flash/Salute/Spot.antt =====
-- Where the next byte of a file stands in a working ZD35X2, and the erasing in front of it:
-- process/FlashMemoryTransferImplementor.cpp.
use esp32cam.Base.{
  ℕ, ◌+◌, ◌-◌, ◌*◌, ◌/◌, ◌%◌, ◌^◌, ◌≡◌, ◌≤◌, ◌<◌, ◌∙◌, true, false, if◌then◌else◌, arith, ◌==◌, ◌⊎◌,
  inl, inr, Bool-cases,
}
use esp32cam.Storage.Ram.{ram_fs}
use esp32cam.Flash.{FlashMemory, within}
use esp32cam.Flash.Zd35.{zd35x2}
use esp32cam.Flash.Transfer.{FlushingState, FlashTransfer, erase_current}
use esp32cam.Flash.Salute.Laws.{IsFlash}

-- A flash memory with the geometry of the ZD35X2.
abbrev pub on_zd35 : {M : Type 0} → FlashMemory M → FlashMemory M
on_zd35 flash = record flash { geometry = zd35x2 }

-- Where the next byte stands: behind the header of the first page, or at the start of a later one.
abbrev pub IsSpot : ℕ → FlushingState → Type 0
IsSpot n st =
    (st.address % 2048 ≡ 0)
    × (((n ≡ 0) × (st.address ≡ 0)) ⊎ ((1 ≤ st.address) × (st.address ≡ 4 + n)))

abbrev pub place : ℕ → ℕ
place n = if n == 0 then 4 else 0

module _ {M : Type 0} (cell : M → ℕ → ℕ) (d : ℕ → ℕ) where
  -- The first `n` bytes stand behind the header.
  abbrev pub IsStored : ℕ → M → Type 0
  IsStored n m = (i : ℕ) → i < n → cell m (4 + i) ≡ d i

  -- A file of which `n` bytes have been written is in the memory.
  pub record IsWritten (n : ℕ) (t : FlashTransfer M) : Type 0 where
    pub base : t.state.base_address ≡ 0
    pub going : t.state.ongoing ≡ true
    pub erased :
        1 ≤ t.state.address
        → (t.state.last_erased ≡ (t.state.address - 1) / 131072)
          ⊎ (t.state.last_erased ≡ t.state.address / 131072)
    pub stored : IsStored n t.memory

-- The block of the next page is not the one that was erased last only where it begins.
block_start :
    (a b : ℕ)
    → a % 2048 ≡ 0
    → 1 ≤ a
    → (b ≡ (a - 1) / 131072) ⊎ (b ≡ a / 131072)
    → (b == a / 131072) ≡ false
    → a / 131072 * 131072 ≡ a
block_start a b h one k other = ground arith

module _ {M : Type 0} (ops : FlashMemory M) (cell : M → ℕ → ℕ) (law : IsFlash M (on_zd35 ops) cell)
    (d : ℕ → ℕ) where
  -- Erasing the block of the next page keeps what has been written.
  pub erase_current_lem :
      (n : ℕ) (t : FlashTransfer M)
      → IsSpot n t.state
      → t.state.address < 2 ^ 28
      → IsWritten cell d n t
      → (m : M) × (erase_current (on_zd35 ops) ram_fs t ≡ record t {
        state = record t.state { last_erased = t.state.address / 131072 };
        memory = m;
      })
        × IsStored cell d n m
  unfolding erase_current
  erase_current_lem n t spot inside w =
      elim (Bool-cases (t.state.last_erased == t.state.address / 131072)) [
        | inl same ↦ (t.memory, ground (arith, w.going), w.stored)
        | inr other ↦
            let id = t.state.address / 131072 in
            let (m, call, kept) = law.erase_lem id t.memory (omega arith) in
            (
              m,
              ground (arith, w.going, call),
              λ i less. kept (4 + i) (away i less other) ∙ w.stored i less,
            )
      ]
    where
      away :
          (i : ℕ)
          → i < n
          → (t.state.last_erased == t.state.address / 131072) ≡ false
          → within (t.state.address / 131072 * 131072) 131072 (4 + i) ≡ false
      away i less other = elim spot.1 [
        | inl first ↦ absurd (omega arith)
        | inr later ↦ ground (
          arith,
          block_start t.state.address t.state.last_erased spot.0 later.0 (w.erased later.0) other,
        )
      ]

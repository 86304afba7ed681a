-- ===== src/Flash/Salute/Working.antt =====
-- When components/zd35/zd35/FlashMemory.cpp is the flash memory that the transfer relies on.
use esp32cam.Base.{
  ℕ, ◌+◌, ◌*◌, ◌^◌, ◌≡◌, ◌≤◌, ◌<◌, List, true, false, some, length, get_or, ◌-◌, if◌then◌else◌, ap,
  ◌∙◌, arith, add32,
}
use esp32cam.Flash.{within, write_block_address, erase_block_address}
use esp32cam.Flash.Zd35.{
  EspFlash, zd35x2, chip_id, zd35_memory, make_geometry, write_block, read_block, erase_block,
}
use esp32cam.Flash.Salute.Laws.{IsFlash}
use esp32cam.Flash.Salute.Spot.{on_zd35}

-- What the memory needs of `esp_flash_write`, `esp_flash_read` and `esp_flash_erase_region` to keep
-- what FlashMemory.hpp demands of a write block, for a chip of 2 ^ 28 bytes without a fault that
-- stores what is written: a call within the chip succeeds and concerns the bytes of its range.
pub record IsEspFlash (F : Type 0) (esp : EspFlash F) (cell : F → ℕ → ℕ) : Type 0 where
  pub write_lem :
      (bytes : List ℕ) (address : ℕ) (f : F)
      → address + length bytes ≤ 2 ^ 28
      → (f' : F) × (esp.write f bytes address ≡ (true, f'))
        × ((i : ℕ)
            → cell f' i ≡ (
                if within address (length bytes) i then get_or bytes (i - address) 0 else cell f i))
  pub read_lem :
      (address n : ℕ) (f : F)
      → address + n ≤ 2 ^ 28
      → (bytes : List ℕ) × (f' : F) × (esp.read f address n ≡ (some bytes, f'))
        × (length bytes ≡ n)
        × ((i : ℕ) → i < n → get_or bytes i 0 ≡ cell f (address + i))
        × ((i : ℕ) → cell f' i ≡ cell f i)
  pub erase_lem :
      (address n : ℕ) (f : F)
      → address + n ≤ 2 ^ 28
      → (f' : F) × (esp.erase_region f address n ≡ (true, f'))
        × ((i : ℕ) → within address n i ≡ false → cell f' i ≡ cell f i)

block_address :
    (id offset n : ℕ)
    → id * 2048 + 2048 ≤ 2 ^ 28
    → offset + n ≤ 2048
    → add32 (write_block_address zd35x2 id) offset ≡ id * 2048 + offset
block_address id offset n inside fits = omega arith

module _ {F : Type 0} (esp : EspFlash F) (cell : F → ℕ → ℕ) (law : IsEspFlash F esp cell) where
  geometry_lem : (chip : F) → esp.chip_id chip ≡ chip_id → make_geometry esp true chip ≡ zd35x2
  unfolding make_geometry
  geometry_lem chip same = ground (arith, same)

  -- The memory of a chip that is there, is a ZD35X2 and works, is a flash memory that works.
  pub zd35_memory-IsFlash :
      (chip : F) → esp.chip_id chip ≡ chip_id → IsFlash F (on_zd35 (zd35_memory esp true chip)) cell
  unfolding write_block read_block erase_block
  zd35_memory-IsFlash chip same =
      let g = make_geometry esp true chip in
      let geometry : g ≡ zd35x2 = geometry_lem chip same in
      record {
        write_lem = λ id offset bytes f inside fits.
            let at : add32 (write_block_address g id) offset ≡ id * 2048 + offset =
              ap (λ h. add32 (write_block_address h id) offset) geometry
              ∙ block_address id offset (length bytes) inside fits in
            let (f', call, cells) = law.write_lem bytes (id * 2048 + offset) f (omega arith) in
            (f', ap (esp.write f bytes) at ∙ call, cells);
        read_lem = λ id offset n f inside fits.
            let at : add32 (write_block_address g id) offset ≡ id * 2048 + offset =
              ap (λ h. add32 (write_block_address h id) offset) geometry
              ∙ block_address id offset n inside fits in
            let (bytes, f', call, size, read, kept) =
              law.read_lem (id * 2048 + offset) n f (omega arith) in
            (bytes, f', ap (λ a. esp.read f a n) at ∙ call, size, read, kept);
        erase_lem = λ id f inside.
            let at : erase_block_address zd35x2 id ≡ id * 131072 = omega arith in
            let (f', call, rest) = law.erase_lem (id * 131072) 131072 f inside in
            (
              f',
              ap (λ h. esp.erase_region f (erase_block_address h id) h.erase_block_size) geometry
                  ∙ ap (λ a. esp.erase_region f a 131072) at
                  ∙ call,
              rest,
            );
      }

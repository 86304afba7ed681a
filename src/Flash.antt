-- ===== src/Flash.antt =====
-- components/system/system/middleware/FlashMemory.hpp and FlashMemoryGeometry.hpp: a flash memory as
-- write blocks and erase blocks.
use esp32cam.Base.{
  ℕ, ◌+◌, ◌*◌, ◌/◌, ◌%◌, ◌^◌, List, Bool, true, false, Option, some, leb, ltb, ◌&&◌, if◌then◌else◌,
  length, get_or, ◌-◌,
}
pub mod Crc
pub mod Zd35
pub mod Transfer
pub mod Salute
mod Tests

-- `FlashMemoryGeometry`.
pub record Geometry : Type 0 where
  pub write_block_size : ℕ
  pub erase_block_size : ℕ
  pub n_erase_blocks : ℕ

module _ (g : Geometry) where
  abbrev pub write_block_address : ℕ → ℕ
  write_block_address offset = (offset * g.write_block_size) % 2 ^ 32

  abbrev pub erase_block_address : ℕ → ℕ
  erase_block_address offset = (offset * g.erase_block_size) % 2 ^ 32

  abbrev pub erase_block_offset : ℕ → ℕ
  erase_block_offset address = address / g.erase_block_size

  abbrev pub write_block_offset : ℕ → ℕ
  write_block_offset address = address / g.write_block_size

  abbrev pub inner_offset : ℕ → ℕ
  inner_offset address = address % g.write_block_size

-- The virtual functions of `FlashMemory` over the states `M` of an implementation: whether the call
-- succeeds, and the new state. `read_block` gives the bytes that it copied out.
pub record FlashMemory (M : Type 0) : Type 0 where
  pub geometry : Geometry
  pub write_block : ℕ → ℕ → List ℕ → M → Bool × M
  pub read_block : ℕ → ℕ → ℕ → M → Option (List ℕ) × M
  pub erase_block : ℕ → M → Bool × M

-- Whether `i` is one of the `n` places from `start` on.
abbrev pub within : ℕ → ℕ → ℕ → Bool
within start n i = leb start i && ltb i (start + n)

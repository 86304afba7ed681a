-- ===== src/Flash/Zd35.antt =====
-- components/zd35/zd35/FlashMemory.cpp and zd35_defs.hpp: the ZD35X2 behind the flash driver of ESP-IDF,
-- which is an interface here.
use esp32cam.Base.{ℕ, ◌*◌, List, Bool, true, false, Option, none, ◌==◌, if◌then◌else◌, add32}
use esp32cam.Flash.{Geometry, FlashMemory, write_block_address, erase_block_address}

-- `esp_flash_write`, `esp_flash_read` and `esp_flash_erase_region`, with `ESP_OK` as success.
pub record EspFlash (F : Type 0) : Type 0 where
  pub chip_id : F → ℕ
  pub write : F → List ℕ → ℕ → Bool × F
  pub read : F → ℕ → ℕ → Option (List ℕ) × F
  pub erase_region : F → ℕ → ℕ → Bool × F

-- `Zd35x2`.
abbrev pub chip_id : ℕ
chip_id = 11300

abbrev pub page_size : ℕ
page_size = 2048

abbrev pub block_size_pages : ℕ
block_size_pages = 64

abbrev pub block_size_bytes : ℕ
block_size_bytes = block_size_pages * page_size

abbrev pub plane_size_blocks : ℕ
plane_size_blocks = 1024

abbrev pub capacity_blocks : ℕ
capacity_blocks = 2 * plane_size_blocks

abbrev pub zd35x2 : Geometry
zd35x2 = record {
  write_block_size = page_size;
  erase_block_size = block_size_bytes;
  n_erase_blocks = capacity_blocks;
}

module _ {F : Type 0} (esp : EspFlash F) where
  -- `makeFlashMemoryGeometryFromEspFlash`, of whether there is an `esp_flash_t` and of its state.
  unfoldable pub make_geometry : Bool → F → Geometry
  make_geometry false f = record { write_block_size = 0; erase_block_size = 0; n_erase_blocks = 0 }
  make_geometry true f =
      if esp.chip_id f == chip_id
      then zd35x2
      else record { write_block_size = 0; erase_block_size = 0; n_erase_blocks = 0 }

  module _ (g : Geometry) where
    unfoldable pub write_block : Bool → ℕ → ℕ → List ℕ → F → Bool × F
    write_block false id offset bytes f = (false, f)
    write_block true id offset bytes f = esp.write f bytes (add32 (write_block_address g id) offset)

    unfoldable pub read_block : Bool → ℕ → ℕ → ℕ → F → Option (List ℕ) × F
    read_block false id offset n f = (none, f)
    read_block true id offset n f = esp.read f (add32 (write_block_address g id) offset) n

    unfoldable pub erase_block : Bool → ℕ → F → Bool × F
    erase_block false id f = (false, f)
    erase_block true id f = esp.erase_region f (erase_block_address g id) g.erase_block_size

  -- The constructor: the pointer is null or not from then on, and the geometry is that of the chip
  -- as it is found.
  abbrev pub zd35_memory : Bool → F → FlashMemory F
  zd35_memory present f =
      let g = make_geometry present f in
      record {
        geometry = g;
        write_block = write_block g present;
        read_block = read_block g present;
        erase_block = erase_block g present;
      }

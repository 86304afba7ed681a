-- ===== src/Flash/Salute/Complete.antt =====
-- A buffered file reaches a working ZD35X2 completely: process/FlashMemoryTransferImplementor.cpp and
-- process/SaluteFlashMemoryTransferImplementor.cpp over the RAM file.
use esp32cam.Base.{ℕ, ◌+◌, ◌≡◌, ◌<◌, get_or}
use esp32cam.Storage.File.{FileSystem, File}
use esp32cam.Storage.Ram.{Ram}
use esp32cam.Flash.{FlashMemory}
use esp32cam.Flash.Salute.{size_bytes}
use esp32cam.Flash.Salute.Laws.{IsFlash}
use esp32cam.Flash.Salute.Spot.{on_zd35}

module _ {M : Type 0} (ops : FlashMemory M) (cell : M → ℕ → ℕ) (law : IsFlash M (on_zd35 ops) cell)
    (d : ℕ → ℕ) {S : Type 0} (fs : FileSystem S) where
  -- The file behind its size.
  abbrev pub IsFile : (ℕ → ℕ) → ℕ → M → Type 0
  IsFile bytes size m =
      ((i : ℕ) → i < 4 → cell m i ≡ get_or (size_bytes size) i 0)
      × ((i : ℕ) → i < size → cell m (4 + i) ≡ bytes i)

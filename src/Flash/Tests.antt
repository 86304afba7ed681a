-- ===== src/Flash/Tests.antt =====
-- The transfer into a flash memory that is a function from addresses to bytes.
use esp32cam.Base.{
  ℕ, zero, suc, ◌+◌, ◌-◌, ◌≡◌, ◌<◌, ◌∙◌, ap, refl, List, [], ◌∷◌, true, false, some, if◌then◌else◌,
  length, get_or, replicate, arith, length-replicate,
}
use esp32cam.Storage.File.{File}
use esp32cam.Storage.Ram.{Ram, ram_fs}
use esp32cam.Storage.Ram.Inv.{IsValid}
use esp32cam.Storage.Flushing.{done}
use esp32cam.Flash.{FlashMemory, within}
use esp32cam.Flash.Zd35.{EspFlash, zd35_memory}
use esp32cam.Flash.Salute.Working.{IsEspFlash, zd35_memory-IsFlash}
use esp32cam.Flash.Crc.{initial_crc32, update_crc32, calculate_crc32}
use esp32cam.Flash.Crc.Bits.{crc_bits, update_crc32-crc_bits}
use esp32cam.Flash.Transfer.{FlashTransfer, reset_state, write_page}
use esp32cam.Flash.Salute.{show, format_file_page}
use esp32cam.Flash.Salute.Laws.{IsFlash}
use esp32cam.Flash.Salute.Spot.{on_zd35}
use esp32cam.Flash.Salute.Misplaced.{misplaced_lem}

abbrev Cells : Type 0
Cells = ℕ → ℕ

-- The cells from a place on.
abbrev window : Cells → ℕ → ℕ → List ℕ
window m start zero = []
window m start (suc n) = m start ∷ window m (suc start) n

length-window : (m : Cells) (start n : ℕ) → length (window m start n) ≡ n
length-window m start zero = refl
length-window m start (suc n) = ap suc (length-window m (suc start) n)

get_or-window : (m : Cells) (start n i : ℕ) → i < n → get_or (window m start n) i 0 ≡ m (start + i)
get_or-window m start zero i h = absurd (omega arith)
get_or-window m start (suc n) zero h = let e : start ≡ start + 0 = omega arith in ap m e
get_or-window m start (suc n) (suc i) h =
    let e : suc start + i ≡ start + suc i = omega arith in
    get_or-window m (suc start) n i (omega arith) ∙ ap m e

abbrev put : ℕ → List ℕ → Cells → Cells
put start bytes m i = if within start (length bytes) i then get_or bytes (i - start) 0 else m i

abbrev wipe : ℕ → ℕ → Cells → Cells
wipe start n m i = if within start n i then 255 else m i

-- A driver for a chip without a fault.
abbrev driver : EspFlash Cells
driver = record {
  chip_id = λ m. 11300;
  write = λ m bytes address. (true, put address bytes m);
  read = λ m address n. (some (window m address n), m);
  erase_region = λ m address n. (true, wipe address n m);
}

abbrev at_place : Cells → ℕ → ℕ
at_place m i = m i

driver-IsEspFlash : IsEspFlash Cells driver at_place
driver-IsEspFlash = record {
  write_lem = λ bytes address m h. (put address bytes m, refl, λ i. refl);
  read_lem = λ address n m h. (
    window m address n,
    m,
    refl,
    length-window m address n,
    (λ i less. get_or-window m address n i less),
    λ i. refl,
  );
  erase_lem = λ address n m h. (wipe address n m, refl, λ i away. ground (arith, away));
}

abbrev erased : Cells
erased i = 255

-- `Zd35::FlashMemory` over that driver, on an erased chip.
abbrev cells : FlashMemory Cells
cells = zd35_memory driver true erased

cells-IsFlash : IsFlash Cells (on_zd35 cells) at_place
cells-IsFlash = zd35_memory-IsFlash driver at_place driver-IsEspFlash erased refl

-- Three bytes wait in a block of four.
abbrev buffer : Ram
buffer = record {
  pool = 4096;
  bytes = 7 ∷ 8 ∷ 9 ∷ 0 ∷ [];
  deletes = 0;
  pool_size = 4;
  next_write = 3;
  current = 3;
}

abbrev file : File
file = record { descriptor = 4096; attached = true; name_hash = calculate_crc32 show }

buffer-IsValid : IsValid buffer
buffer-IsValid = record {
  block = omega arith;
  small = omega arith;
  written = omega arith;
  cursor = omega arith;
}

abbrev idle : FlashTransfer Cells
idle = record {
  memory_provided = true;
  table_provided = true;
  state = reset_state;
  memory = erased;
}

-- One page has been written, and the address is at the next.
abbrev working : FlashTransfer Cells
working = record idle { state = record reset_state { address = 2048; ongoing = true } }

abbrev image : ℕ → ℕ
image i = if within 2044 3 i then get_or (7 ∷ 8 ∷ 9 ∷ 0 ∷ []) (i - 2044) 0 else 255

-- Seven bytes have been written, and the next would stand at 7.
abbrev within_page : FlashTransfer Cells
within_page = record idle { state = record reset_state { address = 7; ongoing = true } }

misplaced_example :
    (m : Cells) × (c : ℕ) × (write_page
        (on_zd35 cells)
        ram_fs
        (format_file_page (on_zd35 cells) ram_fs)
        (replicate 2048 255)
        file
        false
        within_page
        (record buffer { current = 0 })
      ≡ done (
        true,
        (
          3,
          (
            record within_page {
              state = record within_page.state { address = 10; buffer_checksum = c };
              memory = m;
            },
            buffer,
          ),
        ),
      ))
    × ((i : ℕ) → i < 3 → m (0 + i) ≡ get_or (7 ∷ 8 ∷ 9 ∷ 0 ∷ []) (0 + i) 0)
misplaced_example =
    misplaced_lem file buffer buffer-IsValid refl refl cells at_place cells-IsFlash 0 3 within_page
      (replicate 2048 255) false refl (omega arith) (omega arith) (omega arith) refl
      (length-replicate {A = ℕ} 2048 255)

-- The characters of "123".
abbrev characters : List ℕ
characters = 49 ∷ 50 ∷ 51 ∷ []

characters_below : (i : ℕ) → get_or characters i 0 < 256
characters_below zero = omega arith
characters_below (suc zero) = omega arith
characters_below (suc (suc zero)) = omega arith
characters_below (suc (suc (suc i))) = omega arith

update_crc32_example : update_crc32 initial_crc32 characters ≡ crc_bits initial_crc32 characters
update_crc32_example = update_crc32-crc_bits initial_crc32 characters characters_below

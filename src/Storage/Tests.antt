-- ===== src/Storage/Tests.antt =====
-- The storage at concrete inputs.
use esp32cam.Base.{ℕ, ◌≡◌, ◌-◌, ◌^◌, List, [], ◌∷◌, refl, arith, replicate}
use esp32cam.Storage.Bounded.{Call, appends, reads, seeks, count, bytes_read}
use esp32cam.Storage.File.{position_start, position_current, position_end}
use esp32cam.Storage.Ram.{Ram, Block, append, seek, read, run}
use esp32cam.Storage.Ram.Inv.{IsValid}
use esp32cam.Storage.Ram.Refine.{view}
use esp32cam.Storage.Ram.Documented.{run_documented}
use esp32cam.Storage.Documented
use esp32cam.Storage.Documented.{masked}
use esp32cam.Storage.Ram.Lifecycle.{IsBlock}

-- An allocator that always succeeds.
abbrev new_block : ℕ → Block
new_block n = record { address = 4096; bytes = replicate n 0 }

-- A file of three bytes in a block of four, with the cursor on the second.
abbrev half_read : Ram
half_read = record {
  pool = 4096;
  bytes = 7 ∷ 8 ∷ 9 ∷ 0 ∷ [];
  deletes = 0;
  pool_size = 4;
  next_write = 3;
  current = 1;
}

abbrev session : List Call
session = reads 1 ∷ appends (5 ∷ 6 ∷ 4 ∷ []) ∷ seeks 0 position_start ∷ reads 9 ∷ []

run_replies :
    (run 4096 session half_read).0
    ≡ bytes_read (8 ∷ []) ∷ count 2 ∷ count 4 ∷ bytes_read (7 ∷ 8 ∷ 5 ∷ 6 ∷ []) ∷ []
unfolding run read append seek
run_replies = refl

-- Reading, a byte at the end, and the file from its start.
abbrev orderly : List Call
orderly =
    reads 1
    ∷ seeks 0 position_end
    ∷ appends (5 ∷ [])
    ∷ seeks (2 ^ 32 - 4) position_current
    ∷ reads 9
    ∷ []

run_documented_example :
    let (out, s') = run 4096 orderly half_read in
    let (told, f) = Documented.run orderly (view half_read) in
    (masked orderly out ≡ masked orderly told) × (view s' ≡ f) × IsValid s'
unfolding esp32cam.Storage.Bounded.read Documented.seek Documented.append
run_documented_example =
    run_documented 4096 orderly half_read (omega arith) refl
      (omega arith, refl, (refl, omega arith, (omega arith, refl, tt)))

new_block-IsBlock : IsBlock 4 (new_block 4)
new_block-IsBlock = omega arith

-- ===== src/Storage/Documented.antt =====
-- What storage/FileSystem.hpp documents of an open file in a bounded store, where it says what happens.
use esp32cam.Base.{
  ℕ, ◌+◌, ◌-◌, ◌^◌, ◌≡◌, ◌≤◌, ◌<◌, List, [], ◌∷◌, ◌++◌, Bool, true, length, if◌then◌else◌, ltb, leb,
}
use esp32cam.Storage.Bounded.{
  Bounded, origin_of, read, Call, appends, reads, seeks, Reply, count, bytes_read,
}
use esp32cam.Storage.File.{Position}

-- All the bytes are written, and their number is returned, or nothing is and 0 is returned. The
-- cursor is at the end of the file.
unfoldable pub append : List ℕ → Bounded → ℕ × Bounded
append b f =
    if leb (f.cursor + length b) f.capacity
    then (length b, record f { bytes = f.bytes ++ b; cursor = f.cursor + length b })
    else (0, f)

-- A place at a signed distance, given as its 32-bit pattern, and whether it is in the file.
abbrev pub moved : ℕ → ℕ → ℕ
moved base off = if ltb off (2 ^ 31) then base + off else base - (2 ^ 32 - off)

abbrev pub in_file : ℕ → ℕ → ℕ → Bool
in_file base off size = if ltb off (2 ^ 31) then leb (base + off) size else leb (2 ^ 32 - off) base

-- The new position is returned.
unfoldable pub seek : ℕ → Position → Bounded → ℕ × Bounded
seek off origin f =
    let place = moved (origin_of origin f) off in (place, record f { cursor = place })

unfoldable pub run : List Call → Bounded → List Reply × Bounded
run [] f = ([], f)
run (appends b ∷ calls) f =
    let (n, f') = append b f in let (out, f'') = run calls f' in (count n ∷ out, f'')
run (reads n ∷ calls) f =
    let (b, f') = read n f in let (out, f'') = run calls f' in (bytes_read b ∷ out, f'')
run (seeks off origin ∷ calls) f =
    let (n, f') = seek off origin f in let (out, f'') = run calls f' in (count n ∷ out, f'')

-- Each append is at the end of the file and fits in the store, and each seek stays in the file.
abbrev pub Within : List Call → Bounded → Type 0
Within [] f = Unit {0}
Within (appends b ∷ calls) f =
    (f.cursor ≡ length f.bytes) × (f.cursor + length b ≤ f.capacity) × Within calls (append b f).1
Within (reads n ∷ calls) f = Within calls (read n f).1
Within (seeks off origin ∷ calls) f =
    (off < 2 ^ 32)
    × (in_file (origin_of origin f) off (length f.bytes) ≡ true)
    × Within calls (seek off origin f).1

-- The replies, without the positions that seeks return.
unfoldable pub masked : List Call → List Reply → List Reply
masked [] out = out
masked (call ∷ calls) [] = []
masked (seeks off origin ∷ calls) (r ∷ out) = masked calls out
masked (appends b ∷ calls) (r ∷ out) = r ∷ masked calls out
masked (reads n ∷ calls) (r ∷ out) = r ∷ masked calls out

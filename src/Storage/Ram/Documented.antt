-- ===== src/Storage/Ram/Documented.antt =====
-- The RAM file of storage/SingleBufferRamFileSystem.cpp against the documentation of FileSystem.hpp.
use esp32cam.Base.{
  ℕ, ◌+◌, ◌-◌, ◌≡◌, ◌≤◌, ◌<◌, ◌^◌, List, [], ◌∷◌, refl, ap, ◌∙◌, true, arith, length,
  take_of_length-le, length-append,
}
use esp32cam.Storage.Bounded
use esp32cam.Storage.Bounded.{
  Bounded, origin_of, target, Call, appends, reads, seeks, Reply, count, bytes_read,
}
use esp32cam.Storage.Documented
use esp32cam.Storage.Documented.{Within, in_file, moved, masked}
use esp32cam.Storage.File.{Position, position_start, position_current, position_end}
use esp32cam.Storage.Ram.{Ram, run}
use esp32cam.Storage.Ram.Inv.{IsValid}
use esp32cam.Storage.Ram.Refine.{view, length-content, InRange, run_refines}

append-documented :
    (b : List ℕ) (f : Bounded)
    → f.cursor ≡ length f.bytes
    → f.cursor + length b ≤ f.capacity
    → Bounded.append b f ≡ Documented.append b f
unfolding Bounded.append Documented.append
append-documented b f at fits = ground (
  arith,
  take_of_length-le f.cursor f.bytes (omega arith),
  take_of_length-le (f.capacity - f.cursor) b (omega arith),
)

target-moved :
    (base off size : ℕ)
    → base ≤ size
    → off < 2 ^ 32
    → in_file base off size ≡ true
    → target base off size ≡ moved base off
unfolding target
target-moved base off size inside small h = ground arith

seek-documented :
    (off : ℕ) (origin : Position) (f : Bounded)
    → f.cursor ≤ length f.bytes
    → off < 2 ^ 32
    → in_file (origin_of origin f) off (length f.bytes) ≡ true
    → (Bounded.seek off origin f).1 ≡ (Documented.seek off origin f).1
unfolding Bounded.seek Documented.seek
seek-documented off position_start f inside small h =
    ap (λ k. record f { cursor = k }) (target-moved 0 off (length f.bytes) (omega arith) small h)
seek-documented off position_current f inside small h =
    ap (λ k. record f { cursor = k }) (target-moved f.cursor off (length f.bytes) inside small h)
seek-documented off position_end f inside small h =
    ap (λ k. record f { cursor = k })
      (target-moved (length f.bytes) off (length f.bytes) (omega arith) small h)

-- The cursor stays in the file.
append-inside :
    (b : List ℕ) (f : Bounded)
    → f.cursor ≡ length f.bytes
    → f.cursor + length b ≤ f.capacity
    → let g = (Documented.append b f).1 in g.cursor ≤ length g.bytes
unfolding Documented.append
append-inside b f at fits = ground (arith, length-append f.bytes b)

read-inside :
    (n : ℕ) (f : Bounded)
    → f.cursor ≤ length f.bytes
    → let g = (Bounded.read n f).1 in g.cursor ≤ length g.bytes
unfolding Bounded.read
read-inside n f inside = omega arith

moved-inside :
    (base off size : ℕ) → base ≤ size → in_file base off size ≡ true → moved base off ≤ size
moved-inside base off size inside h = ground arith

seek-inside :
    (off : ℕ) (origin : Position) (f : Bounded)
    → f.cursor ≤ length f.bytes
    → in_file (origin_of origin f) off (length f.bytes) ≡ true
    → let g = (Documented.seek off origin f).1 in g.cursor ≤ length g.bytes
unfolding Documented.seek
seek-inside off position_start f inside h = moved-inside 0 off (length f.bytes) (omega arith) h
seek-inside off position_current f inside h = moved-inside f.cursor off (length f.bytes) inside h
seek-inside off position_end f inside h =
    moved-inside (length f.bytes) off (length f.bytes) (omega arith) h

-- What the bounded file does within the documented limits.
bounded_lem :
    (calls : List Call) (f : Bounded)
    → f.cursor ≤ length f.bytes
    → Within calls f
    → (masked calls (Bounded.run calls f).0 ≡ masked calls (Documented.run calls f).0)
      × ((Bounded.run calls f).1 ≡ (Documented.run calls f).1)
unfolding Bounded.run Documented.run masked
bounded_lem [] f inside w = (refl, refl)
bounded_lem (appends b ∷ calls) f inside (at, fits, w) =
    let ih = bounded_lem calls (Documented.append b f).1 (append-inside b f at fits) w in
    rw (append-documented b f at fits) (ap (◌∷◌ (count (Documented.append b f).0)) ih.0, ih.1)
bounded_lem (reads n ∷ calls) f inside w =
    let ih = bounded_lem calls (Bounded.read n f).1 (read-inside n f inside) w in
    (ap (◌∷◌ (bytes_read (Bounded.read n f).0)) ih.0, ih.1)
bounded_lem (seeks off origin ∷ calls) f inside (small, h, w) =
    let ih =
      bounded_lem calls (Documented.seek off origin f).1 (seek-inside off origin f inside h) w in
    rw (seek-documented off origin f inside small h) ih

Within-InRange : (calls : List Call) (f : Bounded) → Within calls f → InRange calls
Within-InRange [] f w = tt
Within-InRange (appends b ∷ calls) f w = Within-InRange calls (Documented.append b f).1 w.2
Within-InRange (reads n ∷ calls) f w = Within-InRange calls (Bounded.read n f).1 w
Within-InRange (seeks off origin ∷ calls) f w =
    (w.0, Within-InRange calls (Documented.seek off origin f).1 w.2)

-- Whatever a client does with the open file of a valid RAM file system, by its descriptor, as long as each append is at
-- the end of the file and fits in the block, and each seek stays in the file: the calls return what
-- the documentation says, but for the positions that seeks return, the file that is left is the
-- documented one, and the file system stays valid.
pub run_documented :
    (fd : ℕ) (calls : List Call) (s : Ram)
    → IsValid s
    → fd ≡ s.pool
    → Within calls (view s)
    → let (out, s') = run fd calls s in
      let (told, f) = Documented.run calls (view s) in
      (masked calls out ≡ masked calls told) × (view s' ≡ f) × IsValid s'
run_documented fd calls s v open_lem w =
    let (refined, valid) = run_refines fd calls s v open_lem (Within-InRange calls (view s) w) in
    let (replies, left) =
      bounded_lem calls (view s) (omega (arith, length-content v, v.cursor)) w in
    (
      ap (λ (r : List Reply × Bounded). masked calls r.0) refined ∙ replies,
      ap (λ (r : List Reply × Bounded). r.1) refined ∙ left,
      valid,
    )

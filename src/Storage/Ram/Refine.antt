-- ===== src/Storage/Ram/Refine.antt =====
-- The RAM file of storage/SingleBufferRamFileSystem.cpp implements the bounded file.
use esp32cam.Base.{
  ℕ, ◌+◌, ◌-◌, ◌≡◌, ◌≤◌, ◌<◌, ◌^◌, List, [], ◌∷◌, ◌++◌, refl, ap, ap₂, ◌∙◌, sym, min, arith, take,
  drop, length, overwrite, length-take, drop-take, take-take, take-min, take-overwrite,
}
use esp32cam.Storage.Bounded
use esp32cam.Storage.Bounded.{Bounded, Call, appends, reads, seeks, count, bytes_read}
use esp32cam.Storage.File.{Position, position_start, position_current, position_end}
use esp32cam.Storage.Ram.{Ram, append, seek, read, run}
use esp32cam.Storage.Ram.Inv.{
  IsValid, content, room, append-eq, seek-eq, read-eq, append-IsValid, seek-IsValid, read-IsValid,
}

-- The bounded file that a RAM file stands for.
abbrev pub view : Ram → Bounded
view s = record { bytes = content s; cursor = s.current; capacity = s.pool_size }

pub length-content : {s : Ram} → IsValid s → length (content s) ≡ s.next_write
length-content {s} v = length-take s.next_write s.bytes ∙ omega arith

module _ (fd : ℕ) {s : Ram} (v : IsValid s) where
  pub content-append :
      (b : List ℕ) (n : ℕ)
      → n ≡ min (length b) (room s)
      → take (s.current + n) (overwrite s.bytes s.current (take n b))
        ≡ take s.current (content s) ++ take (room s) b
  content-append b n e =
      take-overwrite s.bytes s.current (s.current + n) (take n b) (omega (arith, length-take n b))
        (omega arith)
      ∙ ap₂ ◌++◌ (sym (take-take s.current s.next_write s.bytes v.cursor))
          (ap (λ k. take k b) e ∙ take-min (room s) b)

  pub append_refines :
      (b : List ℕ) → let (n, s') = append fd b s in (n, view s') ≡ Bounded.append b (view s)
  unfolding Bounded.append
  append_refines b =
      rw (append-eq fd v b _ refl) (ground (arith, content-append b (min (length b) (room s)) refl))

  content-read :
      (n : ℕ)
      → n ≤ s.next_write - s.current
      → take n (drop s.current s.bytes) ≡ take n (drop s.current (content s))
  content-read n h =
      sym (take-take n (s.next_write - s.current) (drop s.current s.bytes) h)
      ∙ ap (take n) (sym (drop-take s.current s.next_write s.bytes))

  pub read_refines :
      (n : ℕ) → fd ≡ s.pool → let (b, s') = read fd n s in (b, view s') ≡ Bounded.read n (view s)
  unfolding Bounded.read
  read_refines n e =
      rw (read-eq fd v n _ e refl, length-content v)
        (ground (arith, content-read (min n (s.next_write - s.current)) (omega arith)))

  pub seek_refines :
      (off : ℕ) (origin : Position)
      → fd ≡ s.pool
      → off < 2 ^ 32
      → let (b, s') = seek fd off origin s in (b, view s') ≡ Bounded.seek off origin (view s)
  unfolding Bounded.seek
  seek_refines off position_start e h =
      rw (seek-eq fd v off position_start e, length-content v) (ground arith)
  seek_refines off position_current e h =
      rw (seek-eq fd v off position_current e, length-content v) (ground arith)
  seek_refines off position_end e h =
      rw (seek-eq fd v off position_end e, length-content v) (ground arith)

-- Every call keeps the block of memory.
pub pool-append : (fd : ℕ) (b : List ℕ) (s : Ram) → (append fd b s).1.pool ≡ s.pool
unfolding append
pool-append fd b s = refl

pub pool-read : (fd n : ℕ) (s : Ram) → (read fd n s).1.pool ≡ s.pool
unfolding read
pool-read fd n s = ground arith

pub pool-seek : (fd off : ℕ) (o : Position) (s : Ram) → (seek fd off o s).1.pool ≡ s.pool
unfolding seek
pool-seek fd off o s = ground arith

-- The offsets of a client's seeks are 32-bit patterns.
abbrev pub InRange : List Call → Type 0
InRange [] = Unit {0}
InRange (appends b ∷ calls) = InRange calls
InRange (reads n ∷ calls) = InRange calls
InRange (seeks off o ∷ calls) = (off < 2 ^ 32) × InRange calls

-- Whatever a client does with an open file of a valid RAM file system, by appends, reads and seeks
-- with 32-bit offsets, each call returns what the bounded file of the same content returns, the file
-- that is left stands for the bounded file that is left, and the file system stays valid.
pub run_refines :
    (fd : ℕ) (calls : List Call) (s : Ram)
    → IsValid s
    → fd ≡ s.pool
    → InRange calls
    → let (out, s') = run fd calls s in ((out, view s') ≡ Bounded.run calls (view s)) × IsValid s'
unfolding run Bounded.run
run_refines fd [] s v e r = (refl, v)
run_refines fd (appends b ∷ calls) s v e r =
    let ih =
      run_refines fd calls (append fd b s).1 (append-IsValid fd v b) (e ∙ sym (pool-append fd b s))
        r in
    (rw (← append_refines fd v b) (ap (λ q. (count (append fd b s).0 ∷ q.0, q.1)) ih.0), ih.1)
run_refines fd (reads n ∷ calls) s v e r =
    let ih =
      run_refines fd calls (read fd n s).1 (read-IsValid fd v n) (e ∙ sym (pool-read fd n s)) r in
    (rw (← read_refines fd v n e) (ap (λ q. (bytes_read (read fd n s).0 ∷ q.0, q.1)) ih.0), ih.1)
run_refines fd (seeks off o ∷ calls) s v e (h, r) =
    let ih =
      run_refines fd calls (seek fd off o s).1 (seek-IsValid fd v off o)
        (e ∙ sym (pool-seek fd off o s)) r in
    (
      rw (← seek_refines fd v off o e h) (ap (λ q. (count (seek fd off o s).0 ∷ q.0, q.1)) ih.0),
      ih.1,
    )

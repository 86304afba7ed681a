-- ===== src/Storage/Ram/Lifecycle.antt =====
-- Opening, filling, reading back and closing the RAM file of
-- storage/SingleBufferRamFileSystem.cpp.
use esp32cam.Base.{
  ℕ, ◌+◌, ◌-◌, ◌≡◌, ◌≢◌, ◌≤◌, ◌<◌, ◌^◌, List, [], ◌∷◌, ◌++◌, refl, ap, ap₂, ◌∙◌, sym, min, arith,
  take, drop, length, overwrite, neg32, take_of_length-le,
}
use esp32cam.Storage.File.{Position, position_start, position_current}
use esp32cam.Storage.Ram.{Ram, Block, init, try_open, close_file, append, seek, read}
use esp32cam.Storage.Ram.Inv.{
  IsValid, content, append-eq, seek-eq, read-eq, append-IsValid, seek-IsValid,
}
use esp32cam.Storage.Ram.Refine.{view, content-append, pool-append, pool-seek}

-- An allocation that succeeds gives as many bytes as it was asked for.
pub record IsBlock (n : ℕ) (b : Block) : Type 0 where
  pub allocated : b.address ≢ 0
  pub sized : length b.bytes ≡ n

abbrev is_opened : (ℕ → Block) → ℕ → Ram
is_opened new hint = record {
  pool = (new hint).address;
  bytes = (new hint).bytes;
  deletes = 0;
  pool_size = hint;
  next_write = 0;
  current = 0;
}

-- The first open of a file of at least one byte, below 2 GiB, returns the valid descriptor of an
-- empty file with the cursor at its start and room for as many bytes as the hint says.
pub try_open-init :
    (new : ℕ → Block) (hint : ℕ)
    → IsBlock hint (new hint)
    → hint ≢ 0
    → hint < 2 ^ 31
    → let (fd, s) = try_open new hint init in
      (fd ≢ 0)
      × (fd ≡ s.pool)
      × IsValid s
      × (view s ≡ record { bytes = []; cursor = 0; capacity = hint })
unfolding try_open init
try_open-init new hint b h k = ground arith

module _ (fd : ℕ) {s : Ram} (v : IsValid s) (e : fd ≡ s.pool) where
  read_all : (n : ℕ) → s.current ≡ 0 → s.next_write ≤ n → (read fd n s).0 ≡ content s
  read_all n c h =
      rw (read-eq fd v n s.next_write e (omega arith))
        (ap (λ k. take s.next_write (drop k s.bytes)) c)

  content-seek : (off : ℕ) (o : Position) → content (seek fd off o s).1 ≡ content s
  content-seek off o = rw (seek-eq fd v off o e)

  seek-start :
      ((seek fd 0 position_start s).1.current ≡ 0)
      × ((seek fd 0 position_start s).1.next_write ≡ s.next_write)
  seek-start = rw (seek-eq fd v 0 position_start e) (omega arith, refl)

module _ (fd : ℕ) {s : Ram} (v : IsValid s) (e : fd ≡ s.pool) (start : s.current ≡ 0) where
  append-start :
      (b : List ℕ)
      → length b ≤ s.pool_size
      → (content (append fd b s).1 ≡ b) × ((append fd b s).1.next_write ≡ length b)
  append-start b fits = rw (append-eq fd v b (length b) (omega arith)) (
    content-append fd v b (length b) (omega arith)
        ∙ ap₂ ◌++◌ (ap (λ k. take k (content s)) start)
            (take_of_length-le (s.pool_size - s.current) b (omega arith)),
    omega arith,
  )

  read-append_lem :
      (b : List ℕ) (n : ℕ)
      → length b ≤ s.pool_size
      → length b ≤ n
      → (read fd n (seek fd 0 position_start (append fd b s).1).1).0 ≡ b
  read-append_lem b n fits long =
      let v1 = append-IsValid fd v b in
      let e1 = e ∙ sym (pool-append fd b s) in
      let (full, size) = append-start b fits in
      let (rewound, size') = seek-start fd v1 e1 in
      read_all fd (seek-IsValid fd v1 0 position_start)
        (e1 ∙ sym (pool-seek fd 0 position_start (append fd b s).1)) n rewound (omega arith)
      ∙ content-seek fd v1 e1 0 position_start
      ∙ full

-- What was appended to a new file is read back, byte for byte, after a seek to the start: for every
-- buffer that fits the size hint and every read of at least that many bytes.
pub read-append_round_trip :
    (new : ℕ → Block) (hint : ℕ) (b : List ℕ) (n : ℕ)
    → IsBlock hint (new hint)
    → hint < 2 ^ 31
    → hint ≢ 0
    → length b ≤ hint
    → length b ≤ n
    → let (fd, s) = try_open new hint init in
      (read fd n (seek fd 0 position_start (append fd b s).1).1).0 ≡ b
read-append_round_trip new hint b n k small h fits long =
    let (ne, e, v, w) = try_open-init new hint k h small in
    let size = ap (λ f. f.capacity) w in
    read-append_lem _ v e (ap (λ f. f.cursor) w) b n (omega arith) long

-- A closed file can never be opened again: `closeFile` keeps the pointer that it has deleted, so
-- that every later open, of any name and size, returns the invalid descriptor and changes nothing.
pub try_open-close_refused :
    (new : ℕ → Block) (hint : ℕ) (s : Ram)
    → s.pool ≢ 0
    → try_open new hint (close_file s.pool s) ≡ (0, close_file s.pool s)
unfolding try_open close_file
try_open-close_refused new hint s h = ground arith

-- Closing an open file twice by its descriptor runs `delete []` twice on the same block.
pub close-close_double_delete :
    (s : Ram) → s.pool ≢ 0 → (close_file s.pool (close_file s.pool s)).deletes ≡ s.deletes + 2
unfolding close_file
close-close_double_delete s h = ground arith

abbrev closed : Ram → Ram
closed s = record s { deletes = s.deletes + 1; pool_size = 0; next_write = 0; current = 0 }

closed_eq : (s : Ram) → s.pool ≢ 0 → close_file s.pool s ≡ closed s
unfolding close_file
closed_eq s h = ground arith

closed_read : (fd n : ℕ) (s : Ram) → (read fd n (closed s)).0 ≡ []
unfolding read
closed_read fd n s = let e : min n 0 ≡ 0 = omega arith in ground arith

overwrite-nil : (xs : List ℕ) → overwrite xs 0 [] ≡ xs
overwrite-nil [] = refl
overwrite-nil (x ∷ xs) = refl

-- A closed file takes and gives no byte, so that the deleted block is not accessed through it:
-- append and read through any descriptor return nothing and leave the bytes as they were.
pub close_no_access :
    (fd n : ℕ) (b : List ℕ) (s : Ram)
    → s.pool ≢ 0
    → let c = close_file s.pool s in
      ((append fd b c).0 ≡ 0) × ((append fd b c).1.bytes ≡ s.bytes) × ((read fd n c).0 ≡ [])
unfolding append
close_no_access fd n b s h =
    rw (closed_eq s h) (ground arith, ground (arith, overwrite-nil s.bytes), closed_read fd n s)

-- A seek by -k from the cursor, where k passes the start of the file, does not stop at the start: it
-- goes to the end of the file.
pub seek_before_start :
    (k : ℕ) (s : Ram)
    → IsValid s
    → s.current < k
    → k ≤ 2 ^ 31
    → (seek s.pool (neg32 k) position_current s).1.current ≡ s.next_write
seek_before_start k s v h l = rw (seek-eq s.pool v (neg32 k) position_current refl) (omega arith)

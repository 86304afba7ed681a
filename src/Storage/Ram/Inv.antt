-- ===== src/Storage/Ram/Inv.antt =====
-- The invariant of the RAM file of storage/SingleBufferRamFileSystem.cpp, and what each operation
-- does to the file's content.
use esp32cam.Base.{
  ℕ, ◌+◌, ◌-◌, ◌≡◌, ◌≤◌, ◌<◌, ◌^◌, List, refl, min, arith, take, drop, length, overwrite, add32,
  length-overwrite,
}
use esp32cam.Storage.File.{Position}
use esp32cam.Storage.Ram.{Ram, init, append, seek, read, seek_base}

-- The sizes nest, the block holds the pool, and an offset fits an `int32_t`.
pub record IsValid (s : Ram) : Type 0 where
  pub block : s.pool_size ≤ length s.bytes
  pub small : s.pool_size < 2 ^ 31
  pub written : s.next_write ≤ s.pool_size
  pub cursor : s.current ≤ s.next_write

-- The bytes of the file.
abbrev pub content : Ram → List ℕ
content s = take s.next_write s.bytes

pub init-IsValid : IsValid init
unfolding init
init-IsValid = omega arith

-- The room that is left behind the cursor.
abbrev pub room : Ram → ℕ
room s = s.pool_size - s.current

module _ (fd : ℕ) {s : Ram} (v : IsValid s) where
  -- Without wrap-around.
  pub append-eq :
      (b : List ℕ) (n : ℕ)
      → n ≡ min (length b) (room s)
      → append fd b s ≡ (
        n,
        record s {
          bytes = overwrite s.bytes s.current (take n b);
          current = s.current + n;
          next_write = s.current + n;
        },
      )
  unfolding append
  append-eq b n e = ground arith

  pub append-IsValid : (b : List ℕ) → IsValid (append fd b s).1
  append-IsValid b =
      rw (append-eq b _ refl)
        (ground (arith, length-overwrite s.bytes s.current (take (min (length b) (room s)) b)))

  pub seek-eq :
      (off : ℕ) (origin : Position)
      → fd ≡ s.pool
      → seek fd off origin s
        ≡ (s.current, record s { current = min (add32 (seek_base origin s) off) s.next_write })
  unfolding seek
  seek-eq off origin e = ground arith

  pub seek-IsValid : (off : ℕ) (origin : Position) → IsValid (seek fd off origin s).1
  unfolding seek
  seek-IsValid off origin = ground arith

  pub read-eq :
      (size n : ℕ)
      → fd ≡ s.pool
      → n ≡ min size (s.next_write - s.current)
      → read fd size s ≡ (take n (drop s.current s.bytes), record s { current = s.current + n })
  unfolding read
  read-eq size n e k = ground arith

  pub read-IsValid : (size : ℕ) → IsValid (read fd size s).1
  unfolding read
  read-IsValid size = ground arith

-- ===== src/Storage/Ram.antt =====
-- storage/SingleBufferRamFileSystem.{hpp,cpp}: one file in one block of memory.
pub mod Inv
pub mod Lifecycle
pub mod Refine
pub mod Documented
use esp32cam.Base.{
  ℕ, ◌+◌, ◌-◌, List, [], ◌∷◌, Bool, true, false, ◌==◌, ◌&&◌, not, if◌then◌else◌, min, length, take,
  drop, overwrite, add32, sub32, ltb,
}
use esp32cam.Storage.Bounded.{Call, appends, reads, seeks, Reply, count, bytes_read}
use esp32cam.Storage.File.{
  FileSystem, FileDescriptor, Position, position_start, position_current, position_end,
  position_error, descriptor_is_valid,
}

-- What `new std::uint8_t[n]` returns: the address, and the bytes that stand there. 0 is `nullptr`.
pub record Block : Type 0 where
  pub address : ℕ
  pub bytes : List ℕ

-- `memoryPool` is an address with the bytes behind it. `deletes` counts `delete []` on it.
pub record Ram : Type 0 where
  pub pool : ℕ
  pub bytes : List ℕ
  pub deletes : ℕ
  pub pool_size : ℕ
  pub next_write : ℕ
  pub current : ℕ

pub init : Ram
init = record { pool = 0; bytes = []; deletes = 0; pool_size = 0; next_write = 0; current = 0 }

-- `Ut::Al::clamp<std::size_t>`
unfoldable pub clamp : ℕ → ℕ → ℕ → ℕ
clamp val from to = if ltb val from then from else if ltb to val then to else val

unfoldable pub try_open : (ℕ → Block) → ℕ → Ram → FileDescriptor × Ram
try_open new hint s =
    if not (s.pool == 0)
    then (0, s)
    else if hint == 0
    then (0, s)
    else let b = new hint in
      if b.address == 0 then (0, record s { pool = 0; bytes = b.bytes; deletes = 0 }) else (
        b.address,
        record s { pool = b.address; bytes = b.bytes; deletes = 0; pool_size = hint },
      )

unfoldable pub close_file : FileDescriptor → Ram → Ram
close_file fd s =
    if fd == s.pool && descriptor_is_valid fd
    then record s { deletes = s.deletes + 1; pool_size = 0; next_write = 0; current = 0 }
    else s

-- The descriptor is not looked at.
unfoldable pub append : FileDescriptor → List ℕ → Ram → ℕ × Ram
unfolding clamp
append fd buffer s =
    let n = clamp (length buffer) 0 (sub32 s.pool_size s.current) in
    (
      n,
      record s {
        bytes = overwrite s.bytes s.current (take n buffer);
        current = add32 s.current n;
        next_write = add32 s.current n;
      },
    )

-- The origin of a seek: `newPosition` before the offset is added.
abbrev pub seek_base : Position → Ram → ℕ
seek_base position_start s = 0
seek_base position_current s = s.current
seek_base position_end s = s.next_write

-- Returns the position before the call.
unfoldable pub seek : FileDescriptor → ℕ → Position → Ram → ℕ × Ram
unfolding clamp
seek fd offset origin s = if not (fd == s.pool) then (position_error, s) else (
  s.current,
  record s { current = clamp (add32 (seek_base origin s) offset) 0 s.next_write },
)

unfoldable pub read : FileDescriptor → ℕ → Ram → List ℕ × Ram
read fd size s =
    if not (fd == s.pool)
    then ([], s)
    else let n = min size (sub32 s.next_write s.current) in
      (take n (drop s.current s.bytes), record s { current = add32 s.current n })

abbrev pub ram_fs : FileSystem Ram
ram_fs = record { close_file = close_file; append = append; seek = seek; read = read }

-- A client's calls on the descriptor `fd`, in order, with what each returns.
unfoldable pub run : FileDescriptor → List Call → Ram → List Reply × Ram
run fd [] s = ([], s)
run fd (appends b ∷ calls) s =
    let (n, s') = append fd b s in let (out, s'') = run fd calls s' in (count n ∷ out, s'')
run fd (reads n ∷ calls) s =
    let (b, s') = read fd n s in let (out, s'') = run fd calls s' in (bytes_read b ∷ out, s'')
run fd (seeks off origin ∷ calls) s =
    let (n, s') = seek fd off origin s in let (out, s'') = run fd calls s' in (count n ∷ out, s'')

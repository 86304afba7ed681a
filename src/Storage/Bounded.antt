-- ===== src/Storage/Bounded.antt =====
-- A file as a list of bytes with a cursor and a capacity that a write never passes, which does what the
-- RAM file of storage/SingleBufferRamFileSystem.cpp does. It differs from the documentation in
-- storage/FileSystem.hpp, which stands in Storage/Documented: an append that does not fit writes what
-- fits, a seek returns the place before it, and a seek in front of the start goes to the end.
use esp32cam.Base.{
  ℕ, ◌+◌, ◌-◌, ◌^◌, List, [], ◌∷◌, ◌++◌, min, take, drop, length, if◌then◌else◌, ltb, leb,
}
use esp32cam.Storage.File.{Position, position_start, position_current, position_end}

pub record Bounded : Type 0 where
  pub bytes : List ℕ
  pub cursor : ℕ
  pub capacity : ℕ

abbrev pub origin_of : Position → Bounded → ℕ
origin_of position_start f = 0
origin_of position_current f = f.cursor
origin_of position_end f = length f.bytes

-- A write behind the cursor cuts the file there.
unfoldable pub append : List ℕ → Bounded → ℕ × Bounded
append b f =
    let room = f.capacity - f.cursor in
    (
      min (length b) room,
      record f {
        bytes = take f.cursor f.bytes ++ take room b;
        cursor = f.cursor + min (length b) room;
      },
    )

unfoldable pub read : ℕ → Bounded → List ℕ × Bounded
read n f =
    let k = min n (length f.bytes - f.cursor) in
    (take k (drop f.cursor f.bytes), record f { cursor = f.cursor + k })

-- Where a seek by the pattern `off` arrives: at the end, if it would pass an end of the file, also
-- the start.
unfoldable pub target : ℕ → ℕ → ℕ → ℕ
target base off size =
    if ltb off (2 ^ 31)
    then min (base + off) size
    else let back = 2 ^ 32 - off in if leb back base then min (base - back) size else size

-- The cursor that is returned is the one before the call.
unfoldable pub seek : ℕ → Position → Bounded → ℕ × Bounded
unfolding target
seek off origin f =
    (f.cursor, record f { cursor = target (origin_of origin f) off (length f.bytes) })

-- The calls on an open file, and what each returns.
pub data Call : Type 0 where
  appends : List ℕ → Call
  reads : ℕ → Call
  seeks : ℕ → Position → Call

pub data Reply : Type 0 where
  count : ℕ → Reply
  bytes_read : List ℕ → Reply

unfoldable pub run : List Call → Bounded → List Reply × Bounded
run [] f = ([], f)
run (appends b ∷ calls) f =
    let (n, f') = append b f in let (out, f'') = run calls f' in (count n ∷ out, f'')
run (reads n ∷ calls) f =
    let (b, f') = read n f in let (out, f'') = run calls f' in (bytes_read b ∷ out, f'')
run (seeks off origin ∷ calls) f =
    let (n, f') = seek off origin f in let (out, f'') = run calls f' in (count n ∷ out, f'')

-- ===== src/Container/Slice.antt =====
-- components/utility/utility/cont/Buffer.hpp, Buffer.impl: Tbuffer over bytes, its pointer as the
-- offset of its first byte. A failed assertion is none.
use esp32cam.Base.{
  ℕ, ◌+◌, ◌-◌, ◌≡◌, ◌≤◌, List, Option, some, none, ◌&&◌, leb, if◌then◌else◌, length, take, drop,
  arith, length-drop, take_of_length-le,
}

pub record Slice : Type 0 where
  pub start : ℕ
  pub bytes : List ℕ

-- `asSlice` of two offsets, and of one.
unfoldable pub as_slice : ℕ → ℕ → Slice → Option Slice
as_slice from to s =
    if leb from (length s.bytes) && leb to (length s.bytes)
    then some (record { start = s.start + from; bytes = take (to - from) (drop from s.bytes) })
    else none

unfoldable pub slice : ℕ → Slice → Option Slice
slice from s = as_slice from (length s.bytes) s

-- Within the buffer, the part before an offset and the part from it on are the buffer.
pub slice_lem :
    (n : ℕ) (s : Slice)
    → n ≤ length s.bytes
    → (as_slice 0 n s ≡ some (record { start = s.start + 0; bytes = take n s.bytes }))
      × (slice n s ≡ some (record { start = s.start + n; bytes = drop n s.bytes }))
unfolding as_slice slice
slice_lem n s h = (
  ground arith,
  ground (arith, take_of_length-le (length s.bytes - n) (drop n s.bytes), length-drop n s.bytes),
)

-- ===== src/Base/Words.antt =====
-- `std::size_t`, `std::uint32_t` and `std::int32_t` of the 32-bit target. A signed value stands as
-- its bit pattern, so that a cast between the two is the identity.
use Prim.Native.Nat.{ℕ, ◌+◌, ◌-◌, ◌%◌, ◌^◌, ◌≤◌, ◌<◌}
use mathlib.Core.Path.{◌≡◌}
use native.Mathlib.Omega.{arith}

abbrev pub u32_mod : ℕ
u32_mod = 2 ^ 32

abbrev pub add32 : ℕ → ℕ → ℕ
add32 a b = (a + b) % 2 ^ 32

abbrev pub sub32 : ℕ → ℕ → ℕ
sub32 a b = (a + 2 ^ 32 - b) % 2 ^ 32

abbrev pub u8 : ℕ → ℕ
u8 a = a % 2 ^ 8

abbrev pub u16 : ℕ → ℕ
u16 a = a % 2 ^ 16

-- The pattern of -n.
abbrev pub neg32 : ℕ → ℕ
neg32 n = sub32 0 n

pub sub32-eq-sub : (a b : ℕ) → b ≤ a → a < 2 ^ 32 → sub32 a b ≡ a - b
sub32-eq-sub a b h k = omega arith

pub add32-eq-add : (a b : ℕ) → a + b < 2 ^ 32 → add32 a b ≡ a + b
add32-eq-add a b h = omega arith

-- ===== src/Container/Counter.antt =====
-- components/utility/utility/cont/CircularBuffer.hpp: CircularCounter. A failed assertion is none;
-- positions stay far below 2^32, so that no sum of `unsigned` wraps.
use esp32cam.Base.{
  ℕ, suc, ◌==◌, false, ◌+◌, ◌-◌, ◌%◌, ◌≡◌, ◌≤◌, ◌<◌, ap, sym, ◌∙◌, Option, some, none, ltb, leb,
  if◌then◌else◌, arith, Bool-cases, inl, inr,
}
use native.Mathlib.Nat.{mod-add-mod, mod-eq_of_lt, mod-eq-sub-mod}

pub record Counter : Type 0 where
  pub base : ℕ
  pub sz : ℕ

abbrev pub empty : Counter
empty = record { base = 0; sz = 0 }

module _ (limit : ℕ) where
  unfoldable pub tail : Counter → ℕ
  tail c = c.base

  unfoldable pub head : Counter → ℕ
  head c = (c.base + c.sz) % limit

  unfoldable pub capacity : Counter → ℕ
  capacity c = limit - c.sz

  unfoldable pub fwd : ℕ → ℕ → ℕ
  fwd base a = (base + a) % limit

  unfoldable pub rev : ℕ → ℕ → ℕ
  rev base a = if ltb base (a % limit) then limit - a % limit + base else base - a % limit

  unfoldable pub push : ℕ → Counter → Option Counter
  push a c = if leb a (capacity c) then some (record { base = c.base; sz = c.sz + a }) else none

  unfoldable pub pop : ℕ → Counter → Option Counter
  pop a c = if leb a c.sz then some (record { base = fwd c.base a; sz = c.sz - 1 }) else none

  abbrev pub IsValid : Counter → Type 0
  IsValid c = (c.base < limit) × (c.sz ≤ limit)

  pub wrapped :
      (b a : ℕ)
      → b < limit
      → a ≤ limit
      → (b + a) % limit ≡ (if ltb (b + a) limit then b + a else b + a - limit)
  wrapped b a hb ha = elim (Bool-cases (ltb (b + a) limit)) [
    | inl below ↦ ground (arith, mod-eq_of_lt {n = b + a} {m = limit})
    | inr above ↦ ground (
      arith,
      mod-eq-sub-mod {n = b + a} {m = limit},
      mod-eq_of_lt {n = b + a - limit} {m = limit},
    )
  ]

  pub fwd-lt : (b a : ℕ) → b < limit → a ≤ limit → fwd b a < limit
  unfolding fwd
  fwd-lt b a hb ha = ground (arith, wrapped b a hb ha)

  -- From a position in the buffer, `fwd` and then `rev` by less than the size of the buffer give that
  -- position again.
  pub rev-fwd : (b a : ℕ) → b < limit → a < limit → rev (fwd b a) a ≡ b
  unfolding rev fwd
  rev-fwd b a hb ha = ground (arith, wrapped b a hb, wrapped 0 a)

  pub fwd-fwd : (b a : ℕ) → b < limit → suc a ≤ limit → fwd (fwd b 1) a ≡ fwd b (suc a)
  unfolding fwd
  fwd-fwd b a hb ha =
      ground (arith, wrapped b 1 hb, wrapped ((b + 1) % limit) a, wrapped b (suc a) hb)

  pub fwd-zero : (b : ℕ) → b < limit → fwd b 0 ≡ b
  unfolding fwd
  fwd-zero b hb = ground (arith, wrapped b 0 hb)

  pub fwd-ne : (b a : ℕ) → b < limit → a < limit → 1 ≤ a → (b == fwd b a) ≡ false
  unfolding fwd
  fwd-ne b a hb ha h = ground (arith, wrapped b a hb)

  pub fwd-around : (b : ℕ) → b < limit → fwd (fwd b 1) (limit - 1) ≡ b
  unfolding fwd
  fwd-around b hb = ground (arith, wrapped b 1 hb, wrapped ((b + 1) % limit) (limit - 1))

  pub rev-next : (b a : ℕ) → b < limit → suc a ≤ limit → rev (fwd b (suc a)) 1 ≡ fwd b a
  unfolding rev fwd
  rev-next b a hb ha =
      ground (arith, wrapped b a hb, wrapped b (suc a) hb, wrapped 0 1, wrapped 0 limit)

  -- `pop(a)` of at least one and at most all of the elements succeeds, and afterwards the next insert
  -- goes `a - 1` places beyond where it went before.
  pub head-pop :
      (a : ℕ) (c : Counter)
      → 1 ≤ a
      → a ≤ c.sz
      → (r : Counter) × ((pop a c ≡ some r) × (head r ≡ fwd (head c) (a - 1)))
  unfolding pop head fwd
  head-pop a c ha hs = (
    record { base = fwd c.base a; sz = c.sz - 1 },
    (
      ground arith,
      mod-add-mod (c.base + a) limit (c.sz - 1)
          ∙ ap (λ k. k % limit) (omega arith)
          ∙ sym (mod-add-mod (c.base + c.sz) limit (a - 1)),
    ),
  )

-- ===== src/Container/Swap.antt =====
-- components/utility/utility/cont/CircularSwap.hpp: buffers that are lent as free and as filled. A
-- buffer is its address; a failed assertion is none.
use esp32cam.Base.{
  ℕ, zero, suc, ◌+◌, List, [], ◌∷◌, false, ◌==◌, if◌then◌else◌, Option, some, none, ◌>>=◌,
}
use esp32cam.Container.PosArray.{PosArray, push_back, pop_back, back}
use esp32cam.Container.PosArray
use esp32cam.Container.Circular.{Circular, initial, front, pop_front, emplace_back}
use esp32cam.Container.Circular
pub mod Client
pub mod Steps
pub mod Conserved
pub mod Many

-- `stack` and `ring`.
pub record Swap : Type 0 where
  pub free : PosArray ℕ
  pub ring : Circular ℕ

-- `limit` is `Nbuffers`.
module _ (limit : ℕ) where
  abbrev pub count_free : Swap → ℕ
  count_free s = PosArray.size limit s.free

  abbrev pub count_full : Swap → ℕ
  count_full s = Circular.size limit s.ring

  unfoldable pub push_free : ℕ → Swap → Option Swap
  push_free b s = push_back limit b s.free >>= λ a. some (record s { free = a })

  -- `top`, then `pop` of the stack.
  unfoldable pub pop_free : Swap → Option (ℕ × Swap)
  pop_free s =
      back limit s.free >>= λ b. pop_back limit s.free >>= λ r. some (b, record s { free = r.1 })

  unfoldable pub push_full : ℕ → Swap → Option Swap
  push_full b s = emplace_back limit false b s.ring >>= λ r. some (record s { ring = r })

  unfoldable pub pop_full : Swap → Option (ℕ × Swap)
  pop_full s =
      front limit s.ring >>= λ b. pop_front limit s.ring >>= λ r. some (b, record s { ring = r })

  -- The loop of the constructor.
  unfoldable pub push_all : List ℕ → Swap → Option Swap
  push_all [] s = some s
  push_all (b ∷ bs) s = push_free b s >>= push_all bs

  -- The constructor.
  unfoldable pub make : List ℕ → Option Swap
  make buffers =
      push_all buffers (record { free = record { pos = 0; at = λ i. 0 }; ring = initial limit })

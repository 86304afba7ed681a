-- ===== src/Container/Swap/Many.antt =====
-- The calls of components/utility/utility/cont/CircularSwap.hpp on several buffers; those that are
-- popped are a list.
use esp32cam.Base.{
  ℕ, zero, suc, ◌≡◌, refl, List, [], ◌∷◌, ◌==◌, if◌then◌else◌, Option, some, ◌>>=◌, take, drop,
  arith,
}
use esp32cam.Container.Circular
use esp32cam.Container.Queue.{Holds}
use esp32cam.Container.Swap.{Swap, count_full, pop_full, push_free, push_full}
use esp32cam.Container.Swap.Steps.{pop_full_lem}

module _ (limit : ℕ) where
  -- `popFull(aN)`.
  unfoldable pub pop_full_many : ℕ → Swap → Option (List ℕ × Swap)
  pop_full_many zero s = some ([], s)
  pop_full_many (suc n) s =
      if count_full limit s == 0
      then some ([], s)
      else (pop_full limit s >>= λ r. pop_full_many n r.1 >>= λ q. some (r.0 ∷ q.0, q.1))

  -- `popFree(aN)`.
  unfoldable pub pop_free_many : ℕ → Swap → Option (List ℕ × Swap)
  pop_free_many zero s = some ([], s)
  pop_free_many (suc n) s =
      if count_full limit s == 0
      then some ([], s)
      else (pop_full limit s >>= λ r. pop_free_many n r.1 >>= λ q. some (r.0 ∷ q.0, q.1))

  -- `pushFree` and `pushFull` of an array.
  unfoldable pub push_free_many : List ℕ → Swap → Option Swap
  push_free_many [] s = some s
  push_free_many (b ∷ bs) s = push_free limit b s >>= push_free_many bs

  unfoldable pub push_full_many : List ℕ → Swap → Option Swap
  push_full_many [] s = some s
  push_full_many (b ∷ bs) s = push_full limit b s >>= push_full_many bs

  -- `popFree(n)` takes the first filled buffers, at most `n` of them, out of the ring, and leaves the
  -- stack of free ones as it is.
  pub pop_free_many_lem :
      (n : ℕ) (s : Swap) (q : List ℕ)
      → Holds limit s.ring q
      → (s' : Swap) × (pop_free_many n s ≡ some (take n q, s'))
        × Holds limit s'.ring (drop n q)
        × (s'.free ≡ s.free)
  unfolding pop_free_many Circular.size
  pop_free_many_lem zero s q h = (s, refl, h, refl)
  pop_free_many_lem (suc n) s [] h = (s, ground (arith, h.1.0), h, refl)
  pop_free_many_lem (suc n) s (b ∷ q) h =
      let (r, first, now) = pop_full_lem limit s b q h in
      let (s', rest, left, same) = pop_free_many_lem n (record s { ring = r }) q now in
      (s', ground (arith, h.1.0, first, rest), left, same)

-- ===== src/Container/Swap/Steps.antt =====
-- Each call of components/utility/utility/cont/CircularSwap.hpp on the stack and the queue that it holds.
use esp32cam.Base.{
  ℕ, ◌+◌, ◌-◌, ◌≡◌, ◌≤◌, ◌<◌, ◌∙◌, List, [], ◌∷◌, ◌++◌, ◌==◌, if◌then◌else◌, some, length, arith,
  subst,
}
use esp32cam.Container.PosArray.{PosArray, push_back, pop_back, back}
use esp32cam.Container.Circular.{Circular}
use esp32cam.Container.Queue.{Holds, emplace_back-room, pop_front-first}
use esp32cam.Container.Swap.{Swap, push_free, pop_free, push_full, pop_full}

-- The array below a position holds a stack, its top first.
abbrev pub Stacked : (ℕ → ℕ) → ℕ → List ℕ → Type 0
Stacked at p [] = p ≡ 0
Stacked at p (x ∷ xs) = (1 ≤ p) × (at (p - 1) ≡ x) × Stacked at (p - 1) xs

Stacked-length : (at : ℕ → ℕ) (p : ℕ) (xs : List ℕ) → Stacked at p xs → p ≡ length xs
Stacked-length at p [] h = h
Stacked-length at p (x ∷ xs) h = omega (arith, Stacked-length at (p - 1) xs h.2)

Stacked-below :
    (at at' : ℕ → ℕ) (p : ℕ) (xs : List ℕ)
    → ((i : ℕ) → i < p → at' i ≡ at i)
    → Stacked at p xs
    → Stacked at' p xs
Stacked-below at at' p [] same h = h
Stacked-below at at' p (x ∷ xs) same h = (
  h.0,
  same (p - 1) (omega arith) ∙ h.1,
  Stacked-below at at' (p - 1) xs (λ i less. same i (omega arith)) h.2,
)

module _ (limit : ℕ) where
  pub push_free_lem :
      (s : Swap) (fs : List ℕ) (b : ℕ)
      → Stacked s.free.at s.free.pos fs
      → length fs < limit
      → (a : PosArray ℕ) × (push_free limit b s ≡ some (record s { free = a }))
        × Stacked a.at a.pos (b ∷ fs)
  unfolding push_free push_back
  push_free_lem s fs b h less =
      let at' : ℕ → ℕ = λ i. if i == s.free.pos then b else s.free.at i in
      let e : s.free.pos ≡ s.free.pos + 1 - 1 = omega arith in
      let len = Stacked-length s.free.at s.free.pos fs h in
      (
        record { pos = s.free.pos + 1; at = at' },
        ground (arith, len),
        (
          omega arith,
          ground arith,
          subst (λ p. Stacked at' p fs) e
              (Stacked-below s.free.at at' s.free.pos fs (λ i below. ground arith) h),
        ),
      )

  pub pop_free_lem :
      (s : Swap) (b : ℕ) (fs : List ℕ)
      → Stacked s.free.at s.free.pos (b ∷ fs)
      → (a : PosArray ℕ) × (pop_free limit s ≡ some (b, record s { free = a }))
        × Stacked a.at a.pos fs
  unfolding pop_free back pop_back
  pop_free_lem s b fs h =
      (record { pos = s.free.pos - 1; at = s.free.at }, ground (arith, h.0, h.1), h.2)

  pub push_full_lem :
      (s : Swap) (rs : List ℕ) (b : ℕ)
      → Holds limit s.ring rs
      → length rs < limit
      → (r : Circular ℕ) × (push_full limit b s ≡ some (record s { ring = r }))
        × Holds limit r (rs ++ b ∷ [])
  unfolding push_full
  push_full_lem s rs b h less =
      let (r, (call, now)) = emplace_back-room limit s.ring rs b h less in
      (r, ground (arith, call), now)

  pub pop_full_lem :
      (s : Swap) (b : ℕ) (rs : List ℕ)
      → Holds limit s.ring (b ∷ rs)
      → (r : Circular ℕ) × (pop_full limit s ≡ some (b, record s { ring = r })) × Holds limit r rs
  unfolding pop_full
  pop_full_lem s b rs h =
      let (r, (first, (call, now))) = pop_front-first limit s.ring b rs h in
      (r, ground (arith, first, call), now)

-- ===== src/Container/Swap/Client.antt =====
-- A client of components/utility/utility/cont/CircularSwap.hpp that checks the counts.
use esp32cam.Base.{
  ℕ, zero, suc, ◌+◌, ◌≡◌, List, [], ◌∷◌, ◌++◌, ◌==◌, if◌then◌else◌, Option, some, none, ◌>>=◌,
  length, arith, Option-cases, inl, inr,
}
use esp32cam.Container.Swap.{Swap, count_free, count_full, push_free, pop_free, push_full, pop_full}

-- How often a buffer stands in a list.
abbrev pub count : ℕ → List ℕ → ℕ
count x [] = 0
count x (y ∷ ys) = if x == y then count x ys + 1 else count x ys

pub count-append : (x : ℕ) (xs ys : List ℕ) → count x (xs ++ ys) ≡ count x xs + count x ys
count-append x [] ys = omega arith
count-append x (y ∷ xs) ys = ground (arith, count-append x xs ys)

-- What a client does that asks for a buffer only where there is one, and that gives back what it has.
pub data Call : Type 0 where
  takes_free takes_full : Call
  -- The place in what it has borrowed.
  gives_free gives_full : ℕ → Call

abbrev pub remove_at : ℕ → List ℕ → Option (ℕ × List ℕ)
remove_at i [] = none
remove_at zero (x ∷ xs) = some (x, xs)
remove_at (suc i) (x ∷ xs) = remove_at i xs >>= λ r. some (r.0, x ∷ r.1)

abbrev pub Lent : Type 0
Lent = Swap × List ℕ

module _ (limit : ℕ) where
  unfoldable pub call : Call → Lent → Option Lent
  call takes_free (s, bs) =
      if count_free limit s == 0
      then some (s, bs)
      else (pop_free limit s >>= λ r. some (r.1, r.0 ∷ bs))
  call takes_full (s, bs) =
      if count_full limit s == 0
      then some (s, bs)
      else (pop_full limit s >>= λ r. some (r.1, r.0 ∷ bs))
  call (gives_free i) (s, bs) = elim (remove_at i bs) [
    | none ↦ some (s, bs)
    | some r ↦ push_free limit r.0 s >>= λ s'. some (s', r.1)
  ]
  call (gives_full i) (s, bs) = elim (remove_at i bs) [
    | none ↦ some (s, bs)
    | some r ↦ push_full limit r.0 s >>= λ s'. some (s', r.1)
  ]

  unfoldable pub run : List Call → Lent → Option Lent
  run [] w = some w
  run (c ∷ cs) w = call c w >>= run cs

-- What is given back has been borrowed.
pub remove_at_lem :
    (k : ℕ) (bs : List ℕ) (r : ℕ × List ℕ)
    → remove_at k bs ≡ some r
    → ((x : ℕ) → count x (r.0 ∷ r.1) ≡ count x bs) × (length bs ≡ suc (length r.1))
remove_at_lem k [] (c, cs) h = cc
remove_at_lem zero (b ∷ bs) (c, cs) h = (λ x. ground (arith, h), ground (arith, h))
remove_at_lem (suc k) (b ∷ bs) (c, cs) h = elim (Option-cases (remove_at k bs)) [
  | inl nothing ↦ absurd (ground (arith, h, nothing))
  | inr ((c', cs'), found) ↦
      let (counted, len) = remove_at_lem k bs (c', cs') found in
      (λ x. ground (arith, h, found, counted x), ground (arith, h, found, len))
]

-- ===== src/Container/Filled.antt =====
-- The places of CircularBuffer of components/utility/utility/cont/CircularBuffer.hpp, going round.
use esp32cam.Base.{
  ℕ, zero, suc, ◌-◌, ◌≡◌, ◌≤◌, ◌<◌, sym, ◌∙◌, ap, List, [], ◌∷◌, ◌++◌, Option, some, false, ◌==◌,
  arith, length,
}
use esp32cam.Container.Counter.{fwd, fwd-lt, fwd-fwd, fwd-zero, fwd-ne, fwd-around}
use esp32cam.Container.Circular.{emplace_at, destruct_at}

module _ {T : Type 0} (limit : ℕ) where
  -- The places from one on, going round, hold these objects.
  abbrev pub Filled : (ℕ → Option T) → ℕ → List T → Type 0
  Filled at p [] = Unit {0}
  Filled at p (x ∷ xs) = (at p ≡ some x) × Filled at (fwd limit p 1) xs

  -- What is not written stays: `j` lies `d` places on, behind all of the objects.
  Filled-away :
      (at at' : ℕ → Option T) (p d : ℕ) (xs : List T)
      → ((i : ℕ) → (i == fwd limit p d) ≡ false → at' i ≡ at i)
      → p < limit
      → d < limit
      → length xs ≤ d
      → Filled at p xs
      → Filled at' p xs
  Filled-away at at' p d [] same hp hd hl h = tt
  Filled-away at at' p zero (x ∷ xs) same hp hd hl h = ground arith
  Filled-away at at' p (suc d) (x ∷ xs) same hp hd hl h = (
    same p (fwd-ne limit p (suc d) hp hd (omega arith)) ∙ h.0,
    Filled-away at at' (fwd limit p 1) d xs
        (λ i n. same i (ap (λ k. i == k) (sym (fwd-fwd limit p d hp (omega arith))) ∙ n))
        (fwd-lt limit p 1 hp (omega arith)) (omega arith) (omega arith) h.1,
  )

  Filled-last :
      (at : ℕ → Option T) (p : ℕ) (xs : List T) (x : T)
      → p < limit
      → length xs < limit
      → at (fwd limit p (length xs)) ≡ some x
      → Filled at p xs
      → Filled at p (xs ++ x ∷ [])
  Filled-last at p [] x hp hl h f = (ap at (sym (fwd-zero limit p hp)) ∙ h, tt)
  Filled-last at p (y ∷ xs) x hp hl h f = (
    f.0,
    Filled-last at (fwd limit p 1) xs x (fwd-lt limit p 1 hp (omega arith)) (omega arith)
        (ap at (fwd-fwd limit p (length xs) hp (omega arith)) ∙ h) f.1,
  )

  pub emplace_at-Filled :
      (at : ℕ → Option T) (p : ℕ) (xs : List T) (x : T)
      → p < limit
      → length xs < limit
      → Filled at p xs
      → Filled (emplace_at (fwd limit p (length xs)) x at) p (xs ++ x ∷ [])
  unfolding emplace_at
  emplace_at-Filled at p xs x hp hl f =
      let i = fwd limit p (length xs) in
      Filled-last (emplace_at i x at) p xs x hp hl (ground arith) (
        Filled-away at (emplace_at i x at) p (length xs) xs (λ k n. ground arith) hp hl
          (omega arith) f)

  pub destruct_at-Filled :
      (at : ℕ → Option T) (p : ℕ) (x : T) (xs : List T)
      → p < limit
      → length xs < limit
      → Filled at p (x ∷ xs)
      → Filled (destruct_at p at) (fwd limit p 1) xs
  unfolding destruct_at
  destruct_at-Filled at p x xs hp hl f =
      Filled-away at (destruct_at p at) (fwd limit p 1) (limit - 1) xs
        (λ k n. ground (arith, fwd-around limit p hp)) (fwd-lt limit p 1 hp (omega arith))
        (omega arith) (omega arith) f.1

-- ===== src/Container/Observe.antt =====
-- What CircularBuffer of components/utility/utility/cont/CircularBuffer.hpp shows of its queue.
use esp32cam.Base.{
  false, ℕ, suc, ◌+◌, ◌≡◌, ◌≤◌, ◌<◌, refl, sym, ◌∙◌, ap, List, [], ◌∷◌, ◌++◌, Option, some, true,
  arith, length, length-append,
}
use esp32cam.Container.Counter
use esp32cam.Container.Counter.{fwd, rev, fwd-lt, fwd-fwd, fwd-zero, rev-next}
use esp32cam.Container.Circular.{
  Circular, same_iterator, front, back, begin, end, rbegin, rend, next, traverse,
}
use esp32cam.Container.Filled.{Filled}
use esp32cam.Container.Queue.{Holds}

module _ {T : Type 0} (limit : ℕ) where
  traverse-step :
      (at : ℕ → Option T) (p n e fuel : ℕ) (x : T) (xs : List T)
      → at p ≡ some x
      → traverse limit fuel true at
          (record { pos = fwd limit p 1; ttl = n })
          (record { pos = e; ttl = 0 })
        ≡ some xs
      → traverse limit
          (suc fuel)
          true
          at
          (record { pos = p; ttl = suc n })
          (record { pos = e; ttl = 0 })
        ≡ some (x ∷ xs)
  unfolding traverse same_iterator next
  traverse-step at p n e fuel x xs h rest = ground arith

  -- The loop over as many places as there are objects.
  traverse-Filled :
      (at : ℕ → Option T) (p e : ℕ) (xs : List T)
      → p < limit
      → length xs ≤ limit
      → e ≡ fwd limit p (length xs)
      → Filled limit at p xs
      → traverse limit
          (suc (length xs))
          true
          at
          (record { pos = p; ttl = length xs })
          (record { pos = e; ttl = 0 })
        ≡ some xs
  unfolding traverse same_iterator
  traverse-Filled at p e [] hp hl he f = ground (arith, fwd-zero limit p hp)
  traverse-Filled at p e (x ∷ xs) hp hl he f =
      traverse-step at p (length xs) e (suc (length xs)) x xs f.0 (
        traverse-Filled at (fwd limit p 1) e xs (fwd-lt limit p 1 hp (omega arith)) (omega arith)
          (he ∙ sym (fwd-fwd limit p (length xs) hp hl)) f.1)

  Filled-back :
      (at : ℕ → Option T) (p : ℕ) (xs : List T) (x : T)
      → p < limit
      → length xs < limit
      → Filled limit at p (xs ++ x ∷ [])
      → at (fwd limit p (length xs)) ≡ some x
  Filled-back at p [] x hp hl f = ap at (fwd-zero limit p hp) ∙ f.0
  Filled-back at p (y ∷ xs) x hp hl f =
      ap at (sym (fwd-fwd limit p (length xs) hp (omega arith)))
      ∙ Filled-back at (fwd limit p 1) xs x (fwd-lt limit p 1 hp (omega arith)) (omega arith) f.1

  -- The loop from `begin` to `end` over a buffer that holds a queue ends, and sees the elements of the
  -- queue in their order.
  pub traverse-Holds :
      (b : Circular T) (q : List T)
      → Holds limit b q
      → traverse limit (suc (length q)) true b.at (begin limit b) (end limit b) ≡ some q
  unfolding Counter.tail Counter.head fwd
  traverse-Holds b q h = ground (
    arith,
    traverse-Filled b.at b.cc.base (fwd limit b.cc.base (length q)) q h.0 h.1.1.0 refl h.1.1.1,
    h.1.0,
  )

  -- Where a buffer holds a queue of at least two elements, `front` is the first of them and `back` the
  -- last one.
  pub ends_lem :
      (b : Circular T) (x : T) (q : List T) (y : T)
      → Holds limit b (x ∷ q ++ y ∷ [])
      → (front limit b ≡ some x) × (back limit b ≡ some y)
  unfolding front back Counter.tail Counter.head fwd
  ends_lem b x q y h = (
    h.1.1.1.0,
    ground (
      arith,
      length-append q (y ∷ []),
      h.1.0,
      h.0,
      h.1.1.0,
      rev-next limit b.cc.base (length q + 1) h.0,
      Filled-back b.at b.cc.base (x ∷ q) y h.0 (ground (arith, length-append q (y ∷ []), h.1.1.0))
          h.1.1.1,
    ),
  )

  -- The same elements, the last one first.
  unfoldable pub reversed : List T → List T
  reversed [] = []
  reversed (x ∷ xs) = reversed xs ++ x ∷ []

  length-reversed : (xs : List T) → length (reversed xs) ≡ length xs
  unfolding reversed
  length-reversed [] = refl
  length-reversed (x ∷ xs) =
      ground (arith, length-append (reversed xs) (x ∷ []), length-reversed xs)

  Filled-init :
      (at : ℕ → Option T) (p : ℕ) (xs ys : List T)
      → Filled limit at p (xs ++ ys)
      → Filled limit at p xs
  Filled-init at p [] ys f = tt
  Filled-init at p (x ∷ xs) ys f = (f.0, Filled-init at (fwd limit p 1) xs ys f.1)

  traverse-back :
      (at : ℕ → Option T) (p n e fuel : ℕ) (x : T) (xs : List T)
      → at p ≡ some x
      → traverse limit fuel false at
          (record { pos = rev limit p 1; ttl = n })
          (record { pos = e; ttl = 0 })
        ≡ some xs
      → traverse limit
          (suc fuel)
          false
          at
          (record { pos = p; ttl = suc n })
          (record { pos = e; ttl = 0 })
        ≡ some (x ∷ xs)
  unfolding traverse same_iterator next
  traverse-back at p n e fuel x xs h rest = ground arith

  traverse-reversed :
      (at : ℕ → Option T) (p s : ℕ) (xs : List T)
      → p < limit
      → length xs ≤ limit
      → s ≡ rev limit (fwd limit p (length xs)) 1
      → Filled limit at p (reversed xs)
      → traverse limit
          (suc (length xs))
          false
          at
          (record { pos = s; ttl = length xs })
          (record { pos = rev limit p 1; ttl = 0 })
        ≡ some xs
  unfolding traverse same_iterator reversed
  traverse-reversed at p s [] hp hl hs f = ground (arith, fwd-zero limit p hp)
  traverse-reversed at p s (x ∷ xs) hp hl hs f =
      let here = hs ∙ rev-next limit p (length xs) hp hl in
      traverse-back at s (length xs) (rev limit p 1) (suc (length xs)) x xs
        (ap at (here ∙ ap (fwd limit p) (sym (length-reversed xs)))
          ∙ Filled-back at p (reversed xs) x hp (ground (arith, length-reversed xs)) f)
        (traverse-reversed at p (rev limit s 1) xs hp (omega arith) (ap (λ k. rev limit k 1) here)
          (Filled-init at p (reversed xs) (x ∷ []) f))

  -- The loop from `rbegin` to `rend` over a buffer that holds a queue ends, and sees the queue from
  -- its last element to its first.
  pub reversed_lem :
      (b : Circular T) (xs : List T)
      → Holds limit b (reversed xs)
      → traverse limit (suc (length xs)) false b.at (rbegin limit b) (rend limit b) ≡ some xs
  unfolding Counter.tail Counter.head fwd
  reversed_lem b xs h = ground (
    arith,
    length-reversed xs,
    h.1.0,
    traverse-reversed b.at b.cc.base (rev limit (fwd limit b.cc.base (length xs)) 1) xs h.0
        (ground (arith, h.1.1.0, length-reversed xs)) refl h.1.1.1,
  )

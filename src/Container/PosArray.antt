-- ===== src/Container/PosArray.antt =====
-- components/utility/utility/cont/PosArray.hpp: an array with an insert position. `at` outside of the
-- array aborts (exceptions are off), which is none; `pos - 1` of an empty array is outside. An object that `pop_back`
-- destroys stays in its place of the model, above the position.
use esp32cam.Base.{
  ℕ, zero, suc, ◌+◌, ◌-◌, ◌≡◌, ◌≤◌, ◌<◌, ◌==◌, ltb, if◌then◌else◌, refl, ap, ◌∙◌, arith, Option,
  some, none,
}
use esp32cam.Storage.Flushing.{Outcome, done, panicked, out_of_fuel}

pub record PosArray {ℓ} (T : Type ℓ) : Type ℓ where
  pub pos : ℕ
  pub at : ℕ → T

module _ {T : Type 0} (limit : ℕ) where
  abbrev pub size : PosArray T → ℕ
  size a = a.pos

  abbrev pub capacity : PosArray T → ℕ
  capacity a = limit - a.pos

  unfoldable pub back : PosArray T → Option T
  back a = if a.pos == 0 then none else some (a.at (a.pos - 1))

  unfoldable pub push_back : T → PosArray T → Option (PosArray T)
  push_back x a =
      if ltb a.pos limit
      then some (record { pos = a.pos + 1; at = λ i. if i == a.pos then x else a.at i })
      else none

  unfoldable pub pop_back : PosArray T → Option (T × PosArray T)
  pop_back a =
      if a.pos == 0 then none else some (a.at (a.pos - 1), record { pos = a.pos - 1; at = a.at })

  -- The loop of `reset`, on fuel.
  unfoldable pub reset : ℕ → PosArray T → Outcome (PosArray T)
  reset zero a = out_of_fuel
  reset (suc fuel) a =
      let rest = reset fuel (record { pos = a.pos - 1; at = a.at }) in
      if capacity a == size a then done a else elim (pop_back a) [ none ↦ panicked | some p ↦ rest ]

  -- On an array with room, `push_back` and then `back` and `pop_back` give the element, and the array
  -- has its position again, with the elements below it as they were.
  pub pop_back-push_back :
      (x : T) (a : PosArray T)
      → a.pos < limit
      → (r : PosArray T) × ((push_back x a ≡ some r)
          × ((back r ≡ some x)
              × ((s : PosArray T) × ((pop_back r ≡ some (x, s))
                    × ((s.pos ≡ a.pos) × ((i : ℕ) → i < a.pos → s.at i ≡ a.at i))))))
  unfolding push_back back pop_back
  pop_back-push_back x a h =
      let r : PosArray T = record { pos = a.pos + 1; at = λ i. if i == a.pos then x else a.at i } in
      (
        r,
        (
          ground arith,
          (
            ground arith,
            (record { pos = a.pos; at = r.at }, (ground arith, (refl, λ i less. ground arith))),
          ),
        ),
      )

  reset_more :
      (fuel pos : ℕ) (at : ℕ → T)
      → 1 ≤ pos
      → limit - pos < pos
      → reset (suc fuel) (record { pos = pos; at = at })
        ≡ reset fuel (record { pos = pos - 1; at = at })
  unfolding reset pop_back
  reset_more fuel pos at h k = ground arith

  reset-steps :
      (d fuel pos half : ℕ) (at : ℕ → T)
      → limit ≡ half + half
      → pos ≡ half + d
      → pos ≤ limit
      → 1 ≤ half
      → reset (suc (d + fuel)) (record { pos = pos; at = at })
        ≡ done (record { pos = half; at = at })
  unfolding reset pop_back
  reset-steps zero fuel pos half at e h k one = ground arith
  reset-steps (suc d) fuel pos half at e h k one =
      ap (λ n. reset (suc n) (record { pos = pos; at = at })) plus
      ∙ reset_more (suc (d + fuel)) pos at (omega arith) (omega arith)
      ∙ reset-steps d fuel (pos - 1) half at e (omega arith) (omega arith) one
    where
      plus : suc d + fuel ≡ suc (d + fuel)
      plus = omega arith

  -- `reset` of an array of an even number of places, at least half of them and at least one taken,
  -- ends, and leaves the array half full.
  pub reset_half :
      (a : PosArray T) (half : ℕ)
      → a.pos ≤ limit
      → limit ≡ half + half
      → half ≤ a.pos
      → 1 ≤ half
      → reset (suc a.pos) a ≡ done (record { pos = half; at = a.at })
  reset_half a half h e k one =
      ap (λ n. reset (suc n) a) (omega arith)
      ∙ reset-steps (a.pos - half) half a.pos half a.at e (omega arith) h one

-- ===== src/Container/Circular.antt =====
-- components/utility/utility/cont/CircularBuffer.hpp: CircularIterator and CircularBuffer. Each place
-- of the byte array holds an object or none; a failed assertion, or the use of a place without an
-- object, is none.
use esp32cam.Base.{
  ℕ, zero, suc, ◌-◌, List, [], ◌∷◌, Option, some, none, Bool, true, false, ◌==◌, ◌&&◌,
  if◌then◌else◌,
}
use esp32cam.Container.Counter
use esp32cam.Container.Counter.{Counter, fwd, rev}

pub record Circular {ℓ} (T : Type ℓ) : Type ℓ where
  pub cc : Counter
  pub at : ℕ → Option T

-- `pos` and `ttl`; the array is an argument of what dereferences.
pub record CircularIterator : Type 0 where
  pub pos : ℕ
  pub ttl : ℕ

-- `operator!=` on two iterators of one buffer, negated.
unfoldable pub same_iterator : CircularIterator → CircularIterator → Bool
same_iterator a b = a.ttl == b.ttl && a.pos == b.pos

-- `operator++` of the iterators forward and back.
unfoldable pub next : ℕ → Bool → CircularIterator → CircularIterator
next limit true i = record { pos = fwd limit i.pos 1; ttl = i.ttl - 1 }
next limit false i = record { pos = rev limit i.pos 1; ttl = i.ttl - 1 }

-- `emplaceAt`, `destructAt`.
module _ {T : Type 0} where
  unfoldable pub emplace_at : ℕ → T → (ℕ → Option T) → ℕ → Option T
  emplace_at pos x at i = if i == pos then some x else at i

  unfoldable pub destruct_at : ℕ → (ℕ → Option T) → ℕ → Option T
  destruct_at pos at i = if i == pos then none else at i

module _ {T : Type 0} (limit : ℕ) where
  abbrev pub initial : Circular T
  initial = record { cc = Counter.empty; at = λ i. none }

  unfoldable pub size : Circular T → ℕ
  size b = b.cc.sz

  unfoldable pub front : Circular T → Option T
  front b = b.at (Counter.tail limit b.cc)

  unfoldable pub back : Circular T → Option T
  back b = if b.cc.sz == 0 then none else b.at (rev limit (Counter.head limit b.cc) 1)

  unfoldable pub pop_front : Circular T → Option (Circular T)
  pop_front b = if b.cc.sz == 0 then none else elim (Counter.pop limit 1 b.cc) [
    | none ↦ none
    | some cc ↦ some (record { cc = cc; at = destruct_at (Counter.tail limit b.cc) b.at })
  ]

  -- `ensureCapacity`, with `FallowOverwrite` first.
  unfoldable pub ensure_capacity : Bool → Circular T → Option (Circular T)
  ensure_capacity true b = if Counter.capacity limit b.cc == 0 then pop_front b else some b
  ensure_capacity false b = if Counter.capacity limit b.cc == 0 then none else some b

  unfoldable pub emplace_back : Bool → T → Circular T → Option (Circular T)
  emplace_back overwrite x b = elim (ensure_capacity overwrite b) [
    | none ↦ none
    | some r ↦ elim (Counter.push limit 1 r.cc) [
      | none ↦ none
      | some cc ↦ some (record { cc = cc; at = emplace_at (Counter.head limit r.cc) x r.at })
    ]
  ]

  abbrev pub begin : Circular T → CircularIterator
  begin b = record { pos = Counter.tail limit b.cc; ttl = b.cc.sz }

  abbrev pub end : Circular T → CircularIterator
  end b = record { pos = Counter.head limit b.cc; ttl = 0 }

  abbrev pub rbegin : Circular T → CircularIterator
  rbegin b = record { pos = rev limit (Counter.head limit b.cc) 1; ttl = b.cc.sz }

  abbrev pub rend : Circular T → CircularIterator
  rend b = record { pos = rev limit (Counter.tail limit b.cc) 1; ttl = 0 }

  -- A loop from one iterator to another, on fuel: the objects it sees.
  unfoldable pub traverse :
      ℕ → Bool → (ℕ → Option T) → CircularIterator → CircularIterator → Option (List T)
  traverse zero forward at i last = none
  traverse (suc fuel) forward at i last =
      if same_iterator i last
      then some []
      else (let rest = traverse fuel forward at (next limit forward i) last in
          elim (at i.pos) [
            | none ↦ none
            | some x ↦ elim rest [ none ↦ none | some xs ↦ some (x ∷ xs) ]
          ])

  -- What callers do to the buffer.
  unfoldable pub call : Bool → Option T → Circular T → Option (Circular T)
  call overwrite none b = pop_front b
  call overwrite (some x) b = emplace_back overwrite x b

  unfoldable pub run : Bool → List (Option T) → Circular T → Option (Circular T)
  run overwrite [] b = some b
  run overwrite (c ∷ cs) b = elim (call overwrite c b) [
    | none ↦ none
    | some next_b ↦ run overwrite cs next_b
  ]

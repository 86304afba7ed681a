-- ===== src/Routing/Table.antt =====
-- The sorted vector of `RoutingRules`, with `std::lower_bound`, `insert` and `erase` on it.
use esp32cam.Base.{
  ◌≡◌, refl, List, [], ◌∷◌, true, Option, none, some, if◌then◌else◌, arith, Bool-cases, inl, inr,
}
use esp32cam.Routing.Order.{StrictOrder, lt_ne}

module _ {K V : Type 0} (o : StrictOrder K) where
  -- The range from the first entry on that is not below the key.
  pub lower_bound : K → List (K × V) → List (K × V)
  lower_bound k [] = []
  lower_bound k ((j, v) ∷ t) = if o.lt j k then lower_bound k t else (j, v) ∷ t

  -- The entry of the key, if the one found there has it.
  unfoldable pub find_exact : K → List (K × V) → Option V
  find_exact k t = elim (lower_bound k t) [
    | [] ↦ none
    | (j, v) ∷ rest ↦ if o.eq j k then some v else none
  ]

  -- `insert` in front of the lower bound, and `erase` at it.
  unfoldable pub insert : K → V → List (K × V) → List (K × V)
  insert k v [] = (k, v) ∷ []
  insert k v ((j, w) ∷ t) = if o.lt j k then (j, w) ∷ insert k v t else (k, v) ∷ (j, w) ∷ t

  unfoldable pub erase : K → List (K × V) → List (K × V)
  erase k [] = []
  erase k ((j, w) ∷ t) = if o.lt j k then (j, w) ∷ erase k t else t

  -- The same table without the order: the first entry that has the key.
  unfoldable pub lookup : K → List (K × V) → Option V
  lookup k [] = none
  lookup k ((j, v) ∷ t) = if o.eq j k then some v else lookup k t

  abbrev pub Above : K → List (K × V) → Type 0
  Above k [] = Unit {0}
  Above k ((j, v) ∷ t) = (o.lt k j ≡ true) × Above k t

  abbrev pub IsSorted : List (K × V) → Type 0
  IsSorted [] = Unit {0}
  IsSorted ((j, v) ∷ t) = Above j t × IsSorted t

  Above-trans : (a b : K) (t : List (K × V)) → o.lt a b ≡ true → Above b t → Above a t
  Above-trans a b [] h q = tt
  Above-trans a b ((j, v) ∷ t) h q = (o.trans a b j h q.0, Above-trans a b t h q.1)

  Above-lookup : (k : K) (t : List (K × V)) → Above k t → lookup k t ≡ none
  unfolding lookup
  Above-lookup k [] h = refl
  Above-lookup k ((j, v) ∷ t) h =
      ground (arith, Above-lookup k t h.1, o.eq_iff j k, o.irrefl k, h.0)

  pub find_exact-eq-lookup : (k : K) (t : List (K × V)) → IsSorted t → find_exact k t ≡ lookup k t
  unfolding find_exact lower_bound lookup
  find_exact-eq-lookup k [] s = refl
  find_exact-eq-lookup k ((j, v) ∷ t) s = elim (Bool-cases (o.lt j k)) [
    | inl below ↦ ground (arith, find_exact-eq-lookup k t s.1, lt_ne o j k below)
    | inr above ↦ ground (
      arith,
      o.eq_iff j k,
      o.total j k,
      λ (h : o.lt k j ≡ true). Above-lookup k t (Above-trans k j t h s.0),
    )
  ]

  pub lookup-insert :
      (k i : K) (v : V) (t : List (K × V))
      → lookup i (insert k v t) ≡ (if o.eq k i then some v else lookup i t)
  unfolding lookup insert
  lookup-insert k i v [] = refl
  lookup-insert k i v ((j, w) ∷ t) =
      ground (arith, lookup-insert k i v t, lt_ne o j k, o.eq_iff j i, o.eq_iff k i, o.eq_iff j k)

  Above-insert :
      (a k : K) (v : V) (t : List (K × V)) → o.lt a k ≡ true → Above a t → Above a (insert k v t)
  unfolding insert
  Above-insert a k v [] h q = (h, tt)
  Above-insert a k v ((j, w) ∷ t) h q = ground (arith, Above-insert a k v t h q.1)

  pub insert-IsSorted :
      (k : K) (v : V) (t : List (K × V)) → IsSorted t → lookup k t ≡ none → IsSorted (insert k v t)
  unfolding insert lookup
  insert-IsSorted k v [] s h = (tt, tt)
  insert-IsSorted k v ((j, w) ∷ t) s h = elim (Bool-cases (o.lt j k)) [
    | inl below ↦
        ground (arith, Above-insert j k v t below s.0, insert-IsSorted k v t s.1, lt_ne o j k below)
    | inr above ↦ ground (arith, o.total j k above, o.eq_iff j k, Above-trans k j t)
  ]

  Above-erase : (a k : K) (t : List (K × V)) → Above a t → IsSorted t → Above a (erase k t)
  unfolding erase
  Above-erase a k [] q s = tt
  Above-erase a k ((j, w) ∷ t) q s = ground (arith, Above-erase a k t q.1 s.1)

  pub erase-IsSorted : (k : K) (t : List (K × V)) → IsSorted t → IsSorted (erase k t)
  unfolding erase
  erase-IsSorted k [] s = tt
  erase-IsSorted k ((j, w) ∷ t) s =
      ground (arith, Above-erase j k t s.0 s.1, erase-IsSorted k t s.1)

  pub lookup-erase :
      (k i : K) (v : V) (t : List (K × V))
      → IsSorted t
      → lookup k t ≡ some v
      → lookup i (erase k t) ≡ (if o.eq k i then none else lookup i t)
  unfolding lookup erase
  lookup-erase k i v [] s h = cc
  lookup-erase k i v ((j, w) ∷ t) s h = elim (Bool-cases (o.lt j k)) [
    | inl below ↦
        ground (arith, lookup-erase k i v t s.1, lt_ne o j k below, o.eq_iff j i, o.eq_iff k i)
    | inr above ↦ ground (
      arith,
      o.eq_iff j k,
      o.eq_iff j i,
      o.eq_iff k i,
      o.total j k,
      Above-lookup j t s.0,
      λ (less : o.lt k j ≡ true). Above-lookup k t (Above-trans k j t less s.0),
    )
  ]

  -- A new key that is erased again leaves the table as it was.
  pub erase-insert :
      (k : K) (v : V) (t : List (K × V))
      → IsSorted t
      → lookup k t ≡ none
      → erase k (insert k v t) ≡ t
  unfolding erase insert lookup
  erase-insert k v [] s h = ground (arith, o.irrefl k)
  erase-insert k v ((j, w) ∷ t) s h = ground (arith, o.irrefl k, erase-insert k v t s.1)

-- ===== src/Module/Parameter/Instances.antt =====
-- The instances of Parameter.cpp: one for each description, at the place of its id.
use esp32cam.Base.{
  ℕ, zero, suc, ◌+◌, ◌≡◌, ◌<◌, ap, refl, arith, List, [], ◌∷◌, Bool, true, ◌&&◌, Option, none, some,
  ◌==◌, get_elem?, set, length, length-set, ◌>>=◌, ◌∙◌, ◌≢◌, Option-cases, inl, inr,
}
use esp32cam.Module.{Module, Field}
use esp32cam.Module.Description.{ParameterDescription, pardesc_to_id}
use esp32cam.Module.Parameter.{
  Parameter, World, fresh_instance, ensure_at, instance_by_id, at, put, instance_by_mf,
}

-- Each instance that has been made has the number of its place as its id.
unfoldable pub numbered : ℕ → List (Option Parameter) → Bool
numbered start [] = true
numbered start (none ∷ l) = numbered (suc start) l
numbered start (some p ∷ l) = (p.id == start) && numbered (suc start) l

numbered-set :
    (l : List (Option Parameter)) (start i : ℕ) (p : Parameter)
    → numbered start l ≡ true
    → p.id ≡ start + i
    → numbered start (set l i (some p)) ≡ true
unfolding numbered
numbered-set [] start i p h e = refl
numbered-set (none ∷ l) start zero p h e = ground arith
numbered-set (some q ∷ l) start zero p h e = ground arith
numbered-set (none ∷ l) start (suc i) p h e = numbered-set l (suc start) i p h (omega (arith, e))
numbered-set (some q ∷ l) start (suc i) p h e =
    ground (arith, numbered-set l (suc start) i p (ground arith) (omega (arith, e)))

numbered-get :
    (l : List (Option Parameter)) (start i : ℕ) (p : Parameter)
    → numbered start l ≡ true
    → get_elem? l i ≡ some (some p)
    → p.id ≡ start + i
unfolding numbered
numbered-get [] start i p h g = absurd (ground arith)
numbered-get (none ∷ l) start zero p h g = absurd (ground arith)
numbered-get (some q ∷ l) start zero p h g = ground arith
numbered-get (none ∷ l) start (suc i) p h g = omega (arith, numbered-get l (suc start) i p h g)
numbered-get (some q ∷ l) start (suc i) p h g =
    omega (arith, numbered-get l (suc start) i p (ground arith) g)

pub get_elem?-set :
    {A : Type 0} (l : List A) (i : ℕ) (v : A) → i < length l → get_elem? (set l i v) i ≡ some v
get_elem?-set [] i v h = absurd (omega arith)
get_elem?-set (x ∷ l) zero v h = refl
get_elem?-set (x ∷ l) (suc i) v h = get_elem?-set l i v (omega arith)

pub get_elem?-set_ne :
    {A : Type 0} (l : List A) (i j : ℕ) (v : A) → i ≢ j → get_elem? (set l i v) j ≡ get_elem? l j
get_elem?-set_ne [] i j v h = refl
get_elem?-set_ne (x ∷ l) zero zero v h = absurd (h refl)
get_elem?-set_ne (x ∷ l) zero (suc j) v h = refl
get_elem?-set_ne (x ∷ l) (suc i) zero v h = refl
get_elem?-set_ne (x ∷ l) (suc i) (suc j) v h = get_elem?-set_ne l i j v (λ e. h (ap suc e))

pub get_elem?-length :
    {A : Type 0} (l : List A) (i : ℕ) (v : A) → get_elem? l i ≡ some v → i < length l
get_elem?-length [] i v h = absurd (ground arith)
get_elem?-length (x ∷ l) zero v h = omega arith
get_elem?-length (x ∷ l) (suc i) v h = omega (arith, get_elem?-length l i v h)

length-get_elem? :
    {A : Type 0} (l : List A) (i : ℕ) → i < length l → (v : A) × (get_elem? l i ≡ some v)
length-get_elem? [] i h = absurd (omega arith)
length-get_elem? (x ∷ l) zero h = (x, refl)
length-get_elem? (x ∷ l) (suc i) h = length-get_elem? l i (omega arith)

-- The static state is as the descriptions ask for.
pub record IsValid (S : Type 0) (ds : List ParameterDescription) (w : World S) : Type 0 where
  pub one_each : length w.instances ≡ length ds
  pub ids : numbered 0 w.instances ≡ true

-- `ensure_at` inside the array.
ensure_at_lem :
    (l : List (Option Parameter)) (i : ℕ)
    → numbered 0 l ≡ true
    → i < length l
    → (m : List (Option Parameter)) × (p : Parameter) × (ensure_at i l ≡ some m)
      × (get_elem? m i ≡ some (some p))
      × (length m ≡ length l)
      × (numbered 0 m ≡ true)
      × ((j : ℕ) (q : Parameter) → get_elem? l j ≡ some (some q) → get_elem? m j ≡ some (some q))
unfolding ensure_at
ensure_at_lem l i ids inside =
    let (o, here) = length-get_elem? l i inside in
    elim (Option-cases o) [
      | inl empty ↦ (
        set l i (some (fresh_instance i)),
        fresh_instance i,
        ground (arith, here, empty),
        get_elem?-set l i (some (fresh_instance i)) inside,
        length-set l i (some (fresh_instance i)),
        numbered-set l 0 i (fresh_instance i) ids (omega arith),
        λ j q g.
            get_elem?-set_ne l i j (some (fresh_instance i))
              (λ e. some-clash l i j o q e here empty g)
            ∙ g,
      )
      | inr (p, made) ↦
          (l, p, ground (arith, here, made), here ∙ ap some made, refl, ids, λ j q g. g)
    ]
  where
    some-clash :
        (l : List (Option Parameter)) (i j : ℕ) (o : Option Parameter) (q : Parameter)
        → i ≡ j
        → get_elem? l i ≡ some o
        → o ≡ none
        → get_elem? l j ≡ some (some q)
        → ⊥
    some-clash l i j o q e h n g = let f = ap (get_elem? l) e in ground (arith, f)

joined :
    (o : Option (Option Parameter)) (q : Parameter) → (o >>= (λ r. r)) ≡ some q → o ≡ some (some q)
joined none q h = absurd (ground arith)
joined (some o) q h = ap some h

module _ {S : Type 0} (ds : List ParameterDescription) where
  -- `instanceByMf` for a pair that has a description, in a valid state: it returns the instance at
  -- that description's place, with that place as its id, the state stays valid, the storage and every
  -- instance that was there before stay as they were.
  pub instance_by_mf_lem :
      (m : Module) (f : Field) (i : ℕ) (d : ParameterDescription) (w : World S)
      → IsValid S ds w
      → pardesc_to_id ds m f ≡ some i
      → get_elem? ds i ≡ some d
      → (x : World S) × (p : Parameter) × (instance_by_mf ds m f w ≡ some (some i, x))
        × (at i x ≡ some p)
        × (p.id ≡ i)
        × IsValid S ds x
        × (x.storage ≡ w.storage)
        × ((j : ℕ) (q : Parameter) → at j w ≡ some q → at j x ≡ some q)
  unfolding instance_by_mf instance_by_id at
  instance_by_mf_lem m f i d w valid found described =
      let inside : i < length w.instances =
        omega (arith, get_elem?-length ds i d described, valid.one_each) in
      let (l, p, made, here, same, ids, keeps) = ensure_at_lem w.instances i valid.ids inside in
      (
        record w { instances = l },
        p,
        ground (arith, found, made, inside),
        ground (arith, here),
        omega (arith, numbered-get l 0 i p ids here),
        record { one_each = same ∙ valid.one_each; ids = ids },
        refl,
        λ j q g.
            ap (λ (o : Option (Option Parameter)). o >>= (λ r. r))
              (keeps j q (joined (get_elem? w.instances j) q g)),
      )

-- To write to an instance that is there.
pub at-put :
    {S : Type 0} (i : ℕ) (p q : Parameter) (w : World S)
    → at i w ≡ some p
    → at i (put i q w) ≡ some q
unfolding at put
at-put i p q w h =
    ap (λ (o : Option (Option Parameter)). o >>= (λ r. r))
      (get_elem?-set w.instances i (some q)
        (get_elem?-length w.instances i (some p) (joined (get_elem? w.instances i) p h)))

pub put-IsValid :
    {S : Type 0} (ds : List ParameterDescription) (i : ℕ) (q : Parameter) (w : World S)
    → IsValid S ds w
    → q.id ≡ i
    → IsValid S ds (put i q w)
unfolding put
put-IsValid ds i q w valid e = record {
  one_each = length-set w.instances i (some q) ∙ valid.one_each;
  ids = numbered-set w.instances 0 i q valid.ids (omega (arith, e));
}

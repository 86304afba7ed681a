-- ===== src/Base/Lists.antt =====
-- Lists measured and indexed by native numbers, and writes into the middle of a list.
use Prim.Native.Nat.{ℕ, zero, suc, ◌+◌, ◌-◌, ◌≤◌, ◌<◌, min}
use mathlib.Core.Path.{◌≡◌, refl, sym, ap, ◌∙◌}
use mathlib.Core.Logic.{◌≢◌}
use mathlib.Core.List.{List, [], ◌∷◌, ◌++◌}
use mathlib.Core.Option.{Option, none, some}
use native.Mathlib.Decide.{dec_le}
use native.Mathlib.Omega.{arith}

module _ {ℓ} {A : Type ℓ} where
  abbrev pub length : List A → ℕ
  length [] = 0
  length (x ∷ xs) = suc (length xs)

  abbrev pub get_elem? : List A → ℕ → Option A
  get_elem? [] i = none
  get_elem? (x ∷ xs) zero = some x
  get_elem? (x ∷ xs) (suc i) = get_elem? xs i

  abbrev pub set : List A → ℕ → A → List A
  set [] i v = []
  set (x ∷ xs) zero v = v ∷ xs
  set (x ∷ xs) (suc i) v = x ∷ set xs i v

  abbrev pub get_or : List A → ℕ → A → A
  get_or [] i d = d
  get_or (x ∷ xs) zero d = x
  get_or (x ∷ xs) (suc i) d = get_or xs i d

  abbrev pub take : ℕ → List A → List A
  take zero xs = []
  take (suc n) [] = []
  take (suc n) (x ∷ xs) = x ∷ take n xs

  abbrev pub drop : ℕ → List A → List A
  drop zero xs = xs
  drop (suc n) [] = []
  drop (suc n) (x ∷ xs) = drop n xs

  abbrev pub replicate : ℕ → A → List A
  replicate zero a = []
  replicate (suc n) a = a ∷ replicate n a

  -- `copy_n` to the place `i` of a buffer; what falls outside is dropped.
  abbrev pub overwrite : List A → ℕ → List A → List A
  overwrite [] i ys = []
  overwrite (x ∷ xs) zero [] = x ∷ xs
  overwrite (x ∷ xs) zero (y ∷ ys) = y ∷ overwrite xs zero ys
  overwrite (x ∷ xs) (suc i) ys = x ∷ overwrite xs i ys

  pub length-append : (xs ys : List A) → length (xs ++ ys) ≡ length xs + length ys
  length-append [] ys = omega arith
  length-append (x ∷ xs) ys = omega (arith, length-append xs ys)

  pub length-replicate : (n : ℕ) (a : A) → length (replicate n a) ≡ n
  length-replicate zero a = refl
  length-replicate (suc n) a = ap suc (length-replicate n a)

  pub length-set : (xs : List A) (i : ℕ) (v : A) → length (set xs i v) ≡ length xs
  length-set [] i v = refl
  length-set (x ∷ xs) zero v = refl
  length-set (x ∷ xs) (suc i) v = ap suc (length-set xs i v)

  pub get_elem?-eq-get_or :
      (xs : List A) (i : ℕ) (d : A) → i < length xs → get_elem? xs i ≡ some (get_or xs i d)
  get_elem?-eq-get_or [] i d h = absurd (omega arith)
  get_elem?-eq-get_or (x ∷ xs) zero d h = refl
  get_elem?-eq-get_or (x ∷ xs) (suc i) d h = get_elem?-eq-get_or xs i d (omega arith)

  pub get_or-set_self :
      (xs : List A) (i : ℕ) (v d : A) → i < length xs → get_or (set xs i v) i d ≡ v
  get_or-set_self [] i v d h = absurd (omega arith)
  get_or-set_self (x ∷ xs) zero v d h = refl
  get_or-set_self (x ∷ xs) (suc i) v d h = get_or-set_self xs i v d (omega arith)

  pub get_or-set_ne :
      (xs : List A) (i j : ℕ) (v d : A) → i ≢ j → get_or (set xs i v) j d ≡ get_or xs j d
  get_or-set_ne [] i j v d h = refl
  get_or-set_ne (x ∷ xs) zero zero v d h = absurd (h refl)
  get_or-set_ne (x ∷ xs) zero (suc j) v d h = refl
  get_or-set_ne (x ∷ xs) (suc i) zero v d h = refl
  get_or-set_ne (x ∷ xs) (suc i) (suc j) v d h = get_or-set_ne xs i j v d (λ e. h (ap suc e))

  pub take-nil : (n : ℕ) → (let e : List A = [] in take n e) ≡ []
  take-nil zero = refl
  take-nil (suc n) = refl

  pub length-take : (n : ℕ) (xs : List A) → length (take n xs) ≡ min n (length xs)
  length-take zero xs = omega arith
  length-take (suc n) [] = omega arith
  length-take (suc n) (x ∷ xs) = omega (arith, length-take n xs)

  pub length-drop : (n : ℕ) (xs : List A) → length (drop n xs) ≡ length xs - n
  length-drop zero xs = omega arith
  length-drop (suc n) [] = omega arith
  length-drop (suc n) (x ∷ xs) = omega (arith, length-drop n xs)

  pub take-append-drop : (n : ℕ) (xs : List A) → take n xs ++ drop n xs ≡ xs
  take-append-drop zero xs = refl
  take-append-drop (suc n) [] = refl
  take-append-drop (suc n) (x ∷ xs) = ap (◌∷◌ x) (take-append-drop n xs)

  -- A prefix that is no shorter is the list.
  pub take_of_length-le : (m : ℕ) (list : List A) → length list ≤ m → take m list ≡ list
  take_of_length-le m [] short = take-nil m
  take_of_length-le zero (b ∷ bs) short = elim short [ ]
  take_of_length-le (suc m) (b ∷ bs) short = rw (take_of_length-le m bs (omega arith))

  pub drop_of_length-le : (n : ℕ) (xs : List A) → length xs ≤ n → drop n xs ≡ []
  drop_of_length-le zero [] h = refl
  drop_of_length-le zero (x ∷ xs) h = absurd (omega arith)
  drop_of_length-le (suc n) [] h = refl
  drop_of_length-le (suc n) (x ∷ xs) h = drop_of_length-le n xs (omega arith)

  pub take-append_length : (xs ys : List A) → take (length xs) (xs ++ ys) ≡ xs
  take-append_length [] ys = refl
  take-append_length (x ∷ xs) ys = ap (◌∷◌ x) (take-append_length xs ys)

  pub drop-append_length : (xs ys : List A) → drop (length xs) (xs ++ ys) ≡ ys
  drop-append_length [] ys = refl
  drop-append_length (x ∷ xs) ys = drop-append_length xs ys

  pub take-take : (m n : ℕ) (xs : List A) → m ≤ n → take m (take n xs) ≡ take m xs
  take-take zero n xs h = refl
  take-take (suc m) zero xs h = absurd (omega arith)
  take-take (suc m) (suc n) [] h = refl
  take-take (suc m) (suc n) (x ∷ xs) h = ap (◌∷◌ x) (take-take m n xs (omega arith))

  pub take-take-min : (m n : ℕ) (xs : List A) → take m (take n xs) ≡ take (min m n) xs
  take-take-min m n xs = elim (dec_le m n) [
    | yes h ↦ let e : m ≡ min m n = omega arith in take-take m n xs h ∙ ap (λ k. take k xs) e
    | no h ↦
        let e : n ≡ min m n = omega arith in
        take_of_length-le m (take n xs) (omega (arith, length-take n xs)) ∙ ap (λ k. take k xs) e
  ]

  -- To take the length at most is to take it all.
  pub take-min : (n : ℕ) (xs : List A) → take (min (length xs) n) xs ≡ take n xs
  take-min n xs = elim (dec_le n (length xs)) [
    | yes h ↦ let e : min (length xs) n ≡ n = omega arith in ap (λ k. take k xs) e
    | no h ↦
        take_of_length-le (min (length xs) n) xs (omega arith)
        ∙ sym (take_of_length-le n xs (omega arith))
  ]

  -- The bytes from `m` on, of a prefix.
  pub drop-take : (m n : ℕ) (xs : List A) → drop m (take n xs) ≡ take (n - m) (drop m xs)
  drop-take zero n xs = let e : n ≡ n - zero = omega arith in ap (λ k. take k xs) e
  drop-take (suc m) zero xs =
      let e : zero ≡ zero - suc m = omega arith in ap (λ k. take k (drop (suc m) xs)) e
  drop-take (suc m) (suc n) [] = sym (take-nil (suc n - suc m))
  drop-take (suc m) (suc n) (x ∷ xs) =
      let e : n - m ≡ suc n - suc m = omega arith in
      drop-take m n xs ∙ ap (λ k. take k (drop m xs)) e

  pub drop-nil : (n : ℕ) → (let e : List A = [] in drop n e) ≡ []
  drop-nil zero = refl
  drop-nil (suc n) = refl

  pub drop-drop : (m n : ℕ) (xs : List A) → drop m (drop n xs) ≡ drop (n + m) xs
  drop-drop m zero xs = let e : m ≡ zero + m = omega arith in ap (λ k. drop k xs) e
  drop-drop zero (suc n) xs = let e : suc n ≡ suc n + zero = omega arith in ap (λ k. drop k xs) e
  drop-drop (suc m) (suc n) [] = sym (drop-nil (suc n + suc m))
  drop-drop (suc m) (suc n) (x ∷ xs) =
      let e : suc (n + suc m) ≡ suc n + suc m = omega arith in
      drop-drop (suc m) n xs ∙ ap (λ k. drop k (x ∷ xs)) e

  pub take-add : (m n : ℕ) (xs : List A) → take (m + n) xs ≡ take m xs ++ take n (drop m xs)
  take-add zero n xs = let e : zero + n ≡ n = omega arith in ap (λ k. take k xs) e
  take-add (suc m) zero [] = take-nil (suc m + zero)
  take-add (suc m) (suc n) [] = take-nil (suc m + suc n)
  take-add (suc m) n (x ∷ xs) =
      let e : suc m + n ≡ suc (m + n) = omega arith in
      ap (λ k. take k (x ∷ xs)) e ∙ ap (◌∷◌ x) (take-add m n xs)

  pub length-overwrite :
      (xs : List A) (i : ℕ) (ys : List A) → length (overwrite xs i ys) ≡ length xs
  length-overwrite [] i ys = refl
  length-overwrite (x ∷ xs) zero [] = refl
  length-overwrite (x ∷ xs) zero (y ∷ ys) = ap suc (length-overwrite xs zero ys)
  length-overwrite (x ∷ xs) (suc i) ys = ap suc (length-overwrite xs i ys)

  -- A write inside the buffer, read back up to its end.
  pub take-overwrite :
      (xs : List A) (i n : ℕ) (ys : List A)
      → n ≡ i + length ys
      → n ≤ length xs
      → take n (overwrite xs i ys) ≡ take i xs ++ ys
  take-overwrite [] zero zero [] e h = refl
  take-overwrite [] zero zero (y ∷ ys) e h = absurd (omega arith)
  take-overwrite [] zero (suc n) ys e h = absurd (omega arith)
  take-overwrite [] (suc i) zero ys e h = absurd (omega arith)
  take-overwrite [] (suc i) (suc n) ys e h = absurd (omega arith)
  take-overwrite (x ∷ xs) zero zero [] e h = refl
  take-overwrite (x ∷ xs) zero (suc n) [] e h = absurd (omega arith)
  take-overwrite (x ∷ xs) zero zero (y ∷ ys) e h = absurd (omega arith)
  take-overwrite (x ∷ xs) zero (suc n) (y ∷ ys) e h =
      ap (◌∷◌ y) (take-overwrite xs zero n ys (omega arith) (omega arith))
  take-overwrite (x ∷ xs) (suc i) zero ys e h = absurd (omega arith)
  take-overwrite (x ∷ xs) (suc i) (suc n) ys e h =
      ap (◌∷◌ x) (take-overwrite xs i n ys (omega arith) (omega arith))

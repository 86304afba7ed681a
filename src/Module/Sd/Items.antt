-- ===== src/Module/Sd/Items.antt =====
-- The children of an object, by their names.
use esp32cam.Base.{
  ℕ, suc, zero, ◌≡◌, ◌∙◌, refl, ap, arith, List, [], ◌∷◌, ◌++◌, Bool, true, false, ◌&&◌, not, none,
  some, Bool-cases, inl, inr, ==_iff,
}
use esp32cam.Module.Description.{same_text}
use esp32cam.Module.Sd.{c_str}
use esp32cam.Module.Sd.Laws.{lookup, remove_item}

pub same_text_refl : (t : List ℕ) → same_text t t ≡ true
same_text_refl [] = refl
same_text_refl (c ∷ t) = ground (arith, (==_iff c c).1 refl, same_text_refl t)

pub c_str-c_str : (t : List ℕ) → c_str (c_str t) ≡ c_str t
unfolding c_str
c_str-c_str [] = refl
c_str-c_str (zero ∷ t) = refl
c_str-c_str (suc c ∷ t) = ap (◌∷◌ (suc c)) (c_str-c_str t)

module _ {J : Type 0} (alike : List ℕ → List ℕ → Bool) where
  -- No child has a name like this one, and no two children have names that are alike.
  unfoldable pub alone : List ℕ → List (List ℕ × J) → Bool
  alone name [] = true
  alone name ((n, j) ∷ items) = not (alike name n) && alone name items

  unfoldable pub distinct : List (List ℕ × J) → Bool
  distinct [] = true
  distinct ((n, j) ∷ items) = alone n items && distinct items

module _ {J : Type 0} where
  pub lookup-append :
      (items : List (List ℕ × J)) (name : List ℕ) (j : J)
      → lookup items name ≡ none
      → lookup (items ++ ((name, j) ∷ [])) name ≡ some j
  unfolding lookup
  lookup-append [] name j h = ground (arith, same_text_refl name)
  lookup-append ((n, i) ∷ items) name j h = ground (arith, lookup-append items name j)

  pub lookup-append_other :
      (items : List (List ℕ × J)) (name other : List ℕ) (j : J)
      → same_text name other ≡ false
      → lookup (items ++ ((name, j) ∷ [])) other ≡ lookup items other
  unfolding lookup
  lookup-append_other [] name other j h = ground arith
  lookup-append_other ((n, i) ∷ items) name other j h =
      ground (arith, lookup-append_other items name other j h)

pub same_text-unlike :
    (alike : List ℕ → List ℕ → Bool)
    → ((a b : List ℕ) → same_text a b ≡ true → alike a b ≡ true)
    → (a b : List ℕ) → alike a b ≡ false
    → same_text a b ≡ false
same_text-unlike alike of_same a b h = elim (Bool-cases (same_text a b)) [
  | inl t ↦ absurd (ground (arith, of_same a b t))
  | inr f ↦ f
]

module _ {J : Type 0} (alike : List ℕ → List ℕ → Bool)
    (of_same : (a b : List ℕ) → same_text a b ≡ true → alike a b ≡ true)
    (alike_sym : (a b : List ℕ) → alike a b ≡ alike b a)
    (alike_trans : (a b c : List ℕ) → alike a b ≡ true → alike b c ≡ true → alike a c ≡ true) where
  -- A name like the one that stands alone is not there.
  alone-lookup :
      (items : List (List ℕ × J)) (n name : List ℕ)
      → alone alike n items ≡ true
      → alike n name ≡ true
      → lookup items name ≡ none
  unfolding alone lookup
  alone-lookup [] n name h k = refl
  alone-lookup ((m, j) ∷ items) n name h k =
      let unlike : alike m name ≡ false = elim (Bool-cases (alike m name)) [
        | inl t ↦ absurd (ground (arith, alike_trans n name m k (alike_sym name m ∙ t)))
        | inr f ↦ f
      ] in
      ground (
        arith,
        same_text-unlike alike of_same m name unlike,
        alone-lookup items n name (ground arith) k,
      )

  -- After a deletion from distinct names the name is gone.
  pub lookup-remove :
      (items : List (List ℕ × J)) (name : List ℕ)
      → distinct alike items ≡ true
      → lookup (remove_item alike items name) name ≡ none
  unfolding distinct lookup remove_item
  lookup-remove [] name h = refl
  lookup-remove ((n, j) ∷ items) name h = elim (Bool-cases (alike n name)) [
    | inl t ↦ ground (arith, t, alone-lookup items n name (ground arith) t)
    | inr f ↦
        ground (
          arith,
          f,
          same_text-unlike alike of_same n name f,
          lookup-remove items name (ground arith),
        )
  ]

  pub lookup-remove_other :
      (items : List (List ℕ × J)) (name other : List ℕ)
      → alike name other ≡ false
      → lookup (remove_item alike items name) other ≡ lookup items other
  unfolding lookup remove_item
  lookup-remove_other [] name other h = refl
  lookup-remove_other ((n, j) ∷ items) name other h = elim (Bool-cases (alike n name)) [
    | inl t ↦
        let unlike : alike n other ≡ false = elim (Bool-cases (alike n other)) [
          | inl u ↦ absurd (ground (arith, alike_trans name n other (alike_sym name n ∙ t) u))
          | inr f ↦ f
        ] in
        ground (arith, t, same_text-unlike alike of_same n other unlike)
    | inr f ↦ ground (arith, f, lookup-remove_other items name other h)
  ]

  -- Names stay distinct.
  alone-remove :
      (items : List (List ℕ × J)) (n name : List ℕ)
      → alone alike n items ≡ true
      → alone alike n (remove_item alike items name) ≡ true
  unfolding alone remove_item
  alone-remove [] n name h = refl
  alone-remove ((m, j) ∷ items) n name h = elim (Bool-cases (alike m name)) [
    | inl t ↦ ground (arith, t)
    | inr f ↦ ground (arith, f, alone-remove items n name (ground arith))
  ]

  alone-transfer :
      (items : List (List ℕ × J)) (n name : List ℕ)
      → alone alike n items ≡ true
      → alike n name ≡ true
      → alone alike name items ≡ true
  unfolding alone
  alone-transfer [] n name h k = refl
  alone-transfer ((m, j) ∷ items) n name h k =
      let unlike : alike name m ≡ false = elim (Bool-cases (alike name m)) [
        | inl t ↦ absurd (ground (arith, alike_trans n name m k t))
        | inr f ↦ f
      ] in
      ground (arith, unlike, alone-transfer items n name (ground arith) k)

  alone-removed :
      (items : List (List ℕ × J)) (name : List ℕ)
      → distinct alike items ≡ true
      → alone alike name (remove_item alike items name) ≡ true
  unfolding distinct remove_item alone
  alone-removed [] name h = refl
  alone-removed ((n, j) ∷ items) name h = elim (Bool-cases (alike n name)) [
    | inl t ↦ ground (arith, t, alone-transfer items n name (ground arith) t)
    | inr f ↦ ground (arith, f, alike_sym name n, alone-removed items name (ground arith))
  ]

  distinct-remove :
      (items : List (List ℕ × J)) (name : List ℕ)
      → distinct alike items ≡ true
      → distinct alike (remove_item alike items name) ≡ true
  unfolding distinct remove_item
  distinct-remove [] name h = refl
  distinct-remove ((n, j) ∷ items) name h = elim (Bool-cases (alike n name)) [
    | inl t ↦ ground (arith, t)
    | inr f ↦ ground (
      arith,
      f,
      alone-remove items n name (ground arith),
      distinct-remove items name (ground arith),
    )
  ]

  alone-append :
      (items : List (List ℕ × J)) (n name : List ℕ) (j : J)
      → alone alike n items ≡ true
      → alike n name ≡ false
      → alone alike n (items ++ ((name, j) ∷ [])) ≡ true
  unfolding alone
  alone-append [] n name j h k = ground (arith, k)
  alone-append ((m, i) ∷ items) n name j h k =
      ground (arith, alone-append items n name j (ground arith) k)

  distinct-append :
      (items : List (List ℕ × J)) (name : List ℕ) (j : J)
      → distinct alike items ≡ true
      → alone alike name items ≡ true
      → distinct alike (items ++ ((name, j) ∷ [])) ≡ true
  unfolding distinct alone
  distinct-append [] name j h k = refl
  distinct-append ((n, i) ∷ items) name j h k =
      let unlike : alike n name ≡ false = ground (arith, alike_sym n name) in
      ground (
        arith,
        alone-append items n name j (ground arith) unlike,
        distinct-append items name j (ground arith) (ground arith),
      )

  pub distinct-replaced :
      (items : List (List ℕ × J)) (name : List ℕ) (j : J)
      → distinct alike items ≡ true
      → distinct alike (remove_item alike items name ++ ((name, j) ∷ [])) ≡ true
  distinct-replaced items name j h =
      distinct-append (remove_item alike items name) name j (distinct-remove items name h)
        (alone-removed items name h)

-- ===== src/Module/Description/Lookup.antt =====
-- What the checks of the parameter descriptions at compile time are worth: an id is found for a pair
-- exactly at its place.
use esp32cam.Base.{
  ℕ, zero, suc, ◌≡◌, ap, sym, ◌∙◌, refl, List, [], ◌∷◌, Bool, true, false, ◌&&◌, some, get_elem?,
  ◌↔◌, arith, Bool-cases, Option-cases, inl, inr, ◌+◌, ◌-◌, ◌≤◌, ap₂,
}
use esp32cam.Module.{
  Module, Field, same_module, same_field, same_module_sound, same_field_sound, same_module_refl,
  same_field_refl, get_type,
}
use esp32cam.Module.Description.{
  ParameterDescription, parameter_descriptions, validate_uniqueness_impl, validate_uniqueness,
  ensure_sequence, find_description, pardesc_to_id, description_by_mf, saved_type,
}

and_true : (a b : Bool) → (a && b) ≡ true → (a ≡ true) × (b ≡ true)
and_true true b h = (refl, h)
and_true false b h = absurd (ground arith)

-- What `find_if` finds is one of the descriptions, at its place, and has the pair.
find_description_sound :
    (ds : List ParameterDescription) (m : Module) (f : Field) (d : ParameterDescription)
    → find_description ds m f ≡ some d
    → (d.owner ≡ m) × (d.field ≡ f)
unfolding find_description
find_description_sound [] m f d h = absurd (ground arith)
find_description_sound (c ∷ cs) m f d h =
    elim (Bool-cases (same_module m c.owner && same_field f c.field)) [
      | inl here ↦
          let (a, b) = and_true (same_module m c.owner) (same_field f c.field) here in
          let e : c ≡ d = ground arith in
          (
            sym (ap (λ (x : ParameterDescription). x.owner) e)
                ∙ sym (same_module_sound m c.owner a),
            sym (ap (λ (x : ParameterDescription). x.field) e) ∙ sym (same_field_sound f c.field b),
          )
      | inr there ↦ find_description_sound cs m f d (ground (arith, there))
    ]

find_description-place :
    (ds : List ParameterDescription) (start : ℕ) (m : Module) (f : Field) (d : ParameterDescription)
    → ensure_sequence start ds ≡ true
    → find_description ds m f ≡ some d
    → (start ≤ d.id) × (get_elem? ds (d.id - start) ≡ some d)
unfolding find_description ensure_sequence
find_description-place [] start m f d s h = absurd (ground arith)
find_description-place (c ∷ cs) start m f d s h =
    elim (Bool-cases (same_module m c.owner && same_field f c.field)) [
      | inl here ↦
          let e : c ≡ d = ground arith in
          let i : d.id - start ≡ zero = ground (arith, e) in
          (ground (arith, e), ap (get_elem? (c ∷ cs)) i ∙ ap some e)
      | inr there ↦
          let (le, at) =
            find_description-place cs (suc start) m f d (ground arith) (ground arith) in
          let i : d.id - start ≡ suc (d.id - suc start) = omega arith in
          (omega arith, ap (get_elem? (c ∷ cs)) i ∙ at)
    ]

-- A description that is unlike those behind it.
impl-differs :
    (c : ParameterDescription) (cs : List ParameterDescription) (i : ℕ) (d : ParameterDescription)
    → validate_uniqueness_impl c cs ≡ true
    → get_elem? cs i ≡ some d
    → (same_module d.owner c.owner && same_field d.field c.field) ≡ false
unfolding validate_uniqueness_impl
impl-differs c [] i d h g = absurd (ground arith)
impl-differs c (x ∷ cs) zero d h g = ground arith
impl-differs c (x ∷ cs) (suc i) d h g = impl-differs c cs i d (ground arith) g

find_description_complete :
    (ds : List ParameterDescription) (i : ℕ) (d : ParameterDescription)
    → validate_uniqueness ds ≡ true
    → get_elem? ds i ≡ some d
    → find_description ds d.owner d.field ≡ some d
unfolding find_description validate_uniqueness
find_description_complete [] i d h g = absurd (ground arith)
find_description_complete (c ∷ cs) zero d h g =
    ground (arith, same_module_refl c.owner, same_field_refl c.field)
find_description_complete (c ∷ cs) (suc i) d h g = ground (
  arith,
  impl-differs c cs i d (ground arith) g,
  find_description_complete cs i d (ground arith) g,
)

get_elem?-id :
    (ds : List ParameterDescription) (start i : ℕ) (d : ParameterDescription)
    → ensure_sequence start ds ≡ true
    → get_elem? ds i ≡ some d
    → d.id ≡ start + i
unfolding ensure_sequence
get_elem?-id [] start i d s g = absurd (ground arith)
get_elem?-id (c ∷ cs) start zero d s g = ground arith
get_elem?-id (c ∷ cs) start (suc i) d s g =
    omega (arith, get_elem?-id cs (suc start) i d (ground arith) g)

-- For descriptions that pass the checks at compile time, the id of a pair of module and field is
-- the place of the one description with that pair: `pardescToId` gives an id exactly if the
-- description at that place has the pair.
pub pardesc_to_id_iff :
    (ds : List ParameterDescription) (m : Module) (f : Field) (i : ℕ)
    → validate_uniqueness ds ≡ true
    → ensure_sequence 0 ds ≡ true
    → (pardesc_to_id ds m f ≡ some i)
      ↔ ((d : ParameterDescription) × (get_elem? ds i ≡ some d) × (d.owner ≡ m) × (d.field ≡ f))
unfolding pardesc_to_id
pardesc_to_id_iff ds m f i unique sequence = (to, from)
  where
    to :
        pardesc_to_id ds m f ≡ some i
        → (d : ParameterDescription) × (get_elem? ds i ≡ some d) × (d.owner ≡ m) × (d.field ≡ f)
    to h = elim (Option-cases (find_description ds m f)) [
      | inl missing ↦ absurd (ground arith)
      | inr (d, found) ↦
          let e : d.id - 0 ≡ i = ground arith in
          let (le, at) = find_description-place ds 0 m f d sequence found in
          let (a, b) = find_description_sound ds m f d found in
          (d, sym (ap (get_elem? ds) e) ∙ at, a, b)
    ]

    from :
        (d : ParameterDescription) × (get_elem? ds i ≡ some d) × (d.owner ≡ m) × (d.field ≡ f)
        → pardesc_to_id ds m f ≡ some i
    from (d, at, a, b) =
        ground (
          arith,
          a,
          b,
          find_description_complete ds i d unique at,
          get_elem?-id ds 0 i d sequence at,
        )

typed_at :
    (i : ℕ) (d : ParameterDescription)
    → get_elem? parameter_descriptions i ≡ some d
    → d.mirror_field ≡ true
    → get_type d.field d.owner ≡ saved_type d.parameter_type
typed_at zero d h t = ground arith
typed_at (suc zero) d h t = ground arith
typed_at (suc (suc zero)) d h t = ground arith
typed_at (suc (suc (suc zero))) d h t = ground arith
typed_at (suc (suc (suc (suc zero)))) d h t = ground arith
typed_at (suc (suc (suc (suc (suc zero))))) d h t = ground arith
typed_at (suc (suc (suc (suc (suc (suc zero)))))) d h t = ground arith
typed_at (suc (suc (suc (suc (suc (suc (suc zero))))))) d h t = ground arith
typed_at (suc (suc (suc (suc (suc (suc (suc (suc i)))))))) d h t = absurd (ground arith)

pub descriptions_unique : validate_uniqueness parameter_descriptions ≡ true
unfolding validate_uniqueness validate_uniqueness_impl
descriptions_unique = refl

pub descriptions_sequence : ensure_sequence 0 parameter_descriptions ≡ true
unfolding ensure_sequence
descriptions_sequence = refl

-- What `descriptionByMf` returns has the pair that was asked for, and stands at its id.
pub description_by_mf_sound :
    (m : Module) (f : Field) (d : ParameterDescription)
    → description_by_mf parameter_descriptions m f ≡ some d
    → (i : ℕ) × (pardesc_to_id parameter_descriptions m f ≡ some i)
      × (get_elem? parameter_descriptions i ≡ some d)
      × (d.owner ≡ m)
      × (d.field ≡ f)
unfolding description_by_mf
description_by_mf_sound m f d h = elim (Option-cases (pardesc_to_id parameter_descriptions m f)) [
  | inl missing ↦ absurd (ground (arith, missing))
  | inr (i, found) ↦
      let (c, at, a, b) =
        (pardesc_to_id_iff parameter_descriptions m f i descriptions_unique descriptions_sequence).0
          found in
      let at' : get_elem? parameter_descriptions i ≡ some d = ground (arith, found) in
      let e : c ≡ d = ground (arith, at, at') in
      (
        i,
        found,
        at',
        sym (ap (λ (x : ParameterDescription). x.owner) e) ∙ a,
        sym (ap (λ (x : ParameterDescription). x.field) e) ∙ b,
      )
]

-- The value of a mirrored field is of the alternative at which its parameter is saved: for every
-- pair of module and field whose description asks for mirroring, `GetType` is the type that `save`
-- reads by `get_unchecked`.
pub mirror_field-get_type :
    (m : Module) (f : Field) (d : ParameterDescription)
    → description_by_mf parameter_descriptions m f ≡ some d
    → d.mirror_field ≡ true
    → get_type f m ≡ saved_type d.parameter_type
mirror_field-get_type m f d h mirrored =
    let (i, found, at, a, b) = description_by_mf_sound m f d h in
    sym (ap₂ get_type b a) ∙ typed_at i d at mirrored

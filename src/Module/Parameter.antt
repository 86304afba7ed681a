-- ===== src/Module/Parameter.antt =====
-- components/module/module/Parameter/Parameter.cpp: the instances of parameters over their memory
-- providers. `MemoryProvider.hpp` is an interface; a call that runs into an assertion, a null pointer
-- or a wrong alternative of a variant is none.
use esp32cam.Base.{
  ℕ, ◌≡◌, List, [], ◌∷◌, Bool, true, false, Option, none, some, ◌>>=◌, get_elem?, set, length, ltb,
  if◌then◌else◌,
}
use esp32cam.Module.{
  Module, Field, Variant, none_value, string_value, get_string, get_int32, Result, ok,
  memory_provider_not_found, config_does_not_exist, is_ok,
}
use esp32cam.Module.Description.{
  ParameterDescription, ParameterType, str, i32, MemoryProviderType, sd, nvs, pardesc_to_id,
  description_by_mf,
}
pub mod Instances
pub mod Stored

-- `MemoryProvider` over the states `S` of what stands behind it.
pub record MemoryProvider (S : Type 0) : Type 0 where
  pub load : ParameterDescription → Variant → S → Result × Variant × S
  pub save : ParameterDescription → Variant → S → Option (Result × S)

pub record Parameter : Type 0 where
  pub id : ℕ
  pub variant : Variant

-- The static state: `sInstanceStorage`, and `sMemoryProviderStorage` as to whether its provider for
-- the SD card has been made. A `Parameter *` is its place among the instances.
pub record World (S : Type 0) : Type 0 where
  pub instances : List (Option Parameter)
  pub sd_made : Bool
  pub storage : S

abbrev pub fresh_instance : ℕ → Parameter
fresh_instance i = record { id = i; variant = none_value }

unfoldable pub ensure_at : ℕ → List (Option Parameter) → Option (List (Option Parameter))
ensure_at i instances = elim (get_elem? instances i) [
  | none ↦ none
  | some none ↦ some (set instances i (some (fresh_instance i)))
  | some (some p) ↦ some instances
]

unfoldable pub instance_by_id :
    ℕ → List (Option Parameter) → Option (Option ℕ × List (Option Parameter))
instance_by_id i instances =
    let made = ensure_at i instances in
    if ltb i (length instances) then made >>= (λ l. some (some i, l)) else some (none, instances)

-- The parameter that a pointer points to.
unfoldable pub at : {S : Type 0} → ℕ → World S → Option Parameter
at i w = get_elem? w.instances i >>= (λ p. p)

unfoldable pub put : {S : Type 0} → ℕ → Parameter → World S → World S
put i p w = record w { instances = set w.instances i (some p) }

-- `Parameter::set`.
unfoldable pub set_value : {S : Type 0} → ℕ → Variant → World S → Option (World S)
set_value i v w = at i w >>= (λ p. some (put i (record p { variant = v }) w))

module _ {S : Type 0} (ds : List ParameterDescription) where
  -- Nothing makes the provider for NVS.
  unfoldable pub memory_provider_by_id : ℕ → World S → Option MemoryProviderType × World S
  memory_provider_by_id i w = elim (get_elem? ds i) [
    | none ↦ (none, w)
    | some d ↦ elim d.memory_provider_type [
      | nvs ↦ (none, w)
      | sd ↦ (some sd, record w { sd_made = true })
    ]
  ]

  unfoldable pub instance_by_mf : Module → Field → World S → Option (Option ℕ × World S)
  instance_by_mf m f w = elim (pardesc_to_id ds m f) [
    | none ↦ some (none, w)
    | some i ↦
        instance_by_id i w.instances
        >>= (λ (r : Option ℕ × List (Option Parameter)). some (r.0, record w { instances = r.1 }))
  ]

  unfoldable pub as_str : ℕ → World S → Option (List ℕ)
  as_str i w = at i w >>= (λ p.
      get_elem? ds p.id
      >>= (λ d. elim d.parameter_type [ str ↦ get_string p.variant | i32 ↦ none ]))

  unfoldable pub as_i32 : ℕ → World S → Option ℕ
  as_i32 i w = at i w >>= (λ p.
      get_elem? ds p.id >>= (λ d. elim d.parameter_type [ str ↦ none | i32 ↦ get_int32 p.variant ]))

module _ {S : Type 0} (ds : List ParameterDescription) (sd_provider : MemoryProvider S) where
  unfoldable pub fetch : ℕ → World S → Option (Result × World S)
  fetch i w = at i w >>= (λ p.
      let (provider, x) = memory_provider_by_id ds p.id w in
      elim provider [
        | none ↦ some (memory_provider_not_found, x)
        | some _ ↦ get_elem? ds p.id >>= (λ d.
            let (res, v, s) = sd_provider.load d p.variant x.storage in
            some (res, put i (record p { variant = v }) (record x { storage = s })))
      ])

  unfoldable pub commit : ℕ → World S → Option (Result × World S)
  commit i w = at i w >>= (λ p.
      let (provider, x) = memory_provider_by_id ds p.id w in
      elim provider [
        | none ↦ some (memory_provider_not_found, x)
        | some _ ↦ get_elem? ds p.id >>= (λ d.
            sd_provider.save d p.variant x.storage
            >>= (λ (r : Result × S). some (r.0, record x { storage = r.1 })))
      ])

  -- The assertion of the two helpers.
  unfoldable pub assert_str : Module → Field → Option ParameterDescription
  assert_str m f =
      description_by_mf ds m f >>= (λ d. elim d.parameter_type [ str ↦ some d | i32 ↦ none ])

  -- The string of the caller is given back, written or not.
  unfoldable pub fetch_string_by_mf :
      Module → Field → List ℕ → World S → Option (Result × List ℕ × World S)
  fetch_string_by_mf m f text w = assert_str m f >>= (λ d.
      instance_by_mf ds m f w >>= (λ (r : Option ℕ × World S). elim r.0 [
        | none ↦ some (config_does_not_exist, text, r.1)
        | some i ↦ fetch i r.1 >>= (λ (q : Result × World S).
            if is_ok q.0
            then as_str ds i q.1 >>= (λ t. some (q.0, t, q.1))
            else some (q.0, text, q.1))
      ]))

  unfoldable pub commit_string_by_mf : Module → Field → List ℕ → World S → Option (Result × World S)
  commit_string_by_mf m f text w = assert_str m f >>= (λ d.
      instance_by_mf ds m f w >>= (λ (r : Option ℕ × World S). elim r.0 [
        | none ↦ some (config_does_not_exist, r.1)
        | some i ↦ set_value i (string_value text) r.1 >>= (λ x. commit i x)
      ]))

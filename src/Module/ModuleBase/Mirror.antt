-- ===== src/Module/ModuleBase/Mirror.antt =====
-- Fields that are mirrored: no wrong alternative is read, and a value that a module has taken is
-- stored.
use esp32cam.Base.{
  ℕ, ◌≡◌, ◌⊎◌, ◌∙◌, zero, suc, sym, ap, arith, true, false, none, some, get_elem?, Bool-cases,
  Option-cases, inl, inr,
}
use esp32cam.Module.{Module, Field, Variant, alternative, get_type, Result, config_does_not_exist}
use esp32cam.Module.Description.{
  ParameterDescription, parameter_descriptions, description_by_mf, saved_type, sd,
}
use esp32cam.Module.Description.Lookup.{description_by_mf_sound, mirror_field-get_type}
use esp32cam.Module.Parameter.{MemoryProvider, World}
use esp32cam.Module.Parameter.Instances.{IsValid}
use esp32cam.Module.Parameter.Stored.{store_lem}
use esp32cam.Module.ModuleBase.{field_try_mirror_parameter}

all_sd :
    (i : ℕ) (d : ParameterDescription)
    → get_elem? parameter_descriptions i ≡ some d
    → d.memory_provider_type ≡ sd
all_sd zero d h = ground arith
all_sd (suc zero) d h = ground arith
all_sd (suc (suc zero)) d h = ground arith
all_sd (suc (suc (suc zero))) d h = ground arith
all_sd (suc (suc (suc (suc zero)))) d h = ground arith
all_sd (suc (suc (suc (suc (suc zero))))) d h = ground arith
all_sd (suc (suc (suc (suc (suc (suc zero)))))) d h = ground arith
all_sd (suc (suc (suc (suc (suc (suc (suc zero))))))) d h = ground arith
all_sd (suc (suc (suc (suc (suc (suc (suc (suc i)))))))) d h = absurd (ground arith)

-- The pair has no parameter, or one that is not mirrored.
abbrev pub Unmirrored : Module → Field → Type 0
Unmirrored m f =
    (description_by_mf parameter_descriptions m f ≡ none)
    ⊎ ((d : ParameterDescription) × (description_by_mf parameter_descriptions m f ≡ some d)
        × (d.mirror_field ≡ false))

-- A mirrored field of a pair is stored, with the value that it has, or the error of the provider is
-- returned: `fieldTryMirrorParameter` for a value of the field's type, in a valid state, runs into no
-- assertion, no null pointer and no wrong alternative, if the provider saves every value of the
-- parameter's type with some result. It gives ConfigDoesNotExist and changes nothing only for a pair
-- that has no parameter or one that is not mirrored; for a mirrored parameter it gives what the
-- provider gives for that value and leaves the storage that the provider leaves.
pub field_try_mirror_parameter_lem :
    {S : Type 0} (provider : MemoryProvider S) (m : Module) (f : Field) (v : Variant) (w : World S)
    → ((d : ParameterDescription) (x : Variant) (s : S)
        → alternative x ≡ saved_type d.parameter_type
        → (r : Result) × (t : S) × (provider.save d x s ≡ some (r, t)))
    → IsValid S parameter_descriptions w
    → alternative v ≡ get_type f m
    → let mirrored = field_try_mirror_parameter parameter_descriptions provider m f v w in
      ((mirrored ≡ some (config_does_not_exist, w)) × Unmirrored m f)
      ⊎ ((d : ParameterDescription) × (r : Result) × (x : World S) × (description_by_mf
              parameter_descriptions m f
            ≡ some d)
          × (d.mirror_field ≡ true)
          × (mirrored ≡ some (r, x))
          × (provider.save d v w.storage ≡ some (r, x.storage))
          × IsValid S parameter_descriptions x)
unfolding field_try_mirror_parameter
field_try_mirror_parameter_lem provider m f v w saves valid typed =
    elim (Option-cases (description_by_mf parameter_descriptions m f)) [
      | inl missing ↦ inl (ground (arith, missing), inl missing)
      | inr (d, described) ↦ elim (Bool-cases d.mirror_field) [
        | inr unmirrored ↦
            inl (ground (arith, described, unmirrored), inr (d, described, unmirrored))
        | inl mirrored ↦
            let (i, found, at, owner, field) = description_by_mf_sound m f d described in
            let (r, s, saved) =
              saves d v w.storage (typed ∙ mirror_field-get_type m f d described mirrored) in
            let (x, y, z, got, stored, committed, at_s, ok_z) =
              store_lem parameter_descriptions provider m f i d v w r s valid found at
                (all_sd i d at) saved in
            inr (
              d,
              r,
              z,
              described,
              mirrored,
              ground (arith, described, mirrored, got, stored, committed),
              saved ∙ ap (λ t. some (r, t)) (sym at_s),
              ok_z,
            )
      ]
    ]

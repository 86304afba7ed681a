-- ===== src/Module/ModuleBase.antt =====
-- components/module/module/ModuleBase.hpp and ModuleBase.cpp: requests to the registered modules, and
-- fields that are mirrored into parameters.
use esp32cam.Base.{
  ℕ, ◌≡◌, List, [], ◌∷◌, Bool, true, false, ◌||◌, Option, none, some, ◌>>=◌, if◌then◌else◌,
}
use esp32cam.Module.{
  Module, all, Field, same_module, Variant, Result, ok, config_does_not_exist, is_ok, WriteResp,
  failure, resp_is_ok, parameter_error,
}
use esp32cam.Module.Description.{ParameterDescription, description_by_mf}
use esp32cam.Module.Parameter.{MemoryProvider, World, instance_by_mf, set_value, commit}
pub mod Mirror

-- The static state of parameters, with everything else that modules change.
pub record System (S R : Type 0) : Type 0 where
  pub parameters : World S
  pub rest : R

-- What a callback does to the variables `A` that it captures, and to the state `W`. A caller of
-- `getFieldValue` touches its variables only.
abbrev pub OnResponse : Type 0 → Type 0
OnResponse A = Variant → A → Option A

abbrev pub OnWriteResponse : Type 0 → Type 0 → Type 0
OnWriteResponse A W = WriteResp → A → W → Option (A × W)

-- A registered module: its identity and its two virtual functions, which call back as often as they
-- like.
pub record ModuleApi (W : Type 0) : Type 1 where
  pub identity : Module
  pub get_field_value : {A : Type 0} → Field → OnResponse A → A → W → Option (A × W)
  pub set_field_value :
      {A : Type 0} → Field → Variant → OnWriteResponse A W → A → W → Option (A × W)

module _ {S : Type 0} (ds : List ParameterDescription) (provider : MemoryProvider S) where
  unfoldable pub field_try_mirror_parameter :
      Module → Field → Variant → World S → Option (Result × World S)
  field_try_mirror_parameter m f v w = elim (description_by_mf ds m f) [
    | none ↦ some (config_does_not_exist, w)
    | some d ↦
        if d.mirror_field
        then instance_by_mf ds m f w >>= (λ (r : Option ℕ × World S). elim r.0 [
          | none ↦ some (config_does_not_exist, r.1)
          | some i ↦ set_value i v r.1 >>= (λ x. commit ds provider i x)
        ])
        else some (config_does_not_exist, w)
  ]

  -- The response that the caller gets for the result of mirroring.
  abbrev pub mirrored_response : WriteResp → Result → WriteResp
  mirrored_response resp r = elim r [
    | ok ↦ resp
    | config_does_not_exist ↦ resp
    | error ↦ failure (parameter_error error)
  ]

  -- The lambda that `moduleFieldWriteIter` hands to a module.
  unfoldable pub mirroring :
      {A R : Type 0}
      → Module
      → Field
      → Variant
      → OnWriteResponse A (System S R)
      → OnWriteResponse A (System S R)
  mirroring m f v cb resp a w =
      if resp_is_ok resp
      then field_try_mirror_parameter m f v w.parameters >>= (λ (r : Result × World S).
        cb (mirrored_response resp r.0) a (record w { parameters = r.1 }))
      else cb resp a w

  unfoldable pub module_field_write_iter :
      {A R : Type 0}
      → List (ModuleApi (System S R))
      → Module
      → Field
      → Variant
      → OnWriteResponse A (System S R)
      → A
      → System S R
      → Option (A × System S R)
  module_field_write_iter [] m f v cb a w = some (a, w)
  module_field_write_iter {A} {R} (mod' ∷ mods) m f v cb a w =
      if same_module mod'.identity m || same_module m all
      then mod'.set_field_value f v (mirroring m f v cb) a w
        >>= (λ (r : A × System S R). module_field_write_iter mods m f v cb r.0 r.1)
      else module_field_write_iter mods m f v cb a w

unfoldable pub module_field_read_iter :
    {A W : Type 0} → List (ModuleApi W) → Module → Field → OnResponse A → A → W → Option (A × W)
module_field_read_iter [] m f cb a w = some (a, w)
module_field_read_iter {A} {W} (mod' ∷ mods) m f cb a w =
    if same_module mod'.identity m || same_module m all
    then mod'.get_field_value f cb a w
      >>= (λ (r : A × W). module_field_read_iter mods m f cb r.0 r.1)
    else module_field_read_iter mods m f cb a w

-- ===== src/Module/Parameter/Stored.antt =====
-- Strings kept as parameters, over any provider and over the file on the SD card.
use esp32cam.Base.{
  ℕ, ◌≡◌, ◌≤◌, ◌∙◌, sym, ap, subst, refl, arith, List, Bool, true, Option, some, get_elem?, length,
  ◌>>=◌,
}
use esp32cam.Module.{Module, Field, Variant, none_value, string_value, Result, ok}
use esp32cam.Module.Description.{ParameterDescription, str, sd, pardesc_to_id, description_by_mf}
use esp32cam.Module.Sd.{Card, Json, c_str, root_object, saved_root, load, save}
use esp32cam.Module.Sd.Laws.{content, IsWorking, IsJson}
use esp32cam.Module.Sd.Items.{distinct}
use esp32cam.Module.Sd.Roundtrip.{Kept, kept_string, load-save}
use esp32cam.Module.Parameter.{
  MemoryProvider, Parameter, World, at, put, set_value, memory_provider_by_id, instance_by_mf,
  as_str, fetch, commit, assert_str, fetch_string_by_mf, commit_string_by_mf,
}
use esp32cam.Module.Parameter.Instances.{IsValid, instance_by_mf_lem, put-IsValid, at-put}

at_storage :
    {S : Type 0} (i : ℕ) (w : World S) (s : S) (p : Parameter)
    → at i w ≡ some p
    → at i (record w { storage = s; sd_made = true }) ≡ some p
unfolding at
at_storage i w s p h = h

module _ {S : Type 0} (ds : List ParameterDescription) (provider : MemoryProvider S) where
  -- `fetch` and `commit` of an instance with a description for the SD card.
  pub fetch_lem :
      (i : ℕ) (d : ParameterDescription) (p : Parameter) (w : World S)
      → at i w ≡ some p
      → get_elem? ds p.id ≡ some d
      → d.memory_provider_type ≡ sd
      → fetch ds provider i w ≡ (
          let (r, v, s) = provider.load d p.variant w.storage in
          some (r, put i (record p { variant = v }) (record w { storage = s; sd_made = true })))
  unfolding fetch memory_provider_by_id
  fetch_lem i d p w here described medium = ground (arith, here, described, medium)

  pub commit_lem :
      (i : ℕ) (d : ParameterDescription) (p : Parameter) (w : World S)
      → at i w ≡ some p
      → get_elem? ds p.id ≡ some d
      → d.memory_provider_type ≡ sd
      → commit ds provider i w ≡ (
          provider.save d p.variant w.storage
          >>= (λ (r : Result × S). some (r.0, record w { storage = r.1; sd_made = true })))
  unfolding commit memory_provider_by_id
  commit_lem i d p w here described medium = ground (arith, here, described, medium)

  assert_str_lem :
      (m : Module) (f : Field) (i : ℕ) (d : ParameterDescription)
      → pardesc_to_id ds m f ≡ some i
      → get_elem? ds i ≡ some d
      → d.parameter_type ≡ str
      → assert_str ds provider m f ≡ some d
  unfolding assert_str description_by_mf
  assert_str_lem m f i d found described type = ground (arith, found, described, type)

  set_value_lem :
      (i : ℕ) (p : Parameter) (v : Variant) (w : World S)
      → at i w ≡ some p
      → set_value i v w ≡ some (put i (record p { variant = v }) w)
  unfolding set_value
  set_value_lem i p v w here = ground (arith, here)

  as_str_lem :
      (i : ℕ) (d : ParameterDescription) (p : Parameter) (t : List ℕ) (w : World S)
      → at i w ≡ some p
      → get_elem? ds p.id ≡ some d
      → d.parameter_type ≡ str
      → p.variant ≡ string_value t
      → as_str ds i w ≡ some t
  unfolding as_str
  as_str_lem i d p t w here described type e = ground (arith, here, described, type, e)

  -- To set and commit the parameter of a pair saves the value by its description.
  pub store_lem :
      (m : Module) (f : Field) (i : ℕ) (d : ParameterDescription) (v : Variant) (w : World S)
      (r : Result) (s : S)
      → IsValid S ds w
      → pardesc_to_id ds m f ≡ some i
      → get_elem? ds i ≡ some d
      → d.memory_provider_type ≡ sd
      → provider.save d v w.storage ≡ some (r, s)
      → (x : World S) × (y : World S) × (z : World S) × (instance_by_mf ds m f w ≡ some (some i, x))
        × (set_value i v x ≡ some y)
        × (commit ds provider i y ≡ some (r, z))
        × (z.storage ≡ s)
        × IsValid S ds z
  unfolding put
  store_lem m f i d v w r s valid found described medium saved =
      let (x, p, got, here, id, ok_x, kept, keeps) =
        instance_by_mf_lem ds m f i d w valid found described in
      let q : Parameter = record p { variant = v } in
      let y = put i q x in
      let ok_y = put-IsValid ds i q x ok_x id in
      let by_id : get_elem? ds p.id ≡ some d = ap (get_elem? ds) id ∙ described in
      let saved_y : provider.save d v y.storage ≡ some (r, s) =
        ap (provider.save d v) kept ∙ saved in
      (
        x,
        y,
        record y { storage = s; sd_made = true },
        got,
        set_value_lem i p v x here,
        ground (arith, commit_lem i d q y (at-put i p q x here) by_id medium, saved_y),
        refl,
        record { one_each = ok_y.one_each; ids = ok_y.ids },
      )

  -- `commitStringByMf` for a parameter of type string on the SD card saves the string by its
  -- description, and returns what the provider returns.
  commit_string_lem :
      (m : Module) (f : Field) (i : ℕ) (d : ParameterDescription) (text : List ℕ) (w : World S)
      (r : Result) (s : S)
      → IsValid S ds w
      → pardesc_to_id ds m f ≡ some i
      → get_elem? ds i ≡ some d
      → d.parameter_type ≡ str
      → d.memory_provider_type ≡ sd
      → provider.save d (string_value text) w.storage ≡ some (r, s)
      → (x : World S) × (commit_string_by_mf ds provider m f text w ≡ some (r, x))
        × (x.storage ≡ s)
        × IsValid S ds x
  unfolding commit_string_by_mf
  commit_string_lem m f i d text w r s valid found described type medium saved =
      let (x, y, z, got, stored, committed, at_s, ok_z) =
        store_lem m f i d (string_value text) w r s valid found described medium saved in
      (
        z,
        ground (arith, assert_str_lem m f i d found described type, got, stored, committed),
        at_s,
        ok_z,
      )

  -- `fetchStringByMf` for a parameter of type string on the SD card gives the string that the provider
  -- loads by its description, whatever the string and the instance held before.
  fetch_string_lem :
      (m : Module) (f : Field) (i : ℕ) (d : ParameterDescription) (old text : List ℕ) (w : World S)
      → IsValid S ds w
      → pardesc_to_id ds m f ≡ some i
      → get_elem? ds i ≡ some d
      → d.parameter_type ≡ str
      → d.memory_provider_type ≡ sd
      → ((v : Variant) → (s : S) × (provider.load d v w.storage ≡ (ok, string_value text, s)))
      → (x : World S) × (fetch_string_by_mf ds provider m f old w ≡ some (ok, text, x))
        × IsValid S ds x
  unfolding fetch_string_by_mf put
  fetch_string_lem m f i d old text w valid found described type medium loads =
      let (x, p, got, here, id, ok_x, kept, keeps) =
        instance_by_mf_lem ds m f i d w valid found described in
      let q : Parameter = record p { variant = string_value text } in
      let (s, loaded) = loads p.variant in
      let by_id : get_elem? ds p.id ≡ some d = ap (get_elem? ds) id ∙ described in
      let x' : World S = record x { storage = s; sd_made = true } in
      let ok_x' : IsValid S ds x' = record { one_each = ok_x.one_each; ids = ok_x.ids } in
      let y = put i q x' in
      let here_y : at i y ≡ some q = at-put i p q x' (at_storage i x s p here) in
      let loaded_x : provider.load d p.variant x.storage ≡ (ok, string_value text, s) =
        ap (provider.load d p.variant) kept ∙ loaded in
      (
        y,
        ground (
          arith,
          assert_str_lem m f i d found described type,
          got,
          fetch_lem i d p x here by_id medium,
          loaded_x,
          as_str_lem i d q text y here_y by_id type refl,
        ),
        put-IsValid ds i q x' ok_x' id,
      )

-- The provider for the SD card.
abbrev pub sd_memory_provider : {S J D : Type 0} → Card S → Json J D → MemoryProvider S
sd_memory_provider card json = record { load = load card json; save = save card json }

-- From end to end, for a description of type string on the SD card that `pardescToId` finds at its
-- place; with a card that works and, in a valid state, a file of at most 4096 bytes in which names
-- differ by more than upper and lower case: `commitStringByMf` succeeds and writes the file; and if
-- that has at most 4096 bytes, then in any valid state with that file, also with no instances made, as
-- after a restart, `fetchStringByMf` gives the string up to its null.
pub fetch-commit_string :
    {S J D : Type 0} (card : Card S) (json : Json J D) (file : S → Option (List ℕ))
    (items : J → List (List ℕ × J)) (alike : List ℕ → List ℕ → Bool) (works : IsWorking S card file)
    (laws : IsJson J D json items alike) (ds : List ParameterDescription) (m : Module) (f : Field)
    (i : ℕ) (d : ParameterDescription) (text old : List ℕ) (w later : World S) (j : J)
    → IsValid S ds w
    → IsValid S ds later
    → pardesc_to_id ds m f ≡ some i
    → get_elem? ds i ≡ some d
    → d.parameter_type ≡ str
    → d.memory_provider_type ≡ sd
    → length (content (file w.storage)) ≤ 4096
    → distinct alike (items (root_object json (content (file w.storage)))) ≡ true
    → saved_root json d (string_value text) (content (file w.storage)) ≡ some j
    → length (json.print j) ≤ 4096
    → file later.storage ≡ some (json.print j)
    → let provider = sd_memory_provider card json in
      (x : World S) × (y : World S) × (commit_string_by_mf ds provider m f text w ≡ some (ok, x))
      × (file x.storage ≡ some (json.print j))
      × (fetch_string_by_mf ds provider m f old later ≡ some (ok, c_str text, y))
fetch-commit_string {S = S} card json file items alike works laws ds m f i d text old w later j
      valid ok_later found described type medium small differ replaced fits here =
    let provider = sd_memory_provider card json in
    let kept : Kept d.parameter_type (string_value text) (string_value (c_str text)) =
      subst (λ t. Kept t (string_value text) (string_value (c_str text))) (sym type)
        (kept_string text) in
    let round : (v : Variant)
        → (t : S) × (u : S) × (save card json d (string_value text) w.storage ≡ some (ok, t))
          × (file t ≡ some (json.print j))
          × (distinct alike (items (root_object json (json.print j))) ≡ true)
          × (load card json d v later.storage ≡ (ok, string_value (c_str text), u))
          × (file u ≡ some (json.print j)) =
      λ v.
        load-save card json file items alike works laws d (string_value text)
          (string_value (c_str text)) v w.storage later.storage j kept small differ replaced fits
          here in
    let (t, u, saved, e, names, loaded, g) = round none_value in
    let (x, committed, at_t, ok_x) =
      commit_string_lem ds provider m f i d text w ok t valid found described type medium saved in
    let (y, fetched, ok_y) =
      fetch_string_lem ds provider m f i d old (c_str text) later ok_later found described type
        medium (λ v. ((round v).1, (round v).5)) in
    (x, y, committed, ap file at_t ∙ e, fetched)

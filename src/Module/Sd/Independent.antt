-- ===== src/Module/Sd/Independent.antt =====
-- A parameter that is saved by SdMemoryProvider leaves the others alone.
use esp32cam.Base.{ℕ, ◌≡◌, ◌≤◌, ◌∙◌, sym, ap, arith, List, Bool, true, false, Option, some, length}
use esp32cam.Module.{Variant, Result, ok}
use esp32cam.Module.Description.{ParameterDescription}
use esp32cam.Module.Sd.{Card, Json, c_str, load_value, root_object, saved_root, load, save}
use esp32cam.Module.Sd.Laws.{content, IsWorking, IsJson, lookup, remove_item}
use esp32cam.Module.Sd.Items.{lookup-append_other, lookup-remove_other, same_text-unlike}
use esp32cam.Module.Sd.Roundtrip.{Kept, load_object_lem, load_parsed_lem, save_lem}

load_value-items :
    {J D : Type 0} (json : Json J D) (d : ParameterDescription) (i j : J) (v : Variant)
    → json.is_object i ≡ true
    → json.is_object j ≡ true
    → json.get_object_item i d.name ≡ json.get_object_item j d.name
    → load_value json d i v ≡ load_value json d j v
unfolding load_value
load_value-items json d i j v oi oj e = ground (arith, oi, oj, e)

module _ {S J D : Type 0} (card : Card S) (json : Json J D) (file : S → Option (List ℕ))
    (items : J → List (List ℕ × J)) (alike : List ℕ → List ℕ → Bool) (w : IsWorking S card file)
    (c : IsJson J D json items alike) where
  -- With a card that works and a file of at most 4096 bytes that holds an object: once one parameter
  -- has been saved, which succeeds, loading another, in any state with the file that is written, gives
  -- the result and the value that it gave before, if what is written has at most 4096 bytes and the
  -- two names differ by more than upper and lower case.
  pub load-save_other :
      (d other : ParameterDescription) (value kept v : Variant) (s later : S) (old j : J)
      → Kept d.parameter_type value kept
      → length (content (file s)) ≤ 4096
      → json.parse (c_str (content (file s))) ≡ some old
      → json.is_object old ≡ true
      → alike d.name other.name ≡ false
      → saved_root json d value (content (file s)) ≡ some j
      → length (json.print j) ≤ 4096
      → file later ≡ some (json.print j)
      → (t : S) × (r : Result) × (x : Variant) × (before : S) × (after : S) × (save card json d
            value s
          ≡ some (ok, t))
        × (file t ≡ some (json.print j))
        × (load card json other v s ≡ (r, x, before))
        × (load card json other v later ≡ (r, x, after))
  unfolding root_object
  load-save_other d other value kept v s later old j k small parsed object unlike replaced fits
        here =
      let (entry, t, saved, e, jobject, children, taken) =
        save_lem card json file items alike w c d value kept s j k small replaced in
      let root : root_object json (content (file s)) ≡ old = ground (arith, parsed, object) in
      let (before, first, f) = load_parsed_lem card json file w other v s old small parsed in
      let rest = items (root_object json (content (file s))) in
      let same : json.get_object_item j other.name ≡ json.get_object_item old other.name =
        c.get_lem j other.name
        ∙ ap (λ (l : List (List ℕ × J)). lookup l other.name) children
        ∙ lookup-append_other (remove_item alike rest d.name) d.name other.name entry
            (same_text-unlike alike c.alike_of_same d.name other.name unlike)
        ∙ lookup-remove_other alike c.alike_of_same c.alike_sym c.alike_trans rest d.name other.name
            unlike
        ∙ ap (λ (r : J). lookup (items r) other.name) root
        ∙ sym (c.get_lem old other.name) in
      let equal = load_value-items json other j old v jobject object same in
      let (after, second, g) =
        load_object_lem card json file items alike w c other v later j here jobject fits in
      (
        t,
        (load_value json other old v).0,
        (load_value json other old v).1,
        before,
        after,
        saved,
        e,
        first,
        second ∙ ap (λ (p : Result × Variant). (p.0, p.1, after)) equal,
      )

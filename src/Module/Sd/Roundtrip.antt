-- ===== src/Module/Sd/Roundtrip.antt =====
-- What is saved into the file of SdMemoryProvider is loaded again.
use esp32cam.Base.{
  ℕ, suc, ◌≡◌, ◌≤◌, ◌<◌, ◌^◌, ◌∙◌, sym, ap, refl, arith, List, [], ◌∷◌, ◌++◌, Bool, true, Option,
  some, length, take_of_length-le, Option-cases, inl, inr, Bool-cases,
}
use esp32cam.Module.{Variant, string_value, int32_value, ok}
use esp32cam.Module.Description.{ParameterDescription, ParameterType, str, i32}
use esp32cam.Module.Sd.{
  Card, Json, c_str, try_open, config_file_ensure_exists, config_file_read, config_file_write,
  open_and_read, entry_value, load_value, root_object, replace_entry, saved_root, load, save,
}
use esp32cam.Module.Sd.Laws.{content, IsWorking, lookup, remove_item, IsJson}
use esp32cam.Module.Sd.Items.{
  c_str-c_str, distinct, lookup-append, lookup-remove, distinct-replaced,
}

-- What is loaded once a value has been saved: a string up to its null, a number.
pub data Kept : ParameterType → Variant → Variant → Type 0 where
  kept_string : (t : List ℕ) → Kept str (string_value t) (string_value (c_str t))
  kept_int32 : (n : ℕ) → n < 2 ^ 32 → Kept i32 (int32_value n) (int32_value n)

module _ {S : Type 0} (card : Card S) (file : S → Option (List ℕ)) (w : IsWorking S card file) where
  pub ensure_lem :
      (s : S)
      → (t : S) × (config_file_ensure_exists card s ≡ (ok, t)) × (file t ≡ some (content (file s)))
  unfolding config_file_ensure_exists try_open
  ensure_lem s = let (t, opened, e) = w.append_lem s in (t, ground (arith, opened), e)

  pub open_and_read_lem :
      (s : S)
      → length (content (file s)) ≤ 4096
      → (t : S) × (open_and_read card s ≡ (ok, content (file s), t))
        × (file t ≡ some (content (file s)))
  unfolding open_and_read config_file_read
  open_and_read_lem s small =
      let (t, ensured, e) = ensure_lem s in
      let (u, opened, f) = w.open_read_lem t (content (file s)) e in
      let size = w.size_lem u (content (file s)) f in
      let whole : card.read (length (content (file s))) u ≡ content (file s) =
        w.read_lem u (content (file s)) (length (content (file s))) f
        ∙ take_of_length-le (length (content (file s))) (content (file s)) (omega arith) in
      (
        u,
        ground (
          arith,
          ensured,
          opened,
          size,
          whole,
          w.allocates_lem u (suc (length (content (file s)))) (omega arith),
        ),
        f,
      )

  pub write_file_lem :
      (text : List ℕ) (s : S)
      → (t : S) × (config_file_write card text s ≡ (ok, t)) × (file t ≡ some (c_str text))
  unfolding config_file_write
  write_file_lem text s =
      let (t, ensured, e) = ensure_lem s in
      let (u, opened, f) = w.open_write_lem t in
      (card.write (c_str text) u, rw (ensured, opened) refl, w.write_lem u (c_str text) f)

pub load_value_lem :
    {J D : Type 0} (json : Json J D) (d : ParameterDescription) (j entry : J) (v : Variant)
    → json.is_object j ≡ true
    → json.get_object_item j d.name ≡ some entry
    → load_value json d j v ≡ entry_value json d.parameter_type entry v
unfolding load_value
load_value_lem json d j entry v object found = ground (arith, object, found)

module _ {J D : Type 0} (json : Json J D) (items : J → List (List ℕ × J))
    (alike : List ℕ → List ℕ → Bool) (c : IsJson J D json items alike) where
  pub root_is_object : (bytes : List ℕ) → json.is_object (root_object json bytes) ≡ true
  unfolding root_object
  root_is_object bytes = elim (Option-cases (json.parse (c_str bytes))) [
    | inl broken ↦ ground (arith, broken, c.create_object_lem)
    | inr (j, parsed) ↦ elim (Bool-cases (json.is_object j)) [
      | inl object ↦ ground (arith, parsed, object)
      | inr other ↦ ground (arith, parsed, other, c.create_object_lem)
    ]
  ]

  pub root_of_print : (j : J) → json.is_object j ≡ true → root_object json (json.print j) ≡ j
  unfolding root_object
  root_of_print j object =
      let parsed : json.parse (c_str (json.print j)) ≡ some j =
        ap json.parse (c.print_no_null j) ∙ c.print_lem j object in
      ground (arith, parsed, object)

  -- The entry that `save` leaves is the last child, and `load` takes the value out of it.
  pub replace_entry_lem :
      (type : ParameterType) (name : List ℕ) (value kept : Variant) (root : J)
      → Kept type value kept
      → json.is_object root ≡ true
      → (j : J) × (entry : J) × (replace_entry json type name value root ≡ some j)
        × (json.is_object j ≡ true)
        × (items j ≡ remove_item alike (items root) name ++ ((name, entry) ∷ []))
        × ((v : Variant) → entry_value json type entry v ≡ (ok, kept))
  unfolding replace_entry entry_value
  replace_entry_lem str name _ _ root (kept_string t) object =
      let (entry, added, is_string, text, stays) =
        c.add_string_lem (json.delete_item root name) name (c_str t)
          (c.delete_is_object root name ∙ object) in
      (
        json.add_string (json.delete_item root name) name (c_str t),
        entry,
        refl,
        stays,
        added
            ∙ ap (λ (l : List (List ℕ × J)). l ++ ((name, entry) ∷ [])) (c.items_delete root name),
        λ v. ground (arith, is_string, text, c_str-c_str t),
      )
  replace_entry_lem i32 name _ _ root (kept_int32 n small) object =
      let (entry, added, is_number, number, stays) =
        c.add_number_lem (json.delete_item root name) name (json.from_int32 n)
          (c.delete_is_object root name ∙ object) in
      (
        json.add_number (json.delete_item root name) name (json.from_int32 n),
        entry,
        refl,
        stays,
        added
            ∙ ap (λ (l : List (List ℕ × J)). l ++ ((name, entry) ∷ [])) (c.items_delete root name),
        λ v. ground (arith, is_number, ap json.to_int32 number, c.int32_lem n small),
      )

  pub replaced_lem :
      (type : ParameterType) (name : List ℕ) (value kept : Variant) (root j : J)
      → Kept type value kept
      → json.is_object root ≡ true
      → replace_entry json type name value root ≡ some j
      → (entry : J) × (json.is_object j ≡ true)
        × (items j ≡ remove_item alike (items root) name ++ ((name, entry) ∷ []))
        × ((v : Variant) → entry_value json type entry v ≡ (ok, kept))
  replaced_lem type name value kept root j k object replaced =
      let (i, entry, replaced', is_object, children, taken) =
        replace_entry_lem type name value kept root k object in
      let e : i ≡ j = ground (arith, replaced, replaced') in
      (entry, sym (ap json.is_object e) ∙ is_object, sym (ap items e) ∙ children, taken)

module _ {S J D : Type 0} (card : Card S) (json : Json J D) (file : S → Option (List ℕ))
    (w : IsWorking S card file) where
  -- To load from a file whose content parses.
  pub load_parsed_lem :
      (d : ParameterDescription) (v : Variant) (s : S) (j : J)
      → length (content (file s)) ≤ 4096
      → json.parse (c_str (content (file s))) ≡ some j
      → (t : S) × (load card json d v s ≡ ((load_value json d j v).0, (load_value json d j v).1, t))
        × (file t ≡ some (content (file s)))
  unfolding load
  load_parsed_lem d v s j small parsed =
      let (t, opened, f) = open_and_read_lem card file w s small in
      (t, ground (arith, opened, parsed), f)

module _ {S J D : Type 0} (card : Card S) (json : Json J D) (file : S → Option (List ℕ))
    (items : J → List (List ℕ × J)) (alike : List ℕ → List ℕ → Bool) (w : IsWorking S card file)
    (c : IsJson J D json items alike) where
  -- To load from a file with an object in it.
  pub load_object_lem :
      (d : ParameterDescription) (v : Variant) (s : S) (j : J)
      → file s ≡ some (json.print j)
      → json.is_object j ≡ true
      → length (json.print j) ≤ 4096
      → (t : S) × (load card json d v s ≡ ((load_value json d j v).0, (load_value json d j v).1, t))
        × (file t ≡ some (json.print j))
  unfolding load
  load_object_lem d v s j e object small =
      let here : content (file s) ≡ json.print j = ap content e in
      let (t, opened, f) = open_and_read_lem card file w s (ground (arith, ap length here)) in
      let parsed : json.parse (c_str (content (file s))) ≡ some j =
        ap json.parse (ap c_str here ∙ c.print_no_null j) ∙ c.print_lem j object in
      (t, ground (arith, opened, parsed), f ∙ ap some here)

  -- What `save` does with a file of at most 4096 bytes.
  pub save_lem :
      (d : ParameterDescription) (value kept : Variant) (s : S) (j : J)
      → Kept d.parameter_type value kept
      → length (content (file s)) ≤ 4096
      → saved_root json d value (content (file s)) ≡ some j
      → (entry : J) × (t : S) × (save card json d value s ≡ some (ok, t))
        × (file t ≡ some (json.print j))
        × (json.is_object j ≡ true)
        × (items j
            ≡ remove_item alike (items (root_object json (content (file s)))) d.name
              ++ ((d.name, entry) ∷ []))
        × ((v : Variant) → entry_value json d.parameter_type entry v ≡ (ok, kept))
  unfolding save saved_root
  save_lem d value kept s j k small replaced =
      let bytes = content (file s) in
      let (t, opened, f) = open_and_read_lem card file w s small in
      let (entry, object, children, taken) =
        replaced_lem json items alike c d.parameter_type d.name value kept (root_object json bytes)
          j k (root_is_object json items alike c bytes) replaced in
      let (u, written, g) = write_file_lem card file w (json.print j) t in
      (
        entry,
        u,
        ground (arith, opened, replaced, written),
        g ∙ ap some (c.print_no_null j),
        object,
        children,
        taken,
      )

  -- A round trip, with a card that works, from a state whose file has at most 4096 bytes and, if it
  -- holds an object, names that differ by more than upper and lower case: what is saved, of the
  -- parameter's type, is stored with success, and the names in the new file differ again; if what is
  -- printed has at most 4096 bytes, then in any state with the new file `load` succeeds, gives the
  -- value (a string up to its null), and leaves the file as it is.
  pub load-save :
      (d : ParameterDescription) (value kept v : Variant) (s later : S) (j : J)
      → Kept d.parameter_type value kept
      → length (content (file s)) ≤ 4096
      → distinct alike (items (root_object json (content (file s)))) ≡ true
      → saved_root json d value (content (file s)) ≡ some j
      → length (json.print j) ≤ 4096
      → file later ≡ some (json.print j)
      → (t : S) × (u : S) × (save card json d value s ≡ some (ok, t))
        × (file t ≡ some (json.print j))
        × (distinct alike (items (root_object json (json.print j))) ≡ true)
        × (load card json d v later ≡ (ok, kept, u))
        × (file u ≡ some (json.print j))
  load-save d value kept v s later j k small differ replaced fits here =
      let (entry, t, saved, e, object, children, taken) =
        save_lem d value kept s j k small replaced in
      let old = items (root_object json (content (file s))) in
      let names : distinct alike (items j) ≡ true =
        ap (distinct alike) children
        ∙ distinct-replaced alike c.alike_of_same c.alike_sym c.alike_trans old d.name entry
            differ in
      let (u, loaded, f) = load_object_lem d v later j here object fits in
      let found : json.get_object_item j d.name ≡ some entry =
        c.get_lem j d.name
        ∙ ap (λ (l : List (List ℕ × J)). lookup l d.name) children
        ∙ lookup-append (remove_item alike old d.name) d.name entry
            (lookup-remove alike c.alike_of_same c.alike_sym c.alike_trans old d.name differ) in
      let value_is = load_value_lem json d j entry v object found ∙ taken v in
      (
        t,
        u,
        saved,
        e,
        ap (λ (r : J). distinct alike (items r)) (root_of_print json items alike c j object)
            ∙ names,
        loaded ∙ ground (arith, value_is),
        f,
      )

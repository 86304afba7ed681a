-- ===== src/Module/Sd/Errors.antt =====
-- How SdMemoryProvider fails, and how it starts a file.
use esp32cam.Base.{
  ℕ, ◌≡◌, ◌≤◌, ◌<◌, ◌∙◌, ap, refl, arith, List, [], Bool, true, false, Option, none, some, length,
  Bool-cases, inl, inr,
}
use esp32cam.Module.{
  Variant, alternative, string_value, int32_value, string_type, int32_type, get_string, get_int32,
  is_ok, Result, ok, sd_card_error, not_enough_memory_error, file_format_error,
  entry_not_found_error,
}
use esp32cam.Module.Description.{ParameterDescription, ParameterType, str, i32, saved_type}
use esp32cam.Module.Sd.{
  Card, Json, c_str, stub, try_open, config_file_ensure_exists, config_file_read,
  config_file_write_stub, open_and_read, load_value, load, save, root_object, replace_entry,
  saved_root, config_file_write,
}
use esp32cam.Module.Sd.Laws.{content, IsWorking, IsJson}
use esp32cam.Module.Sd.Roundtrip.{Kept, ensure_lem, open_and_read_lem, write_file_lem, save_lem}

-- The card and the file system restarted.
abbrev pub restart : {S : Type 0} → Card S → S → S
restart card s = card.sd_fat_init (card.sd_fat_deinit s)

module _ {S J D : Type 0} (card : Card S) (json : Json J D) where
  -- When the file cannot be opened, and cannot be opened either once the card has been
  -- initialized anew, both `load` and `save` give SdCardError, the value stays, nothing is written,
  -- and the card is initialized once more and then left deinitialized.
  pub sd_card_error_lem :
      (d : ParameterDescription) (v : Variant) (s t u : S)
      → card.open_append s ≡ (false, t)
      → card.open_append (restart card t) ≡ (false, u)
      → let end = card.sd_fat_deinit (restart card u) in
        (load card json d v s ≡ (sd_card_error, v, end))
        × (save card json d v s ≡ some (sd_card_error, end))
  unfolding load save open_and_read config_file_ensure_exists try_open
  sd_card_error_lem d v s t u first second =
      (ground (arith, first, second), ground (arith, first, second))

  -- When the file cannot be opened at first but can once the card has been initialized anew, the
  -- file exists for the provider, as if it had been opened at once.
  pub reinitialized_lem :
      (s t u : S)
      → card.open_append s ≡ (false, t)
      → card.open_append (restart card t) ≡ (true, u)
      → config_file_ensure_exists card s ≡ config_file_ensure_exists card (restart card t)
  unfolding config_file_ensure_exists try_open
  reinitialized_lem s t u first second = ground (arith, first, second)

module _ {S J D : Type 0} (card : Card S) (json : Json J D) (file : S → Option (List ℕ))
    (w : IsWorking S card file) where
  too_long_lem :
      (s : S)
      → 4096 < length (content (file s))
      → (t : S) × (open_and_read card s ≡ (not_enough_memory_error, [], t))
        × (file t ≡ some (content (file s)))
  unfolding open_and_read config_file_read
  too_long_lem s long =
      let (t, ensured, e) = ensure_lem card file w s in
      let (u, opened, f) = w.open_read_lem t (content (file s)) e in
      (u, ground (arith, ensured, opened, w.size_lem u (content (file s)) f), f)

  -- A file of more than 4096 bytes, on a card that works, stays for ever: to load any parameter and
  -- to save any parameter both give NotEnoughMemoryError, and leave value and file as they are.
  pub oversized_stuck :
      (d : ParameterDescription) (v x : Variant) (s : S)
      → 4096 < length (content (file s))
      → (t : S) × (load card json d v s ≡ (not_enough_memory_error, v, t))
        × (save card json d x s ≡ some (not_enough_memory_error, t))
        × (file t ≡ some (content (file s)))
  unfolding load save
  oversized_stuck d v x s long =
      let (t, opened, f) = too_long_lem s long in
      (t, ground (arith, opened), ground (arith, opened), f)

  -- A parameter on a new card, on a card that works, whose file is missing or empty, if cJSON takes
  -- nothing for a value and "{}" for an object with no children: the first `load` fails with
  -- FileFormatError and leaves the file "{}", the next one fails with EntryNotFoundError, and the
  -- value stays through both.
  pub first_load_lem :
      (d : ParameterDescription) (v : Variant) (s : S) (o : J)
      → content (file s) ≡ []
      → json.parse [] ≡ none
      → json.parse stub ≡ some o
      → json.is_object o ≡ true
      → json.get_object_item o d.name ≡ none
      → (t : S) × (u : S) × (load card json d v s ≡ (file_format_error, v, t))
        × (file t ≡ some stub)
        × (load card json d v t ≡ (entry_not_found_error, v, u))
        × (file u ≡ some stub)
  unfolding load config_file_write_stub load_value c_str
  first_load_lem d v s o nothing broken parsed object missing =
      let (t, opened, f) =
        open_and_read_lem card file w s (omega (arith, ap (length {A = ℕ}) nothing)) in
      let (t', written, g) = write_file_lem card file w stub t in
      let here : content (file t') ≡ stub = ap content g in
      let (u, opened', h) =
        open_and_read_lem card file w t' (omega (arith, ap (length {A = ℕ}) here)) in
      (
        t',
        u,
        ground (arith, opened, nothing, broken, written),
        g,
        ground (arith, opened', here, parsed, object, missing),
        h ∙ ap some here,
      )

-- `save` can report success for a file that nothing can be loaded from, or saved to, any more: on a
-- card that works, from a file of at most 4096 bytes, if what it prints has more than 4096 bytes. In
-- any state with that file, to load or to save any parameter gives NotEnoughMemoryError and leaves
-- value and file as they are.
pub save_oversized :
    {S J D : Type 0} (card : Card S) (json : Json J D) (file : S → Option (List ℕ))
    (items : J → List (List ℕ × J)) (alike : List ℕ → List ℕ → Bool) (w : IsWorking S card file)
    (c : IsJson J D json items alike) (d other : ParameterDescription) (value kept x v : Variant)
    (s later : S) (j : J)
    → Kept d.parameter_type value kept
    → length (content (file s)) ≤ 4096
    → saved_root json d value (content (file s)) ≡ some j
    → 4096 < length (json.print j)
    → file later ≡ some (json.print j)
    → (t : S) × (u : S) × (save card json d value s ≡ some (ok, t))
      × (file t ≡ some (json.print j))
      × (load card json other v later ≡ (not_enough_memory_error, v, u))
      × (save card json other x later ≡ some (not_enough_memory_error, u))
      × (file u ≡ some (json.print j))
save_oversized card json file items alike w c d other value kept x v s later j k small replaced long
      here =
    let (entry, t, saved, e, object, children, taken) =
      save_lem card json file items alike w c d value kept s j k small replaced in
    let size = ap (λ (o : Option (List ℕ)). length (content o)) here in
    let (u, loaded, again, f) =
      oversized_stuck card json file w other v x later (omega (arith, size)) in
    (t, u, saved, e, loaded, again, f ∙ ap some (ap content here))

get_string_of_type :
    (v : Variant) → alternative v ≡ string_type → (t : List ℕ) × (get_string v ≡ some t)
get_string_of_type (string_value t) e = (t, refl)
get_string_of_type _ e = absurd (ground arith)

get_int32_of_type : (v : Variant) → alternative v ≡ int32_type → (n : ℕ) × (get_int32 v ≡ some n)
get_int32_of_type (int32_value n) e = (n, refl)
get_int32_of_type _ e = absurd (ground arith)

replace_total :
    {J D : Type 0} (json : Json J D) (type : ParameterType) (name : List ℕ) (value : Variant)
    (root : J)
    → alternative value ≡ saved_type type
    → (j : J) × (replace_entry json type name value root ≡ some j)
unfolding replace_entry
replace_total json str name value root typed =
    let (t, e) = get_string_of_type value typed in
    (json.add_string (json.delete_item root name) name (c_str t), ground (arith, e))
replace_total json i32 name value root typed =
    let (n, e) = get_int32_of_type value typed in
    (json.add_number (json.delete_item root name) name (json.from_int32 n), ground (arith, e))

-- `save` reads no other alternative than the one that the value has, at the parameter's type.
pub save_total :
    {S J D : Type 0} (card : Card S) (json : Json J D) (d : ParameterDescription) (value : Variant)
    (s : S)
    → alternative value ≡ saved_type d.parameter_type
    → (r : Result) × (t : S) × (save card json d value s ≡ some (r, t))
unfolding save saved_root
save_total card json d value s typed = elim (Bool-cases (is_ok (open_and_read card s).0)) [
  | inl good ↦
      let bytes = (open_and_read card s).1 in
      let t = (open_and_read card s).2 in
      let root = root_object json bytes in
      let (j, replaced) = replace_total json d.parameter_type d.name value root typed in
      (
        (config_file_write card (json.print j) t).0,
        (config_file_write card (json.print j) t).1,
        ground (arith, good, replaced),
      )
  | inr bad ↦ ((open_and_read card s).0, (open_and_read card s).2, ground (arith, bad))
]

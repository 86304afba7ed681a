-- ===== src/Module/Sd.antt =====
-- components/module/module/Parameter/MemoryProvider/SdMemoryProvider.cpp: parameters in a JSON file
-- on an SD card. The C library with the card below it, and cJSON, are interfaces.
use esp32cam.Base.{
  ℕ, zero, suc, ◌+◌, ◌==◌, List, [], ◌∷◌, Bool, true, false, Option, none, some, ◌>>=◌,
  if◌then◌else◌, length, leb,
}
use esp32cam.Module.{
  Variant, string_value, int32_value, get_string, get_int32, Result, ok, sd_card_error,
  file_io_error, file_format_error, not_enough_memory_error, entry_not_found_error, is_ok,
}
use esp32cam.Module.Description.{ParameterDescription, ParameterType, str, i32}
pub mod Laws
pub mod Items
pub mod Roundtrip
pub mod Independent
pub mod Errors

-- The calls on the file /param.jsn over the states `S` of the card and the heap: `open_append` is
-- `fopen` with "a" and `fclose` behind it, `open_read` and `open_write` are `fopen` with "rb" and
-- "wb"; `allocates` is what `new` gives, `read` is what `fread` copies, `write` is `fwrite` with
-- `fclose` behind it.
pub record Card (S : Type 0) : Type 0 where
  pub open_append : S → Bool × S
  pub open_read : S → Bool × S
  pub open_write : S → Bool × S
  pub file_size : S → ℕ
  pub allocates : ℕ → S → Bool
  pub read : ℕ → S → List ℕ
  pub write : List ℕ → S → S
  pub sd_fat_init : S → S
  pub sd_fat_deinit : S → S

-- The calls of cJSON over its values `J` and the numbers `D` in them. `parse` takes the characters
-- before the null.
pub record Json (J D : Type 0) : Type 0 where
  pub parse : List ℕ → Option J
  pub print : J → List ℕ
  pub is_object : J → Bool
  pub is_number : J → Bool
  pub is_string : J → Bool
  pub number_value : J → D
  pub string_text : J → List ℕ
  pub create_object : J
  pub get_object_item : J → List ℕ → Option J
  pub delete_item : J → List ℕ → J
  pub add_number : J → List ℕ → D → J
  pub add_string : J → List ℕ → List ℕ → J
  pub from_int32 : ℕ → D
  pub to_int32 : D → ℕ

-- `std::string::c_str` as C reads it, and a buffer with a null behind it.
unfoldable pub c_str : List ℕ → List ℕ
c_str [] = []
c_str (zero ∷ t) = []
c_str (suc c ∷ t) = suc c ∷ c_str t

abbrev pub file_size_upper_threshold : ℕ
file_size_upper_threshold = 4096

-- "{}"
abbrev pub stub : List ℕ
stub = 123 ∷ 125 ∷ []

module _ {S : Type 0} (card : Card S) where
  -- The loop of `configFileEnsureExists`: whether the file has been opened, and `res`.
  unfoldable pub try_open : ℕ → Result → S → Bool × Result × S
  try_open zero res s = (false, res, s)
  try_open (suc attempts) res s =
      let (opened, t) = card.open_append s in
      elim opened [
        | true ↦ (true, res, t)
        | false ↦ try_open attempts sd_card_error (card.sd_fat_init (card.sd_fat_deinit t))
      ]

  unfoldable pub config_file_ensure_exists : S → Result × S
  config_file_ensure_exists s =
      let (opened, res, t) = try_open 2 ok s in
      if opened then (ok, t) else (res, card.sd_fat_deinit t)

  -- The bytes that are read, without the null behind them.
  unfoldable pub config_file_read : S → Result × List ℕ × S
  config_file_read s =
      let (opened, t) = card.open_read s in
      let json_size = card.file_size t in
      let bytes = card.read json_size t in
      if opened
      then if leb json_size file_size_upper_threshold
        then if card.allocates (json_size + 1) t
          then (if length bytes == json_size then ok else file_io_error, bytes, t)
          else (not_enough_memory_error, [], t)
        else (not_enough_memory_error, [], t)
      else (file_io_error, [], t)

  unfoldable pub config_file_write : List ℕ → S → Result × S
  config_file_write text s =
      let (res, t) = config_file_ensure_exists s in
      let (opened, u) = card.open_write t in
      if is_ok res
      then if opened then (ok, card.write (c_str text) u) else (file_io_error, u)
      else (res, t)

  unfoldable pub config_file_write_stub : S → S
  config_file_write_stub s = (config_file_write stub s).1

  -- What `load` and `save` begin with.
  unfoldable pub open_and_read : S → Result × List ℕ × S
  open_and_read s =
      let (res, t) = config_file_ensure_exists s in
      if is_ok res then config_file_read t else (res, [], t)

module _ {J D : Type 0} (json : Json J D) where
  -- The `switch` of `load` on the type of the parameter, for the entry with its name.
  unfoldable pub entry_value : ParameterType → J → Variant → Result × Variant
  entry_value i32 entry variant =
      if json.is_number entry
      then (ok, int32_value (json.to_int32 (json.number_value entry)))
      else (file_format_error, variant)
  entry_value str entry variant =
      if json.is_string entry
      then (ok, string_value (c_str (json.string_text entry)))
      else (file_format_error, variant)

  unfoldable pub load_value : ParameterDescription → J → Variant → Result × Variant
  load_value d cjson variant =
      if json.is_object cjson
      then elim (json.get_object_item cjson d.name) [
        | none ↦ (entry_not_found_error, variant)
        | some entry ↦ entry_value d.parameter_type entry variant
      ]
      else (file_format_error, variant)

  -- The root that `save` puts its entry into.
  unfoldable pub root_object : List ℕ → J
  root_object bytes = elim (json.parse (c_str bytes)) [
    | none ↦ json.create_object
    | some cjson ↦ if json.is_object cjson then cjson else json.create_object
  ]

  -- The `switch` of `save`; none is a value of another alternative.
  unfoldable pub replace_entry : ParameterType → List ℕ → Variant → J → Option J
  replace_entry i32 name value cjson =
      get_int32 value
      >>= (λ n. some (json.add_number (json.delete_item cjson name) name (json.from_int32 n)))
  replace_entry str name value cjson =
      get_string value
      >>= (λ t. some (json.add_string (json.delete_item cjson name) name (c_str t)))

  -- What `save` prints, for the bytes of the file.
  unfoldable pub saved_root : ParameterDescription → Variant → List ℕ → Option J
  saved_root d value bytes = replace_entry d.parameter_type d.name value (root_object bytes)

module _ {S J D : Type 0} (card : Card S) (json : Json J D) where
  unfoldable pub load : ParameterDescription → Variant → S → Result × Variant × S
  load d variant s =
      let (res, bytes, t) = open_and_read card s in
      if is_ok res
      then elim (json.parse (c_str bytes)) [
        | none ↦ (file_format_error, variant, config_file_write_stub card t)
        | some cjson ↦ let (r, v) = load_value json d cjson variant in (r, v, t)
      ]
      else (res, variant, t)

  unfoldable pub save : ParameterDescription → Variant → S → Option (Result × S)
  save d value s =
      let (res, bytes, t) = open_and_read card s in
      if is_ok res
      then saved_root json d value bytes
        >>= (λ cjson. some (config_file_write card (json.print cjson) t))
      else some (res, t)

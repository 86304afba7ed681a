-- ===== src/Module/Tests/Witnesses.antt =====
-- Parameters at concrete inputs: descriptions, a file with one entry, a card that fails.
use esp32cam.Base.{
  ℕ, ◌≡◌, ◌<◌, ◌↔◌, ◌⊎◌, refl, arith, List, [], ◌∷◌, true, false, none, some, length, replicate,
  get_elem?, ltb→lt,
}
use esp32cam.Module.{
  Module, wifi_ap, wifi_sta_connection, Field, password, string_identifier, initialized, Variant,
  none_value, string_value, int32_value, get_type, alternative, Result, ok, sd_card_error,
  not_enough_memory_error, file_format_error, entry_not_found_error, config_does_not_exist,
}
use esp32cam.Module.Description.{
  ParameterDescription, parameter_descriptions, wifi_ap_ssid, wifi_ap_password, pardesc_to_id,
  description_by_mf, find_description, saved_type, same_text,
}
use esp32cam.Module.Description.Lookup.{
  pardesc_to_id_iff, mirror_field-get_type, descriptions_unique, descriptions_sequence,
}
use esp32cam.Module.Sd.{Card, c_str, stub, load, save, root_object, saved_root, replace_entry}
use esp32cam.Module.Sd.Items.{distinct, alone}
use esp32cam.Module.Sd.Roundtrip.{kept_string, load-save}
use esp32cam.Module.Sd.Independent.{load-save_other}
use esp32cam.Module.Sd.Errors.{first_load_lem, save_oversized, save_total}
use esp32cam.Module.Parameter.{World, fetch_string_by_mf, commit_string_by_mf}
use esp32cam.Module.Parameter.Instances.{IsValid, numbered}
use esp32cam.Module.Parameter.Stored.{sd_memory_provider, fetch-commit_string}
use esp32cam.Module.ModuleBase.{field_try_mirror_parameter}
use esp32cam.Module.ModuleBase.Mirror.{Unmirrored, field_try_mirror_parameter_lem}
use esp32cam.Module.Tests.Notation.{
  CardFile, card, card_works, Doc, object, text, json, children, json_laws,
}

pardesc_to_id_example : (pardesc_to_id parameter_descriptions wifi_ap password ≡ some 1) ↔ (
    (d : ParameterDescription) × (get_elem? parameter_descriptions 1 ≡ some d)
    × (d.owner ≡ wifi_ap)
    × (d.field ≡ password))
pardesc_to_id_example =
    pardesc_to_id_iff parameter_descriptions wifi_ap password 1 descriptions_unique
      descriptions_sequence

found_password : description_by_mf parameter_descriptions wifi_ap password ≡ some wifi_ap_password
unfolding description_by_mf pardesc_to_id find_description
found_password = refl

mirror_field_example : get_type password wifi_ap ≡ saved_type wifi_ap_password.parameter_type
mirror_field_example = mirror_field-get_type wifi_ap password wifi_ap_password found_password refl

names_file : distinct same_text (children (root_object json [])) ≡ true
unfolding distinct root_object c_str
names_file = refl

-- A file that has the password "pass" in it already, and what saving the name "hi" makes of it.
abbrev before : Doc
before = object ((wifi_ap_password.name, text (112 ∷ 97 ∷ 115 ∷ 115 ∷ [])) ∷ [])

abbrev with_name : Doc
with_name = object (
    (wifi_ap_password.name, text (112 ∷ 97 ∷ 115 ∷ 115 ∷ []))
    ∷ (wifi_ap_ssid.name, text (104 ∷ 105 ∷ []))
    ∷ [])

-- The name "hi" with a null behind it.
abbrev hi : List ℕ
hi = 104 ∷ 105 ∷ 0 ∷ []

names_before : distinct same_text (children (root_object json (json.print before))) ≡ true
unfolding distinct alone root_object c_str
names_before = refl

saved_name : saved_root json wifi_ap_ssid (string_value hi) (json.print before) ≡ some with_name
unfolding saved_root root_object replace_entry c_str
saved_name = refl

load_save_example :
    (t : CardFile) × (u : CardFile) × (save card json wifi_ap_ssid
        (string_value hi)
        (some (json.print before))
      ≡ some (ok, t))
    × (t ≡ some (json.print with_name))
    × (distinct same_text (children (root_object json (json.print with_name))) ≡ true)
    × (load card json wifi_ap_ssid none_value (some (json.print with_name))
        ≡ (ok, string_value (c_str hi), u))
    × (u ≡ some (json.print with_name))
load_save_example =
    load-save card json (λ s. s) children same_text card_works json_laws wifi_ap_ssid
      (string_value hi) (string_value (c_str hi)) none_value (some (json.print before))
      (some (json.print with_name)) with_name (kept_string hi) (omega arith) names_before saved_name
      (omega arith) refl

parsed_before : json.parse (c_str (json.print before)) ≡ some before
unfolding c_str
parsed_before = refl

load_save_other_example :
    (t : CardFile) × (r : Result) × (x : Variant) × (first : CardFile) × (second : CardFile) × (save
        card json wifi_ap_ssid
        (string_value hi)
        (some (json.print before))
      ≡ some (ok, t))
    × (t ≡ some (json.print with_name))
    × (load card json wifi_ap_password none_value (some (json.print before)) ≡ (r, x, first))
    × (load card json wifi_ap_password none_value (some (json.print with_name)) ≡ (r, x, second))
load_save_other_example =
    load-save_other card json (λ s. s) children same_text card_works json_laws wifi_ap_ssid
      wifi_ap_password (string_value hi) (string_value (c_str hi)) none_value
      (some (json.print before)) (some (json.print with_name)) before with_name (kept_string hi)
      (omega arith) parsed_before refl refl saved_name (omega arith) refl

first_load_example :
    (t : CardFile) × (u : CardFile) × (load card json wifi_ap_ssid none_value none
      ≡ (file_format_error, none_value, t))
    × (t ≡ some stub)
    × (load card json wifi_ap_ssid none_value t ≡ (entry_not_found_error, none_value, u))
    × (u ≡ some stub)
unfolding esp32cam.Module.Sd.Laws.lookup
first_load_example =
    first_load_lem card json (λ s. s) card_works wifi_ap_ssid none_value none json.create_object
      refl refl refl refl refl

-- A name of 5000 characters.
abbrev long : List ℕ
long = replicate 5000 1

abbrev with_long : Doc
with_long = object ((wifi_ap_ssid.name, text (c_str long)) ∷ [])

saved_long : saved_root json wifi_ap_ssid (string_value long) [] ≡ some with_long
unfolding saved_root root_object replace_entry c_str
saved_long = refl

long_is_long : 4096 < length (json.print with_long)
unfolding c_str
long_is_long = ltb→lt 4096 (length (json.print with_long)) refl

save_oversized_example :
    (t : CardFile) × (u : CardFile) × (save card json wifi_ap_ssid (string_value long) none
      ≡ some (ok, t))
    × (t ≡ some (json.print with_long))
    × (load card json wifi_ap_password none_value (some (json.print with_long))
        ≡ (not_enough_memory_error, none_value, u))
    × (save card json wifi_ap_password (string_value hi) (some (json.print with_long))
        ≡ some (not_enough_memory_error, u))
    × (u ≡ some (json.print with_long))
save_oversized_example =
    save_oversized card json (λ s. s) children same_text card_works json_laws wifi_ap_ssid
      wifi_ap_password (string_value long) (string_value (c_str long)) (string_value hi) none_value
      none (some (json.print with_long)) with_long (kept_string long) (omega arith) saved_long
      long_is_long refl

-- As after a restart.
abbrev fresh : World CardFile
fresh = record { instances = replicate 8 none; sd_made = false; storage = none }

fresh-IsValid : IsValid CardFile parameter_descriptions fresh
unfolding numbered
fresh-IsValid = record { one_each = refl; ids = refl }

found_id : pardesc_to_id parameter_descriptions wifi_ap string_identifier ≡ some 0
unfolding pardesc_to_id find_description
found_id = refl

abbrev over : Doc → World CardFile
over j = record fresh { storage = some (json.print j) }

over-IsValid : (j : Doc) → IsValid CardFile parameter_descriptions (over j)
over-IsValid j = record { one_each = refl; ids = fresh-IsValid.ids }

fetch_commit_string_example :
    let provider = sd_memory_provider card json in
    (x : World CardFile) × (y : World CardFile) × (commit_string_by_mf parameter_descriptions
        provider wifi_ap string_identifier hi
        (over before)
      ≡ some (ok, x))
    × (x.storage ≡ some (json.print with_name))
    × (fetch_string_by_mf parameter_descriptions provider wifi_ap string_identifier []
          (over with_name)
        ≡ some (ok, c_str hi, y))
fetch_commit_string_example =
    fetch-commit_string card json (λ s. s) children same_text card_works json_laws
      parameter_descriptions wifi_ap string_identifier 0 wifi_ap_ssid hi [] (over before)
      (over with_name) with_name (over-IsValid before) (over-IsValid with_name) found_id refl refl
      refl (omega arith) names_before saved_name (omega arith) refl

field_try_mirror_parameter_example :
    let provider = sd_memory_provider card json in
    let mirrored =
      field_try_mirror_parameter parameter_descriptions provider wifi_sta_connection initialized
        (int32_value 1)
        fresh in
    ((mirrored ≡ some (config_does_not_exist, fresh)) × Unmirrored wifi_sta_connection initialized)
    ⊎ ((d : ParameterDescription) × (r : Result) × (x : World CardFile) × (description_by_mf
            parameter_descriptions wifi_sta_connection initialized
          ≡ some d)
        × (d.mirror_field ≡ true)
        × (mirrored ≡ some (r, x))
        × (save card json d (int32_value 1) none ≡ some (r, x.storage))
        × IsValid CardFile parameter_descriptions x)
field_try_mirror_parameter_example =
    field_try_mirror_parameter_lem (sd_memory_provider card json) wifi_sta_connection initialized
      (int32_value 1) fresh (save_total card json) fresh-IsValid refl

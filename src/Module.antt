-- ===== src/Module.antt =====
-- components/module/module/Types.hpp, Types.cpp and Variant.hpp: modules, their fields and values.
use esp32cam.Base.{
  ℕ, ◌==◌, ◌≡◌, ap, sym, ◌∙◌, refl, List, [], ◌∷◌, get_or, Bool, true, false, Option, none, some,
  ==_iff,
}
pub mod Description
pub mod Sd
pub mod Parameter
pub mod ModuleBase
mod Tests

-- `Mod::Module` and `Mod::Fld::Field`, numbered as the enumerations number them.
pub data Module : Type 0 where
  camera autopilot wifi_sta_connection tracking wifi_ap all : Module

abbrev pub module_number : Module → ℕ
module_number camera = 0
module_number autopilot = 1
module_number wifi_sta_connection = 2
module_number tracking = 3
module_number wifi_ap = 4
module_number all = 5

pub data Field : Type 0 where
  frame_size frame_format vendor_name model_name initialized capture_count recording
        version_software_major version_software_minor version_software_patch version_commit_hash ip
        gateway netmask roi string_identifier password restore_state mac :
      Field

abbrev pub field_number : Field → ℕ
field_number frame_size = 0
field_number frame_format = 1
field_number vendor_name = 2
field_number model_name = 3
field_number initialized = 4
field_number capture_count = 5
field_number recording = 6
field_number version_software_major = 7
field_number version_software_minor = 8
field_number version_software_patch = 9
field_number version_commit_hash = 10
field_number ip = 11
field_number gateway = 12
field_number netmask = 13
field_number roi = 14
field_number string_identifier = 15
field_number password = 16
field_number restore_state = 17
field_number mac = 18

abbrev pub same_module : Module → Module → Bool
same_module a b = module_number a == module_number b

abbrev pub same_field : Field → Field → Bool
same_field a b = field_number a == field_number b

-- `VariantBase`: the alternatives, by their types, and their values. A signed number is its bit
-- pattern, a string is its characters.
pub data Alternative : Type 0 where
  none_type unsigned_type int_pair_type bool_type c_str_type address_type named_byte_type uint8_type
        rect_type string_type int32_type uint32_type mac_type :
      Alternative

pub data Variant : Type 0 where
  none_value : Variant
  unsigned_value : ℕ → Variant
  int_pair_value : ℕ → ℕ → Variant
  bool_value : Bool → Variant
  c_str_value : List ℕ → Variant
  address_value : ℕ → Variant
  named_byte_value : ℕ → List ℕ → Variant
  uint8_value : ℕ → Variant
  rect_value : List ℕ → Variant
  string_value : List ℕ → Variant
  int32_value : ℕ → Variant
  uint32_value : ℕ → Variant
  mac_value : List ℕ → Variant

abbrev pub alternative : Variant → Alternative
alternative none_value = none_type
alternative (unsigned_value n) = unsigned_type
alternative (int_pair_value a b) = int_pair_type
alternative (bool_value b) = bool_type
alternative (c_str_value t) = c_str_type
alternative (address_value n) = address_type
alternative (named_byte_value n t) = named_byte_type
alternative (uint8_value n) = uint8_type
alternative (rect_value r) = rect_type
alternative (string_value t) = string_type
alternative (int32_value n) = int32_type
alternative (uint32_value n) = uint32_type
alternative (mac_value m) = mac_type

-- `get_unchecked` at the types that are read so; none is a read of another alternative.
abbrev pub get_string : Variant → Option (List ℕ)
get_string (string_value t) = some t
get_string _ = none

abbrev pub get_int32 : Variant → Option ℕ
get_int32 (int32_value n) = some n
get_int32 _ = none

abbrev pub get_uint32 : Variant → Option ℕ
get_uint32 (uint32_value n) = some n
get_uint32 _ = none

-- `GetType`.
abbrev pub get_type : Field → Module → Alternative
get_type frame_size camera = int_pair_type
get_type initialized m = int32_type
get_type vendor_name m = c_str_type
get_type model_name m = c_str_type
get_type capture_count camera = unsigned_type
get_type recording camera = bool_type
get_type version_software_major m = unsigned_type
get_type version_software_minor m = unsigned_type
get_type version_software_patch m = unsigned_type
get_type version_commit_hash m = unsigned_type
get_type ip m = uint32_type
get_type netmask m = uint32_type
get_type gateway m = uint32_type
get_type frame_format camera = c_str_type
get_type roi tracking = rect_type
get_type string_identifier m = string_type
get_type password m = string_type
get_type restore_state m = int32_type
get_type mac m = mac_type
get_type f m = none_type

-- `Mod::Par::Result`.
pub data Result : Type 0 where
  ok memory_provider_not_found sd_card_error file_io_error file_format_error not_enough_memory_error
        entry_not_found_error config_does_not_exist :
      Result

abbrev pub is_ok : Result → Bool
is_ok ok = true
is_ok _ = false

-- `RequestResult`, and the literals that a response can point to.
pub data RequestResult : Type 0 where
  request_ok storage_error out_of_range other : RequestResult

pub data Message : Type 0 where
  empty wrong_password_format wrong_ssid_format unable_to_connect invalid_ssid_length
        invalid_password_length :
      Message
  parameter_error : Result → Message
  request_result : RequestResult → Message

pub record WriteResp : Type 0 where
  pub result : RequestResult
  pub error_message : Message

abbrev pub write_resp : RequestResult → WriteResp
write_resp r = record { result = r; error_message = empty }

abbrev pub failure : Message → WriteResp
failure text = record { result = other; error_message = text }

abbrev pub resp_is_ok : WriteResp → Bool
resp_is_ok r = elim r.result [ request_ok ↦ true | _ ↦ false ]

-- What `same_module` and `same_field` compare.
abbrev nth_module : ℕ → Module
nth_module n = get_or (camera ∷ autopilot ∷ wifi_sta_connection ∷ tracking ∷ wifi_ap ∷ []) n all

nth_module-module_number : (m : Module) → nth_module (module_number m) ≡ m
nth_module-module_number camera = refl
nth_module-module_number autopilot = refl
nth_module-module_number wifi_sta_connection = refl
nth_module-module_number tracking = refl
nth_module-module_number wifi_ap = refl
nth_module-module_number all = refl

pub same_module_sound : (a b : Module) → same_module a b ≡ true → a ≡ b
same_module_sound a b h =
    sym (nth_module-module_number a)
    ∙ ap nth_module ((==_iff (module_number a) (module_number b)).0 h)
    ∙ nth_module-module_number b

abbrev nth_field : ℕ → Field
nth_field n =
    get_or
      (frame_size ∷ frame_format ∷ vendor_name ∷ model_name ∷ initialized ∷ capture_count
        ∷ recording ∷ version_software_major ∷ version_software_minor ∷ version_software_patch
        ∷ version_commit_hash ∷ ip ∷ gateway ∷ netmask ∷ roi ∷ string_identifier ∷ password
        ∷ restore_state ∷ [])
      n mac

nth_field-field_number : (f : Field) → nth_field (field_number f) ≡ f
nth_field-field_number frame_size = refl
nth_field-field_number frame_format = refl
nth_field-field_number vendor_name = refl
nth_field-field_number model_name = refl
nth_field-field_number initialized = refl
nth_field-field_number capture_count = refl
nth_field-field_number recording = refl
nth_field-field_number version_software_major = refl
nth_field-field_number version_software_minor = refl
nth_field-field_number version_software_patch = refl
nth_field-field_number version_commit_hash = refl
nth_field-field_number ip = refl
nth_field-field_number gateway = refl
nth_field-field_number netmask = refl
nth_field-field_number roi = refl
nth_field-field_number string_identifier = refl
nth_field-field_number password = refl
nth_field-field_number restore_state = refl
nth_field-field_number mac = refl

pub same_field_sound : (a b : Field) → same_field a b ≡ true → a ≡ b
same_field_sound a b h =
    sym (nth_field-field_number a)
    ∙ ap nth_field ((==_iff (field_number a) (field_number b)).0 h)
    ∙ nth_field-field_number b

pub same_module_refl : (a : Module) → same_module a a ≡ true
same_module_refl a = (==_iff (module_number a) (module_number a)).1 refl

pub same_field_refl : (a : Field) → same_field a a ≡ true
same_field_refl a = (==_iff (field_number a) (field_number a)).1 refl

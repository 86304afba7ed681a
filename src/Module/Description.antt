-- ===== src/Module/Description.antt =====
-- The parameter descriptions of components/module/module/Parameter/Parameter.cpp, and their type in
-- Parameter/ParameterDescription.hpp.
use esp32cam.Base.{
  ℕ, zero, suc, ◌==◌, ◌≡◌, ap, sym, ◌∙◌, refl, List, [], ◌∷◌, Bool, true, false, ◌&&◌, ◌||◌, not,
  Option, none, some, if◌then◌else◌, ltb, leb, length, get_elem?, ◌↔◌, arith, Bool-cases,
  Option-cases, inl, inr, ◌+◌, ◌-◌, ◌≤◌, ap₂,
}
use esp32cam.Module.{
  Module, wifi_sta_connection, wifi_ap, Field, initialized, ip, gateway, netmask, string_identifier,
  password, same_module, same_field, same_module_sound, same_field_sound, same_module_refl,
  same_field_refl, Alternative, string_type, int32_type, get_type,
}
pub mod Lookup

pub data ParameterType : Type 0 where
  str i32 : ParameterType

pub data MemoryProviderType : Type 0 where
  sd nvs : MemoryProviderType

-- A name is the characters before its null.
pub record ParameterDescription : Type 0 where
  pub id : ℕ
  pub name : List ℕ
  pub parameter_type : ParameterType
  pub owner : Module
  pub field : Field
  pub memory_provider_type : MemoryProviderType
  pub mirror_field : Bool

abbrev describe : ℕ → List ℕ → ParameterType → Module → Field → Bool → ParameterDescription
describe i n t m f b = record {
  id = i;
  name = n;
  parameter_type = t;
  owner = m;
  field = f;
  memory_provider_type = sd;
  mirror_field = b;
}

-- WifiApSsid
abbrev pub wifi_ap_ssid : ParameterDescription
wifi_ap_ssid =
    describe 0 (87 ∷ 105 ∷ 102 ∷ 105 ∷ 65 ∷ 112 ∷ 83 ∷ 115 ∷ 105 ∷ 100 ∷ []) str wifi_ap
      string_identifier true

-- WifiApPassword
abbrev pub wifi_ap_password : ParameterDescription
wifi_ap_password =
    describe 1 (87 ∷ 105 ∷ 102 ∷ 105 ∷ 65 ∷ 112 ∷ 80 ∷ 97 ∷ 115 ∷ 115 ∷ 119 ∷ 111 ∷ 114 ∷ 100 ∷ [])
      str wifi_ap password true

-- WifiStaSsid
abbrev pub wifi_sta_ssid : ParameterDescription
wifi_sta_ssid =
    describe 2 (87 ∷ 105 ∷ 102 ∷ 105 ∷ 83 ∷ 116 ∷ 97 ∷ 83 ∷ 115 ∷ 105 ∷ 100 ∷ []) str
      wifi_sta_connection string_identifier true

-- WifiStaPassword
abbrev pub wifi_sta_password : ParameterDescription
wifi_sta_password =
    describe 3
      (87 ∷ 105 ∷ 102 ∷ 105 ∷ 83 ∷ 116 ∷ 97 ∷ 80 ∷ 97 ∷ 115 ∷ 115 ∷ 119 ∷ 111 ∷ 114 ∷ 100 ∷ []) str
      wifi_sta_connection password true

-- WifiStaAutoconn
abbrev pub wifi_sta_autoconn : ParameterDescription
wifi_sta_autoconn =
    describe 4
      (87 ∷ 105 ∷ 102 ∷ 105 ∷ 83 ∷ 116 ∷ 97 ∷ 65 ∷ 117 ∷ 116 ∷ 111 ∷ 99 ∷ 111 ∷ 110 ∷ 110 ∷ []) i32
      wifi_sta_connection initialized true

-- WifiStaNetmask
abbrev pub wifi_sta_netmask : ParameterDescription
wifi_sta_netmask =
    describe 5 (87 ∷ 105 ∷ 102 ∷ 105 ∷ 83 ∷ 116 ∷ 97 ∷ 78 ∷ 101 ∷ 116 ∷ 109 ∷ 97 ∷ 115 ∷ 107 ∷ [])
      str wifi_sta_connection netmask false

-- WifiStaIp
abbrev pub wifi_sta_ip : ParameterDescription
wifi_sta_ip =
    describe 6 (87 ∷ 105 ∷ 102 ∷ 105 ∷ 83 ∷ 116 ∷ 97 ∷ 73 ∷ 112 ∷ []) str wifi_sta_connection ip
      false

-- WifiStaGateway
abbrev pub wifi_sta_gateway : ParameterDescription
wifi_sta_gateway =
    describe 7 (87 ∷ 105 ∷ 102 ∷ 105 ∷ 83 ∷ 116 ∷ 97 ∷ 71 ∷ 97 ∷ 116 ∷ 101 ∷ 119 ∷ 97 ∷ 121 ∷ [])
      str wifi_sta_connection gateway false

-- `kParameterDescriptions`.
abbrev pub parameter_descriptions : List ParameterDescription
parameter_descriptions =
    wifi_ap_ssid ∷ wifi_ap_password ∷ wifi_sta_ssid ∷ wifi_sta_password ∷ wifi_sta_autoconn
    ∷ wifi_sta_netmask ∷ wifi_sta_ip ∷ wifi_sta_gateway ∷ []

abbrev pub parameter_strlen : ℕ
parameter_strlen = 16

-- `cxStrcpy` of components/utility/utility/al/String.hpp, as far as it is compared with 0.
abbrev pub same_text : List ℕ → List ℕ → Bool
same_text [] [] = true
same_text [] (b ∷ bs) = false
same_text (a ∷ xs) [] = false
same_text (a ∷ xs) (b ∷ bs) = (a == b) && same_text xs bs

-- The checks at compile time; the positions from one on are the rest of the list.
abbrev pub validate_strlen : List ParameterDescription → Bool
validate_strlen [] = true
validate_strlen (d ∷ ds) =
    leb (length d.name) parameter_strlen && validate_strlen ds && ltb 0 (length d.name)

unfoldable pub validate_uniqueness_impl : ParameterDescription → List ParameterDescription → Bool
validate_uniqueness_impl d [] = true
validate_uniqueness_impl d (c ∷ cs) =
    not (same_text d.name c.name)
    && (not (same_field d.field c.field) || not (same_module d.owner c.owner))
    && validate_uniqueness_impl d cs

unfoldable pub validate_uniqueness : List ParameterDescription → Bool
validate_uniqueness [] = true
validate_uniqueness (d ∷ ds) = validate_uniqueness_impl d ds && validate_uniqueness ds

unfoldable pub ensure_sequence : ℕ → List ParameterDescription → Bool
ensure_sequence current [] = true
ensure_sequence current (d ∷ ds) = (current == d.id) && ensure_sequence (suc current) ds

-- `find_if` of `pardescToId`.
unfoldable pub find_description :
    List ParameterDescription → Module → Field → Option ParameterDescription
find_description [] m f = none
find_description (d ∷ ds) m f =
    let rest = find_description ds m f in
    if same_module m d.owner && same_field f d.field then some d else rest

unfoldable pub pardesc_to_id : List ParameterDescription → Module → Field → Option ℕ
pardesc_to_id ds m f = elim (find_description ds m f) [ none ↦ none | some d ↦ some d.id ]

-- `descriptionByMf`.
unfoldable pub description_by_mf :
    List ParameterDescription → Module → Field → Option ParameterDescription
description_by_mf ds m f = elim (pardesc_to_id ds m f) [ none ↦ none | some i ↦ get_elem? ds i ]

-- The type at which a parameter is saved.
abbrev pub saved_type : ParameterType → Alternative
saved_type str = string_type
saved_type i32 = int32_type

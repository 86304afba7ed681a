-- ===== src/Wifi/Ap.antt =====
-- components/wifi/wifi/Ap.cpp: the module of the access point. It checks what it is given, and keeps
-- none of it.
use esp32cam.Base.{Option, none, some, ◌>>=◌, if◌then◌else◌}
use esp32cam.Module.{
  wifi_ap, Field, string_identifier, password, mac, Variant, string_value, mac_value, get_string,
  write_resp, request_ok, failure, invalid_ssid_length, invalid_password_length,
}
use esp32cam.Module.ModuleBase.{System, OnResponse, OnWriteResponse, ModuleApi}
use esp32cam.Wifi.{Driver, Wireless, array_text, ssid_fits, password_fits}

unfoldable pub set_field_value :
    {A S N : Type 0}
    → Field
    → Variant
    → OnWriteResponse A (System S (Wireless N))
    → A
    → System S (Wireless N)
    → Option (A × System S (Wireless N))
set_field_value string_identifier v cb a w =
    get_string v
    >>= (λ t. cb (if ssid_fits t then write_resp request_ok else failure invalid_ssid_length) a w)
set_field_value password v cb a w = get_string v >>= (λ t.
    cb (if password_fits t then write_resp request_ok else failure invalid_password_length) a w)
set_field_value f v cb a w = cb (write_resp request_ok) a w

module _ {S N : Type 0} (driver : Driver N) where
  unfoldable pub get_field_value :
      {A : Type 0}
      → Field
      → OnResponse A
      → A
      → System S (Wireless N)
      → Option (A × System S (Wireless N))
  get_field_value string_identifier cb a w = elim (driver.ap_config w.rest.network) [
    | none ↦ some (a, w)
    | some config ↦ cb (string_value (array_text config.0)) a >>= (λ x. some (x, w))
  ]
  get_field_value password cb a w = elim (driver.ap_config w.rest.network) [
    | none ↦ some (a, w)
    | some config ↦ cb (string_value (array_text config.1)) a >>= (λ x. some (x, w))
  ]
  get_field_value mac cb a w = cb (mac_value (driver.mac w.rest.network)) a >>= (λ x. some (x, w))
  get_field_value f cb a w = some (a, w)

  abbrev pub access_point : ModuleApi (System S (Wireless N))
  access_point = record {
    identity = wifi_ap;
    get_field_value = get_field_value;
    set_field_value = set_field_value;
  }

-- ===== src/Mavlink/Wifi/Unchecked.antt =====
-- Names and passwords of the access point that come in by MAVLink: the modules' checks of their
-- lengths see the lengths of the arrays.
use esp32cam.Base.{◌≡◌, arith, List, [], ◌∷◌, Bool, some, if◌then◌else◌, length, overwrite}
use esp32cam.Module.{
  wifi_ap, string_identifier, password, string_value, Result, write_resp, request_ok, resp_is_ok,
}
use esp32cam.Module.Description.{ParameterDescription}
use esp32cam.Module.Parameter.{MemoryProvider, World}
use esp32cam.Module.ModuleBase.{
  System, ModuleApi, module_field_write_iter, mirroring, field_try_mirror_parameter,
  mirrored_response,
}
use esp32cam.Wifi.{Driver, Wireless}
use esp32cam.Wifi.Sta.{station}
use esp32cam.Wifi.Ap.{access_point}
use esp32cam.Mavlink.FtpClient.Handlers.{response}
use esp32cam.Mavlink.Wifi.{
  WifiConfigAp, Dialect, config_reply, ssid_fill_zero, password_fill_zero, password_into_md5,
}
use esp32cam.Mavlink.Wifi.Handlers.{process_config_ap_set_ssid, process_config_ap_set_password}

module _ {M F S N : Type 0} (dialect : Dialect M F) (ds : List ParameterDescription)
    (provider : MemoryProvider S) (driver : Driver N) where
  -- Whether the caller is told of success, for what mirroring came to.
  unfoldable pub stored : Result → Bool
  stored r = resp_is_ok (mirrored_response ds provider (write_resp request_ok) r)

  -- With both modules registered, a password array of 64 characters and a name array of 32, whatever
  -- is in them, pass the checks of the access point's module, even if the text before the first null
  -- is empty or shorter than a password may be: the answer depends on mirroring alone. After a success
  -- it has the password's digest, or the request's name; after a failure it has the error code, and
  -- zeros in the password, or else in the name. What is left is the request with mirroring done.
  pub access_point_lem :
      (m : WifiConfigAp) (w : System S (Wireless N)) (p q : Result) (x y : World S)
      → length m.password ≡ 64
      → length m.ssid ≡ 32
      → field_try_mirror_parameter ds provider wifi_ap password
          (string_value m.password)
          w.parameters
        ≡ some (p, x)
      → field_try_mirror_parameter ds provider wifi_ap string_identifier
          (string_value m.ssid)
          w.parameters
        ≡ some (q, y)
      → let both : List (ModuleApi (System S (Wireless N))) =
          station ds provider driver ∷ access_point driver ∷ [] in
        let no_password = password_fill_zero m in
        let no_ssid = ssid_fill_zero m in
        (process_config_ap_set_password dialect ds provider driver both m w
          ≡ some (
            response,
            config_reply (
                  if stored p
                  then password_into_md5 dialect.md5 m
                  else record no_password { ssid = overwrite m.ssid 0 (0 ∷ 4 ∷ []) })
                ∷ [],
            record w { parameters = x },
          ))
        × (process_config_ap_set_ssid dialect ds provider driver both m w
            ≡ some (
              response,
              config_reply (
                    if stored q
                    then m
                    else record no_ssid { ssid = overwrite no_ssid.ssid 0 (0 ∷ 3 ∷ []) })
                  ∷ [],
              record w { parameters = y },
            ))
  unfolding process_config_ap_set_password process_config_ap_set_ssid module_field_write_iter
      mirroring stored esp32cam.Wifi.Ap.set_field_value
  access_point_lem m w p q x y secret_size name_size first second =
      (ground (arith, secret_size, first), ground (arith, name_size, second))

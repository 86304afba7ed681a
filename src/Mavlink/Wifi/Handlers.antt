-- ===== src/Mavlink/Wifi/Handlers.antt =====
-- The handlers of Microservice/Wifi.cpp. A handler returns what it returns, what it hands to the
-- response callback, in order, and the state; none is a write past the end of an array, or what a
-- module runs into.
use esp32cam.Base.{
  ℕ, List, [], ◌∷◌, Bool, true, false, ◌&&◌, ◌||◌, not, Option, none, some, ◌>>=◌, ◌==◌,
  if◌then◌else◌, length, leb, ltb, get_or, replicate, overwrite,
}
use esp32cam.Module.{
  Module, wifi_ap, wifi_sta_connection, Field, string_identifier, password, initialized, Variant,
  string_value, int32_value, get_string, resp_is_ok,
}
use esp32cam.Module.Description.{ParameterDescription}
use esp32cam.Module.Sd.{c_str}
use esp32cam.Module.Parameter.{MemoryProvider}
use esp32cam.Module.ModuleBase.{
  System, OnResponse, OnWriteResponse, ModuleApi, module_field_write_iter, module_field_read_iter,
}
use esp32cam.Wifi.{Driver, Wireless}
use esp32cam.Mavlink.FtpClient.Handlers.{Ret, ignored, response}
use esp32cam.Mavlink.Wifi.{
  WifiConfigAp, Mode, mode_undefined, mode_ap, mode_station, mode_other, response_undefined,
  response_accepted, response_rejected, ssid_size, password_size, ssid_fill_zero,
  password_fill_zero, password_into_md5, CommandLong, Reply, config_reply, ack_reply, Dialect,
  make_command_long, make_command_ack,
}

-- Whether a field is used; the tests are those of the code.
abbrev pub is_used : List ℕ → Bool
is_used text = not (get_or text 0 0 == 0) && not (get_or text 1 0 == 255)

-- `copy_n` of a string to the start of an array.
unfoldable pub copy_text : List ℕ → List ℕ → Option (List ℕ)
copy_text text array =
    if leb (length text) (length array) then some (overwrite array 0 text) else none

-- The two lambdas of a status request, over the string and the flag that they capture.
abbrev pub capture : OnResponse (List ℕ × Bool)
capture v a = get_string v >>= (λ t. some (t, true))

module _ {M F S N : Type 0} (dialect : Dialect M F) (ds : List ParameterDescription)
    (provider : MemoryProvider S) (driver : Driver N)
    (mods : List (ModuleApi (System S (Wireless N)))) where
  abbrev Handled : Type 0
  Handled = Option (Ret × List Reply × System S (Wireless N))

  abbrev write :
      {A : Type 0}
      → Module
      → Field
      → Variant
      → OnWriteResponse A (System S (Wireless N))
      → A
      → System S (Wireless N)
      → Option (A × System S (Wireless N))
  write m f v cb a w = module_field_write_iter ds provider mods m f v cb a w

  abbrev still : OnWriteResponse Bool (System S (Wireless N))
  still resp success w = some (success && resp_is_ok resp, w)

  abbrev last : OnWriteResponse Bool (System S (Wireless N))
  last resp success w = some (resp_is_ok resp, w)

  -- The message that `processConfigApConnect` leaves.
  abbrev connect_message : Bool → WifiConfigAp → WifiConfigAp
  connect_message success m =
      if success
      then password_into_md5 dialect.md5 m
      else (let z = password_fill_zero (ssid_fill_zero m) in
          record z { ssid = overwrite z.ssid 0 (0 ∷ 1 ∷ []) })

  unfoldable pub process_config_ap_connect : WifiConfigAp → System S (Wireless N) → Handled
  process_config_ap_connect m w =
      write wifi_sta_connection password (string_value m.password) still true w
      >>= (λ (p : Bool × System S (Wireless N)).
          write wifi_sta_connection string_identifier (string_value m.ssid) still p.0 p.1
          >>= (λ (q : Bool × System S (Wireless N)).
              (if q.0
                then write wifi_sta_connection initialized (int32_value 1) still q.0 q.1
                else some q)
              >>= (λ (r : Bool × System S (Wireless N)).
                  some (response, config_reply (connect_message r.0 m) ∷ [], r.1))))

  unfoldable pub process_config_ap_disconnect : WifiConfigAp → System S (Wireless N) → Handled
  process_config_ap_disconnect m w =
      write wifi_sta_connection initialized (int32_value 0)
        (λ resp k x.
          some
            (if resp_is_ok resp then k else record k { ssid = overwrite k.ssid 0 (0 ∷ 2 ∷ []) }, x))
        m w
      >>= (λ (r : WifiConfigAp × System S (Wireless N)).
          some (response, config_reply r.0 ∷ [], r.1))

  unfoldable pub process_config_ap_set_ssid : WifiConfigAp → System S (Wireless N) → Handled
  process_config_ap_set_ssid m w =
      write wifi_ap string_identifier (string_value m.ssid) last false w
      >>= (λ (r : Bool × System S (Wireless N)).
          let z = ssid_fill_zero m in
          let answer = if r.0 then m else record z { ssid = overwrite z.ssid 0 (0 ∷ 3 ∷ []) } in
          some (response, config_reply answer ∷ [], r.1))

  unfoldable pub process_config_ap_set_password : WifiConfigAp → System S (Wireless N) → Handled
  process_config_ap_set_password m w =
      write wifi_ap password (string_value m.password) last false w
      >>= (λ (r : Bool × System S (Wireless N)).
          let z = password_fill_zero m in
          let answer =
            if r.0
            then password_into_md5 dialect.md5 m
            else record z { ssid = overwrite z.ssid 0 (0 ∷ 4 ∷ []) } in
          some (response, config_reply answer ∷ [], r.1))

  unfoldable pub process_config_ap_set_ap : WifiConfigAp → System S (Wireless N) → Handled
  process_config_ap_set_ap m w =
      write wifi_ap string_identifier (string_value m.ssid)
        (λ resp k x.
          some (if resp_is_ok resp then record k { response = response_accepted } else k, x))
        (record m { response = response_undefined }) w
      >>= (λ (r : WifiConfigAp × System S (Wireless N)).
          some (response, config_reply r.0 ∷ [], r.1))

  -- The strings are made with the sizes of the arrays.
  unfoldable pub process_config_ap_set_sta : WifiConfigAp → System S (Wireless N) → Handled
  process_config_ap_set_sta m w =
      let (connected, n) =
        driver.sta_connect (c_str m.ssid) (c_str m.password) none w.rest.network in
      let answer = record m {
        response = if connected then response_accepted else response_rejected;
      } in
      if ltb 0 (length m.ssid)
      then some (
        response,
        config_reply answer ∷ [],
        record w { rest = record { credentials = w.rest.credentials; network = n } },
      )
      else some (
        response,
        [],
        record w {
          rest = record {
            credentials = w.rest.credentials;
            network = driver.disconnect w.rest.network;
          };
        },
      )

  -- `processConfigAp`, by the mode of the message.
  unfoldable pub process_by_mode : Mode → WifiConfigAp → System S (Wireless N) → Handled
  process_by_mode mode_undefined m w =
      if is_used m.ssid
      then if is_used m.password
        then process_config_ap_connect m w
        else process_config_ap_set_ssid m w
      else if is_used m.password
      then process_config_ap_set_password m w
      else process_config_ap_disconnect m w
  process_by_mode mode_ap m w = process_config_ap_set_ap m w
  process_by_mode mode_station m w = process_config_ap_set_sta m w
  process_by_mode (mode_other n) m w = some (response, [], w)

  abbrev process_config_ap : WifiConfigAp → System S (Wireless N) → Handled
  process_config_ap m w = process_by_mode m.mode m w

  -- What the status reply says, for the strings that have been read.
  unfoldable pub status_message : (List ℕ × Bool) → (List ℕ × Bool) → Option WifiConfigAp
  status_message ssid secret =
      let zero_message : WifiConfigAp = record {
        ssid = replicate ssid_size 0;
        password = replicate password_size 0;
        mode = mode_undefined;
        response = response_undefined;
      } in
      if secret.1 && ssid.1
      then copy_text ssid.0 zero_message.ssid >>= (λ s.
        copy_text secret.0 zero_message.password >>= (λ p.
          let filled = record zero_message { ssid = s; password = p } in
          some (if ltb 0 (length secret.0) then password_into_md5 dialect.md5 filled else filled)))
      else some zero_message

  unfoldable pub request_status : Module → M → CommandLong F → System S (Wireless N) → Handled
  request_status owner message command w =
      module_field_read_iter mods owner string_identifier capture ([], false) w
      >>= (λ (s : (List ℕ × Bool) × System S (Wireless N)).
          module_field_read_iter mods owner password capture ([], false) s.1
          >>= (λ (p : (List ℕ × Bool) × System S (Wireless N)).
              status_message s.0 p.0 >>= (λ answer. some (
                response,
                ack_reply (make_command_ack dialect message command.command dialect.result_accepted)
                    ∷ config_reply answer
                    ∷ [],
                p.1,
              ))))

  abbrev process_cmd_request_message_sta_status :
      M → CommandLong F → System S (Wireless N) → Handled
  process_cmd_request_message_sta_status message command w =
      request_status wifi_sta_connection message command w

  abbrev process_cmd_request_message_ap_status : M → CommandLong F → System S (Wireless N) → Handled
  process_cmd_request_message_ap_status message command w = request_status wifi_ap message command w

  unfoldable pub process_cmd_request_message : M → CommandLong F → System S (Wireless N) → Handled
  process_cmd_request_message message command w =
      let wifi_type = dialect.to_int command.param2 in
      if dialect.to_int command.param1 == dialect.config_id
      then if wifi_type == 0
        then process_cmd_request_message_ap_status message command w
        else if wifi_type == 1
        then process_cmd_request_message_sta_status message command w
        else some (response, [], w)
      else some (ignored, [], w)

  unfoldable pub process_command : M → CommandLong F → System S (Wireless N) → Handled
  process_command message command w =
      if (command.target_system == dialect.own_sysid)
        && (command.target_component == dialect.own_compid)
        && (command.command == dialect.cmd_request_message)
      then process_cmd_request_message message command w
      else some (ignored, [], w)

  unfoldable pub process : M → System S (Wireless N) → Handled
  process message w =
      if dialect.msg_id message == dialect.config_id
      then process_config_ap (dialect.decode_config message) w
      else if (dialect.msg_id message == dialect.command_int_id)
          || (dialect.msg_id message == dialect.command_long_id)
      then process_command message (make_command_long dialect message) w
      else some (ignored, [], w)

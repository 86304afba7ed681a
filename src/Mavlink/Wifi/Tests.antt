-- ===== src/Mavlink/Wifi/Tests.antt =====
-- The Wi-Fi microservice at concrete inputs: a message is its id, and a digest has 16 zeros.
use esp32cam.Base.{
  ℕ, suc, ◌≡◌, refl, arith, List, [], ◌∷◌, ◌++◌, true, false, Option, none, some, replicate,
  if◌then◌else◌, overwrite,
}
use esp32cam.Module.{
  ok, none_value, string_value, wifi_ap, wifi_sta_connection, string_identifier, password, Variant,
}
use esp32cam.Module.Description.{parameter_descriptions}
use esp32cam.Module.Parameter.{MemoryProvider, Parameter, World}
use esp32cam.Module.ModuleBase.{System, ModuleApi, field_try_mirror_parameter}
use esp32cam.Wifi.{Driver, Wireless}
use esp32cam.Wifi.Sta.{station}
use esp32cam.Wifi.Ap.{access_point}
use esp32cam.Mavlink.FtpClient.Handlers.{response}
use esp32cam.Mavlink.Wifi.{
  WifiConfigAp, CommandLong, CommandInt, Dialect, config_reply, ack_reply, mode_station,
  response_undefined, make_command_ack, ssid_fill_zero, password_fill_zero, password_into_md5,
}
use esp32cam.Mavlink.Wifi.Handlers.{
  process_config_ap_set_ssid, process_config_ap_set_password, request_status,
}
use esp32cam.Mavlink.Wifi.Status.{report, request_status_lem}
use esp32cam.Mavlink.Wifi.Unchecked.{stored, access_point_lem}

abbrev array : List ℕ → ℕ → List ℕ
array text n = text ++ replicate n 0

abbrev driver : Driver ℕ
driver = record {
  connected = λ n. true;
  sta_config = λ n. some (array (110 ∷ []) 31, array (49 ∷ 50 ∷ []) 62);
  ap_config = λ n. some (array (97 ∷ []) 31, replicate 64 0);
  netif_ip = λ n. none;
  sta_connect = λ ssid password address n. (true, suc n);
  disconnect = λ n. n;
  mac = λ n. [];
  address_text = λ n. [];
  parse_address = λ t. none;
}

abbrev provider : MemoryProvider ℕ
provider = record { load = λ d v s. (ok, v, s); save = λ d v s. some (ok, suc s) }

-- A name that is empty, and a password of two characters.
abbrev config : WifiConfigAp
config = record {
  ssid = replicate 32 0;
  password = array (49 ∷ 50 ∷ []) 62;
  mode = mode_station;
  response = response_undefined;
}

abbrev command : CommandLong ℕ
command = record {
  target_system = 1;
  target_component = 1;
  command = 512;
  param1 = 0;
  param2 = 0;
  param3 = 0;
  param4 = 0;
  param5 = 0;
  param6 = 0;
  param7 = 0;
}

abbrev command_int : CommandInt ℕ
command_int = record {
  target_system = 1;
  target_component = 1;
  command = 512;
  param1 = 0;
  param2 = 0;
  param3 = 0;
  param4 = 0;
  x = 0;
  y = 0;
  z = 0;
}

abbrev dialect : Dialect ℕ ℕ
dialect = record {
  msg_id = λ m. m;
  sysid = λ m. 255;
  compid = λ m. 190;
  decode_config = λ m. config;
  decode_long = λ m. command;
  decode_int = λ m. command_int;
  from_int = λ n. n;
  to_int = λ n. n;
  config_id = 299;
  command_int_id = 75;
  command_long_id = 76;
  cmd_request_message = 512;
  result_accepted = 0;
  own_sysid = 1;
  own_compid = 1;
  md5 = λ t. replicate 16 0;
}

abbrev world : List (Option Parameter) → ℕ → ℕ → System ℕ (Wireless ℕ)
world instances saved n = record {
  parameters = record { instances = instances; sd_made = true; storage = saved };
  rest = record {
    credentials = record {
      ssid = [];
      password = [];
      autoconnect = false;
      ip = 0;
      gateway = 0;
      netmask = 0;
    };
    network = n;
  };
}

abbrev none_made : List (Option Parameter)
none_made = replicate 8 none

abbrev both : List (ModuleApi (System ℕ (Wireless ℕ)))
both = station parameter_descriptions provider driver ∷ access_point driver ∷ []

request_status_example :
    let accepted = ack_reply (make_command_ack dialect 76 512 0) in
    (request_status dialect parameter_descriptions provider driver both wifi_sta_connection 76
        command
        (world none_made 0 0)
      ≡ some (
        response,
        accepted
            ∷ config_reply
                (report dialect.md5 (some (array (110 ∷ []) 31, array (49 ∷ 50 ∷ []) 62)))
            ∷ [],
        world none_made 0 0,
      ))
    × (request_status dialect parameter_descriptions provider driver both wifi_ap 76 command
          (world none_made 0 0)
        ≡ some (
          response,
          accepted
              ∷ config_reply (report dialect.md5 (some (array (97 ∷ []) 31, replicate 64 0)))
              ∷ [],
          world none_made 0 0,
        ))
request_status_example =
    request_status_lem dialect parameter_descriptions provider driver 76 command
      (world none_made 0 0) (omega arith, omega arith) (omega arith, omega arith) (λ t. refl)

abbrev made_0 : List (Option Parameter)
made_0 = some (record { id = 0; variant = string_value config.ssid }) ∷ replicate 7 none

abbrev made_1 : List (Option Parameter)
made_1 = none ∷ some (record { id = 1; variant = string_value config.password }) ∷ replicate 6 none

mirrored_password :
    field_try_mirror_parameter parameter_descriptions provider wifi_ap password
      (string_value config.password)
      (world none_made 0 0).parameters
    ≡ some (ok, (world made_1 1 0).parameters)
unfolding field_try_mirror_parameter esp32cam.Module.Description.description_by_mf
    esp32cam.Module.Description.pardesc_to_id esp32cam.Module.Description.find_description
    esp32cam.Module.Parameter.instance_by_mf esp32cam.Module.Parameter.instance_by_id
    esp32cam.Module.Parameter.ensure_at esp32cam.Module.Parameter.set_value
    esp32cam.Module.Parameter.at esp32cam.Module.Parameter.commit esp32cam.Module.Parameter.put
    esp32cam.Module.Parameter.memory_provider_by_id
mirrored_password = refl

mirrored_ssid :
    field_try_mirror_parameter parameter_descriptions provider wifi_ap string_identifier
      (string_value config.ssid)
      (world none_made 0 0).parameters
    ≡ some (ok, (world made_0 1 0).parameters)
unfolding field_try_mirror_parameter esp32cam.Module.Description.description_by_mf
    esp32cam.Module.Description.pardesc_to_id esp32cam.Module.Description.find_description
    esp32cam.Module.Parameter.instance_by_mf esp32cam.Module.Parameter.instance_by_id
    esp32cam.Module.Parameter.ensure_at esp32cam.Module.Parameter.set_value
    esp32cam.Module.Parameter.at esp32cam.Module.Parameter.commit esp32cam.Module.Parameter.put
    esp32cam.Module.Parameter.memory_provider_by_id
mirrored_ssid = refl

access_point_example :
    let no_password = password_fill_zero config in
    let no_ssid = ssid_fill_zero config in
    (process_config_ap_set_password dialect parameter_descriptions provider driver both config
        (world none_made 0 0)
      ≡ some (
        response,
        config_reply (
              if stored dialect parameter_descriptions provider driver ok
              then password_into_md5 dialect.md5 config
              else record no_password { ssid = overwrite config.ssid 0 (0 ∷ 4 ∷ []) })
            ∷ [],
        world made_1 1 0,
      ))
    × (process_config_ap_set_ssid dialect parameter_descriptions provider driver both config
          (world none_made 0 0)
        ≡ some (
          response,
          config_reply (
                if stored dialect parameter_descriptions provider driver ok
                then config
                else record no_ssid { ssid = overwrite no_ssid.ssid 0 (0 ∷ 3 ∷ []) })
              ∷ [],
          world made_0 1 0,
        ))
access_point_example =
    access_point_lem dialect parameter_descriptions provider driver config (world none_made 0 0) ok
      ok (world made_1 1 0).parameters (world made_0 1 0).parameters refl refl mirrored_password
      mirrored_ssid

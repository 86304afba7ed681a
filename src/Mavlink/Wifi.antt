-- ===== src/Mavlink/Wifi.antt =====
-- components/mav/priv_include/Microservice/Wifi.cpp and its helpers WifiConfigAp.cpp,
-- MavlinkCommandLong.cpp and MavlinkCommandAck.cpp: names and passwords of networks, by MAVLink.
use esp32cam.Base.{
  ℕ, zero, suc, ◌+◌, ◌*◌, ◌/◌, ◌%◌, List, [], ◌∷◌, ◌++◌, Bool, true, false, ◌&&◌, not, Option, none,
  some, ◌==◌, if◌then◌else◌, length, ltb, leb, get_or, replicate, overwrite,
}
use esp32cam.Module.Sd.{c_str}
pub mod Handlers
pub mod Digest
pub mod Outcome
pub mod Status
pub mod Unchecked
mod Tests

-- The values of WIFI_CONFIG_AP_MODE and WIFI_CONFIG_AP_RESPONSE that have a role here; the
-- constructor with a number is every other value.
pub data Mode : Type 0 where
  mode_undefined mode_ap mode_station : Mode
  mode_other : ℕ → Mode

pub data Response : Type 0 where
  response_undefined response_accepted response_rejected : Response
  response_other : ℕ → Response

-- `mavlink_wifi_config_ap_t`: 32 characters of name and 64 of password, which are unsigned here.
pub record WifiConfigAp : Type 0 where
  pub ssid : List ℕ
  pub password : List ℕ
  pub mode : Mode
  pub response : Response

abbrev pub ssid_size : ℕ
ssid_size = 32

abbrev pub password_size : ℕ
password_size = 64

abbrev pub ssid_fill_zero : WifiConfigAp → WifiConfigAp
ssid_fill_zero m = record m { ssid = replicate ssid_size 0 }

abbrev pub password_fill_zero : WifiConfigAp → WifiConfigAp
password_fill_zero m = record m { password = replicate password_size 0 }

-- "%02x", with the null that `snprintf` puts behind it.
abbrev pub hex_digit : ℕ → ℕ
hex_digit n = if ltb n 10 then 48 + n else 87 + n

abbrev pub hex_byte : ℕ → List ℕ
hex_byte b = hex_digit (b / 16) ∷ hex_digit (b % 16) ∷ []

unfoldable pub write_hex : ℕ → List ℕ → List ℕ → List ℕ
write_hex i [] buffer = buffer
write_hex i (b ∷ digest) buffer =
    write_hex (suc i) digest (overwrite buffer (2 * i) (hex_byte b ++ (0 ∷ [])))

-- `passwordIntoMd5Stringify`, over the digest of the library.
unfoldable pub password_into_md5 : (List ℕ → List ℕ) → WifiConfigAp → WifiConfigAp
password_into_md5 md5 m = record m {
  password = write_hex 0 (md5 (c_str m.password)) (replicate password_size 0);
}

-- `mavlink_command_long_t` and `mavlink_command_int_t` over the floating-point numbers `F`; an
-- integer is its bit pattern.
pub record CommandLong (F : Type 0) : Type 0 where
  pub target_system : ℕ
  pub target_component : ℕ
  pub command : ℕ
  pub param1 : F
  pub param2 : F
  pub param3 : F
  pub param4 : F
  pub param5 : F
  pub param6 : F
  pub param7 : F

pub record CommandInt (F : Type 0) : Type 0 where
  pub target_system : ℕ
  pub target_component : ℕ
  pub command : ℕ
  pub param1 : F
  pub param2 : F
  pub param3 : F
  pub param4 : F
  pub x : ℕ
  pub y : ℕ
  pub z : F

-- `mavlink_command_ack_t`, as far as it is set.
pub record CommandAck : Type 0 where
  pub target_system : ℕ
  pub target_component : ℕ
  pub command : ℕ
  pub result : ℕ

-- What is handed to the response callback.
pub data Reply : Type 0 where
  config_reply : WifiConfigAp → Reply
  ack_reply : CommandAck → Reply

-- The MAVLink library over its messages `M`, the casts between the numbers, the ids of the system,
-- and MD5 of mbedtls.
pub record Dialect (M F : Type 0) : Type 0 where
  pub msg_id : M → ℕ
  pub sysid : M → ℕ
  pub compid : M → ℕ
  pub decode_config : M → WifiConfigAp
  pub decode_long : M → CommandLong F
  pub decode_int : M → CommandInt F
  pub from_int : ℕ → F
  pub to_int : F → ℕ
  pub config_id : ℕ
  pub command_int_id : ℕ
  pub command_long_id : ℕ
  pub cmd_request_message : ℕ
  pub result_accepted : ℕ
  pub own_sysid : ℕ
  pub own_compid : ℕ
  pub md5 : List ℕ → List ℕ

module _ {M F : Type 0} (dialect : Dialect M F) where
  -- `MavlinkCommandLong::makeFrom` for a message of one of the two ids.
  abbrev long_of_int : CommandInt F → CommandLong F
  long_of_int c = record {
    target_system = c.target_system;
    target_component = c.target_component;
    command = c.command;
    param1 = c.param1;
    param2 = c.param2;
    param3 = c.param3;
    param4 = c.param4;
    param5 = dialect.from_int c.x;
    param6 = dialect.from_int c.y;
    param7 = c.z;
  }

  unfoldable pub make_command_long : M → CommandLong F
  make_command_long m =
      if dialect.msg_id m == dialect.command_long_id
      then dialect.decode_long m
      else long_of_int (dialect.decode_int m)

  -- `MavlinkCommandAck::makeFrom`.
  unfoldable pub make_command_ack : M → ℕ → ℕ → CommandAck
  make_command_ack m command result = record {
    target_system = dialect.sysid m;
    target_component = dialect.compid m;
    command = command;
    result = result;
  }

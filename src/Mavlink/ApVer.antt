-- ===== src/Mavlink/ApVer.antt =====
-- components/mav/priv_include/Microservice/ApVer.cpp: the version of the autopilot, asked for at its
-- heartbeats and kept when it comes.
use esp32cam.Base.{
  ℕ, zero, suc, ◌+◌, ◌*◌, ◌/◌, ◌%◌, ◌≡◌, ◌<◌, refl, arith, List, [], ◌∷◌, ◌++◌, Bool, true, false,
  not, ◌&&◌, Option, none, some, ◌==◌, if◌then◌else◌, get_or, Bool-cases, inl, inr, u8,
}
use esp32cam.Module.{
  Field, version_commit_hash, version_software_major, version_software_minor,
  version_software_patch, Variant, unsigned_value,
}
use esp32cam.Mavlink.FtpClient.Handlers.{Ret, ignored, response}
pub mod Asked
mod Tests

-- `version`.
pub record Version : Type 0 where
  pub sw_commit : ℕ
  pub sw_rev : ℕ
  pub sw_major : ℕ
  pub sw_minor : ℕ

-- The state: `version`, and `updated.version`.
pub record ApVer : Type 0 where
  pub version : Version
  pub updated : Bool

abbrev pub init : ApVer
init = record {
  version = record { sw_commit = 0; sw_rev = 0; sw_major = 0; sw_minor = 0 };
  updated = false;
}

-- `mavlink_autopilot_version_t`, as far as it is read.
pub record AutopilotVersion : Type 0 where
  pub flight_custom_version : List ℕ
  pub flight_sw_version : ℕ

-- The command that asks the sender of a message for its version: its target, and the id of the
-- message that is asked for. The other parameters are not given.
pub record VersionRequest : Type 0 where
  pub target_system : ℕ
  pub target_component : ℕ
  pub requested : ℕ

pub record Dialect (M : Type 0) : Type 0 where
  pub msg_id : M → ℕ
  pub sysid : M → ℕ
  pub compid : M → ℕ
  pub decode_version : M → AutopilotVersion
  pub heartbeat_id : ℕ
  pub autopilot_version_id : ℕ
  pub autopilot_compid : ℕ

-- The four bytes from `i` on as a `std::uint32_t` of the target, which is little-endian.
abbrev pub word_at : List ℕ → ℕ → ℕ
word_at bytes i =
    get_or bytes i 0
    + 0x100 * get_or bytes (i + 1) 0
    + 0x10000 * get_or bytes (i + 2) 0
    + 0x1000000 * get_or bytes (i + 3) 0

module _ {M : Type 0} (dialect : Dialect M) where
  unfoldable pub version_of : AutopilotVersion → Version
  version_of v = record {
    sw_commit = word_at v.flight_custom_version 0;
    sw_rev = word_at v.flight_custom_version 4;
    sw_major = v.flight_sw_version / 256 % 256;
    sw_minor = v.flight_sw_version % 256;
  }

  unfoldable pub request_version : M → VersionRequest
  request_version m = record {
    target_system = dialect.sysid m;
    target_component = dialect.compid m;
    requested = dialect.autopilot_version_id;
  }

  abbrev pub is_heartbeat : M → Bool
  is_heartbeat m =
      (dialect.autopilot_compid == dialect.compid m) && (dialect.msg_id m == dialect.heartbeat_id)

  -- `process`: what it returns, what it hands to the callback, and the state.
  unfoldable pub process : M → ApVer → Ret × Option VersionRequest × ApVer
  process m s =
      if dialect.autopilot_compid == dialect.compid m
      then if dialect.msg_id m == dialect.heartbeat_id
        then if s.updated then (ignored, none, s) else (response, some (request_version m), s)
        else if dialect.msg_id m == dialect.autopilot_version_id
        then (
          ignored,
          none,
          record { version = version_of (dialect.decode_version m); updated = true },
        )
        else (ignored, none, s)
      else (ignored, none, s)

  -- The messages one after the other: the requests, and the state.
  unfoldable pub process_all : List M → ApVer → List VersionRequest × ApVer
  process_all [] s = ([], s)
  process_all (m ∷ ms) s =
      let (ret, request, t) = process m s in
      let (requests, u) = process_all ms t in
      (elim request [ none ↦ requests | some r ↦ r ∷ requests ], u)

-- `getFieldValue`: the response, if there is one.
unfoldable pub get_field_value : Field → ApVer → Option Variant
get_field_value version_commit_hash s =
    if s.updated then some (unsigned_value s.version.sw_commit) else none
get_field_value version_software_major s =
    if s.updated then some (unsigned_value s.version.sw_major) else none
get_field_value version_software_minor s =
    if s.updated then some (unsigned_value s.version.sw_minor) else none
get_field_value version_software_patch s =
    if s.updated then some (unsigned_value s.version.sw_rev) else none
get_field_value f s = none

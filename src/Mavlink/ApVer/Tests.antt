-- ===== src/Mavlink/ApVer/Tests.antt =====
-- The version of the autopilot at concrete messages: a message is its id.
use esp32cam.Base.{ℕ, ◌≡◌, List, [], ◌∷◌, Option, none, some, replicate}
use esp32cam.Module.{
  version_commit_hash, version_software_major, version_software_minor, version_software_patch,
  Variant, unsigned_value,
}
use esp32cam.Mavlink.ApVer.{init, Version, Dialect, process_all, get_field_value}
use esp32cam.Mavlink.ApVer.Asked.{asked, last_report, process_all_lem}

abbrev dialect : Dialect ℕ
dialect = record {
  msg_id = λ m. m;
  sysid = λ m. 1;
  compid = λ m. 1;
  decode_version =
      λ m. record { flight_custom_version = replicate 8 7; flight_sw_version = 0x0102 };
  heartbeat_id = 0;
  autopilot_version_id = 148;
  autopilot_compid = 1;
}

-- Two heartbeats, a report, and a heartbeat.
abbrev messages : List ℕ
messages = 0 ∷ 0 ∷ 148 ∷ 0 ∷ []

process_all_example :
    let (requests, s) = process_all dialect messages init in
    let told : (Version → ℕ) → Option Variant = λ f. elim (last_report dialect messages none) [
      | none ↦ none
      | some v ↦ some (unsigned_value (f v))
    ] in
    (requests ≡ asked dialect messages)
    × (get_field_value version_commit_hash s ≡ told (λ v. v.sw_commit))
    × (get_field_value version_software_major s ≡ told (λ v. v.sw_major))
    × (get_field_value version_software_minor s ≡ told (λ v. v.sw_minor))
    × (get_field_value version_software_patch s ≡ told (λ v. v.sw_rev))
process_all_example = process_all_lem dialect messages

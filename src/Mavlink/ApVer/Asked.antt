-- ===== src/Mavlink/ApVer/Asked.antt =====
-- When the version of the autopilot is asked for, and which version is told.
use esp32cam.Base.{
  ℕ, ◌≡◌, refl, arith, List, [], ◌∷◌, Bool, true, not, ◌&&◌, Option, none, some, ◌==◌,
  if◌then◌else◌, Bool-cases, Option-cases, inl, inr,
}
use esp32cam.Module.{
  version_commit_hash, version_software_major, version_software_minor, version_software_patch,
  Variant, unsigned_value,
}
use esp32cam.Mavlink.ApVer.{
  Version, ApVer, init, VersionRequest, Dialect, version_of, request_version, is_heartbeat, process,
  process_all, get_field_value,
}

module _ {M : Type 0} (dialect : Dialect M) where
  -- A message of the autopilot with its version.
  abbrev pub is_report : M → Bool
  is_report m =
      (dialect.autopilot_compid == dialect.compid m)
      && not (dialect.msg_id m == dialect.heartbeat_id)
      && (dialect.msg_id m == dialect.autopilot_version_id)

  -- The requests for the heartbeats before the first report.
  unfoldable pub asked : List M → List VersionRequest
  asked [] = []
  asked (m ∷ ms) =
      let rest = asked ms in
      if is_report m
      then []
      else if is_heartbeat dialect m
      then request_version dialect m ∷ rest
      else rest

  -- The version of the last report, or what there was before.
  unfoldable pub last_report : List M → Option Version → Option Version
  last_report [] v = v
  last_report (m ∷ ms) v =
      last_report ms
        (if is_report m then some (version_of dialect (dialect.decode_version m)) else v)

-- The state that keeps a version, if there is one.
unfoldable pub state_of : Option Version → ApVer
state_of none = init
state_of (some v) = record { version = v; updated = true }

module _ {M : Type 0} (dialect : Dialect M) where
  told_lem :
      (ms : List M) (v : Version)
      → process_all dialect ms (state_of (some v))
        ≡ ([], state_of (last_report dialect ms (some v)))
  unfolding process_all process last_report state_of
  told_lem [] v = refl
  told_lem (m ∷ ms) v = elim (Bool-cases (is_report dialect m)) [
    | inl report ↦
        let w = version_of dialect (dialect.decode_version m) in
        ground (arith, report, told_lem ms w)
    | inr other ↦ ground (arith, other, told_lem ms v)
  ]

  run_lem :
      (ms : List M)
      → process_all dialect ms init ≡ (asked dialect ms, state_of (last_report dialect ms none))
  unfolding process_all process asked last_report state_of
  run_lem [] = refl
  run_lem (m ∷ ms) = elim (Bool-cases (is_report dialect m)) [
    | inl report ↦
        let w = version_of dialect (dialect.decode_version m) in
        ground (arith, report, told_lem ms w)
    | inr other ↦ elim (Bool-cases (is_heartbeat dialect m)) [
      | inl beat ↦ ground (arith, other, beat, run_lem ms)
      | inr neither ↦ ground (arith, other, neither, run_lem ms)
    ]
  ]

  -- From the start, over any messages: the autopilot is asked for its version exactly at those of its
  -- heartbeats that come before its first report of a version; and the four fields are answered exactly
  -- if there was a report, from the last one.
  pub process_all_lem :
      (ms : List M)
      → let (requests, s) = process_all dialect ms init in
        let told : (Version → ℕ) → Option Variant = λ f. elim (last_report dialect ms none) [
          | none ↦ none
          | some v ↦ some (unsigned_value (f v))
        ] in
        (requests ≡ asked dialect ms)
        × (get_field_value version_commit_hash s ≡ told (λ v. v.sw_commit))
        × (get_field_value version_software_major s ≡ told (λ v. v.sw_major))
        × (get_field_value version_software_minor s ≡ told (λ v. v.sw_minor))
        × (get_field_value version_software_patch s ≡ told (λ v. v.sw_rev))
  unfolding state_of get_field_value
  process_all_lem ms =
      let run = run_lem ms in
      elim (Option-cases (last_report dialect ms none)) [
        | inl nothing ↦ (
          ground (arith, run),
          ground (arith, run, nothing),
          ground (arith, run, nothing),
          ground (arith, run, nothing),
          ground (arith, run, nothing),
        )
        | inr (v, last) ↦ (
          ground (arith, run),
          ground (arith, run, last),
          ground (arith, run, last),
          ground (arith, run, last),
          ground (arith, run, last),
        )
      ]

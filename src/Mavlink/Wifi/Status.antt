-- ===== src/Mavlink/Wifi/Status.antt =====
-- What Microservice/Wifi.cpp tells of a network, and what it makes of names and passwords.
use esp32cam.Base.{
  ℕ, zero, suc, ◌-◌, ◌≡◌, ◌≤◌, ◌∙◌, ap, refl, arith, List, [], ◌∷◌, ◌++◌, Bool, true, false, Option,
  none, some, if◌then◌else◌, Bool-cases, Option-cases, inl, inr, length, length-replicate, ltb,
  replicate, overwrite, get_or, ◌==◌,
}
use esp32cam.Module.{Module, wifi_ap, wifi_sta_connection, string_identifier, password}
use esp32cam.Module.Description.{ParameterDescription}
use esp32cam.Module.Sd.{c_str}
use esp32cam.Module.Parameter.{MemoryProvider}
use esp32cam.Module.ModuleBase.{System, ModuleApi, module_field_read_iter}
use esp32cam.Wifi.{Driver, Wireless, array_text}
use esp32cam.Wifi.Sta.{station}
use esp32cam.Wifi.Ap.{access_point}
use esp32cam.Mavlink.FtpClient.Handlers.{response}
use esp32cam.Mavlink.Wifi.{
  WifiConfigAp, CommandLong, Dialect, mode_undefined, response_undefined, config_reply, ack_reply,
  make_command_ack, password_into_md5,
}
use esp32cam.Mavlink.Wifi.Digest.{hex_text, password_into_md5_lem}
use esp32cam.Mavlink.Wifi.Handlers.{copy_text, capture, status_message, request_status}

-- A text copied to the start of zeros is followed by zeros.
overwrite-zeros :
    (n : ℕ) (t : List ℕ)
    → length t ≤ n
    → overwrite (replicate n 0) 0 t ≡ t ++ replicate (n - length t) 0
overwrite-zeros zero [] h = refl
overwrite-zeros zero (c ∷ t) h = absurd (omega arith)
overwrite-zeros (suc n) [] h =
    let e : suc n ≡ suc n - 0 = omega arith in ap (λ (k : ℕ). replicate k 0) e
overwrite-zeros (suc n) (c ∷ t) h =
    let e : n - length t ≡ suc n - suc (length t) = omega arith in
    ap (◌∷◌ c) (overwrite-zeros n t (omega arith) ∙ ap (λ (k : ℕ). t ++ replicate k 0) e)

c_str-zeros : (n : ℕ) → c_str (replicate n 0) ≡ []
unfolding c_str
c_str-zeros zero = refl
c_str-zeros (suc n) = refl

c_str-append-zeros : (t : List ℕ) (n : ℕ) → c_str (t ++ replicate n 0) ≡ c_str t
unfolding c_str
c_str-append-zeros [] n = c_str-zeros n
c_str-append-zeros (zero ∷ t) n = refl
c_str-append-zeros (suc c ∷ t) n = ap (◌∷◌ (suc c)) (c_str-append-zeros t n)

length-c_str : (a : List ℕ) → length (c_str a) ≤ length a
unfolding c_str
length-c_str [] = omega arith
length-c_str (zero ∷ a) = omega arith
length-c_str (suc c ∷ a) = omega (arith, length-c_str a)

length-array_text : (a : List ℕ) → length (array_text a) ≤ length a
unfolding array_text
length-array_text a = elim (Bool-cases (get_or a (length a - 1) 0 == 0)) [
  | inl t ↦ ground (arith, t, length-c_str a)
  | inr f ↦ ground (arith, f)
]

empty-length : (t : List ℕ) → ltb 0 (length t) ≡ false → t ≡ []
empty-length [] h = refl
empty-length (c ∷ t) h = absurd (ground arith)

-- The field that a password becomes.
unfoldable pub password_field : (List ℕ → List ℕ) → List ℕ → List ℕ
password_field md5 text =
    if ltb 0 (length text) then hex_text (md5 (c_str text)) ++ replicate 32 0 else replicate 64 0

copy_zeros :
    (n : ℕ) (t : List ℕ)
    → length t ≤ n
    → copy_text t (replicate n 0) ≡ some (t ++ replicate (n - length t) 0)
unfolding copy_text
copy_zeros n t fits = ground (arith, overwrite-zeros n t fits, length-replicate {A = ℕ} n 0)

-- A copied password that is not empty, made into its digest.
digest_of_copy :
    (md5 : List ℕ → List ℕ) (s secret : List ℕ) (n : ℕ)
    → length (md5 (c_str secret)) ≡ 16
    → password_into_md5 md5 (record {
      ssid = s;
      password = secret ++ replicate n 0;
      mode = mode_undefined;
      response = response_undefined;
    })
      ≡ record {
        ssid = s;
        password = hex_text (md5 (c_str secret)) ++ replicate 32 0;
        mode = mode_undefined;
        response = response_undefined;
      }
digest_of_copy md5 s secret n size =
    let m : WifiConfigAp = record {
      ssid = s;
      password = secret ++ replicate n 0;
      mode = mode_undefined;
      response = response_undefined;
    } in
    let same = c_str-append-zeros secret n in
    password_into_md5_lem md5 m (ap (λ (t : List ℕ). length (md5 t)) same ∙ size)
    ∙ ap (λ (t : List ℕ). record m { password = hex_text (md5 t) ++ replicate 32 0 }) same

module _ {M F S N : Type 0} (dialect : Dialect M F) (ds : List ParameterDescription)
    (provider : MemoryProvider S) (driver : Driver N)
    (mods : List (ModuleApi (System S (Wireless N)))) where
  pub status_message_lem :
      (ssid secret : List ℕ)
      → length ssid ≤ 32
      → length secret ≤ 64
      → length (dialect.md5 (c_str secret)) ≡ 16
      → status_message dialect ds provider driver mods (ssid, true) (secret, true)
        ≡ some (record {
          ssid = ssid ++ replicate (32 - length ssid) 0;
          password = password_field dialect.md5 secret;
          mode = mode_undefined;
          response = response_undefined;
        })
  unfolding status_message copy_text password_field
  status_message_lem ssid secret short shorter digest = elim (Bool-cases (ltb 0 (length secret))) [
    | inl some_text ↦
        let s = ssid ++ replicate (32 - length ssid) 0 in
        ground (
          arith,
          copy_zeros 32 ssid short,
          copy_zeros 64 secret shorter,
          some_text,
          digest_of_copy dialect.md5 s secret (64 - length secret) digest,
        )
    | inr no_text ↦
        let gone : secret ≡ [] = empty-length secret no_text in
        ground (arith, copy_zeros 32 ssid short, copy_zeros 64 [] (omega arith), no_text, gone)
  ]

-- The status message for the arrays of a configuration.
unfoldable pub reported : (List ℕ → List ℕ) → List ℕ → List ℕ → WifiConfigAp
reported md5 name secret = record {
  ssid = array_text name ++ replicate (32 - length (array_text name)) 0;
  password = password_field md5 (array_text secret);
  mode = mode_undefined;
  response = response_undefined;
}

-- The report of a configuration, if there is one to show, or of zeros.
unfoldable pub report : (List ℕ → List ℕ) → Option (List ℕ × List ℕ) → WifiConfigAp
report md5 none = record {
  ssid = replicate 32 0;
  password = replicate 64 0;
  mode = mode_undefined;
  response = response_undefined;
}
report md5 (some q) = reported md5 q.0 q.1

-- The arrays of a configuration.
abbrev pub Fits : Option (List ℕ × List ℕ) → Type 0
Fits none = Unit {0}
Fits (some q) = (length q.0 ≤ 32) × (length q.1 ≤ 64)

module _ {M F S N : Type 0} (dialect : Dialect M F) (ds : List ParameterDescription)
    (provider : MemoryProvider S) (driver : Driver N) where
  abbrev both : List (ModuleApi (System S (Wireless N)))
  both = station ds provider driver ∷ access_point driver ∷ []

  -- Both strings are read, or none.
  Reads : Module → Option (List ℕ × List ℕ) → System S (Wireless N) → Type 0
  Reads owner shown w =
      (module_field_read_iter both owner string_identifier capture ([], false) w
        ≡ some (elim shown [ none ↦ ([], false) | some q ↦ (array_text q.0, true) ], w))
      × (module_field_read_iter both owner password capture ([], false) w
          ≡ some (elim shown [ none ↦ ([], false) | some q ↦ (array_text q.1, true) ], w))

  station-Reads :
      (w : System S (Wireless N))
      → Reads wifi_sta_connection
          (if driver.connected w.rest.network then driver.sta_config w.rest.network else none)
          w
  unfolding Reads module_field_read_iter esp32cam.Wifi.Sta.get_field_value
  station-Reads w = elim (Option-cases (driver.sta_config w.rest.network)) [
    | inl missing ↦ elim (Bool-cases (driver.connected w.rest.network)) [
      | inl up ↦ (ground (arith, missing, up), ground (arith, missing, up))
      | inr down ↦ (ground (arith, missing, down), ground (arith, missing, down))
    ]
    | inr (q, config) ↦ elim (Bool-cases (driver.connected w.rest.network)) [
      | inl up ↦ (ground (arith, config, up), ground (arith, config, up))
      | inr down ↦ (ground (arith, config, down), ground (arith, config, down))
    ]
  ]

  point-Reads : (w : System S (Wireless N)) → Reads wifi_ap (driver.ap_config w.rest.network) w
  unfolding Reads module_field_read_iter esp32cam.Wifi.Ap.get_field_value
  point-Reads w = elim (Option-cases (driver.ap_config w.rest.network)) [
    | inl missing ↦ (ground (arith, missing), ground (arith, missing))
    | inr (q, config) ↦ (ground (arith, config), ground (arith, config))
  ]

  reported_lem :
      (name secret : List ℕ)
      → length name ≤ 32
      → length secret ≤ 64
      → ((t : List ℕ) → length (dialect.md5 t) ≡ 16)
      → status_message dialect ds provider driver both
          (array_text name, true)
          (array_text secret, true)
        ≡ some (reported dialect.md5 name secret)
  unfolding reported
  reported_lem name secret short shorter digest =
      status_message_lem dialect ds provider driver both (array_text name) (array_text secret)
        (omega (arith, length-array_text name)) (omega (arith, length-array_text secret))
        (digest (c_str (array_text secret)))

  shown_lem :
      (shown : Option (List ℕ × List ℕ))
      → Fits shown
      → ((t : List ℕ) → length (dialect.md5 t) ≡ 16)
      → status_message dialect ds provider driver both
          (elim shown [ none ↦ ([], false) | some q ↦ (array_text q.0, true) ])
          (elim shown [ none ↦ ([], false) | some q ↦ (array_text q.1, true) ])
        ≡ some (report dialect.md5 shown)
  unfolding status_message report
  shown_lem none fits digest = refl
  shown_lem (some q) fits digest = reported_lem q.0 q.1 fits.0 fits.1 digest

  answered :
      (message : M) (command : CommandLong F) (owner : Module) (shown : Option (List ℕ × List ℕ))
      (w : System S (Wireless N))
      → Reads owner shown w
      → Fits shown
      → ((t : List ℕ) → length (dialect.md5 t) ≡ 16)
      → request_status dialect ds provider driver both owner message command w
        ≡ some (
          response,
          ack_reply (make_command_ack dialect message command.command dialect.result_accepted)
              ∷ config_reply (report dialect.md5 shown)
              ∷ [],
          w,
        )
  unfolding request_status Reads
  answered message command owner shown w (names, secrets) fits digest =
      ground (arith, names, secrets, shown_lem shown fits digest)

  connected-Fits :
      (up : Bool) (o : Option (List ℕ × List ℕ)) → Fits o → Fits (if up then o else none)
  connected-Fits true o h = h
  connected-Fits false o h = tt

  -- Asked for the status of the station or of the access point, with both modules registered, the
  -- microservice accepts the command and then reports the name, with zeros behind it, and for the
  -- password the 32 digits of its MD5 digest, or zeros if it is empty, never the password; and it
  -- changes nothing. The report has only zeros for a station that is not connected, and where the
  -- driver gives no configuration; the access point is reported whether the station is connected or
  -- not. The arrays of a configuration hold at most 32 and 64 characters, and a digest has 16 bytes.
  pub request_status_lem :
      (message : M) (command : CommandLong F) (w : System S (Wireless N))
      → Fits (driver.sta_config w.rest.network)
      → Fits (driver.ap_config w.rest.network)
      → ((t : List ℕ) → length (dialect.md5 t) ≡ 16)
      → let accepted =
          ack_reply (make_command_ack dialect message command.command dialect.result_accepted) in
        let station_config =
          if driver.connected w.rest.network then driver.sta_config w.rest.network else none in
        (request_status dialect ds provider driver both wifi_sta_connection message command w
          ≡ some (response, accepted ∷ config_reply (report dialect.md5 station_config) ∷ [], w))
        × (request_status dialect ds provider driver both wifi_ap message command w
            ≡ some (
              response,
              accepted ∷ config_reply (report dialect.md5 (driver.ap_config w.rest.network)) ∷ [],
              w,
            ))
  request_status_lem message command w station_fits point_fits digest = (
    answered message command wifi_sta_connection
        (if driver.connected w.rest.network then driver.sta_config w.rest.network else none) w
        (station-Reads w)
        (connected-Fits (driver.connected w.rest.network) (driver.sta_config w.rest.network)
          station_fits)
        digest,
    answered message command wifi_ap (driver.ap_config w.rest.network) w (point-Reads w) point_fits
        digest,
  )

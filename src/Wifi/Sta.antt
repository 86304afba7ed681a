-- ===== src/Wifi/Sta.antt =====
-- components/wifi/wifi/Sta.cpp: the module of the Wi-Fi station.
use esp32cam.Base.{
  ℕ, List, [], Bool, true, false, ◌&&◌, ◌||◌, not, Option, none, some, ◌>>=◌, ◌==◌, if◌then◌else◌,
  length,
}
use esp32cam.Module.{
  wifi_sta_connection, Field, initialized, ip, gateway, netmask, string_identifier, password,
  Variant, string_value, int32_value, uint32_value, get_string, get_int32, get_uint32, Result,
  config_does_not_exist, is_ok, write_resp, request_ok, failure, wrong_password_format,
  wrong_ssid_format, unable_to_connect,
}
use esp32cam.Module.Description.{ParameterDescription}
use esp32cam.Module.Sd.{c_str}
use esp32cam.Module.Parameter.{
  MemoryProvider, World, instance_by_mf, fetch, as_str, as_i32, fetch_string_by_mf,
  commit_string_by_mf,
}
use esp32cam.Module.ModuleBase.{System, OnResponse, OnWriteResponse, ModuleApi}
use esp32cam.Wifi.{
  Driver, Credential, Wireless, array_text, u32_as_bytes, ssid_fits, password_fits, is_valid,
  use_dhcp,
}

unfoldable pub try_set_password : List ℕ → Credential → Bool × Credential
try_set_password text c =
    let ret = (length text == 0) || password_fits text in
    (ret, if ret then record c { password = text } else c)

unfoldable pub try_set_ssid : List ℕ → Credential → Bool × Credential
try_set_ssid text c = let ret = ssid_fits text in (ret, if ret then record c { ssid = text } else c)

module _ {S N : Type 0} (ds : List ParameterDescription) (provider : MemoryProvider S)
    (driver : Driver N) where
  abbrev State : Type 0
  State = System S (Wireless N)

  abbrev with_credentials : Credential → State → State
  with_credentials c w = record w { rest = record { credentials = c; network = w.rest.network } }

  abbrev with_network : N → State → State
  with_network n w = record w { rest = record { credentials = w.rest.credentials; network = n } }

  -- One of the first three steps of `Credentials::fetch`.
  unfoldable pub fetch_into :
      {X : Type 0}
      → Field
      → (ℕ → World S → Option X)
      → (X → Credential → Credential)
      → Credential
      → World S
      → Option (Result × Credential × World S)
  fetch_into f read store c w =
      instance_by_mf ds wifi_sta_connection f w >>= (λ (r : Option ℕ × World S). elim r.0 [
        | none ↦ some (config_does_not_exist, c, r.1)
        | some i ↦ fetch ds provider i r.1 >>= (λ (q : Result × World S).
            if is_ok q.0
            then read i q.1 >>= (λ x. some (q.0, store x c, q.1))
            else some (q.0, c, q.1))
      ])

  unfoldable pub ip_string_to_network_ip4 : List ℕ → ℕ
  ip_string_to_network_ip4 text = elim (driver.parse_address text) [ none ↦ 0 | some a ↦ a ]

  -- One of its last three steps.
  unfoldable pub fetch_address :
      Field → (ℕ → Credential → Credential) → Credential → World S → Option (Credential × World S)
  fetch_address f store c w =
      fetch_string_by_mf ds provider wifi_sta_connection f [] w
      >>= (λ (r : Result × List ℕ × World S).
          some (if is_ok r.0 then store (ip_string_to_network_ip4 r.1) c else c, r.2))

  -- The steps behind one that has failed are left out.
  unfoldable pub fetch_next :
      {X : Type 0}
      → Field
      → (ℕ → World S → Option X)
      → (X → Credential → Credential)
      → Result × Credential × World S
      → Option (Result × Credential × World S)
  fetch_next f read store r = if is_ok r.0 then fetch_into f read store r.1 r.2 else some r

  unfoldable pub fetch_credentials : Credential → World S → Option (Result × Credential × World S)
  fetch_credentials c w =
      fetch_into string_identifier (as_str ds) (λ t k. record k { ssid = t }) c w
      >>= (λ (r : Result × Credential × World S).
          fetch_next password (as_str ds) (λ t k. record k { password = t }) r
          >>= (λ (q : Result × Credential × World S).
              fetch_next initialized (as_i32 ds) (λ n k. record k { autoconnect = not (n == 0) }) q
              >>= (λ (p : Result × Credential × World S).
                  fetch_address ip (λ a k. record k { ip = a }) p.1 p.2
                  >>= (λ (x : Credential × World S).
                      fetch_address gateway (λ a k. record k { gateway = a }) x.0 x.1
                      >>= (λ (y : Credential × World S).
                          fetch_address netmask (λ a k. record k { netmask = a }) y.0 y.1
                          >>= (λ (z : Credential × World S). some (p.0, z.0, z.1)))))))

  unfoldable pub reset_use_dhcp : State → Option State
  reset_use_dhcp w =
      let x = with_credentials (record w.rest.credentials { ip = 0 }) w in
      commit_string_by_mf ds provider wifi_sta_connection ip [] x.parameters
      >>= (λ (r : Result × World S). some (record x { parameters = r.1 }))

  -- The call of `wifiStaConnect`, with an address or without.
  unfoldable pub connect : Credential → N → Bool × N
  connect c n =
      driver.sta_connect (c_str c.ssid) (c_str c.password)
        (if use_dhcp c
          then none
          else some (u32_as_bytes c.ip, u32_as_bytes c.gateway, u32_as_bytes c.netmask))
        n

  -- What follows in `tryFetchConnect` when `result` is still set.
  unfoldable pub connect_if_asked : State → Bool × State
  connect_if_asked w =
      let (connected, n) = connect w.rest.credentials w.rest.network in
      if w.rest.credentials.autoconnect then (connected, with_network n w) else (true, w)

  unfoldable pub try_fetch_connect : State → Option (Bool × State)
  try_fetch_connect w =
      if is_valid w.rest.credentials
      then some (connect_if_asked w)
      else fetch_credentials w.rest.credentials w.parameters
        >>= (λ (r : Result × Credential × World S).
            let x = with_credentials r.1 (record w { parameters = r.2 }) in
            some (if is_ok r.0 && is_valid r.1 then connect_if_asked x else (false, x)))

  -- `onResponse`, and the string that is committed behind it.
  unfoldable pub respond_and_commit :
      {A : Type 0} → Field → ℕ → OnWriteResponse A State → A → State → Option (A × State)
  respond_and_commit {A} f address cb a w = cb (write_resp request_ok) a w >>= (λ (r : A × State).
      commit_string_by_mf ds provider wifi_sta_connection f (driver.address_text address)
        r.1.parameters
      >>= (λ (q : Result × World S). some (r.0, record r.1 { parameters = q.1 })))

  unfoldable pub set_field_value :
      {A : Type 0} → Field → Variant → OnWriteResponse A State → A → State → Option (A × State)
  set_field_value password v cb a w = get_string v >>= (λ t.
      let (set, c) = try_set_password t w.rest.credentials in
      cb (if set then write_resp request_ok else failure wrong_password_format) a
        (with_credentials c w))
  set_field_value string_identifier v cb a w = get_string v >>= (λ t.
      let (set, c) = try_set_ssid t w.rest.credentials in
      if set
      then reset_use_dhcp (with_credentials c w) >>= (λ x. cb (write_resp request_ok) a x)
      else cb (failure wrong_ssid_format) a w)
  set_field_value initialized v cb a w = get_int32 v >>= (λ n.
      if n == 0
      then cb (write_resp request_ok) a (
          with_network (driver.disconnect w.rest.network)
            (with_credentials (record w.rest.credentials { autoconnect = false }) w))
      else try_fetch_connect (with_credentials (record w.rest.credentials { autoconnect = true }) w)
        >>= (λ (r : Bool × State).
            cb (if r.0 then write_resp request_ok else failure unable_to_connect) a r.1))
  set_field_value ip v cb a w = get_uint32 v >>= (λ n.
      respond_and_commit ip n cb a (with_credentials (record w.rest.credentials { ip = n }) w))
  set_field_value netmask v cb a w = get_uint32 v >>= (λ n.
      respond_and_commit netmask n cb a
        (with_credentials (record w.rest.credentials { netmask = n }) w))
  set_field_value gateway v cb a w = get_uint32 v >>= (λ n.
      respond_and_commit gateway n cb a
        (with_credentials (record w.rest.credentials { gateway = n }) w))
  set_field_value f v cb a w = some (a, w)

  unfoldable pub get_field_value :
      {A : Type 0} → Field → OnResponse A → A → State → Option (A × State)
  get_field_value initialized cb a w =
      cb (int32_value (if driver.connected w.rest.network then 1 else 0)) a >>= (λ x. some (x, w))
  get_field_value string_identifier cb a w = elim (driver.sta_config w.rest.network) [
    | none ↦ some (a, w)
    | some config ↦
        if driver.connected w.rest.network
        then cb (string_value (array_text config.0)) a >>= (λ x. some (x, w))
        else some (a, w)
  ]
  get_field_value password cb a w = elim (driver.sta_config w.rest.network) [
    | none ↦ some (a, w)
    | some config ↦
        if driver.connected w.rest.network
        then cb (string_value (array_text config.1)) a >>= (λ x. some (x, w))
        else some (a, w)
  ]
  get_field_value ip cb a w = elim (driver.netif_ip w.rest.network) [
    | none ↦ some (a, w)
    | some address ↦
        if driver.connected w.rest.network
        then cb (uint32_value address) a >>= (λ x. some (x, w))
        else some (a, w)
  ]
  get_field_value f cb a w = some (a, w)

  abbrev pub station : ModuleApi State
  station = record {
    identity = wifi_sta_connection;
    get_field_value = get_field_value;
    set_field_value = set_field_value;
  }

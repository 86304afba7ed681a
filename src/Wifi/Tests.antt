-- ===== src/Wifi/Tests.antt =====
-- The station at concrete inputs.
use esp32cam.Base.{ℕ, suc, ◌≡◌, ◌⊎◌, refl, [], ◌∷◌, true, false, none, some, replicate}
use esp32cam.Module.{ok}
use esp32cam.Module.Description.{parameter_descriptions}
use esp32cam.Module.Parameter.{MemoryProvider, World}
use esp32cam.Module.ModuleBase.{System}
use esp32cam.Wifi.{Driver, Credential, Wireless, u32_as_bytes, is_valid}
use esp32cam.Wifi.Sta.{connect_if_asked, try_fetch_connect}
use esp32cam.Wifi.Credentials.{Attempted, Given, try_fetch_connect_lem}

-- A network that counts the calls, and a storage that counts what is saved.
abbrev driver : Driver ℕ
driver = record {
  connected = λ n. true;
  sta_config = λ n. none;
  ap_config = λ n. none;
  netif_ip = λ n. none;
  sta_connect = λ ssid password address n. (true, suc n);
  disconnect = suc;
  mac = λ n. [];
  address_text = λ n. [];
  parse_address = λ t. none;
}

abbrev provider : MemoryProvider ℕ
provider = record { load = λ d v s. (ok, v, s); save = λ d v s. some (ok, suc s) }

abbrev asking : Credential
asking = record {
  ssid = 110 ∷ [];
  password = [];
  autoconnect = true;
  ip = 0;
  gateway = 0;
  netmask = 0;
}

abbrev station_state : ℕ → System ℕ (Wireless ℕ)
station_state n = record {
  parameters = record { instances = replicate 8 none; sd_made = false; storage = 0 };
  rest = record { credentials = asking; network = n };
}

connects :
    try_fetch_connect parameter_descriptions provider driver (station_state 0)
    ≡ some (true, station_state 1)
unfolding try_fetch_connect connect_if_asked is_valid esp32cam.Wifi.Sta.connect
connects = refl

try_fetch_connect_example :
    let w = station_state 0 in
    let x = station_state 1 in
    ((c : Credential) × (p : World ℕ) × Given parameter_descriptions provider driver w c p
      × Attempted parameter_descriptions provider driver c p 0 true x)
    ⊎ ((is_valid asking ≡ false) × (true ≡ false) × (x.rest.network ≡ w.rest.network))
try_fetch_connect_example =
    try_fetch_connect_lem parameter_descriptions provider driver (station_state 0) (station_state 1)
      true connects

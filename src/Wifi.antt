-- ===== src/Wifi.antt =====
-- components/wifi/wifi: the modules of the Wi-Fi station and of the access point. ESP-IDF with
-- `wifiStaConnect` on top of it, and the addresses of asio, are an interface.
use esp32cam.Base.{
  ℕ, ◌-◌, ◌/◌, ◌%◌, ◌^◌, List, [], ◌∷◌, Bool, true, false, ◌&&◌, ◌||◌, not, Option, none, some,
  ◌==◌, if◌then◌else◌, length, leb, get_or,
}
use esp32cam.Module.Sd.{c_str}
pub mod Sta
pub mod Ap
pub mod Credentials
mod Tests

-- Over the states `N` of the network stack: whether the station is connected
-- (`esp_wifi_sta_get_ap_info`), the arrays of name and password of the configurations, the address
-- of the interface, if there is one, and `wifiStaConnect` with the bytes of address, gateway and
-- netmask, if they are given.
pub record Driver (N : Type 0) : Type 0 where
  pub connected : N → Bool
  pub sta_config : N → Option (List ℕ × List ℕ)
  pub ap_config : N → Option (List ℕ × List ℕ)
  pub netif_ip : N → Option ℕ
  pub sta_connect : List ℕ → List ℕ → Option (List ℕ × List ℕ × List ℕ) → N → Bool × N
  pub disconnect : N → N
  pub mac : N → List ℕ
  pub address_text : ℕ → List ℕ
  pub parse_address : List ℕ → Option ℕ

-- `Sta::Credentials`.
pub record Credential : Type 0 where
  pub ssid : List ℕ
  pub password : List ℕ
  pub autoconnect : Bool
  pub ip : ℕ
  pub gateway : ℕ
  pub netmask : ℕ

-- What the two modules change beside the parameters.
pub record Wireless (N : Type 0) : Type 0 where
  pub credentials : Credential
  pub network : N

abbrev pub ssid_min_length : ℕ
ssid_min_length = 1

abbrev pub ssid_max_length : ℕ
ssid_max_length = 32

abbrev pub password_min_length : ℕ
password_min_length = 8

abbrev pub password_max_length : ℕ
password_max_length = 64

-- The text in an array of characters, which has a null in it or fills it.
unfoldable pub array_text : List ℕ → List ℕ
array_text a = if get_or a (length a - 1) 0 == 0 then c_str a else a

-- `htonl`, byte by byte.
unfoldable pub u32_as_bytes : ℕ → List ℕ
u32_as_bytes n =
    (n / 2 ^ 24 % 2 ^ 8) ∷ (n / 2 ^ 16 % 2 ^ 8) ∷ (n / 2 ^ 8 % 2 ^ 8) ∷ (n % 2 ^ 8) ∷ []

abbrev pub ssid_fits : List ℕ → Bool
ssid_fits ssid = leb ssid_min_length (length ssid) && leb (length ssid) ssid_max_length

abbrev pub password_fits : List ℕ → Bool
password_fits text = leb password_min_length (length text) && leb (length text) password_max_length

unfoldable pub is_valid : Credential → Bool
is_valid c = ssid_fits c.ssid && ((length c.password == 0) || password_fits c.password)

abbrev pub use_dhcp : Credential → Bool
use_dhcp c = c.ip == 0

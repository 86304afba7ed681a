-- ===== src/Mavlink/GsNetwork.antt =====
-- components/mav/priv_include/Microservice/GsNetwork.cpp: sockets on behalf of the autopilot. The
-- message, the addresses of asio and the socket API are interfaces here.
use esp32cam.Base.{
  ℕ, ◌≡◌, List, [], ◌∷◌, ◌==◌, Bool, true, false, ◌||◌, Option, none, some, if◌then◌else◌, length,
  take,
}
use esp32cam.Routing.Endpoint.{Endpoint}
pub mod Handlers
pub mod Pack
pub mod Answer
pub mod Routes
pub mod Chunks
mod Tests

-- MAV_GS_NETWORK_ACK, MAV_GS_NETWORK_COMMAND and MAV_GS_NETWORK_TRANSPORT; the constructor with a
-- number is every value without a name.
pub data Ack : Type 0 where
  ack_none ack_none_hold_response ack_success ack_fail : Ack
  ack_other : ℕ → Ack

pub data Command : Type 0 where
  connect disconnect send open_port close_port process_received process_connected
        process_connection_aborted :
      Command
  command_other : ℕ → Command

pub data Transport : Type 0 where
  udp4 udp6 tcp4 tcp6 : Transport
  transport_other : ℕ → Transport

-- `mavlink_mav_gs_network_t`.
pub record Network : Type 0 where
  pub host_port : ℕ
  pub remote_port : ℕ
  pub command : Command
  pub ack : Ack
  pub transport : Transport
  pub payload_len : ℕ
  pub payload : List ℕ

-- `asio::ip::address`.
pub record Addresses (A : Type 0) : Type 0 where
  pub is_v6 : A → Bool
  pub to_v4 : A → List ℕ
  pub to_v6 : A → List ℕ
  pub make_v4 : List ℕ → A
  pub make_v6 : List ℕ → A
  pub unspecified : A
  pub length_v4 : (a : A) → length (to_v4 a) ≡ 4
  pub length_v6 : (a : A) → length (to_v6 a) ≡ 16
  pub make_v4-to_v4 : (a : A) → is_v6 a ≡ false → make_v4 (to_v4 a) ≡ a

-- `asio::error_code`, as far as it is compared.
pub data Error : Type 0 where
  no_error already_connected not_connected already_open not_found failed : Error

abbrev error_number : Error → ℕ
error_number no_error = 0
error_number already_connected = 1
error_number not_connected = 2
error_number already_open = 3
error_number not_found = 4
error_number failed = 5

abbrev pub same_error : Error → Error → Bool
same_error a b = error_number a == error_number b

-- A remote side: its address and its port.
abbrev pub Remote : Type 0 → Type 0
Remote A = A × ℕ

-- `Sock::Api`: `true` stands for the argument `v6()`, and the buffer to send is the payload with the
-- offset and the length of the part to send.
pub record Sockets (A S : Type 0) : Type 0 where
  pub connect : Remote A → ℕ → Bool → S → Error × S
  pub disconnect : Remote A → ℕ → S → Error × S
  pub open_tcp : ℕ → Bool → S → Error × S
  pub open_udp : ℕ → Bool → S → Error × S
  pub close_tcp : ℕ → S → Error × S
  pub close_udp : ℕ → S → Error × S
  pub send_tcp : Remote A → ℕ → List ℕ → ℕ × ℕ → S → Error × S
  pub send_udp : Remote A → ℕ → Bool → List ℕ → ℕ × ℕ → S → Error × S

-- The generated functions that pack and unpack the message, with the ids of the system.
pub record Codec (M : Type 0) : Type 0 where
  pub msg_id : M → ℕ
  pub gs_network_id : ℕ
  pub decode : M → Network
  pub encode : Network → M

abbrev pub Peer : Type 0 → Type 0
Peer A = Endpoint (Remote A) (Remote A)

-- What the handlers change: the sockets, and the routing rules, if there is an instance of them.
pub record World (A S : Type 0) : Type 0 where
  pub sockets : S
  pub rules : Option (List ((Peer A × Peer A) × Peer A))

-- ===== src/Mavlink/GsNetwork/Tests.antt =====
-- GsNetwork at concrete inputs: an address is its first byte, a message is its fields, and the socket
-- calls succeed and are counted.
use esp32cam.Base.{
  ℕ, ◌≡◌, ◌≤◌, ◌+◌, List, [], ◌∷◌, refl, arith, true, false, some, replicate, length, min,
}
use esp32cam.Routing.Endpoint.{named, mavlink_ip_pack, mavlink_ip_pack_forwarded, tcp_endpoint}
use esp32cam.Routing.Rules.{Rules, reduce}
use esp32cam.Routing.Undo.{find-nil}
use esp32cam.Routing.Encoded.{addresses}
use esp32cam.Mavlink.GsNetwork.{
  Network, Addresses, Sockets, Codec, World, Error, no_error, ack_none, open_port, udp4,
  process_received,
}
use esp32cam.Mavlink.GsNetwork.Handlers.{
  call_open, call_close, port_origin, process_open, process_close,
}
use esp32cam.Mavlink.GsNetwork.Pack.{init_network, init_network_bounds, address_length}
use esp32cam.Mavlink.GsNetwork.Routes.{open_close_lem}
use esp32cam.Mavlink.GsNetwork.Chunks.{chunks, joined, chunks_lem}

abbrev first_byte : List ℕ → ℕ
first_byte [] = 0
first_byte (x ∷ xs) = x

abbrev asio : Addresses ℕ
asio = record {
  is_v6 = λ a. false;
  to_v4 = λ a. a ∷ 0 ∷ 0 ∷ 0 ∷ [];
  to_v6 = λ a. a ∷ 0 ∷ 0 ∷ 0 ∷ 0 ∷ 0 ∷ 0 ∷ 0 ∷ 0 ∷ 0 ∷ 0 ∷ 0 ∷ 0 ∷ 0 ∷ 0 ∷ 0 ∷ [];
  make_v4 = first_byte;
  make_v6 = first_byte;
  unspecified = 0;
  length_v4 = λ a. refl;
  length_v6 = λ a. refl;
  make_v4-to_v4 = λ a h. refl;
}

abbrev count : ℕ → Error × ℕ
count s = (no_error, s + 1)

abbrev api : Sockets ℕ ℕ
api = record {
  connect = λ r p v. count;
  disconnect = λ r p. count;
  open_tcp = λ p v. count;
  open_udp = λ p v. count;
  close_tcp = λ p. count;
  close_udp = λ p. count;
  send_tcp = λ r p b k. count;
  send_udp = λ r p v b k. count;
}

abbrev codec : Codec Network
codec = record { msg_id = λ m. 1; gs_network_id = 1; decode = λ m. m; encode = λ m. m }

abbrev opening : Network
opening = record {
  host_port = 80;
  remote_port = 0;
  command = open_port;
  ack = ack_none;
  transport = udp4;
  payload_len = 6;
  payload = 9 ∷ 0 ∷ 0 ∷ 0 ∷ 1 ∷ 2 ∷ [];
}

abbrev world : World ℕ ℕ
world = record { sockets = 0; rules = some [] }

init_network_bounds_example :
    let (m, n) = init_network asio 16 process_received true (9, 5000) 80 (1 ∷ 2 ∷ 3 ∷ []) in
    (length m.payload ≡ 16)
    × (m.payload_len ≡ address_length asio 16 9 + n)
    × (m.payload_len ≤ 16)
    × (n ≡ min 12 3)
init_network_bounds_example =
    init_network_bounds asio 16 process_received true (9, 5000) 80 (1 ∷ 2 ∷ 3 ∷ []) (omega arith)
      (omega arith)

open_close_example :
    (t : Rules addresses) × ((process_open addresses api opening world).1.rules ≡ some t)
    × (reduce addresses t (port_origin opening) (named mavlink_ip_pack)
        ≡ (true, named mavlink_ip_pack_forwarded))
    × ((process_close addresses api opening (process_open addresses api opening world).1).1.rules
        ≡ some [])
unfolding call_open call_close
open_close_example =
    open_close_lem addresses api opening world [] refl tt
      (find-nil addresses 80 (named mavlink_ip_pack)) refl refl

chunks_example :
    (ms : List Network) × ((chunks asio 16 21
          (tcp_endpoint (9, 5000) 80)
          (record { start = 0; bytes = replicate 20 7 })
          (record { start = 0; bytes = replicate 20 7 })
        ≡ some ms)
      × (joined asio 16 ms ≡ replicate 20 7))
chunks_example =
    chunks_lem asio 16 21 (9, 5000) 80 (record { start = 0; bytes = replicate 20 7 })
      (record { start = 0; bytes = replicate 20 7 }) (omega arith) (omega arith) refl (omega arith)
      (omega arith)

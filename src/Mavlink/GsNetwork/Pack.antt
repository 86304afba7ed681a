-- ===== src/Mavlink/GsNetwork/Pack.antt =====
-- Messages to the autopilot: GsNetwork.impl, and `onReceive` and `onTcpEvent` of GsNetwork.cpp.
use esp32cam.Base.{
  ℕ, ◌+◌, ◌-◌, ◌*◌, ◌≡◌, ◌≤◌, List, [], ◌++◌, Bool, true, false, if◌then◌else◌, length, take, drop,
  min, overwrite, replicate, u8, sub32, bit_and, Bool-cases, inl, inr, refl, ap, ap₂, sym, ◌∙◌,
  arith, ◌==◌, length-overwrite, take-overwrite, length-take, take-take, drop-take,
  length-replicate, drop-append_length, take-append_length,
}
use esp32cam.Routing.Endpoint.{tcp_endpoint}
use esp32cam.Mavlink.GsNetwork.{
  ack_none_hold_response, process_received, process_connected, process_connection_aborted, udp4,
  udp6, tcp4, tcp6, Transport, Network, Addresses, Remote, Peer, Command,
}
use esp32cam.Mavlink.GsNetwork.Handlers.{get_buffer, get_address}

-- `kTransportMap`.
unfoldable pub transport_map : ℕ → Transport
transport_map i = if i == 0 then udp4 else if i == 1 then udp6 else if i == 2 then tcp4 else tcp6

abbrev pub flag : Bool → ℕ
flag true = 1
flag false = 0

-- `size` is that of the payload field.
module _ {A : Type 0} (asio : Addresses A) (size : ℕ) where
  abbrev pub address_bytes : A → List ℕ
  address_bytes a = if asio.is_v6 a then asio.to_v6 a else asio.to_v4 a

  abbrev pub address_length : A → ℕ
  address_length a = if asio.is_v6 a then 16 else 4

  -- How much of a buffer fits behind the address.
  unfoldable pub written : A → List ℕ → ℕ
  written a buffer = u8 (min (size - address_length a) (length buffer))

  -- `initMavlinkMavGsNetwork`, with the fields that the caller sets.
  unfoldable pub init_network : Command → Bool → Remote A → ℕ → List ℕ → Network × ℕ
  init_network command tcp remote local_port buffer =
      let n = written remote.0 buffer in
      let cleared = overwrite (replicate size 0) 0 (address_bytes remote.0) in
      (
        record {
          host_port = local_port;
          remote_port = remote.1;
          command = command;
          ack = ack_none_hold_response;
          transport = transport_map (bit_and (flag tcp * 2) (flag (asio.is_v6 remote.0)));
          payload_len = u8 (address_length remote.0 + n);
          payload = overwrite cleared (address_length remote.0) (take n buffer);
        },
        n,
      )

  -- `onReceive`: the message, and the number of bytes by which the buffer is sliced. Only a TCP
  -- endpoint has its remote and port taken out of it.
  unfoldable pub on_receive : Peer A → List ℕ → Network × ℕ
  on_receive sender buffer = elim sender [
    | tcp_endpoint remote port ↦ init_network process_received true remote port buffer
    | _ ↦ init_network process_received true (asio.unspecified, 0) 0 buffer
  ]

  -- `onTcpEvent`.
  pub data TcpEvent : Type 0 where
    tcp_connected tcp_disconnected : Remote A → ℕ → TcpEvent

  unfoldable pub on_tcp_event : TcpEvent → Network
  on_tcp_event (tcp_connected remote port) = (init_network process_connected true remote port []).0
  on_tcp_event (tcp_disconnected remote port) =
      (init_network process_connection_aborted true remote port []).0

  address_bytes-length : (a : A) → length (address_bytes a) ≡ address_length a
  address_bytes-length a = ground (arith, asio.length_v4 a, asio.length_v6 a)

  written_lem :
      (a : A) (buffer : List ℕ)
      → 16 ≤ size
      → size ≤ 255
      → written a buffer ≡ min (size - address_length a) (length buffer)
  unfolding written
  written_lem a buffer lo hi = ground arith

  -- For a payload field of 16 to 255 bytes, a packed message has a field of that size, its length
  -- counts the address and the bytes taken from the buffer and stays within the field, and the
  -- bytes taken are as many as fit.
  pub init_network_bounds :
      (command : Command) (tcp : Bool) (remote : Remote A) (port : ℕ) (buffer : List ℕ)
      → 16 ≤ size
      → size ≤ 255
      → let (m, n) = init_network command tcp remote port buffer in
        (length m.payload ≡ size)
        × (m.payload_len ≡ address_length remote.0 + n)
        × (m.payload_len ≤ size)
        × (n ≡ min (size - address_length remote.0) (length buffer))
  unfolding init_network
  init_network_bounds command tcp remote port buffer lo hi = (
    length-overwrite _ (address_length remote.0) (take (written remote.0 buffer) buffer)
        ∙ length-overwrite (replicate size 0) 0 (address_bytes remote.0)
        ∙ length-replicate size 0,
    ground (arith, written_lem remote.0 buffer lo hi),
    ground (arith, written_lem remote.0 buffer lo hi),
    written_lem remote.0 buffer lo hi,
  )

  -- The field begins with the address and what was taken from the buffer.
  payload_lem :
      (command : Command) (tcp : Bool) (remote : Remote A) (port : ℕ) (buffer : List ℕ)
      → 16 ≤ size
      → size ≤ 255
      → let (m, n) = init_network command tcp remote port buffer in
        take (address_length remote.0 + n) m.payload ≡ address_bytes remote.0 ++ take n buffer
  unfolding init_network
  payload_lem command tcp remote port buffer lo hi =
      let a = remote.0 in
      let n = written a buffer in
      let cleared = overwrite (replicate size 0) 0 (address_bytes a) in
      take-overwrite cleared (address_length a) (address_length a + n) (take n buffer)
        (ground (arith, length-take n buffer, written_lem a buffer lo hi))
        (ground (
          arith,
          written_lem a buffer lo hi,
          length-replicate {A = ℕ} size 0,
          length-overwrite (replicate size 0) 0 (address_bytes a),
        ))
      ∙ ap (λ l. l ++ take n buffer)
          (take-overwrite (replicate size 0) 0 (address_length a) (address_bytes a)
            (ground (arith, address_bytes-length a))
            (ground (arith, length-replicate {A = ℕ} size 0)))

  -- Every message says UDP over IPv4, whatever the protocol and the address: the index of the map of
  -- transports is always 0.
  pub transport_lem :
      (command : Command) (tcp : Bool) (remote : Remote A) (port : ℕ) (buffer : List ℕ)
      → (init_network command tcp remote port buffer).0.transport ≡ udp4
  unfolding init_network transport_map
  transport_lem command true remote port buffer = elim (Bool-cases (asio.is_v6 remote.0)) [
    | inl six ↦ rw six refl
    | inr four ↦ rw four refl
  ]
  transport_lem command false remote port buffer = elim (Bool-cases (asio.is_v6 remote.0)) [
    | inl six ↦ rw six refl
    | inr four ↦ rw four refl
  ]

  get_address-udp4 :
      (m : Network) → m.transport ≡ udp4 → get_address asio m ≡ asio.make_v4 (take 4 m.payload)
  unfolding get_address
  get_address-udp4 m h = rw h refl

  get_buffer-udp4 : (m : Network) → m.transport ≡ udp4 → get_buffer m ≡ (4, sub32 m.payload_len 4)
  unfolding get_buffer
  get_buffer-udp4 m h = rw h refl

  -- The part of a message that `getBuffer` gives.
  abbrev pub carried : Network → List ℕ
  carried m = let (from, n) = get_buffer m in take n (drop from m.payload)

  take_front :
      (xs front rest : List ℕ) (k n : ℕ)
      → take (k + n) xs ≡ front ++ rest
      → length front ≡ k
      → length rest ≡ n
      → (take k xs ≡ front) × (take n (drop k xs) ≡ rest)
  take_front xs front rest k n h f r = (
    sym (take-take k (k + n) xs (omega arith))
        ∙ ap (take k) h
        ∙ ap (λ j. take j (front ++ rest)) (sym f)
        ∙ take-append_length front rest,
    ap (λ j. take j (drop k xs)) (omega arith)
        ∙ sym (drop-take k (k + n) xs)
        ∙ ap (drop k) h
        ∙ ap (λ j. drop j (front ++ rest)) (sym f)
        ∙ drop-append_length front rest,
  )

  -- For a remote of IPv4 and a payload field of 16 to 255 bytes, the remote address and the bytes
  -- taken from the buffer can be read back out of the packed message.
  pub init_network_round_trip :
      (command : Command) (tcp : Bool) (remote : Remote A) (port : ℕ) (buffer : List ℕ)
      → 16 ≤ size
      → size ≤ 255
      → asio.is_v6 remote.0 ≡ false
      → let (m, n) = init_network command tcp remote port buffer in
        (get_address asio m ≡ remote.0) × (carried m ≡ take n buffer)
  init_network_round_trip command tcp remote port buffer lo hi four =
      let a = remote.0 in
      let m = (init_network command tcp remote port buffer).0 in
      let n = (init_network command tcp remote port buffer).1 in
      let bounds = init_network_bounds command tcp remote port buffer lo hi in
      let alone : address_length a ≡ 4 = rw four refl in
      let bytes : address_bytes a ≡ asio.to_v4 a = rw four refl in
      let plain = transport_lem command tcp remote port buffer in
      let parts =
        take_front m.payload (address_bytes a) (take n buffer) (address_length a) n
          (payload_lem command tcp remote port buffer lo hi) (address_bytes-length a)
          (ground (arith, length-take n buffer, bounds)) in
      (
        get_address-udp4 m plain
            ∙ ap asio.make_v4 (ap (λ k. take k m.payload) (sym alone) ∙ parts.0 ∙ bytes)
            ∙ asio.make_v4-to_v4 a four,
        ap (λ g. take g.1 (drop g.0 m.payload))
              (get_buffer-udp4 m plain ∙ ap₂ (λ k j. (k, j)) (sym alone) (ground (arith, bounds)))
            ∙ parts.1,
      )

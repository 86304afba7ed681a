-- ===== src/Mavlink/GsNetwork/Handlers.antt =====
-- The requests of the autopilot in Microservice/GsNetwork.cpp.
use esp32cam.Base.{
  ℕ, ◌==◌, Bool, true, false, ◌||◌, not, Option, none, some, if◌then◌else◌, take, sub32,
}
use esp32cam.Routing.Order.{StrictOrder}
use esp32cam.Routing.Endpoint.{
  named, tcp_port, udp_port, mavlink_ip_pack, mavlink_ip_pack_forwarded,
}
use esp32cam.Routing.Rules.{add_static, remove}
use esp32cam.Mavlink.FtpClient.Handlers.{Ret, ignored, no_response, response}
use esp32cam.Mavlink.GsNetwork.{
  Ack, ack_none, ack_none_hold_response, ack_success, ack_fail, ack_other, Command, connect,
  disconnect, send, open_port, close_port, process_received, process_connected,
  process_connection_aborted, command_other, Transport, udp4, udp6, tcp4, tcp6, transport_other,
  Network, Addresses, Error, no_error, already_connected, not_connected, already_open, not_found,
  same_error, Sockets, Codec, Peer, Remote, World,
}

-- `getBuffer`: the offset of the bytes behind the address, and their number as a `std::size_t`.
unfoldable pub get_buffer : Network → ℕ × ℕ
get_buffer m = elim m.transport [
  | tcp4 ↦ (4, sub32 m.payload_len 4)
  | udp4 ↦ (4, sub32 m.payload_len 4)
  | tcp6 ↦ (16, sub32 m.payload_len 16)
  | udp6 ↦ (16, sub32 m.payload_len 16)
  | transport_other n ↦ (0, 0)
]

-- The ack for an error, one error counting as success.
unfoldable pub answer : Error → Error → Network → Network
answer tolerated e m = record m {
  ack = if same_error no_error e || same_error tolerated e then ack_success else ack_fail;
}

abbrev pub is_tcp : Transport → Bool
is_tcp t = elim t [ tcp4 ↦ true | tcp6 ↦ true | _ ↦ false ]

module _ {A : Type 0} (asio : Addresses A) where
  unfoldable pub get_address : Network → A
  get_address m = elim m.transport [
    | tcp4 ↦ asio.make_v4 (take 4 m.payload)
    | udp4 ↦ asio.make_v4 (take 4 m.payload)
    | tcp6 ↦ asio.make_v6 (take 16 m.payload)
    | udp6 ↦ asio.make_v6 (take 16 m.payload)
    | transport_other n ↦ asio.unspecified
  ]

module _ {A S : Type 0} (asio : Addresses A) (api : Sockets A S) where
  -- The `switch` of a handler over the transports: the error code and the sockets after it.
  unfoldable pub call_connect : Network → S → Error × S
  call_connect m s = elim m.transport [
    | tcp4 ↦ api.connect (get_address asio m, m.remote_port) m.host_port false s
    | tcp6 ↦ api.connect (get_address asio m, m.remote_port) m.host_port true s
    | _ ↦ (no_error, s)
  ]

  unfoldable pub process_connect : Network → World A S → Network × World A S
  process_connect m w =
      let (e, s) = call_connect m w.sockets in
      (answer already_connected e m, record w { sockets = s })

  unfoldable pub process_disconnect : Network → World A S → Network × World A S
  process_disconnect m w =
      let (e, s) = api.disconnect (get_address asio m, m.remote_port) m.host_port w.sockets in
      (answer not_connected e m, record w { sockets = s })

  unfoldable pub call_send : Network → S → Error × S
  call_send m s =
      let remote : Remote A = (get_address asio m, m.remote_port) in
      let part = get_buffer m in
      elim m.transport [
        | tcp4 ↦ api.send_tcp remote m.host_port m.payload part s
        | tcp6 ↦ api.send_tcp remote m.host_port m.payload part s
        | udp4 ↦ api.send_udp remote m.host_port false m.payload part s
        | udp6 ↦ api.send_udp remote m.host_port true m.payload part s
        | transport_other n ↦ (no_error, s)
      ]

  unfoldable pub process_send : Network → World A S → Network × World A S
  process_send m w =
      let (e, s) = call_send m w.sockets in (answer no_error e m, record w { sockets = s })

module _ {A S : Type 0} (api : Sockets A S) where
  unfoldable pub call_open : Network → S → Error × S
  call_open m s = elim m.transport [
    | tcp4 ↦ api.open_tcp m.host_port false s
    | tcp6 ↦ api.open_tcp m.host_port true s
    | udp4 ↦ api.open_udp m.host_port false s
    | udp6 ↦ api.open_udp m.host_port true s
    | transport_other n ↦ (no_error, s)
  ]

  unfoldable pub call_close : Network → S → Error × S
  call_close m s = elim m.transport [
    | tcp4 ↦ api.close_tcp m.host_port s
    | tcp6 ↦ api.close_tcp m.host_port s
    | udp4 ↦ api.close_udp m.host_port s
    | udp6 ↦ api.close_udp m.host_port s
    | transport_other n ↦ (no_error, s)
  ]

-- The origin of what comes in at the port.
abbrev pub port_origin : {A : Type 0} → Network → Peer A
port_origin m = if is_tcp m.transport then tcp_port m.host_port else udp_port m.host_port

module _ {A S : Type 0} (o : StrictOrder (Peer A)) (api : Sockets A S) where
  unfoldable pub process_open : Network → World A S → Network × World A S
  process_open m w =
      let (e, s) = call_open api m w.sockets in
      let opened = same_error no_error e || same_error already_open e in
      (
        answer already_open e m,
        record {
          sockets = s;
          rules = elim w.rules [
            | none ↦ none
            | some t ↦
                if opened
                then some
                    (add_static o t (port_origin m) (named mavlink_ip_pack)
                      (named mavlink_ip_pack_forwarded)).1
                else some t
          ];
        },
      )

  unfoldable pub process_close : Network → World A S → Network × World A S
  process_close m w =
      let (e, s) = call_close api m w.sockets in
      let closed = same_error no_error e || same_error not_found e in
      (
        answer not_found e m,
        record {
          sockets = s;
          rules = elim w.rules [
            | none ↦ none
            | some t ↦
                if closed then some (remove o t (port_origin m) (named mavlink_ip_pack)) else some t
          ];
        },
      )

-- `process`: what it returns, the message that it hands to the response callback, and the world.
module _ {A S M : Type 0} (asio : Addresses A) (o : StrictOrder (Peer A)) (api : Sockets A S)
    (codec : Codec M) where
  -- The `switch` over the commands; none is its `default`.
  unfoldable pub run_command : Command → Network → World A S → Option (Network × World A S)
  run_command connect m w = some (process_connect asio api m w)
  run_command disconnect m w = some (process_disconnect asio api m w)
  run_command send m w = some (process_send asio api m w)
  run_command open_port m w = some (process_open o api m w)
  run_command close_port m w = some (process_close o api m w)
  run_command process_received m w = some (m, w)
  run_command process_connected m w = none
  run_command process_connection_aborted m w = none
  run_command (command_other n) m w = none

  unfoldable pub process_request :
      Ret → Command → Network → World A S → Ret × (Option M × World A S)
  process_request ret c m w = elim (run_command c m w) [
    | none ↦ (ignored, (none, w))
    | some r ↦ (ret, (some (codec.encode r.0), r.1))
  ]

  -- The `switch` over the ack, and what follows.
  unfoldable pub process_ack : Ack → Network → World A S → Ret × (Option M × World A S)
  process_ack ack_none m w = process_request response m.command m w
  process_ack ack_none_hold_response m w = process_request no_response m.command m w
  process_ack ack_success m w = (no_response, (none, w))
  process_ack ack_fail m w = (no_response, (none, w))
  process_ack (ack_other n) m w = (no_response, (none, w))

  unfoldable pub process : M → World A S → Ret × (Option M × World A S)
  process message w =
      let m = codec.decode message in
      if not (codec.msg_id message == codec.gs_network_id)
      then (ignored, (none, w))
      else process_ack m.ack m w

-- ===== src/Mavlink/GsNetwork/Answer.antt =====
-- What Microservice/GsNetwork.cpp answers, and what part of the payload it sends.
use esp32cam.Base.{
  ℕ, ◌+◌, ◌≡◌, ◌≤◌, ◌↔◌, ◌⊎◌, refl, arith, Bool, true, false, ◌==◌, Option, none, some,
}
use esp32cam.Routing.Order.{StrictOrder}
use esp32cam.Mavlink.FtpClient.Handlers.{Ret, ignored, no_response, response}
use esp32cam.Mavlink.GsNetwork.{
  Ack, ack_none, ack_none_hold_response, ack_success, ack_fail, ack_other, Command, connect,
  disconnect, send, open_port, close_port, process_received, process_connected,
  process_connection_aborted, command_other, Network, Addresses, Error, Sockets, Codec, Peer, World,
}
use esp32cam.Mavlink.GsNetwork.Handlers.{
  get_buffer, answer, process_connect, process_disconnect, process_send, process_open,
  process_close, process_request, run_command, process_ack, process,
}

-- What a request makes `process` return; none for a message that is no request.
abbrev pub request_ret : Ack → Option Ret
request_ret ack_none = some response
request_ret ack_none_hold_response = some no_response
request_ret ack_success = none
request_ret ack_fail = none
request_ret (ack_other n) = none

-- The commands that are carried out, with whether the ack tells the result.
abbrev pub served : Command → Option Bool
served connect = some true
served disconnect = some true
served send = some true
served open_port = some true
served close_port = some true
served process_received = some false
served process_connected = none
served process_connection_aborted = none
served (command_other n) = none

abbrev pub IsResult : Ack → Type 0
IsResult a = (a ≡ ack_success) ⊎ (a ≡ ack_fail)

module _ {A S M : Type 0} (asio : Addresses A) (o : StrictOrder (Peer A)) (api : Sockets A S)
    (codec : Codec M) where
  -- The message comes back with an ack that tells the result, or as it came.
  abbrev pub Replied : Bool → Network → Option M → Type 0
  Replied true m r = (a : Ack) × IsResult a × (r ≡ some (codec.encode (record m { ack = a })))
  Replied false m r = r ≡ some (codec.encode m)

  -- By what the command is and what the message asks for.
  abbrev pub Expected :
      Option Ret → Option Bool → Network → World A S → Ret × (Option M × World A S) → Type 0
  Expected none b m w r = r ≡ (no_response, (none, w))
  Expected (some ret) none m w r = r ≡ (ignored, (none, w))
  Expected (some ret) (some b) m w r = (r.0 ≡ ret) × Replied b m r.1.0

  answer-IsResult : (e t : Error) (m : Network) → IsResult (answer t e m).ack
  unfolding answer
  answer-IsResult e t m = ground arith

  answer-Replied : (t e : Error) (m : Network) → Replied true m (some (codec.encode (answer t e m)))
  unfolding answer
  answer-Replied t e m = ((answer t e m).ack, answer-IsResult e t m, refl)

  process_request-Expected :
      (c : Command) (ret : Ret) (m : Network) (w : World A S)
      → Expected (some ret) (served c) m w (process_request asio o api codec ret c m w)
  unfolding run_command process_connect process_disconnect process_send process_open process_close
      process_request
  process_request-Expected connect ret m w = (refl, answer-Replied _ _ m)
  process_request-Expected disconnect ret m w = (refl, answer-Replied _ _ m)
  process_request-Expected send ret m w = (refl, answer-Replied _ _ m)
  process_request-Expected open_port ret m w = (refl, answer-Replied _ _ m)
  process_request-Expected close_port ret m w = (refl, answer-Replied _ _ m)
  process_request-Expected process_received ret m w = (refl, refl)
  process_request-Expected process_connected ret m w = refl
  process_request-Expected process_connection_aborted ret m w = refl
  process_request-Expected (command_other n) ret m w = refl

  process_ack-Expected :
      (a : Ack) (m : Network) (w : World A S)
      → Expected (request_ret a) (served m.command) m w (process_ack asio o api codec a m w)
  unfolding process_ack
  process_ack-Expected ack_none m w = process_request-Expected m.command response m w
  process_ack-Expected ack_none_hold_response m w =
      process_request-Expected m.command no_response m w
  process_ack-Expected ack_success m w = refl
  process_ack-Expected ack_fail m w = refl
  process_ack-Expected (ack_other n) m w = refl

  -- A request of the autopilot with a command that is served comes back with an ack of success or
  -- failure and else as it was (a report of received bytes with its ack too), and its ack says
  -- whether a response is due. A request with another command is ignored, a message that is no
  -- request is dropped, and neither changes anything.
  pub process_lem :
      (message : M) (w : World A S)
      → (codec.msg_id message == codec.gs_network_id) ≡ true
      → let m = codec.decode message in
        Expected (request_ret m.ack) (served m.command) m w (process asio o api codec message w)
  unfolding process
  process_lem message w same =
      rw same (process_ack-Expected (codec.decode message).ack (codec.decode message) w)

-- The bytes to send lie within the payload, of any size up to 255, exactly where the length counts
-- the address; a smaller length wraps around.
pub get_buffer_bounds :
    (m : Network) (size : ℕ)
    → m.payload_len ≤ size
    → size ≤ 255
    → let (from, n) = get_buffer m in (from + n ≤ size) ↔ (from ≤ m.payload_len)
unfolding get_buffer
get_buffer_bounds m size h k = ground arith

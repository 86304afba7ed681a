-- ===== src/Mavlink/Wifi/Outcome.antt =====
-- What the requests of Microservice/Wifi.cpp come to.
use esp32cam.Base.{
  ◌≡◌, arith, List, [], ◌∷◌, Bool, true, false, Option, none, some, ◌>>=◌, ◌==◌, ◌&&◌, ◌||◌,
  if◌then◌else◌, Bool-cases, inl, inr, length,
}
use esp32cam.Module.{Module, wifi_ap, wifi_sta_connection}
use esp32cam.Module.Description.{ParameterDescription}
use esp32cam.Module.Parameter.{MemoryProvider}
use esp32cam.Module.ModuleBase.{System, ModuleApi}
use esp32cam.Module.Sd.{c_str}
use esp32cam.Wifi.{Driver, Wireless}
use esp32cam.Mavlink.FtpClient.Handlers.{Ret, ignored, response}
use esp32cam.Mavlink.Wifi.{
  WifiConfigAp, Reply, config_reply, CommandLong, Dialect, response_accepted, response_rejected,
  Mode, mode_undefined, mode_ap, mode_station, mode_other, make_command_long,
}
use esp32cam.Mavlink.Wifi.Handlers.{
  process_config_ap_connect, process_config_ap_disconnect, process_config_ap_set_ssid,
  process_config_ap_set_password, process_config_ap_set_ap, process_config_ap_set_sta,
  process_by_mode, request_status, process_cmd_request_message, process_command, process,
}

-- A handler that does not return Ignored.
Never : {S N : Type 0} → Option (Ret × List Reply × System S (Wireless N)) → Type 0
Never {S} {N} handled =
    (replies : List Reply) (x : System S (Wireless N)) → handled ≡ some (ignored, replies, x) → ⊥

bind-Never :
    {S N X : Type 0} (o : Option X) (f : X → Option (Ret × List Reply × System S (Wireless N)))
    → ((a : X) → Never (f a))
    → Never (o >>= f)
unfolding Never
bind-Never none f never replies x h = ground arith
bind-Never (some a) f never replies x h = never a replies x h

response-Never :
    {S N : Type 0} (replies : List Reply) (w : System S (Wireless N))
    → Never (some (response, replies, w))
unfolding Never
response-Never rs w replies x h = ground arith

if-Never :
    {S N : Type 0} (b : Bool) (h k : Option (Ret × List Reply × System S (Wireless N)))
    → Never h
    → Never k
    → Never (if b then h else k)
unfolding Never
if-Never true h k p q = p
if-Never false h k p q = q

module _ {M F S N : Type 0} (dialect : Dialect M F) (ds : List ParameterDescription)
    (provider : MemoryProvider S) (driver : Driver N)
    (mods : List (ModuleApi (System S (Wireless N)))) where
  -- A name array of 32 characters, whatever is in it, makes `processConfigApSetSta` connect to the
  -- text before its first null, and answer with the outcome; also if that text is empty, where the
  -- code means to disconnect: the length that is tested is the array's.
  pub process_config_ap_set_sta_lem :
      (m : WifiConfigAp) (w : System S (Wireless N))
      → length m.ssid ≡ 32
      → let (connected, n) =
          driver.sta_connect (c_str m.ssid) (c_str m.password) none w.rest.network in
        process_config_ap_set_sta dialect ds provider driver mods m w
        ≡ some (
          response,
          config_reply
                (record m { response = if connected then response_accepted else response_rejected })
              ∷ [],
          record w { rest = record { credentials = w.rest.credentials; network = n } },
        )
  unfolding process_config_ap_set_sta
  process_config_ap_set_sta_lem m w size = ground (arith, size)

  connect-Never :
      (m : WifiConfigAp) (w : System S (Wireless N))
      → Never (process_config_ap_connect dialect ds provider driver mods m w)
  unfolding process_config_ap_connect
  connect-Never m w = search (bind-Never, response-Never)

  disconnect-Never :
      (m : WifiConfigAp) (w : System S (Wireless N))
      → Never (process_config_ap_disconnect dialect ds provider driver mods m w)
  unfolding process_config_ap_disconnect
  disconnect-Never m w = search (bind-Never, response-Never)

  set_ssid-Never :
      (m : WifiConfigAp) (w : System S (Wireless N))
      → Never (process_config_ap_set_ssid dialect ds provider driver mods m w)
  unfolding process_config_ap_set_ssid
  set_ssid-Never m w = search (bind-Never, response-Never)

  set_password-Never :
      (m : WifiConfigAp) (w : System S (Wireless N))
      → Never (process_config_ap_set_password dialect ds provider driver mods m w)
  unfolding process_config_ap_set_password
  set_password-Never m w = search (bind-Never, response-Never)

  set_ap-Never :
      (m : WifiConfigAp) (w : System S (Wireless N))
      → Never (process_config_ap_set_ap dialect ds provider driver mods m w)
  unfolding process_config_ap_set_ap
  set_ap-Never m w = search (bind-Never, response-Never)

  set_sta-Never :
      (m : WifiConfigAp) (w : System S (Wireless N))
      → Never (process_config_ap_set_sta dialect ds provider driver mods m w)
  unfolding process_config_ap_set_sta
  set_sta-Never m w = search (if-Never, response-Never)

  config-Never :
      (mode : Mode) (m : WifiConfigAp) (w : System S (Wireless N))
      → Never (process_by_mode dialect ds provider driver mods mode m w)
  unfolding process_by_mode
  config-Never mode_undefined m w =
      search (if-Never, connect-Never, set_ssid-Never, set_password-Never, disconnect-Never)
  config-Never mode_ap m w = set_ap-Never m w
  config-Never mode_station m w = set_sta-Never m w
  config-Never (mode_other n) m w = response-Never [] w

  status-Never :
      (owner : Module) (message : M) (command : CommandLong F) (w : System S (Wireless N))
      → Never (request_status dialect ds provider driver mods owner message command w)
  unfolding request_status
  status-Never owner message command w = search (bind-Never, response-Never)

  request_quiet :
      (message : M) (command : CommandLong F) (w x : System S (Wireless N)) (replies : List Reply)
      → process_cmd_request_message dialect ds provider driver mods message command w
        ≡ some (ignored, replies, x)
      → (replies ≡ []) × (x ≡ w)
  unfolding process_cmd_request_message Never
  request_quiet message command w x replies h =
      elim (Bool-cases (dialect.to_int command.param1 == dialect.config_id)) [
        | inr other ↦ (ground (arith, other, h), ground (arith, other, h))
        | inl config ↦ absurd (
            if-Never (dialect.to_int command.param2 == 0) _ _
              (status-Never wifi_ap message command w)
              (if-Never (dialect.to_int command.param2 == 1) _ _
                (status-Never wifi_sta_connection message command w) (response-Never [] w))
              replies x (ground (arith, config, h)))
      ]

  -- A message that the Wi-Fi microservice ignores has no reply and changes nothing.
  pub process-ignored :
      (message : M) (w x : System S (Wireless N)) (replies : List Reply)
      → process dialect ds provider driver mods message w ≡ some (ignored, replies, x)
      → (replies ≡ []) × (x ≡ w)
  unfolding process process_command Never
  process-ignored message w x replies h =
      elim (Bool-cases (dialect.msg_id message == dialect.config_id)) [
        | inl config ↦
            let m = dialect.decode_config message in
            absurd (config-Never m.mode m w replies x (ground (arith, config, h)))
        | inr other ↦
            elim (Bool-cases (
              (dialect.msg_id message == dialect.command_int_id)
              || (dialect.msg_id message == dialect.command_long_id))) [
                | inl command ↦
                    let c = make_command_long dialect message in
                    elim (Bool-cases (
                      (c.target_system == dialect.own_sysid)
                      && (c.target_component == dialect.own_compid)
                      && (c.command == dialect.cmd_request_message))) [
                        | inl ours ↦
                            request_quiet message c w x replies
                              (ground (arith, other, command, ours, h))
                        | inr foreign ↦ (
                          ground (arith, other, command, foreign, h),
                          ground (arith, other, command, foreign, h),
                        )
                      ]
                | inr neither ↦
                    (ground (arith, other, neither, h), ground (arith, other, neither, h))
              ]
      ]

-- ===== src/Mavlink/FtpClient/Handlers.antt =====
-- The handlers of Microservice/BftFtpClient.cpp: an incoming message, the timer, a file that is
-- ready to be sent, and the delayed packing of a request.
use esp32cam.Base.{
  ℕ, ◌-◌, List, [], ◌∷◌, Bool, ◌==◌, ◌||◌, not, Option, none, some, if◌then◌else◌, length, leb, u8,
}
use esp32cam.Storage.File.{FileSystem, File, file_read}
use esp32cam.Mavlink.Ftp.{
  Payload, FileTransferProtocol, Dialect, terminate_session, write_file, open_file_wo, ack, nak,
  max_data_length, sys_id, zeroed, set_open_file_session_fields, set_write_file_fields,
  set_terminate_session_fields,
}
use esp32cam.Mavlink.FtpClient.{
  State, idle, creating_session, transferring, closing_session, state_max, Client, in_progress,
  finished, failed, exceeded_attempts, session_refused, chunk_refused, close_refused, max_attempts,
  push_event, start_once, stop_timer, notify, handle_successful_attempt_common,
  handle_failed_attempt_common, state_transferring_is_eof, handle_idle_transition,
  handle_creating_session_transition, handle_closing_session_transition,
  handle_transferring_transition, handle_successful_attempt_transferring,
  resend_file_transfer_request,
}

-- `Microservice::Ret`
pub data Ret : Type 0 where
  ignored response no_response : Ret

-- The return value, the message passed to `aOnResponse` if that was called, and the state.
pub record Reaction (S : Type 0) : Type 0 where
  pub ret : Ret
  pub reply : Option FileTransferProtocol
  pub client : Client S

-- "/dev/LuaScript/0"
abbrev pub temporary_file_path : List ℕ
temporary_file_path =
    47 ∷ 100 ∷ 101 ∷ 118 ∷ 47 ∷ 76 ∷ 117 ∷ 97 ∷ 83 ∷ 99 ∷ 114 ∷ 105 ∷ 112 ∷ 116 ∷ 47 ∷ 48 ∷ []

abbrev pub quiet : {S : Type 0} → Ret → Client S → Option (Reaction S)
quiet r c = some (record { ret = r; reply = none; client = c })

-- `kStateNameMapping[state]`, read out of its three entries by the states behind them.
unfoldable pub state_name_index : State → Option ℕ
state_name_index idle = some 0
state_name_index creating_session = some 1
state_name_index transferring = some 2
state_name_index closing_session = none
state_name_index state_max = none

-- The incoming session id against that of the session that is open.
abbrev pub validate_session_id : {S : Type 0} → Payload → Client S → Bool
validate_session_id p c = p.session == c.session_id

module _ {S : Type 0} (dialect : Dialect) (fs : FileSystem S) (release : File → S → S)
    (wq : Bool) where
  -- `initializeMavlinkMessage` behind its `switch`, for the state that has been read there: the
  -- message as it is left, and the client.
  abbrev pub pack_in :
      State → FileTransferProtocol → Client S → Option (FileTransferProtocol × Client S)
  pack_in state m c = elim state [
    | idle ↦ some (m, c)
    | creating_session ↦ some (
      set_open_file_session_fields dialect c.sequence open_file_wo temporary_file_path
          (length temporary_file_path) zeroed,
      c,
    )
    | transferring ↦ elim c.file [
      | none ↦ none
      | some f ↦
          let (b, s) = file_read fs f max_data_length c.store in
          let p = record (zeroed.payload) { bytes = b; size = u8 (length b) } in
          some (
            set_write_file_fields dialect c.sequence c.session_id c.file_offset
                (record zeroed { payload = p }),
            record c { store = s },
          )
    ]
    | closing_session ↦
        some (set_terminate_session_fields dialect c.sequence c.session_id zeroed, c)
    | state_max ↦ some (m, c)
  ]

  -- `initializeMavlinkMessage` when nothing comes between its reads.
  unfoldable pub initialize_mavlink_message :
      FileTransferProtocol → Client S → Option (FileTransferProtocol × Client S)
  initialize_mavlink_message m c = pack_in c.state m c

  -- Pack the next request into the message, and answer with it.
  abbrev pub respond : (Client S → Client S) → FileTransferProtocol → Client S → Option (Reaction S)
  respond after m c = elim (initialize_mavlink_message m c) [
    | none ↦ none
    | some (m', c') ↦ some (record { ret = response; reply = some m'; client = after c' })
  ]

  unfoldable pub process_creating_session : FileTransferProtocol → Client S → Option (Reaction S)
  process_creating_session m c = elim m.payload.req_opcode [
    | open_file_wo ↦ elim m.payload.opcode [
      | ack ↦
          elim (handle_transferring_transition fs m.payload.session
            (handle_successful_attempt_common (stop_timer c))) [
              | none ↦ none
              | some c' ↦ respond start_once m c'
            ]
      | nak ↦
          quiet no_response
            (push_event wq (failed session_refused) (handle_idle_transition release (stop_timer c)))
      | _ ↦ quiet no_response (stop_timer c)
    ]
    | _ ↦ quiet no_response c
  ]

  -- Close the session at the end of the file.
  abbrev pub close_at_eof : Client S → Client S
  close_at_eof c =
      if state_transferring_is_eof c then handle_closing_session_transition release c else c

  abbrev pub report_progress : Client S → Client S
  report_progress c = push_event wq (in_progress c.file_offset c.file_size) (start_once c)

  unfoldable pub process_transferring : FileTransferProtocol → Client S → Option (Reaction S)
  process_transferring m c = elim m.payload.req_opcode [
    | write_file ↦ elim m.payload.opcode [
      | ack ↦
          if not (validate_session_id m.payload c)
          then quiet ignored (stop_timer c)
          else elim (handle_successful_attempt_transferring fs (stop_timer c)) [
            | none ↦ none
            | some c' ↦ respond report_progress m (close_at_eof c')
          ]
      | nak ↦ respond start_once m (
          handle_closing_session_transition release
            (push_event wq (failed chunk_refused) (stop_timer c)))
      | _ ↦ quiet ignored (stop_timer c)
    ]
    | _ ↦ quiet ignored c
  ]

  -- The session id is compared for the log only.
  unfoldable pub process_closing_session : FileTransferProtocol → Client S → Option (Reaction S)
  process_closing_session m c = elim m.payload.req_opcode [
    | terminate_session ↦ elim m.payload.opcode [
      | ack ↦
          quiet no_response (handle_idle_transition release (push_event wq finished (stop_timer c)))
      | nak ↦
          quiet no_response
            (push_event wq (failed close_refused) (handle_idle_transition release (stop_timer c)))
      | _ ↦ quiet ignored (stop_timer c)
    ]
    | _ ↦ quiet ignored c
  ]

  unfoldable pub process : ℕ → FileTransferProtocol → Client S → Option (Reaction S)
  process msg_id m c =
      if not (msg_id == dialect.msg_id_file_transfer_protocol)
      then quiet ignored c
      else if not (m.target_component == dialect.comp_id_udp_bridge)
          || not (m.target_system == sys_id)
      then quiet ignored c
      else elim c.state [
        | idle ↦ quiet ignored c
        | creating_session ↦ process_creating_session m c
        | transferring ↦ process_transferring m c
        | closing_session ↦ process_closing_session m c
        | state_max ↦ quiet ignored c
      ]

  -- The `switch` of `onHrTimer` when the attempts have run out, and the event behind it.
  abbrev pub cancel_transfer : Client S → Client S
  cancel_transfer c = push_event wq (failed exceeded_attempts) (elim c.state [
    | idle ↦ handle_idle_transition release c
    | creating_session ↦ handle_idle_transition release c
    | closing_session ↦ handle_idle_transition release c
    | transferring ↦ handle_closing_session_transition release c
    | state_max ↦ handle_closing_session_transition release c
  ])

  -- The first half of `onHrTimer`: give up, with the name of the state in the log, or count the
  -- attempt. None is a name that is read behind the table.
  unfoldable pub count_attempt : Client S → Option (Client S)
  count_attempt c =
      if leb max_attempts c.i_attempt
      then elim (state_name_index c.state) [ none ↦ none | some name ↦ some (cancel_transfer c) ]
      else some (handle_failed_attempt_common c)

  -- The second half: send again what the state asks for.
  unfoldable pub resend : Client S → Option (Client S)
  resend c = elim c.state [
    | idle ↦ some c
    | creating_session ↦ some (start_once (notify c))
    | transferring ↦ elim (resend_file_transfer_request fs c) [
      | none ↦ none
      | some c' ↦ some (start_once c')
    ]
    | closing_session ↦ some (start_once (notify c))
    | state_max ↦ some (start_once c)
  ]

  -- The timer is one-shot: it is no longer armed when it fires.
  unfoldable pub on_hr_timer : Client S → Option (Client S)
  on_hr_timer c = elim (count_attempt (stop_timer c)) [ none ↦ none | some c' ↦ resend c' ]

  unfoldable pub on_file_buffering_finished : File → Client S → Client S
  on_file_buffering_finished f c = elim c.state [
    | idle ↦ start_once (notify (handle_creating_session_transition release f c))
    | _ ↦ c
  ]

  -- The work queue reaches a request that waits, and the client packs the message with no other
  -- handler in between. The code takes no mutex there.
  unfoldable pub send_delayed : Client S → Option (FileTransferProtocol × Client S)
  send_delayed c = initialize_mavlink_message zeroed (record c { queued = c.queued - 1 })

-- ===== src/Mavlink/FtpClient.antt =====
-- components/mav/priv_include/Microservice/BftFtpClient.{hpp,cpp}: the client that uploads a
-- buffered file to the autopilot. A null `bftFile` that is dereferenced is `none`,
-- and so is a name read behind the table of the names of the states.
pub mod Handlers
pub mod Inv
pub mod Timeout
pub mod Stall
pub mod Upload
pub mod Endless
pub mod Requests
pub mod Race
use esp32cam.Base.{
  ℕ, ◌+◌, List, [], ◌∷◌, Bool, true, false, ◌==◌, Option, none, some, if◌then◌else◌, add32, u16,
}
use esp32cam.Storage.File.{FileSystem, File, position_start, file_seek, current_position}

-- `RequestRepeat::State`
pub data State : Type 0 where
  idle creating_session transferring closing_session state_max : State

-- `Bft::TransferUpdateEvent`; the messages of a failure are told apart by its place.
pub data Failure : Type 0 where
  exceeded_attempts session_refused chunk_refused close_refused : Failure

pub data Event : Type 0 where
  in_progress : ℕ → ℕ → Event
  finished : Event
  failed : Failure → Event

-- `RequestRepeat`, the file system behind the file, the timer, the requests for a delayed message
-- that wait in the work queue, and the events pushed there (the newest first). The two union
-- members that hold a session id share their first word; the others keep theirs.
pub record Client (S : Type 0) : Type 0 where
  pub state : State
  pub session_id : ℕ
  pub file_offset : ℕ
  pub file_size : ℕ
  pub i_attempt : ℕ
  pub file : Option File
  pub sequence : ℕ
  pub store : S
  pub armed : Bool
  pub queued : ℕ
  pub events : List Event

-- knMaxAttempts
abbrev pub max_attempts : ℕ
max_attempts = 10

-- The work queue may not exist yet.
abbrev pub push_event : {S : Type 0} → Bool → Event → Client S → Client S
push_event work_queue e c = if work_queue then record c { events = e ∷ c.events } else c

abbrev pub start_once : {S : Type 0} → Client S → Client S
start_once c = record c { armed = true }

abbrev pub stop_timer : {S : Type 0} → Client S → Client S
stop_timer c = record c { armed = false }

abbrev pub notify : {S : Type 0} → Client S → Client S
notify c = record c { queued = c.queued + 1 }

abbrev pub handle_transition_common : {S : Type 0} → Client S → Client S
handle_transition_common c = record c { i_attempt = 0 }

abbrev pub handle_successful_attempt_common : {S : Type 0} → Client S → Client S
handle_successful_attempt_common c = record c { i_attempt = 0; sequence = u16 (c.sequence + 1) }

abbrev pub handle_failed_attempt_common : {S : Type 0} → Client S → Client S
handle_failed_attempt_common c = record c { i_attempt = add32 c.i_attempt 1 }

abbrev pub state_transferring_is_eof : {S : Type 0} → Client S → Bool
state_transferring_is_eof c = c.file_offset == c.file_size

-- `release` is the deleter of the shared pointer to the file, run when the client drops it.
module _ {S : Type 0} (release : File → S → S) where
  abbrev pub reset_file : Client S → Client S
  reset_file c = elim c.file [
    | none ↦ c
    | some f ↦ record c { file = none; store = release f c.store }
  ]

  unfoldable pub handle_idle_transition : Client S → Client S
  handle_idle_transition c = record (reset_file c) { state = idle }

  unfoldable pub handle_creating_session_transition : File → Client S → Client S
  handle_creating_session_transition f c = record (reset_file (handle_transition_common c)) {
    file = some f;
    state = creating_session;
  }

  unfoldable pub handle_closing_session_transition : Client S → Client S
  handle_closing_session_transition c = record (reset_file (handle_transition_common c)) {
    state = closing_session;
  }

module _ {S : Type 0} (fs : FileSystem S) where
  -- The size of the file is asked for behind the seek to its start.
  unfoldable pub handle_transferring_transition : ℕ → Client S → Option (Client S)
  handle_transferring_transition session c = elim c.file [
    | none ↦ none
    | some f ↦
        let s1 = (file_seek fs f 0 position_start c.store).1 in
        let (size, s2) = current_position fs f s1 in
        some (record c {
          i_attempt = 0;
          store = s2;
          session_id = session;
          file_offset = 0;
          file_size = size;
          state = transferring;
        })
  ]

  unfoldable pub handle_successful_attempt_transferring : Client S → Option (Client S)
  handle_successful_attempt_transferring c = elim c.file [
    | none ↦ none
    | some f ↦
        let (position, s) = current_position fs f c.store in
        some (record (handle_successful_attempt_common c) { file_offset = position; store = s })
  ]

  unfoldable pub resend_file_transfer_request : Client S → Option (Client S)
  resend_file_transfer_request c = elim c.file [
    | none ↦ none
    | some f ↦
        some (notify (record c { store = (file_seek fs f c.file_offset position_start c.store).1 }))
  ]

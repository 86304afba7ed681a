-- ===== src/Mavlink/FtpClient/Inv.antt =====
-- The invariant of Microservice/BftFtpClient.cpp over sequences of handlers that run one behind the
-- other.
use esp32cam.Base.{
  ℕ, ◌-◌, ◌≡◌, ◌≤◌, ◌⊎◌, ◌∙◌, inl, inr, ap, List, [], ◌∷◌, ◌++◌, refl, arith, Bool, true, Option,
  none, some, if◌then◌else◌, ◌==◌, subst,
}
use esp32cam.Storage.File.{FileSystem, File}
use esp32cam.Mavlink.Ftp.{FileTransferProtocol, Dialect, zeroed}
use esp32cam.Mavlink.FtpClient.{
  State, idle, creating_session, transferring, closing_session, state_max, Client, max_attempts,
  handle_idle_transition, handle_creating_session_transition, handle_closing_session_transition,
  handle_transferring_transition, handle_successful_attempt_transferring,
  resend_file_transfer_request,
}
use esp32cam.Mavlink.FtpClient.Handlers.{
  Reaction, process, on_hr_timer, on_file_buffering_finished, send_delayed,
  initialize_mavlink_message, process_creating_session, process_transferring,
  process_closing_session, count_attempt, resend, state_name_index,
}

-- A file is held in the two states that read it, and in no other; `StateMax` is never entered.
abbrev pub FileMatches : State → Option File → Type 0
FileMatches idle f = f ≡ none
FileMatches creating_session f = (h : File) × (f ≡ some h)
FileMatches transferring f = (h : File) × (f ≡ some h)
FileMatches closing_session f = f ≡ none
FileMatches state_max f = ⊥

pub record IsValid {S : Type 0} (c : Client S) : Type 0 where
  pub file_lem : FileMatches c.state c.file
  pub attempts : c.i_attempt ≤ max_attempts

-- A handler came back with a valid client.
abbrev pub Safe : {S : Type 0} → Option (Reaction S) → Type 0
Safe none = ⊥
Safe (some r) = IsValid r.client

module _ {S : Type 0} (dialect : Dialect) (fs : FileSystem S) (release : File → S → S) (wq : Bool)
    (m : FileTransferProtocol) where
  creating-Safe :
      (c : Client S)
      → c.state ≡ creating_session
      → IsValid c
      → Safe (process_creating_session dialect fs release wq m c)
  unfolding process_creating_session handle_transferring_transition handle_idle_transition
      initialize_mavlink_message
  creating-Safe c e v = ground arith

  transferring-Safe :
      (c : Client S)
      → c.state ≡ transferring
      → IsValid c
      → Safe (process_transferring dialect fs release wq m c)
  unfolding process_transferring handle_successful_attempt_transferring
      handle_closing_session_transition initialize_mavlink_message
  transferring-Safe c e v = ground arith

  closing-Safe :
      (c : Client S)
      → c.state ≡ closing_session
      → IsValid c
      → Safe (process_closing_session dialect fs release wq m c)
  unfolding process_closing_session handle_idle_transition
  closing-Safe c e v = ground arith

  process-Safe :
      (msg_id : ℕ) (c : Client S) → IsValid c → Safe (process dialect fs release wq msg_id m c)
  unfolding process
  process-Safe msg_id c v = ground (arith, creating-Safe c, transferring-Safe c, closing-Safe c)

abbrev pub SafeClient : {S : Type 0} → Option (Client S) → Type 0
SafeClient none = ⊥
SafeClient (some c) = IsValid c

module _ {S : Type 0} (dialect : Dialect) (fs : FileSystem S) (release : File → S → S)
    (wq : Bool) where
  pub buffered-IsValid :
      (f : File) (c : Client S)
      → IsValid c
      → IsValid (on_file_buffering_finished dialect fs release wq f c)
  unfolding on_file_buffering_finished handle_creating_session_transition
  buffered-IsValid f c v = ground arith

  initialize-Safe :
      (m : FileTransferProtocol) (c : Client S)
      → IsValid c
      → SafeClient (elim (initialize_mavlink_message dialect fs release wq m c) [
        | none ↦ none
        | some q ↦ some q.1
      ])
  unfolding initialize_mavlink_message
  initialize-Safe m c v = ground arith

-- What may happen to the client, one handler behind the other. The environment chooses: messages
-- arrive in any order and with any content, also forged, the timer fires when it is armed, files get
-- ready, and the work queue gets to a waiting request, also when the state has moved on.
pub data Input : Type 0 where
  arrives : ℕ → FileTransferProtocol → Input
  fires : Input
  buffered : File → Input
  packs : Input

module _ {S : Type 0} (dialect : Dialect) (fs : FileSystem S) (release : File → S → S)
    (wq : Bool) where
  unfoldable pub step : Input → Client S → Option (Client S)
  step (arrives msg_id m) c = elim (process dialect fs release wq msg_id m c) [
    | none ↦ none
    | some r ↦ some r.client
  ]
  step fires c = if c.armed then on_hr_timer dialect fs release wq c else some c
  step (buffered f) c = some (on_file_buffering_finished dialect fs release wq f c)
  step packs c =
      if c.queued == 0
      then some c
      else elim (send_delayed dialect fs release wq c) [ none ↦ none | some q ↦ some q.1 ]

  unfoldable pub run : List Input → Client S → Option (Client S)
  run [] c = some c
  run (i ∷ is) c = elim (step i c) [ none ↦ none | some c' ↦ run is c' ]

  pub run-step :
      (i : Input) (is : List Input) (c c' : Client S)
      → step i c ≡ some c'
      → run (i ∷ is) c ≡ run is c'
  unfolding run
  run-step i is c c' e = rw (e, run)

  -- The timer fires when the attempts to close a session have run out.
  abbrev pub Lost : Input → Client S → Type 0
  Lost fires c = (c.armed ≡ true) × (c.state ≡ closing_session) × (c.i_attempt ≡ max_attempts)
  Lost (arrives msg_id m) c = ⊥
  Lost (buffered f) c = ⊥
  Lost packs c = ⊥

  Lost-fires : (i : Input) (c : Client S) → Lost i c → i ≡ fires
  Lost-fires fires c h = refl
  Lost-fires (arrives msg_id m) c h = absurd h
  Lost-fires (buffered f) c h = absurd h
  Lost-fires packs c h = absurd h

  abbrev SafeOr : Type 0 → Option (Client S) → Type 0
  SafeOr P none = P
  SafeOr P (some c) = IsValid c

  SafeOr-cases :
      (P : Type 0) (o : Option (Client S))
      → SafeOr P o
      → ((c : Client S) × (o ≡ some c) × IsValid c) ⊎ ((o ≡ none) × P)
  SafeOr-cases P none h = inr (refl, h)
  SafeOr-cases P (some c) h = inl (c, refl, h)

  fires-Safe : (c : Client S) → IsValid c → SafeOr (Lost fires c) (step fires c)
  unfolding step on_hr_timer count_attempt resend state_name_index handle_idle_transition
      handle_closing_session_transition resend_file_transfer_request
  fires-Safe c v = ground arith

  step-Safe : (i : Input) (c : Client S) → IsValid c → SafeOr (Lost i c) (step i c)
  unfolding step send_delayed
  step-Safe (arrives msg_id m) c v = ground (arith, process-Safe dialect fs release wq m msg_id c)
  step-Safe fires c v = fires-Safe c v
  step-Safe (buffered f) c v = buffered-IsValid dialect fs release wq f c v
  step-Safe packs c v =
      ground
        (arith, initialize-Safe dialect fs release wq zeroed (record c { queued = c.queued - 1 }))

  -- An input comes in that state, behind some of the inputs.
  abbrev pub Stopped : List Input → Client S → Type 0
  Stopped is c =
      (before : List Input) × (after : List Input) × (c' : Client S) × (is
        ≡ before ++ fires ∷ after)
      × (run before c ≡ some c')
      × Lost fires c'

  pub run-lost :
      (i : Input) (is : List Input) (c : Client S) → step i c ≡ none → run (i ∷ is) c ≡ none
  unfolding run
  run-lost i is c e = rw (e, run)

  -- Whatever the order of the handlers, which run one behind the other, messages of any content, the
  -- timer, files that get ready and delayed requests leave a valid client, which holds a file exactly
  -- while it creates a session or transfers and counts at most ten attempts, and no null file is
  -- dereferenced, with one exception: the timer fires when the ten attempts to close a session have
  -- run out, and the name of that state is read behind the table.
  pub run_safe :
      (inputs : List Input) (c : Client S)
      → IsValid c
      → ((c' : Client S) × (run inputs c ≡ some c') × IsValid c')
        ⊎ ((run inputs c ≡ none) × Stopped inputs c)
  unfolding run
  run_safe [] c v = inl (c, refl, v)
  run_safe (i ∷ is) c v = elim (SafeOr-cases (Lost i c) _ (step-Safe i c v)) [
    | inr (lost, now) ↦
        let fired = Lost-fires i c now in
        inr (
          run-lost i is c lost,
          ([], is, c, ap (λ (j : Input). j ∷ is) fired, refl, subst (λ j. Lost j c) fired now),
        )
    | inl (c1, e, v1) ↦ elim (run_safe is c1 v1) [
      | inl (c', e', v') ↦ inl (c', run-step i is c c1 e ∙ e', v')
      | inr (lost, (before, after, c', split, reached, now)) ↦ inr (
        run-step i is c c1 e ∙ lost,
        (i ∷ before, after, c', ap (◌∷◌ i) split, run-step i before c c1 e ∙ reached, now),
      )
    ]
  ]

-- ===== src/Mavlink/FtpClient/Race.antt =====
-- Microservice/BftFtpClient.cpp without a mutex around the packing of a delayed request.
use esp32cam.Base.{◌≡◌, arith, Bool, Option, none, some}
use esp32cam.Storage.File.{FileSystem, File}
use esp32cam.Mavlink.Ftp.{Dialect, zeroed}
use esp32cam.Mavlink.FtpClient.{
  Client, transferring, closing_session, max_attempts, handle_closing_session_transition,
}
use esp32cam.Mavlink.FtpClient.Handlers.{
  pack_in, send_delayed, initialize_mavlink_message, on_hr_timer, count_attempt, resend,
  state_name_index,
}
use esp32cam.Mavlink.FtpClient.Inv.{IsValid}

-- A handler came back, with such a result.
abbrev pub CameBack : {A : Type 0} → (A → Type 0) → Option A → Type 0
CameBack P none = ⊥
CameBack P (some a) = P a

module _ {S : Type 0} (dialect : Dialect) (fs : FileSystem S) (release : File → S → S)
    (wq : Bool) where
  -- A delayed request of a valid client that transfers and whose attempts have run out: packed with
  -- nothing in between, it reads the file and the client goes on transferring; when the timer fires
  -- behind the test of the state and in front of the read, the client closes the session, the file is
  -- null there, and is dereferenced.
  pub pack-on_hr_timer :
      (c : Client S)
      → IsValid c
      → c.state ≡ transferring
      → c.i_attempt ≡ max_attempts
      → CameBack (λ q. q.1.state ≡ transferring) (send_delayed dialect fs release wq c)
        × CameBack
            (λ c'.
              (c'.state ≡ closing_session)
              × (pack_in dialect fs release wq c.state zeroed c' ≡ none))
            (on_hr_timer dialect fs release wq c)
  unfolding send_delayed initialize_mavlink_message on_hr_timer count_attempt resend
      state_name_index handle_closing_session_transition
  pack-on_hr_timer c v t over = ground (arith, v.file_lem)

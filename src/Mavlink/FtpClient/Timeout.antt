-- ===== src/Mavlink/FtpClient/Timeout.antt =====
-- Microservice/BftFtpClient.cpp without an answer: the timer's retries end.
use esp32cam.Base.{ℕ, ◌-◌, ◌≡◌, ◌≤◌, true, Option, none, some, ◌⊎◌}
use esp32cam.Storage.File.{File}
use esp32cam.Mavlink.FtpClient.{
  idle, creating_session, transferring, closing_session, state_max, Client,
}
use esp32cam.Mavlink.FtpClient.Inv.{IsValid}

-- The timer is armed while a request is open.
abbrev pub Waits : {S : Type 0} → Client S → Type 0
Waits c = (c.state ≡ idle) ⊎ (c.armed ≡ true)

-- How often the timer may still fire before the client is idle.
abbrev pub patience : {S : Type 0} → Client S → ℕ
patience c = elim c.state [
  | idle ↦ 0
  | creating_session ↦ 11 - c.i_attempt
  | transferring ↦ 22 - c.i_attempt
  | closing_session ↦ 11 - c.i_attempt
  | state_max ↦ 0
]

-- A session is still to be opened, or one is open.
abbrev pub Opening : {S : Type 0} → Client S → Type 0
Opening c = (c.state ≡ idle) ⊎ (c.state ≡ creating_session)

abbrev pub Opened : {S : Type 0} → Client S → Type 0
Opened c = (c.state ≡ transferring) ⊎ (c.state ≡ closing_session)

-- A fired timer left a valid client of that kind that is still waiting, with less patience than `p`.
abbrev Fired : {S : Type 0} → (Client S → Type 0) → ℕ → Option (Client S) → Type 0
Fired P p none = ⊥
Fired P p (some c) = IsValid c × Waits c × P c × (patience c ≤ p - 1)

-- The same, or the read behind the table.
abbrev FiredOrLost : {S : Type 0} → ℕ → Option (Client S) → Type 0
FiredOrLost p none = Unit {0}
FiredOrLost p (some c) = IsValid c × Waits c × Opened c × (patience c ≤ p - 1)

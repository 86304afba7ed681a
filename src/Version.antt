-- ===== src/Version.antt =====
-- components/version/VersionParser.cpp: finds the version of the flight controller in what its UART
-- sends, frames of a prefix, a size, a payload of that size and a postfix.
use esp32cam.Base.{
  ℕ, zero, suc, ◌≡◌, List, [], ◌∷◌, ◌++◌, Bool, true, false, ◌==◌, if◌then◌else◌, ltb, ◌+◌, ◌-◌,
}
pub mod Frame
pub mod Sound
mod Tests

-- `State::id`.
pub data Stage : Type 0 where
  start prefix size payload postfix end : Stage

-- `state` with its `info`, and `pl`.
pub record Parser : Type 0 where
  pub id : Stage
  pub info : ℕ
  pub pl : List ℕ

-- `reset`, and what the constructor gives.
abbrev pub reset : Parser
reset = record { id = start; info = 0; pl = [] }

-- `prefix[i]`, `postfix[i]`: 'f', 'w', 'v' and 'F', 'W', 'V'.
abbrev pub prefix_at : ℕ → ℕ
prefix_at i = if i == 0 then 102 else if i == 1 then 119 else 118

abbrev pub postfix_at : ℕ → ℕ
postfix_at i = if i == 0 then 70 else if i == 1 then 87 else 86

unfoldable pub parsed : Parser → Bool
parsed s = elim s.id [ end ↦ true | _ ↦ false ]

-- The cases of `iter`. After `reset`, the inner `iter(byte)` is in the first case.
unfoldable pub iter_start : Parser → ℕ → Parser
iter_start s byte = if byte == prefix_at 0 then record { id = prefix; info = 1; pl = s.pl } else s

unfoldable pub iter_size : Parser → ℕ → Parser
iter_size s byte = record { id = payload; info = byte; pl = s.pl }

unfoldable pub iter_prefix : Parser → ℕ → Parser
iter_prefix s byte =
    if ltb s.info 3
    then (if prefix_at s.info == byte
        then record { id = prefix; info = s.info + 1; pl = s.pl }
        else iter_start reset byte)
    else iter_size (record { id = size; info = s.info; pl = s.pl }) byte

unfoldable pub iter_payload : Parser → ℕ → Parser
iter_payload s byte =
    if ltb 0 s.info
    then record { id = payload; info = s.info - 1; pl = s.pl ++ byte ∷ [] }
    else if byte == postfix_at 0
    then record { id = postfix; info = 1; pl = s.pl }
    else iter_start reset byte

unfoldable pub iter_postfix : Parser → ℕ → Parser
iter_postfix s byte =
    if ltb s.info 3
    then (if byte == postfix_at s.info
        then record { id = postfix; info = s.info + 1; pl = s.pl }
        else iter_start reset byte)
    else record { id = end; info = s.info; pl = s.pl }

unfoldable pub iter : Parser → ℕ → Parser
iter s byte = elim s.id [
  | start ↦ iter_start s byte
  | prefix ↦ iter_prefix s byte
  | size ↦ iter_size s byte
  | payload ↦ iter_payload s byte
  | postfix ↦ iter_postfix s byte
  | end ↦ s
]

-- The bytes in turn, until the parser is done.
unfoldable pub parse : Parser → List ℕ → Parser
parse s [] = s
parse s (byte ∷ bytes) = if parsed s then s else parse (iter s byte) bytes

-- `versionInit`: what the UART reads return, until the parser is done or the time is up.
unfoldable pub acquire : Parser → List (List ℕ) → Parser
acquire s [] = s
acquire s (buffer ∷ buffers) = if parsed s then s else acquire (parse s buffer) buffers

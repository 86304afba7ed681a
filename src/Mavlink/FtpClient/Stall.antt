-- ===== src/Mavlink/FtpClient/Stall.antt =====
-- Microservice/BftFtpClient.cpp: an answer that stops the retry timer and starts nothing.
use esp32cam.Base.{ℕ, ◌≡◌, ◌≢◌, List, [], ◌∷◌, refl, ◌∙◌, arith, Bool, false, Option, none, some}
use esp32cam.Storage.File.{FileSystem, File}
use esp32cam.Mavlink.Ftp.{Dialect, FileTransferProtocol, write_file, ack, sys_id}
use esp32cam.Mavlink.FtpClient.{Client, transferring}
use esp32cam.Mavlink.FtpClient.Handlers.{
  process, process_transferring, on_file_buffering_finished, send_delayed,
  initialize_mavlink_message,
}
use esp32cam.Mavlink.FtpClient.Inv.{
  IsValid, Input, arrives, fires, buffered, packs, step, run, run-step,
}

-- No message arrives.
abbrev pub Silent : List Input → Type 0
Silent [] = Unit {0}
Silent (arrives msg_id m ∷ is) = ⊥
Silent (fires ∷ is) = Silent is
Silent (buffered f ∷ is) = Silent is
Silent (packs ∷ is) = Silent is

abbrev pub Addressed : Dialect → ℕ → FileTransferProtocol → Type 0
Addressed dialect msg_id m =
    (msg_id ≡ dialect.msg_id_file_transfer_protocol)
    × (m.target_component ≡ dialect.comp_id_udp_bridge)
    × (m.target_system ≡ sys_id)

abbrev Stalled : {S : Type 0} → Option (Client S) → Type 0
Stalled none = ⊥
Stalled (some c) = IsValid c × (c.state ≡ transferring) × (c.armed ≡ false)

module _ {S : Type 0} (dialect : Dialect) (fs : FileSystem S) (release : File → S → S)
    (wq : Bool) where
  step-Stalled :
      (i : Input) (c : Client S)
      → Silent (i ∷ [])
      → Stalled (some c)
      → Stalled (step dialect fs release wq i c)
  unfolding step send_delayed on_file_buffering_finished initialize_mavlink_message
  step-Stalled (arrives msg_id m) c q h = absurd q
  step-Stalled fires c q h = ground arith
  step-Stalled (buffered f) c q h = ground arith
  step-Stalled packs c q h = ground arith

  Stalled-some :
      (o : Option (Client S)) → Stalled o → (c : Client S) × (o ≡ some c) × Stalled (some c)
  Stalled-some none h = absurd h
  Stalled-some (some c) h = (c, refl, h)

  run-Stalled :
      (is : List Input) (c : Client S)
      → Silent is
      → Stalled (some c)
      → (c' : Client S) × (run dialect fs release wq is c ≡ some c') × (c'.state ≡ transferring)
  unfolding run
  run-Stalled [] c q h = (c, refl, h.1)
  run-Stalled (arrives msg_id m ∷ is) c q h = absurd q
  run-Stalled (fires ∷ is) c q h =
      let (c1, e, h1) = Stalled-some _ (step-Stalled fires c tt h) in
      let (c', e', t) = run-Stalled is c1 q h1 in
      (c', run-step dialect fs release wq fires is c c1 e ∙ e', t)
  run-Stalled (buffered f ∷ is) c q h =
      let (c1, e, h1) = Stalled-some _ (step-Stalled (buffered f) c tt h) in
      let (c', e', t) = run-Stalled is c1 q h1 in
      (c', run-step dialect fs release wq (buffered f) is c c1 e ∙ e', t)
  run-Stalled (packs ∷ is) c q h =
      let (c1, e, h1) = Stalled-some _ (step-Stalled packs c tt h) in
      let (c', e', t) = run-Stalled is c1 q h1 in
      (c', run-step dialect fs release wq packs is c c1 e ∙ e', t)

  mismatch-Stalled :
      (msg_id : ℕ) (m : FileTransferProtocol) (c : Client S)
      → IsValid c
      → c.state ≡ transferring
      → Addressed dialect msg_id m
      → m.payload.req_opcode ≡ write_file
      → m.payload.opcode ≡ ack
      → m.payload.session ≢ c.session_id
      → Stalled (step dialect fs release wq (arrives msg_id m) c)
  unfolding step process process_transferring
  mismatch-Stalled msg_id m c v t a r o s = ground arith

  -- An acknowledgement of a chunk that carries another session id stops the retry timer for good:
  -- whatever happens then, short of a further message, the transfer neither goes on nor is given up,
  -- and no new file is taken.
  pub mismatch-stalls :
      (msg_id : ℕ) (m : FileTransferProtocol) (c : Client S) (is : List Input)
      → IsValid c
      → c.state ≡ transferring
      → Addressed dialect msg_id m
      → m.payload.req_opcode ≡ write_file
      → m.payload.opcode ≡ ack
      → m.payload.session ≢ c.session_id
      → Silent is
      → (c' : Client S) × (run dialect fs release wq (arrives msg_id m ∷ is) c ≡ some c')
        × (c'.state ≡ transferring)
  mismatch-stalls msg_id m c is v t a r o s q =
      let (c1, e, h) = Stalled-some _ (mismatch-Stalled msg_id m c v t a r o s) in
      let (c', e', t') = run-Stalled is c1 q h in
      (c', run-step dialect fs release wq (arrives msg_id m) is c c1 e ∙ e', t')

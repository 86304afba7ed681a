-- ===== src/Mavlink/FtpClient/Endless.antt =====
-- Microservice/BftFtpClient.cpp over the RAM file: the size of the file is taken behind a seek to
-- its start, and so no upload of a file with a byte ends.
use esp32cam.Base.{
  ℕ, ◌+◌, ◌-◌, ◌≡◌, ◌≢◌, ◌<◌, List, [], ◌∷◌, refl, ◌∙◌, sym, min, arith, Bool, true, some, u16,
}
use esp32cam.Storage.File.{File}
use esp32cam.Storage.Ram.{Ram, ram_fs}
use esp32cam.Storage.Ram.Inv
use esp32cam.Mavlink.Ftp.{
  Dialect, FileTransferProtocol, write_file, open_file_wo, ack, max_data_length,
  set_write_file_fields,
}
use esp32cam.Mavlink.FtpClient.{
  Client, creating_session, transferring, handle_transferring_transition,
}
use esp32cam.Mavlink.FtpClient.Handlers.{
  process, process_creating_session, initialize_mavlink_message,
}
use esp32cam.Mavlink.FtpClient.Inv.{Input, arrives, step, run, run-step}
use esp32cam.Mavlink.FtpClient.Stall.{Addressed}
use esp32cam.Mavlink.FtpClient.Upload.{
  Holds, position_lem, rewind_lem, chunk_lem, after_chunk, acked_lem,
}

-- The inputs are acknowledged chunks of the session `sid`.
abbrev pub Acks : Dialect → ℕ → List Input → Type 0
Acks dialect sid [] = Unit {0}
Acks dialect sid (Input.arrives msg_id m ∷ is) =
    (Addressed dialect msg_id m
      × (m.payload.req_opcode ≡ write_file)
      × (m.payload.opcode ≡ ack)
      × (m.payload.session ≡ sid))
    × Acks dialect sid is
Acks dialect sid (Input.fires ∷ is) = ⊥
Acks dialect sid (Input.buffered f ∷ is) = ⊥
Acks dialect sid (Input.packs ∷ is) = ⊥

record Uploading (f : File) (sid : ℕ) (c : Client Ram) : Type 0 where
  holds : Holds f c
  state_lem : c.state ≡ transferring
  no_size : c.file_size ≡ 0
  begun : 0 < c.store.current
  session_lem : c.session_id ≡ sid

module _ (dialect : Dialect) (release : File → Ram → Ram) (wq : Bool) where
  after_chunk-Uploading :
      (f : File) (sid : ℕ) (c : Client Ram)
      → Uploading f sid c
      → Uploading f sid (after_chunk dialect release wq c)
  after_chunk-Uploading f sid c u = record {
    holds = record {
      held = ground (arith, u.holds.held);
      attached = u.holds.attached;
      same = ground (arith, u.holds.same);
      valid = ground (arith, u.holds.valid);
    };
    state_lem = ground (arith, u.state_lem);
    no_size = ground (arith, u.no_size);
    begun = ground (arith, u.begun);
    session_lem = ground (arith, u.session_lem);
  }

  ack-step :
      (msg_id : ℕ) (m : FileTransferProtocol) (f : File) (c : Client Ram)
      → Holds f c
      → c.state ≡ transferring
      → Addressed dialect msg_id m
      → m.payload.req_opcode ≡ write_file
      → m.payload.opcode ≡ ack
      → m.payload.session ≡ c.session_id
      → c.store.current ≢ c.file_size
      → step dialect ram_fs release wq (arrives msg_id m) c
        ≡ some (after_chunk dialect release wq c)
  unfolding step
  ack-step msg_id m f c h t a r o s z =
      rw (acked_lem dialect release wq msg_id m f c h t a r o s z, step)

  run-Uploading :
      (f : File) (sid : ℕ) (is : List Input) (c : Client Ram)
      → Uploading f sid c
      → Acks dialect sid is
      → (c' : Client Ram) × (run dialect ram_fs release wq is c ≡ some c') × Uploading f sid c'
  unfolding run
  run-Uploading f sid [] c u q = (c, refl, u)
  run-Uploading f sid (Input.arrives msg_id m ∷ is) c u ((a, r, o, s), q) =
      let e =
        ack-step msg_id m f c u.holds u.state_lem a r o (s ∙ sym u.session_lem)
          (λ z. absurd (omega (arith, z, u.no_size, u.begun))) in
      let (c', e', u') =
        run-Uploading f sid is (after_chunk dialect release wq c) (after_chunk-Uploading f sid c u)
          q in
      (c', run-step dialect ram_fs release wq (arrives msg_id m) is c _ e ∙ e', u')
  run-Uploading f sid (Input.fires ∷ is) c u q = absurd q
  run-Uploading f sid (Input.buffered g ∷ is) c u q = absurd q
  run-Uploading f sid (Input.packs ∷ is) c u q = absurd q

  abbrev after_open : ℕ → Client Ram → Client Ram
  after_open sid c = record c {
    state = transferring;
    session_id = sid;
    file_offset = 0;
    file_size = 0;
    i_attempt = 0;
    sequence = u16 (c.sequence + 1);
    store = record (c.store) { current = 0 + min max_data_length (c.store.next_write - 0) };
    armed = true;
  }

  rewound : Ram → Ram
  rewound s = record s { current = 0 }

  open-step :
      (msg_id : ℕ) (m : FileTransferProtocol) (f : File) (c : Client Ram)
      → Holds f c
      → c.state ≡ creating_session
      → Addressed dialect msg_id m
      → m.payload.req_opcode ≡ open_file_wo
      → m.payload.opcode ≡ ack
      → step dialect ram_fs release wq (arrives msg_id m) c ≡ some (after_open m.payload.session c)
  unfolding step process process_creating_session handle_transferring_transition
      initialize_mavlink_message set_write_file_fields rewound
  open-step msg_id m f c h t a r o =
      let v : Inv.IsValid (rewound c.store) = ground (arith, h.valid) in
      ground (
        arith,
        rewind_lem f c.store h.attached h.same h.valid,
        position_lem f (rewound c.store) h.attached h.same v,
        chunk_lem f (rewound c.store) h.attached h.same v,
      )

  -- The upload of a file with at least one byte never ends: however many chunks the autopilot
  -- acknowledges after it has opened the session, the client goes on transferring. It takes the size
  -- of the file after its cursor was put back to the start, that is 0, and no chunk ends there.
  pub never_finishes :
      (msg_id : ℕ) (m : FileTransferProtocol) (f : File) (c : Client Ram) (is : List Input)
      → Holds f c
      → c.state ≡ creating_session
      → 0 < c.store.next_write
      → Addressed dialect msg_id m
      → m.payload.req_opcode ≡ open_file_wo
      → m.payload.opcode ≡ ack
      → Acks dialect m.payload.session is
      → (c' : Client Ram) × (run dialect ram_fs release wq (arrives msg_id m ∷ is) c ≡ some c')
        × (c'.state ≡ transferring)
        × (c'.file_size ≡ 0)
  never_finishes msg_id m f c is h t z a r o q =
      let e = open-step msg_id m f c h t a r o in
      let u : Uploading f m.payload.session (after_open m.payload.session c) = record {
        holds = record {
          held = h.held;
          attached = h.attached;
          same = h.same;
          valid = ground (arith, h.valid);
        };
        state_lem = refl;
        no_size = refl;
        begun = omega arith;
        session_lem = refl;
      } in
      let (c', e', u') = run-Uploading f m.payload.session is _ u q in
      (
        c',
        run-step dialect ram_fs release wq (arrives msg_id m) is c _ e ∙ e',
        u'.state_lem,
        u'.no_size,
      )

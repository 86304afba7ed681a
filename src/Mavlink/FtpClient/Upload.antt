-- ===== src/Mavlink/FtpClient/Upload.antt =====
-- Microservice/BftFtpClient.cpp over the RAM file: which bytes a chunk carries, and that the end of
-- the file is never seen.
use esp32cam.Base.{
  ℕ, ◌+◌, ◌-◌, ◌≡◌, ◌≢◌, List, refl, ap, ◌∙◌, sym, min, arith, Bool, true, false, some, take, drop,
  length, u8, u16, drop-take, take-take-min,
}
use esp32cam.Storage.File.{File, position_start, file_seek, file_read, current_position}
use esp32cam.Storage.Ram
use esp32cam.Storage.Ram.{Ram, ram_fs}
use esp32cam.Storage.Ram.Inv.{content, seek-eq, read-eq}
use esp32cam.Storage.Ram.Inv
use esp32cam.Mavlink.Ftp.{
  Dialect, FileTransferProtocol, write_file, ack, max_data_length, sys_id, zeroed,
  set_write_file_fields,
}
use esp32cam.Mavlink.FtpClient.{Client, transferring, handle_successful_attempt_transferring}
use esp32cam.Mavlink.FtpClient.Handlers.{
  response, process, process_transferring, initialize_mavlink_message, report_progress,
}
use esp32cam.Mavlink.FtpClient.Stall.{Addressed}

-- The client holds the open file of a valid RAM file system.
pub record Holds (f : File) (c : Client Ram) : Type 0 where
  pub held : c.file ≡ some f
  pub attached : f.attached ≡ true
  pub same : f.descriptor ≡ c.store.pool
  pub valid : Inv.IsValid c.store

module _ (f : File) (s : Ram) (a : f.attached ≡ true) (e : f.descriptor ≡ s.pool)
    (v : Inv.IsValid s) where
  pub position_lem : current_position ram_fs f s ≡ (s.current, s)
  unfolding current_position Ram.seek
  position_lem = ground arith

  pub rewind_lem : (file_seek ram_fs f 0 position_start s).1 ≡ record s { current = 0 }
  unfolding file_seek Ram.seek
  rewind_lem = ground arith

  -- How many bytes a chunk has.
  abbrev pub chunk_size : ℕ
  chunk_size = min max_data_length (s.next_write - s.current)

  pub chunk_lem : file_read ram_fs f max_data_length s ≡ (
    take max_data_length (drop s.current (content s)),
    record s { current = s.current + chunk_size },
  )
  unfolding file_read
  chunk_lem = rw a (
      read-eq f.descriptor v max_data_length chunk_size e refl
      ∙ ap (λ b. (b, record s { current = s.current + chunk_size }))
          (sym (take-take-min max_data_length (s.next_write - s.current) (drop s.current s.bytes))
            ∙ ap (take max_data_length) (sym (drop-take s.current s.next_write s.bytes))))

-- The chunk that a client sends next: up to 239 bytes from the cursor of its file on.
abbrev pub next_bytes : Client Ram → List ℕ
next_bytes c = take max_data_length (drop c.store.current (content c.store))

abbrev pub next_chunk : Dialect → Client Ram → FileTransferProtocol
next_chunk dialect c = record {
  target_network = 0;
  target_system = dialect.comp_id_autopilot1;
  target_component = sys_id;
  payload = record (zeroed.payload) {
    seq_number = u16 (c.sequence + 1);
    session = u8 c.session_id;
    opcode = write_file;
    size = u8 (length (next_bytes c));
    offset = c.store.current;
    bytes = next_bytes c;
  };
}

module _ (dialect : Dialect) (release : File → Ram → Ram) (wq : Bool) where
  abbrev pub after_chunk : Client Ram → Client Ram
  after_chunk c = report_progress dialect ram_fs release wq (record c {
    i_attempt = 0;
    sequence = u16 (c.sequence + 1);
    file_offset = c.store.current;
    store = record (c.store) {
      current = c.store.current + min max_data_length (c.store.next_write - c.store.current);
    };
    armed = false;
  })

  -- An acknowledged chunk: the client, holding an open RAM file, answers with the bytes that follow
  -- in the file, at most 239 of them, at the offset where they stand in it, and keeps the transfer
  -- going behind them, unless that offset is what it takes for the size of the file.
  pub acked_lem :
      (msg_id : ℕ) (m : FileTransferProtocol) (f : File) (c : Client Ram)
      → Holds f c
      → c.state ≡ transferring
      → Addressed dialect msg_id m
      → m.payload.req_opcode ≡ write_file
      → m.payload.opcode ≡ ack
      → m.payload.session ≡ c.session_id
      → c.store.current ≢ c.file_size
      → process dialect ram_fs release wq msg_id m c
        ≡ some
            (record { ret = response; reply = some (next_chunk dialect c); client = after_chunk c })
  unfolding process process_transferring handle_successful_attempt_transferring
      initialize_mavlink_message set_write_file_fields
  acked_lem msg_id m f c h t a r o s z = ground (
    arith,
    position_lem f c.store h.attached h.same h.valid,
    chunk_lem f c.store h.attached h.same h.valid,
  )

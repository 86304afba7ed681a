-- ===== src/Mavlink/FtpClient/Requests.antt =====
-- The requests that Microservice/BftFtpClient.cpp packs when the work queue gets to them.
use esp32cam.Base.{
  ℕ, ◌+◌, ◌-◌, ◌≡◌, ◌≢◌, ◌↔◌, ◌≤◌, min, arith, Bool, true, Option, none, some, take, drop, u8,
}
use esp32cam.Storage.File.{FileSystem, File, position_start, file_seek}
use esp32cam.Storage.Ram
use esp32cam.Storage.Ram.{Ram, ram_fs}
use esp32cam.Storage.Ram.Inv
use esp32cam.Storage.Ram.Inv.{content}
use esp32cam.Mavlink.Ftp.{
  Dialect, FileTransferProtocol, write_file, terminate_session, ack, max_data_length,
  set_write_file_fields, set_terminate_session_fields,
}
use esp32cam.Mavlink.FtpClient.{Client, transferring, closing_session, resend_file_transfer_request}
use esp32cam.Mavlink.FtpClient.Handlers.{
  process, send_delayed, initialize_mavlink_message, on_hr_timer, count_attempt, resend,
  state_name_index,
}
use esp32cam.Mavlink.FtpClient.Stall.{Addressed}
use esp32cam.Mavlink.FtpClient.Upload.{Holds, chunk_lem, after_chunk, acked_lem}

-- What packing gave: the message, and the client behind it.
abbrev pub Packed :
    {S : Type 0}
    → (FileTransferProtocol → Client S → Type 0)
    → Option (FileTransferProtocol × Client S)
    → Type 0
Packed P none = ⊥
Packed P (some q) = P q.0 q.1

module _ {S : Type 0} (dialect : Dialect) (fs : FileSystem S) (release : File → S → S)
    (wq : Bool) where
  -- The request to close a session names the session only where the number of the message happens
  -- to be its id: the field is filled with the sequence number. The client stays as it was, but for
  -- the request that has left the queue.
  pub close_request_session :
      (c : Client S)
      → c.state ≡ closing_session
      → Packed
          (λ m c'.
            (m.payload.opcode ≡ terminate_session)
            × ((m.payload.session ≡ u8 c.session_id) ↔ (u8 c.sequence ≡ u8 c.session_id))
            × (c' ≡ record c { queued = c.queued - 1 }))
          (send_delayed dialect fs release wq c)
  unfolding send_delayed initialize_mavlink_message set_terminate_session_fields
  close_request_session c t = ground arith

module _ (dialect : Dialect) (release : File → Ram → Ram) (wq : Bool) where
  seek-offset :
      (f : File) (off : ℕ) (s : Ram)
      → f.attached ≡ true
      → f.descriptor ≡ s.pool
      → Inv.IsValid s
      → off ≤ s.next_write
      → (file_seek ram_fs f off position_start s).1 ≡ record s { current = off }
  unfolding file_seek Ram.seek
  seek-offset f off s a e v h = ground arith

  -- A repeated chunk is the chunk that was not acknowledged: when the timer fires, with attempts
  -- left, and the request is packed before anything else happens, the message carries the bytes
  -- that stand in the file at the offset that was acknowledged last, with that offset.
  pub repeated_chunk :
      (f : File) (c : Client Ram)
      → Holds f c
      → c.state ≡ transferring
      → c.i_attempt ≤ 9
      → c.file_offset ≤ c.store.next_write
      → Packed
          (λ m c'.
            (m.payload.opcode ≡ write_file)
            × (m.payload.offset ≡ c.file_offset)
            × (m.payload.bytes ≡ take max_data_length (drop c.file_offset (content c.store)))
            × (m.payload.session ≡ u8 c.session_id)
            × (c'.queued ≡ c.queued)
            × (c'.armed ≡ true))
          (elim (on_hr_timer dialect ram_fs release wq c) [
            | none ↦ none
            | some c1 ↦ send_delayed dialect ram_fs release wq c1
          ])
  unfolding send_delayed initialize_mavlink_message set_write_file_fields on_hr_timer count_attempt
      resend state_name_index resend_file_transfer_request
  repeated_chunk f c h t n o =
      let s1 : Ram = record (c.store) { current = c.file_offset } in
      let v : Inv.IsValid s1 = ground (arith, h.valid) in
      ground (
        arith,
        seek-offset f c.file_offset c.store h.attached h.same h.valid,
        chunk_lem f s1 h.attached h.same v,
      )

  -- A repeated request that is packed after its acknowledgement has come in is misplaced: with such
  -- a request waiting, the message carries the bytes behind the chunk that was just sent, and the
  -- offset of that chunk.
  pub late_chunk_misplaced :
      (msg_id : ℕ) (m : FileTransferProtocol) (f : File) (c : Client Ram)
      → Holds f c
      → c.state ≡ transferring
      → Addressed dialect msg_id m
      → m.payload.req_opcode ≡ write_file
      → m.payload.opcode ≡ ack
      → m.payload.session ≡ c.session_id
      → c.store.current ≢ c.file_size
      → Packed
          (λ late c'.
            (late.payload.offset ≡ c.store.current)
            × (late.payload.bytes
                ≡ take max_data_length (
                    drop
                      (c.store.current + min max_data_length (c.store.next_write - c.store.current))
                      (content c.store))))
          (elim (process dialect ram_fs release wq msg_id m c) [
            | none ↦ none
            | some r ↦ send_delayed dialect ram_fs release wq r.client
          ])
  unfolding send_delayed initialize_mavlink_message set_write_file_fields
  late_chunk_misplaced msg_id m f c h t a r o s z =
      let s1 : Ram = (after_chunk dialect release wq c).store in
      let v : Inv.IsValid s1 = ground (arith, h.valid) in
      let e : f.descriptor ≡ s1.pool = ground (arith, h.same) in
      rw (acked_lem dialect release wq msg_id m f c h t a r o s z)
        (ground (arith, chunk_lem f s1 h.attached e v))

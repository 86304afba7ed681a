-- ===== src/Mavlink/Tests.antt =====
-- The FTP client at concrete inputs.
use esp32cam.Base.{
  ℕ, ◌≡◌, ◌+◌, List, [], ◌∷◌, refl, arith, true, some, none, Option, ◌⊎◌, take, drop,
}
use esp32cam.Storage.File.{File}
use esp32cam.Storage.Ram.{Ram, ram_fs}
use esp32cam.Storage.Ram.Inv.{content}
use esp32cam.Mavlink.Ftp.{
  Dialect, FileTransferProtocol, Op, write_file, open_file_wo, ack, terminate_session, zeroed,
  max_data_length,
}
use esp32cam.Mavlink.FtpClient.{Client, State, creating_session, transferring, closing_session}
use esp32cam.Mavlink.FtpClient.Handlers.{response, process, send_delayed, on_hr_timer, pack_in}
use esp32cam.Mavlink.FtpClient.Inv.{
  IsValid, Input, arrives, fires, buffered, packs, run, Stopped, run_safe,
}
use esp32cam.Mavlink.FtpClient.Race.{CameBack, pack-on_hr_timer}
use esp32cam.Mavlink.FtpClient.Stall.{mismatch-stalls}
use esp32cam.Mavlink.FtpClient.Upload.{Holds, next_chunk, after_chunk, acked_lem}
use esp32cam.Mavlink.FtpClient.Endless.{never_finishes}
use esp32cam.Mavlink.FtpClient.Requests.{Packed, repeated_chunk, late_chunk_misplaced}

-- common.xml: FILE_TRANSFER_PROTOCOL, MAV_COMP_ID_UDP_BRIDGE, MAV_COMP_ID_AUTOPILOT1
abbrev common : Dialect
common = record {
  msg_id_file_transfer_protocol = 110;
  comp_id_udp_bridge = 240;
  comp_id_autopilot1 = 1;
}

abbrev store : Ram
store = record {
  pool = 4096;
  bytes = 7 ∷ 8 ∷ 9 ∷ [];
  deletes = 0;
  pool_size = 3;
  next_write = 3;
  current = 2;
}

abbrev file : File
file = record { descriptor = 4096; attached = true; name_hash = 0 }

abbrev keep : File → Ram → Ram
keep f s = s

abbrev client : State → Option File → Client Ram
client st f = record {
  state = st;
  session_id = 5;
  file_offset = 0;
  file_size = 0;
  i_attempt = 0;
  file = f;
  sequence = 1;
  store = store;
  armed = true;
  queued = 1;
  events = [];
}

abbrev uploading : Client Ram
uploading = client transferring (some file)

abbrev opening : Client Ram
opening = client creating_session (some file)

abbrev closing : Client Ram
closing = client closing_session none

abbrev answer : Op → Op → ℕ → FileTransferProtocol
answer request op session = record {
  target_network = 0;
  target_system = 1;
  target_component = 240;
  payload = record (zeroed.payload) { session = session; opcode = op; req_opcode = request };
}

uploading-IsValid : IsValid uploading
uploading-IsValid = record { file_lem = (file, refl); attempts = omega arith }

uploading-Holds : Holds file uploading
uploading-Holds = record { held = refl; attached = refl; same = refl; valid = omega arith }

opening-Holds : Holds file opening
opening-Holds = record { held = refl; attached = refl; same = refl; valid = omega arith }

abbrev mixed : List Input
mixed =
    packs
    ∷ fires
    ∷ arrives 110 (answer write_file ack 5)
    ∷ buffered file
    ∷ arrives 110 (answer terminate_session ack 5)
    ∷ []

run_safe_example :
    ((c' : Client Ram) × (run common ram_fs keep true mixed uploading ≡ some c') × IsValid c')
    ⊎ ((run common ram_fs keep true mixed uploading ≡ none)
        × Stopped common ram_fs keep true mixed uploading)
run_safe_example = run_safe common ram_fs keep true mixed uploading uploading-IsValid

abbrev out_of_attempts : Client Ram
out_of_attempts = record uploading { i_attempt = 10 }

pack-on_hr_timer_example :
    CameBack (λ q. q.1.state ≡ transferring) (send_delayed common ram_fs keep true out_of_attempts)
    × CameBack
        (λ c'.
          (c'.state ≡ closing_session)
          × (pack_in common ram_fs keep true transferring zeroed c' ≡ none))
        (on_hr_timer common ram_fs keep true out_of_attempts)
pack-on_hr_timer_example =
    pack-on_hr_timer common ram_fs keep true out_of_attempts
      (record { file_lem = (file, refl); attempts = omega arith }) refl refl

mismatch-stalls_example :
    (c' : Client Ram) × (run common ram_fs keep true
        (arrives 110 (answer write_file ack 6) ∷ fires ∷ buffered file ∷ [])
        uploading
      ≡ some c')
    × (c'.state ≡ transferring)
mismatch-stalls_example =
    mismatch-stalls common ram_fs keep true 110 (answer write_file ack 6) uploading
      (fires ∷ buffered file ∷ []) uploading-IsValid refl (refl, refl, refl) refl refl (omega arith)
      tt

acked_lem_example :
    process common ram_fs keep true 110 (answer write_file ack 5) uploading
    ≡ some (record {
      ret = response;
      reply = some (next_chunk common uploading);
      client = after_chunk common keep true uploading;
    })
acked_lem_example =
    acked_lem common keep true 110 (answer write_file ack 5) file uploading uploading-Holds refl
      (refl, refl, refl) refl refl refl (omega arith)

never_finishes_example :
    (c' : Client Ram) × (run common ram_fs keep true
        (arrives 110 (answer open_file_wo ack 5) ∷ arrives 110 (answer write_file ack 5) ∷ [])
        opening
      ≡ some c')
    × (c'.state ≡ transferring)
    × (c'.file_size ≡ 0)
never_finishes_example =
    never_finishes common keep true 110 (answer open_file_wo ack 5) file opening
      (arrives 110 (answer write_file ack 5) ∷ []) opening-Holds refl (omega arith)
      (refl, refl, refl) refl refl (((refl, refl, refl), refl, refl, refl), tt)

repeated_chunk_example :
    Packed
      (λ m c'.
        (m.payload.opcode ≡ write_file)
        × (m.payload.offset ≡ 0)
        × (m.payload.bytes ≡ 7 ∷ 8 ∷ 9 ∷ [])
        × (m.payload.session ≡ 5)
        × (c'.queued ≡ 1)
        × (c'.armed ≡ true))
      (elim (on_hr_timer common ram_fs keep true uploading) [
        | none ↦ none
        | some c1 ↦ send_delayed common ram_fs keep true c1
      ])
repeated_chunk_example =
    repeated_chunk common keep true file uploading uploading-Holds refl (omega arith) (omega arith)

late_chunk_misplaced_example :
    Packed
      (λ late c'.
        (late.payload.offset ≡ 2)
        × (late.payload.bytes ≡ take max_data_length (drop (2 + 1) (content store))))
      (elim (process common ram_fs keep true 110 (answer write_file ack 5) uploading) [
        | none ↦ none
        | some r ↦ send_delayed common ram_fs keep true r.client
      ])
late_chunk_misplaced_example =
    late_chunk_misplaced common keep true 110 (answer write_file ack 5) file uploading
      uploading-Holds refl (refl, refl, refl) refl refl refl (omega arith)

-- ===== src/Mavlink/Ftp.antt =====
-- components/mav/priv_include/Microservice/Ftp/Types.hpp, Helper/FileTransferProtocol.hpp and
-- Globals.hpp: the payload of MAVLink FTP, and how the client fills it in.
use esp32cam.Base.{ℕ, ◌-◌, List, [], u8}

-- `Ftp::Op`; the last constructor is a byte that the enumeration does not name.
pub data Op : Type 0 where
  no_op terminate_session reset_sessions list_directory open_file_ro read_file create_file : Op
  write_file remove_file create_directory remove_directory open_file_wo truncate_file rename : Op
  calc_file_crc32 burst_read_file ack nak : Op
  unassigned : ℕ → Op

-- `Ftp::Payload`; `bytes` is the used front of `data`, the rest of which is 0.
pub record Payload : Type 0 where
  pub seq_number : ℕ
  pub session : ℕ
  pub opcode : Op
  pub size : ℕ
  pub req_opcode : Op
  pub burst_complete : ℕ
  pub offset : ℕ
  pub bytes : List ℕ

abbrev pub max_data_length : ℕ
max_data_length = 251 - 12

-- `mavlink_file_transfer_protocol_t`
pub record FileTransferProtocol : Type 0 where
  pub target_network : ℕ
  pub target_system : ℕ
  pub target_component : ℕ
  pub payload : Payload

-- The identifiers of the MAVLink dialect, which the build takes from the mavlink library.
pub record Dialect : Type 0 where
  pub msg_id_file_transfer_protocol : ℕ
  pub comp_id_udp_bridge : ℕ
  pub comp_id_autopilot1 : ℕ

abbrev pub sys_id : ℕ
sys_id = 1

-- `FileTransferProtocol{}`
abbrev pub zeroed : FileTransferProtocol
zeroed = record {
  target_network = 0;
  target_system = 0;
  target_component = 0;
  payload = record {
    seq_number = 0;
    session = 0;
    opcode = no_op;
    size = 0;
    req_opcode = no_op;
    burst_complete = 0;
    offset = 0;
    bytes = [];
  };
}

module _ (dialect : Dialect) where
  -- The default arguments name the autopilot's component as the system, and the own system as the
  -- component.
  abbrev pub addressed : Payload → FileTransferProtocol
  addressed p = record {
    target_network = 0;
    target_system = dialect.comp_id_autopilot1;
    target_component = sys_id;
    payload = p;
  }

  unfoldable pub set_open_file_session_fields :
      ℕ → Op → List ℕ → ℕ → FileTransferProtocol → FileTransferProtocol
  set_open_file_session_fields sequence op path path_length m = addressed (record (m.payload) {
    seq_number = sequence;
    opcode = op;
    bytes = path;
    size = u8 path_length;
  })

  -- Called without a buffer: the bytes are those that were read into the payload before.
  unfoldable pub set_write_file_fields : ℕ → ℕ → ℕ → FileTransferProtocol → FileTransferProtocol
  set_write_file_fields sequence session_id file_offset m = addressed (record (m.payload) {
    seq_number = sequence;
    session = u8 session_id;
    offset = file_offset;
    opcode = write_file;
  })

  -- The session field is given the sequence number.
  unfoldable pub set_terminate_session_fields : ℕ → ℕ → FileTransferProtocol → FileTransferProtocol
  set_terminate_session_fields sequence session_id m = addressed (record (m.payload) {
    seq_number = sequence;
    session = u8 sequence;
    opcode = terminate_session;
  })

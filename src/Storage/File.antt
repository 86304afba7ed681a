-- ===== src/Storage/File.antt =====
-- storage/FileSystem.hpp and storage/File.hpp: the file-system interface, and the handle that ties
-- a descriptor to a file system.
use esp32cam.Base.{ℕ, List, [], Bool, not, ◌==◌, ◌&&◌, neg32}

-- `FileSystem::Position`, an origin for `seek`; any other `int` acts as the start.
pub data Position : Type 0 where
  position_start position_current position_end : Position

-- PositionError = -4
abbrev pub position_error : ℕ
position_error = neg32 4

-- `FileDescriptor`: the address, or the identifier. 0 is invalid.
abbrev pub FileDescriptor : Type 0
FileDescriptor = ℕ

abbrev pub descriptor_is_valid : FileDescriptor → Bool
descriptor_is_valid fd = not (fd == 0)

abbrev pub invalidate : FileDescriptor → FileDescriptor
invalidate fd = 0

-- The virtual functions of `FileSystem` over the states `S` of an implementation: each returns the
-- new state beside its result. `read` returns the bytes that it copied out.
pub record FileSystem (S : Type 0) : Type 0 where
  pub close_file : FileDescriptor → S → S
  pub append : FileDescriptor → List ℕ → S → ℕ × S
  pub seek : FileDescriptor → ℕ → Position → S → ℕ × S
  pub read : FileDescriptor → ℕ → S → List ℕ × S

-- `File`, less its name's hash. `attached` is `fileSystem != nullptr`.
pub record File : Type 0 where
  pub descriptor : FileDescriptor
  pub attached : Bool
  pub name_hash : ℕ

module _ {S : Type 0} (fs : FileSystem S) where
  unfoldable pub file_append : File → List ℕ → S → ℕ × S
  file_append f bytes s = elim f.attached [
    | Bool.true ↦ fs.append f.descriptor bytes s
    | Bool.false ↦ (0, s)
  ]

  unfoldable pub file_seek : File → ℕ → Position → S → ℕ × S
  file_seek f offset origin s = elim f.attached [
    | Bool.true ↦ fs.seek f.descriptor offset origin s
    | Bool.false ↦ (position_error, s)
  ]

  unfoldable pub file_read : File → ℕ → S → List ℕ × S
  file_read f n s = elim f.attached [ Bool.true ↦ fs.read f.descriptor n s | Bool.false ↦ ([], s) ]

  -- `getCurrentPosition` moves the cursor by nothing.
  unfoldable pub current_position : File → S → ℕ × S
  current_position f s = elim f.attached [
    | Bool.true ↦ fs.seek f.descriptor 0 position_current s
    | Bool.false ↦ (0, s)
  ]

  unfoldable pub file_close : File → S → File × S
  file_close f s = elim (descriptor_is_valid f.descriptor && f.attached) [
    | Bool.true ↦ (
      record f { descriptor = invalidate f.descriptor; attached = Bool.false },
      fs.close_file f.descriptor s,
    )
    | Bool.false ↦ (f, s)
  ]

pub file_is_valid : File → Bool
file_is_valid f = descriptor_is_valid f.descriptor && f.attached

-- ===== src/Storage/Flushing.antt =====
-- storage/FlushingBufferFileSystem.{hpp,cpp}: a RAM file that is handed to the listeners whenever
-- it is full, and started over.
pub mod Listener
pub mod Lossless
use esp32cam.Base.{
  ℕ, zero, suc, ◌+◌, ◌*◌, List, [], ◌∷◌, Bool, true, false, ◌==◌, not, Option, none, some,
  if◌then◌else◌, length, drop,
}
use esp32cam.Storage.File.{
  FileSystem, File, FileDescriptor, Position, position_start, position_error, descriptor_is_valid,
  file_append, file_seek, file_read, file_close,
}

-- The outcome of a call: `Sys::panic` stops the program.
pub data Outcome {ℓ} (A : Type ℓ) : Type ℓ where
  done : A → Outcome A
  panicked : Outcome A
  -- The model's fuel ran out.
  out_of_fuel : Outcome A

-- `provided` is `bufferFileSystem != nullptr`, `store` the state of that file system.
pub record Flushing (S : Type 0) : Type 0 where
  pub provided : Bool
  pub buffer_file : Option File
  pub store : S

-- What `notifyAllOnFileBufferingFinished` does to the listeners' state `L` and to the file.
abbrev pub Notify : Type 0 → Type 0 → Type 0
Notify L S = File → Bool → L → S → Outcome (L × S)

module _ {S : Type 0} (fs : FileSystem S) where
  -- `try_open` of the buffer file system, and the hash of the file's name.
  unfoldable pub try_open :
      (ℕ → S → FileDescriptor × S) → ℕ → ℕ → Flushing S → Outcome (FileDescriptor × Flushing S)
  try_open open_buffer hash hint w = elim w.buffer_file [
    | some f ↦ done (0, w)
    | none ↦ elim w.provided [
      | false ↦ panicked
      | true ↦
          let (fd, s) = open_buffer hint w.store in
          let f : File = record { descriptor = fd; attached = true; name_hash = hash } in
          let w' : Flushing S = record w { buffer_file = some f; store = s } in
          done (if not (descriptor_is_valid fd) then 0 else fd, w')
    ]
  ]

  -- `tryAssertFileOperationValid`: the buffer file, if the operation may go on.
  unfoldable pub check_operation : FileDescriptor → Flushing S → Outcome (Option File)
  check_operation fd w = if not (descriptor_is_valid fd) then done none else elim w.buffer_file [
    | none ↦ panicked
    | some f ↦
        if not (fd == f.descriptor)
        then done none
        else if not w.provided
        then panicked
        else done (some f)
  ]

  unfoldable pub seek : FileDescriptor → ℕ → Position → Flushing S → Outcome (ℕ × Flushing S)
  seek fd offset origin w = elim (check_operation fd w) [
    | done (some f) ↦
        let (n, s) = file_seek fs f offset origin w.store in done (n, record w { store = s })
    | done none ↦ done (position_error, w)
    | panicked ↦ panicked
    | out_of_fuel ↦ out_of_fuel
  ]

  unfoldable pub read : FileDescriptor → ℕ → Flushing S → Outcome (List ℕ × Flushing S)
  read fd n w = elim (check_operation fd w) [
    | done (some f) ↦ let (b, s) = file_read fs f n w.store in done (b, record w { store = s })
    | done none ↦ done ([], w)
    | panicked ↦ panicked
    | out_of_fuel ↦ out_of_fuel
  ]

  -- The deleter of the shared pointer finds no buffer file left, and does nothing.
  unfoldable pub close_file : FileDescriptor → Flushing S → Flushing S
  close_file fd w = elim w.buffer_file [
    | none ↦ w
    | some f ↦
        if f.descriptor == fd
        then record w { buffer_file = none; store = (file_close fs f w.store).1 }
        else w
  ]

-- Two rounds for a byte are enough: one takes it, one flushes.
abbrev pub fuel_for : List ℕ → ℕ
fuel_for bytes = 2 * length bytes + 2

module _ {L : Type 0} {S : Type 0} (fs : FileSystem S) (notify : Notify L S) where
  -- What one round of the loop does once `append` has taken `n` bytes: flush, if that is not the
  -- whole of the buffer that the caller passed.
  unfoldable pub flush_if_short : File → ℕ → ℕ → L → S → Outcome (L × S)
  flush_if_short f total n l s = if n == total then done (l, s) else elim (notify f false l s) [
    | done (l', s') ↦ done (l', (file_seek fs f 0 position_start s').1)
    | panicked ↦ panicked
    | out_of_fuel ↦ out_of_fuel
  ]

  -- The loop of `append` over the bytes that are left.
  unfoldable pub append_loop : ℕ → File → ℕ → List ℕ → L → S → Outcome (L × S)
  append_loop zero f total rest l s = out_of_fuel
  append_loop (suc fuel) f total [] l s = done (l, s)
  append_loop (suc fuel) f total (b ∷ bs) l s =
      let (n, s') = file_append fs f (b ∷ bs) s in
      elim (flush_if_short f total n l s') [
        | done (l', s'') ↦ append_loop fuel f total (drop n (b ∷ bs)) l' s''
        | panicked ↦ panicked
        | out_of_fuel ↦ out_of_fuel
      ]

  unfoldable pub append : FileDescriptor → List ℕ → L → Flushing S → Outcome (ℕ × L × Flushing S)
  append fd bytes l w = elim (check_operation fs fd w) [
    | done (some f) ↦ elim (append_loop (fuel_for bytes) f (length bytes) bytes l w.store) [
      | done (l', s') ↦ done (length bytes, l', record w { store = s' })
      | panicked ↦ panicked
      | out_of_fuel ↦ out_of_fuel
    ]
    | done none ↦ done (0, l, w)
    | panicked ↦ panicked
    | out_of_fuel ↦ out_of_fuel
  ]

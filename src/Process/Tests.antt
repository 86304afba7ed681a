-- ===== src/Process/Tests.antt =====
-- The flushing file system and the transfer at concrete inputs.
use esp32cam.Base.{ℕ, ◌≡◌, List, [], ◌∷◌, ◌++◌, refl, arith, true, some, length}
use esp32cam.Storage.File.{FileSystem, File, FileDescriptor}
use esp32cam.Storage.Ram.{Ram, ram_fs}
use esp32cam.Storage.Ram.Inv.{IsValid}
use esp32cam.Storage.Flushing.{Flushing, done, append}
use esp32cam.Storage.Flushing.Listener.{pending}
use esp32cam.Process.FileSystemTransfer.{Transfer, on_file_buffering_finished}
use esp32cam.Process.FileSystemTransfer.Chunks.{IsSink}
use esp32cam.Process.FileSystemTransfer.Copy.{append_transfers}

-- A destination that takes every byte.
abbrev paper : FileSystem (List ℕ)
paper = record {
  close_file = λ fd d. d;
  append = λ fd b d. (length b, d ++ b);
  seek = λ fd off o d. (0, d);
  read = λ fd n d. ([], d);
}

abbrev open_paper : List ℕ → FileDescriptor × List ℕ
open_paper d = (1, d)

abbrev printed : List ℕ → List ℕ
printed d = d

paper-IsSink : IsSink paper printed
paper-IsSink = record { append_lem = λ fd b d. (refl, refl) }

open_paper_keeps : (d : List ℕ) → printed (open_paper d).1 ≡ printed d
open_paper_keeps d = refl

-- Two bytes wait in a block of four.
abbrev buffer : Ram
buffer = record {
  pool = 4096;
  bytes = 1 ∷ 2 ∷ 0 ∷ 0 ∷ [];
  deletes = 0;
  pool_size = 4;
  next_write = 2;
  current = 2;
}

abbrev buffer_file : File
buffer_file = record { descriptor = 4096; attached = true; name_hash = 0 }

abbrev flushing : Flushing Ram
flushing = record { provided = true; buffer_file = some buffer_file; store = buffer }

abbrev idle_transfer : Transfer (List ℕ)
idle_transfer = record { provided = true; descriptor = 0; store = [] }

append_transfers_example :
    (t' : Transfer (List ℕ)) × (s' : Ram) × (append ram_fs
        (on_file_buffering_finished paper ram_fs open_paper)
        4096
        (3 ∷ 4 ∷ 5 ∷ 6 ∷ 7 ∷ [])
        idle_transfer
        flushing
      ≡ done (5, t', record flushing { store = s' }))
    × (t'.store ++ pending s' ≡ 1 ∷ 2 ∷ 3 ∷ 4 ∷ 5 ∷ 6 ∷ 7 ∷ [])
    × IsValid s'
append_transfers_example =
    append_transfers paper open_paper printed flushing buffer_file (3 ∷ 4 ∷ 5 ∷ 6 ∷ 7 ∷ [])
      idle_transfer paper-IsSink open_paper_keeps refl (omega arith) refl refl refl refl
      (omega arith) (omega arith)

-- ===== src/Process/FileSystemTransfer/Copy.antt =====
-- The copy of process/FileSystemTransferImplementor.cpp is complete, and so it is a listener that
-- storage/FlushingBufferFileSystem.cpp may rely on.
use esp32cam.Base.{
  ℕ, ◌+◌, ◌≡◌, ◌≢◌, List, ◌++◌, ap, ◌∙◌, arith, length, Bool, true, if◌then◌else◌, Bool-cases, inl,
  inr, some,
}
use esp32cam.Storage.File.{
  FileSystem, File, FileDescriptor, position_start, file_seek, current_position,
  descriptor_is_valid,
}
use esp32cam.Storage.Ram.{Ram, ram_fs}
use esp32cam.Storage.Ram
use esp32cam.Storage.Ram.Inv.{IsValid}
use esp32cam.Storage.Flushing.{Flushing, done, append}
use esp32cam.Storage.Flushing.Listener.{IsListener, pending}
use esp32cam.Storage.Flushing.Lossless.{append_lossless}
use esp32cam.Process.FileSystemTransfer.{Transfer, copy_loop, on_file_buffering_finished}
use esp32cam.Process.FileSystemTransfer.Chunks.{IsSink, copy_lem}

abbrev opened : {D : Type 0} → (D → FileDescriptor × D) → Transfer D → FileDescriptor × D
opened open_file t =
    if descriptor_is_valid t.descriptor then (t.descriptor, t.store) else open_file t.store

module _ (f : File) (a : f.attached ≡ true) {s : Ram} (v : IsValid s)
    (e : f.descriptor ≡ s.pool) where
  -- The size is asked for, and the cursor is put back to the start.
  rewind_lem :
      let (size, s1) = current_position ram_fs f s in
      (size ≡ s.current) × ((file_seek ram_fs f 0 position_start s1).1 ≡ record s { current = 0 })
  unfolding current_position file_seek Ram.seek
  rewind_lem = rw a (ground arith)

abbrev pub IsProvided : {D : Type 0} → Transfer D → Type 0
IsProvided t = t.provided ≡ true

module _ {D : Type 0} (dst : FileSystem D) (open_file : D → FileDescriptor × D) where
  finish_lem :
      (f : File) (last : Bool) (t : Transfer D) (s s2 : Ram) (size : ℕ) (d' : D) (s' : Ram)
      → IsProvided t
      → (current_position ram_fs f s).0 ≡ size
      → (file_seek ram_fs f 0 position_start (current_position ram_fs f s).1).1 ≡ s2
      → copy_loop dst ram_fs (size + 1) f (opened open_file t).0 size 0 (opened open_file t).1 s2
        ≡ done (d', s')
      → on_file_buffering_finished dst ram_fs open_file f last t s
        ≡ done (record t { descriptor = (opened open_file t).0; store = d' }, s')
  unfolding on_file_buffering_finished
  finish_lem f last t s s2 size d' s' p e1 e2 e3 = ground arith

  opened_keeps :
      (held : D → List ℕ) (t : Transfer D)
      → ((d : D) → held (open_file d).1 ≡ held d)
      → held (opened open_file t).1 ≡ held t.store
  opened_keeps held t keeps = elim (Bool-cases (descriptor_is_valid t.descriptor)) [
    | inl h ↦ rw h
    | inr h ↦ rw h (keeps t.store)
  ]

  -- If the destination takes every append whole, and opening its file keeps what it holds, then the
  -- transfer to a destination returns without a panic from every flush of an attached, valid RAM
  -- file whose cursor stands at its end: the destination has grown by exactly the file's bytes, and
  -- the RAM file stays valid in the same block.
  pub transfer_complete :
      (held : D → List ℕ) (f : File) (last : Bool) (t : Transfer D) (s : Ram)
      → IsSink dst held
      → ((d : D) → held (open_file d).1 ≡ held d)
      → IsValid s
      → f.descriptor ≡ s.pool
      → f.attached ≡ true
      → s.current ≡ s.next_write
      → IsProvided t
      → (t' : Transfer D) × (s' : Ram) × (on_file_buffering_finished dst ram_fs open_file f last t s
          ≡ done (t', s'))
        × (held t'.store ≡ held t.store ++ pending s)
        × IsProvided t'
        × IsValid s'
        × (s'.pool ≡ s.pool)
        × (s'.pool_size ≡ s.pool_size)
  transfer_complete held f last t s k keeps v e a full p =
      let (pos, rew) = rewind_lem f a v e in
      let s0 : Ram = record s { current = 0 } in
      let v0 : IsValid s0 = omega arith in
      let (d', s', eq, kept, v', p', q') =
        copy_lem dst held (s.current + 1) f (opened open_file t).0 s.current (opened open_file t).1
          s0 k a v0 e full (omega arith) in
      (
        record t { descriptor = (opened open_file t).0; store = d' },
        s',
        finish_lem f last t s s0 s.current d' s' p pos rew eq,
        kept ∙ ap (λ q. q ++ pending s) (opened_keeps held t keeps),
        p,
        v',
        p',
        q',
      )

  -- So the transfer is a listener as `FlushingBufferFileSystem` needs it.
  pub transfer-IsListener :
      (held : D → List ℕ)
      → IsSink dst held
      → ((d : D) → held (open_file d).1 ≡ held d)
      → IsListener
          (Transfer D)
          (on_file_buffering_finished dst ram_fs open_file)
          (λ t. held t.store)
          IsProvided
  transfer-IsListener held k keeps = record {
    notify_lem = λ f last t s v e a full p. transfer_complete held f last t s k keeps v e a full p;
  }

  -- The two together, over a destination as above: what is appended to the flushing file system is
  -- in the destination or pending in the buffer, in order and whole, whenever `append` returns; and
  -- it returns the length of what it was given.
  pub append_transfers :
      (held : D → List ℕ) (w : Flushing Ram) (f : File) (bytes : List ℕ) (t : Transfer D)
      → IsSink dst held
      → ((d : D) → held (open_file d).1 ≡ held d)
      → IsProvided t
      → IsValid w.store
      → w.provided ≡ true
      → w.buffer_file ≡ some f
      → f.attached ≡ true
      → f.descriptor ≡ w.store.pool
      → w.store.pool ≢ 0
      → w.store.pool_size ≢ 0
      → (t' : Transfer D) × (s' : Ram) × (append ram_fs
            (on_file_buffering_finished dst ram_fs open_file)
            f.descriptor
            bytes
            t
            w
          ≡ done (length bytes, t', record w { store = s' }))
        × (held t'.store ++ pending s' ≡ (held t.store ++ pending w.store) ++ bytes)
        × IsValid s'
  append_transfers held w f bytes t k keeps =
      append_lossless (on_file_buffering_finished dst ram_fs open_file) (λ u. held u.store)
        IsProvided w f bytes t (transfer-IsListener held k keeps)

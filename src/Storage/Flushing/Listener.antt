-- ===== src/Storage/Flushing/Listener.antt =====
-- The RAM file as storage/FlushingBufferFileSystem.cpp uses it, and what it relies on of its listeners.
use esp32cam.Base.{
  ℕ, ◌+◌, ◌≡◌, List, ◌++◌, refl, ap, ◌∙◌, sym, min, arith, take, length, Bool, true, overwrite,
  take-overwrite, length-take,
}
use esp32cam.Storage.File.{File, position_start, file_append, file_seek}
use esp32cam.Storage.Ram.{Ram, ram_fs}
use esp32cam.Storage.Ram.Inv.{IsValid, room, append-eq, seek-eq, append-IsValid, seek-IsValid}
use esp32cam.Storage.Flushing.{Notify, done}

-- What waits in the buffer to be flushed.
abbrev pub pending : Ram → List ℕ
pending s = take s.current s.bytes

-- What the file system relies on of the listeners: a flush with the cursor at the end of the file
-- hands them the pending bytes, and leaves a valid file in the same block. `Ready` are the states in
-- which they take a flush.
pub record IsListener (L : Type 0) (notify : Notify L Ram) (given : L → List ℕ) (Ready : L → Type 0)
    : Type 0 where
  pub notify_lem :
      (f : File) (last : Bool) (l : L) (s : Ram)
      → IsValid s
      → f.descriptor ≡ s.pool
      → f.attached ≡ true
      → s.current ≡ s.next_write
      → Ready l
      → (l' : L) × (s' : Ram) × (notify f last l s ≡ done (l', s'))
        × (given l' ≡ given l ++ pending s)
        × Ready l'
        × IsValid s'
        × (s'.pool ≡ s.pool)
        × (s'.pool_size ≡ s.pool_size)

module _ (f : File) {s : Ram} (v : IsValid s) (e : f.descriptor ≡ s.pool)
    (a : f.attached ≡ true) where
  pub pending-write :
      (b : List ℕ) (n : ℕ)
      → n ≡ min (length b) (room s)
      → take (s.current + n) (overwrite s.bytes s.current (take n b)) ≡ pending s ++ take n b
  pending-write b n h =
      take-overwrite s.bytes s.current (s.current + n) (take n b) (omega (arith, length-take n b))
        (omega arith)

  -- One append to the RAM file: the count, and the state it leaves.
  pub file_append_lem :
      (b : List ℕ)
      → let n = min (length b) (room s) in
        let (m, s') = file_append ram_fs f b s in
        (m ≡ n)
        × (pending s' ≡ pending s ++ take n b)
        × IsValid s'
        × (s'.pool ≡ s.pool)
        × (s'.pool_size ≡ s.pool_size)
        × (s'.current ≡ s.current + n)
        × (s'.current ≡ s'.next_write)
  unfolding file_append
  file_append_lem b =
      let n = min (length b) (room s) in
      let ok = append-IsValid f.descriptor v b in
      let eq = append-eq f.descriptor v b n refl in
      rw (a, file_append)
        (
          ap (λ r. r.0) eq,
          ap (λ r. pending r.1) eq ∙ pending-write b n refl,
          ok,
          ap (λ r. r.1.pool) eq,
          ap (λ r. r.1.pool_size) eq,
          ap (λ r. r.1.current) eq,
          ap (λ r. r.1.current) eq ∙ sym (ap (λ r. r.1.next_write) eq),
        )

  pub file_seek_lem :
      let s' = (file_seek ram_fs f 0 position_start s).1 in
      IsValid s' × (s'.current ≡ 0) × (s'.pool ≡ s.pool) × (s'.pool_size ≡ s.pool_size)
  unfolding file_seek
  file_seek_lem =
      let eq = seek-eq f.descriptor v 0 position_start e in
      rw (a, file_seek)
        (
          seek-IsValid f.descriptor v 0 position_start,
          ap (λ r. r.1.current) eq ∙ omega arith,
          ap (λ r. r.1.pool) eq,
          ap (λ r. r.1.pool_size) eq,
        )

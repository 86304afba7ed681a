-- ===== src/Process/FileSystemTransfer/Chunks.antt =====
-- The loop of process/FileSystemTransferImplementor.cpp over the chunks of a file.
use esp32cam.Base.{
  ℕ, zero, suc, ◌+◌, ◌-◌, ◌≡◌, ◌≢◌, ◌≤◌, ◌<◌, List, ◌++◌, refl, ap, ap₂, ◌∙◌, sym, min, arith, take,
  drop, length, true, append_assoc, append-nil, length-take, length-drop, drop-drop,
  take-append-drop, ltb, drop_of_length-le, take-take, drop-take, Bool-cases, inl, inr,
}
use esp32cam.Storage.File.{FileSystem, File, FileDescriptor, file_read}
use esp32cam.Storage.Ram.{Ram, ram_fs}
use esp32cam.Storage.Ram.Inv.{IsValid, read-eq, read-IsValid}
use esp32cam.Storage.Flushing.{done}
use esp32cam.Process.FileSystemTransfer.{temporary_buffer_size, copy_loop}

-- What the copy relies on of the destination: an append takes the whole buffer, at the end.
pub record IsSink {D : Type 0} (dst : FileSystem D) (held : D → List ℕ) : Type 0 where
  pub append_lem :
      (fd : FileDescriptor) (b : List ℕ) (d : D)
      → ((dst.append fd b d).0 ≡ length b) × (held (dst.append fd b d).1 ≡ held d ++ b)

module _ (f : File) (a : f.attached ≡ true) {s : Ram} (v : IsValid s)
    (e : f.descriptor ≡ s.pool) where
  pub file_read_lem :
      (size : ℕ)
      → let n = min size (s.next_write - s.current) in
        let (b, s') = file_read ram_fs f size s in
        (b ≡ take n (drop s.current s.bytes))
        × (length b ≡ n)
        × (s' ≡ record s { current = s.current + n })
        × IsValid s'
  unfolding file_read
  file_read_lem size =
      let n = min size (s.next_write - s.current) in
      let eq = read-eq f.descriptor v size n e refl in
      rw (a, file_read)
        (
          ap (λ r. r.0) eq,
          ap (λ r. length r.0) eq
              ∙ length-take n (drop s.current s.bytes)
              ∙ omega (arith, length-drop s.current s.bytes),
          ap (λ r. r.1) eq,
          read-IsValid f.descriptor v size,
        )

-- A chunk, and what is left behind it.
chunk_append :
    (n k size : ℕ) (xs : List ℕ)
    → n ≤ size - k
    → take n (drop k xs) ++ drop (k + n) (take size xs) ≡ drop k (take size xs)
chunk_append n k size xs h =
    ap₂ ◌++◌ (sym (take-take n (size - k) (drop k xs) h) ∙ ap (take n) (sym (drop-take k size xs)))
      (sym (drop-drop n k (take size xs)))
    ∙ take-append-drop n (drop k (take size xs))

module _ {D : Type 0} (dst : FileSystem D) (held : D → List ℕ) where
  copy_step :
      (fuel : ℕ) (f : File) (fd : FileDescriptor) (size flushed : ℕ) (d : D) (s : Ram)
      → let (b, s1) = file_read ram_fs f temporary_buffer_size s in
        let (written, d1) = dst.append fd b d in
        ltb flushed size ≡ true
        → length b ≢ 0
        → written ≡ length b
        → copy_loop dst ram_fs (suc fuel) f fd size flushed d s
          ≡ copy_loop dst ram_fs fuel f fd size (flushed + written) d1 s1
  unfolding copy_loop
  copy_step fuel f fd size flushed d s more some_read all = ground arith

  pub copy_lem :
      (fuel : ℕ) (f : File) (fd : FileDescriptor) (size : ℕ) (d : D) (s : Ram)
      → IsSink dst held
      → f.attached ≡ true
      → IsValid s
      → f.descriptor ≡ s.pool
      → size ≡ s.next_write
      → size < fuel + s.current
      → (d' : D) × (s' : Ram) × (copy_loop dst ram_fs fuel f fd size s.current d s ≡ done (d', s'))
        × (held d' ≡ held d ++ drop s.current (take size s.bytes))
        × IsValid s'
        × (s'.pool ≡ s.pool)
        × (s'.pool_size ≡ s.pool_size)
  unfolding copy_loop
  copy_lem zero f fd size d s k a v e z h = absurd (omega arith)
  copy_lem (suc fuel) f fd size d s k a v e z h = elim (Bool-cases (ltb s.current size)) [
    | inr over ↦ (
      d,
      s,
      rw over,
      sym (
          ap (λ q. held d ++ q)
            (drop_of_length-le s.current (take size s.bytes)
              (ground (arith, length-take size s.bytes)))
          ∙ append-nil (held d)),
      v,
      refl,
      refl,
    )
    | inl more ↦
        let (read_eq, count, state, v') = file_read_lem f a v e temporary_buffer_size in
        let n = min temporary_buffer_size (s.next_write - s.current) in
        let (b, s1) = file_read ram_fs f temporary_buffer_size s in
        let (wrote, holds) = k.append_lem fd b d in
        let d1 = (dst.append fd b d).1 in
        let cursor = ap (λ r. r.current) state in
        let (d', s', eq, kept, w, p, q) =
          copy_lem fuel f fd size d1 s1 k a v' (e ∙ sym (ap (λ r. r.pool) state))
            (z ∙ sym (ap (λ r. r.next_write) state)) (ground arith) in
        (
          d',
          s',
          copy_step fuel f fd size s.current d s more (ground arith) wrote
              ∙ ap (λ c. copy_loop dst ram_fs fuel f fd size c d1 s1) (omega arith)
              ∙ eq,
          kept
              ∙ ap₂ ◌++◌ holds
                  (ap₂ (λ c bs. drop c (take size bs)) cursor (ap (λ r. r.bytes) state))
              ∙ append_assoc (held d) b (drop (s.current + n) (take size s.bytes))
              ∙ ap (λ q. held d ++ q)
                  (ap (λ q. q ++ drop (s.current + n) (take size s.bytes)) read_eq
                    ∙ chunk_append n s.current size s.bytes (omega arith)),
          w,
          p ∙ ap (λ r. r.pool) state,
          q ∙ ap (λ r. r.pool_size) state,
        )
  ]

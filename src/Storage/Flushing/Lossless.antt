-- ===== src/Storage/Flushing/Lossless.antt =====
-- No byte is lost or reordered by storage/FlushingBufferFileSystem.cpp: what the listeners were
-- given, and then what waits in the buffer, is what was appended.
use esp32cam.Base.{
  ℕ, zero, suc, ◌+◌, ◌-◌, ◌*◌, ◌≡◌, ◌≢◌, ◌≤◌, ◌<◌, List, [], ◌∷◌, ◌++◌, refl, ap, ◌∙◌, sym, min,
  arith, take, drop, length, true, false, ◌==◌, some, inl, inr, ◌⊎◌, Bool-cases, append_assoc,
  append-nil, length-drop, take-append-drop, if◌then◌else◌,
}
use esp32cam.Storage.File.{File, position_start, file_append, file_seek}
use esp32cam.Storage.Ram.{Ram, ram_fs}
use esp32cam.Storage.Ram.Inv.{IsValid, room}
use esp32cam.Storage.Flushing.{
  Flushing, Notify, done, flush_if_short, append_loop, append, fuel_for, check_operation,
}
use esp32cam.Storage.Flushing.Listener.{IsListener, pending, file_append_lem, file_seek_lem}

-- What a run of the loop leaves: the bytes are with the listeners or pending, in order.
abbrev Kept : {L : Type 0} → (L → List ℕ) → Ram → List ℕ → L → Ram → L → Type 0
Kept given s bytes l s' l' =
    (given l' ++ pending s' ≡ (given l ++ pending s) ++ bytes)
    × IsValid s'
    × (s'.pool ≡ s.pool)
    × (s'.pool_size ≡ s.pool_size)

-- A round either ends the loop, or it frees the block and takes a byte unless the block was full.
enough_fuel :
    (size total fuel : ℕ) (s' : Ram) (r left : ℕ)
    → 2 * size + (if r == 0 then 1 else 0) < suc fuel
    → size ≤ total
    → left ≡ size - min size r
    → (min size r ≡ total) ⊎ (s'.current ≡ 0)
    → s'.pool_size ≢ 0
    → size ≢ 0
    → 2 * left + (if room s' == 0 then 1 else 0) < fuel
enough_fuel size total fuel s' r left h t e (inl all) z p = ground arith
enough_fuel size total fuel s' r left h t e (inr free) z p = ground arith

module _ {L : Type 0} (notify : Notify L Ram) (given : L → List ℕ) (Ready : L → Type 0) where
  module _ (listener : IsListener L notify given Ready) (f : File) (a : f.attached ≡ true) where
    -- A flush moves the pending bytes to the listeners, and makes the whole block free.
    flush_lem :
        (total n : ℕ) (l : L) (s : Ram)
        → IsValid s
        → f.descriptor ≡ s.pool
        → s.current ≡ s.next_write
        → Ready l
        → (n == total) ≡ false
        → (l' : L) × (s' : Ram) × (flush_if_short ram_fs notify f total n l s ≡ done (l', s'))
          × Kept given s [] l s' l'
          × Ready l'
          × (s'.current ≡ 0)
    unfolding flush_if_short
    flush_lem total n l s v e full r ne =
        let (l', s1, eq, all, r', v1, p1, z1) = listener.notify_lem f false l s v e a full r in
        let (v2, c2, p2, z2) = file_seek_lem f v1 (e ∙ sym p1) a in
        let s2 = (file_seek ram_fs f 0 position_start s1).1 in
        (
          l',
          s2,
          rw (ne, eq),
          (
            ap (λ k. given l' ++ take k s2.bytes) c2
                ∙ append-nil (given l')
                ∙ all
                ∙ sym (append-nil _),
            v2,
            p2 ∙ p1,
            z2 ∙ z1,
          ),
          r',
          c2,
        )

    flush_whole :
        (total m : ℕ) (l : L) (s : Ram)
        → (m == total) ≡ true
        → flush_if_short ram_fs notify f total m l s ≡ done (l, s)
    unfolding flush_if_short
    flush_whole total m l s h = rw h

    -- One round: what `append` took is with the listeners or pending. Either that was the whole of
    -- the caller's buffer, or the block is free again.
    round_lem :
        (total : ℕ) (rest : List ℕ) (l : L) (s : Ram)
        → IsValid s
        → f.descriptor ≡ s.pool
        → Ready l
        → let n = min (length rest) (room s) in
          let (m, s1) = file_append ram_fs f rest s in
          (l' : L) × (s' : Ram) × (flush_if_short ram_fs notify f total m l s1 ≡ done (l', s'))
          × (m ≡ n)
          × Kept given s (take n rest) l s' l'
          × Ready l'
          × ((n ≡ total) ⊎ (s'.current ≡ 0))
    round_lem total rest l s v e r =
        let (mn, p1, v1, q1, z1, _, full) = file_append_lem f v e a rest in
        let n = min (length rest) (room s) in
        let (m, s1) = file_append ram_fs f rest s in
        elim (Bool-cases (m == total)) [
          | inl all ↦ (
            l,
            s1,
            flush_whole total m l s1 all,
            mn,
            (
              ap (λ q. given l ++ q) p1 ∙ sym (append_assoc (given l) (pending s) (take n rest)),
              v1,
              q1,
              z1,
            ),
            r,
            inl (ground arith),
          )
          | inr short ↦
              let (l', s', eq, (kept, v', q', z'), r', c') =
                flush_lem total m l s1 v1 (e ∙ sym q1) full r short in
              (
                l',
                s',
                eq,
                mn,
                (
                  kept
                      ∙ append-nil _
                      ∙ ap (λ q. given l ++ q) p1
                      ∙ sym (append_assoc (given l) (pending s) (take n rest)),
                  v',
                  q' ∙ q1,
                  z' ∙ z1,
                ),
                r',
                inr c',
              )
        ]

    loop_step :
        (fuel total b : ℕ) (bs : List ℕ) (l : L) (s : Ram) (n : ℕ) (l1 : L) (s1 : Ram)
        → flush_if_short ram_fs notify f total
            (file_append ram_fs f (b ∷ bs) s).0
            l
            (file_append ram_fs f (b ∷ bs) s).1
          ≡ done (l1, s1)
        → (file_append ram_fs f (b ∷ bs) s).0 ≡ n
        → append_loop ram_fs notify (suc fuel) f total (b ∷ bs) l s
          ≡ append_loop ram_fs notify fuel f total (drop n (b ∷ bs)) l1 s1
    unfolding append_loop
    loop_step fuel total b bs l s n l1 s1 eq mn =
        rw (eq, append_loop)
          (ap (λ k. append_loop ram_fs notify fuel f total (drop k (b ∷ bs)) l1 s1) mn)

    -- Enough fuel is two units for each byte that is left, and one more if the block is full.
    loop_lem :
        (fuel total : ℕ) (rest : List ℕ) (l : L) (s : Ram)
        → IsValid s
        → f.descriptor ≡ s.pool
        → s.pool_size ≢ 0
        → Ready l
        → length rest ≤ total
        → 2 * length rest + (if room s == 0 then 1 else 0) < fuel
        → (l' : L) × (s' : Ram) × (append_loop ram_fs notify fuel f total rest l s ≡ done (l', s'))
          × Kept given s rest l s' l'
    unfolding append_loop
    loop_lem zero total rest l s v e z r t h = absurd (omega arith)
    loop_lem (suc fuel) total [] l s v e z r t h = (l, s, refl, (sym (append-nil _), v, refl, refl))
    loop_lem (suc fuel) total (b ∷ bs) l s v e z r t h =
        let n = min (length (b ∷ bs)) (room s) in
        let (l1, s1, eq, mn, (kept, v1, q1, z1), r1, fresh) = round_lem total (b ∷ bs) l s v e r in
        let less = length-drop n (b ∷ bs) in
        let (l', s', eq', (kept', v', q', z')) =
          loop_lem fuel total (drop n (b ∷ bs)) l1 s1 v1 (e ∙ sym q1) (ground arith) r1
            (omega arith)
            (enough_fuel (length (b ∷ bs)) total fuel s1 (room s) _ h t less fresh (ground arith)
              (ground arith)) in
        (
          l',
          s',
          loop_step fuel total b bs l s n l1 s1 eq mn ∙ eq',
          (
            kept'
                ∙ ap (λ q. q ++ drop n (b ∷ bs)) kept
                ∙ append_assoc (given l ++ pending s) (take n (b ∷ bs)) (drop n (b ∷ bs))
                ∙ ap (λ q. (given l ++ pending s) ++ q) (take-append-drop n (b ∷ bs)),
            v',
            q' ∙ q1,
            z' ∙ z1,
          ),
        )

  open_check :
      (w : Flushing Ram) (f : File)
      → w.buffer_file ≡ some f
      → w.provided ≡ true
      → w.store.pool ≢ 0
      → f.descriptor ≡ w.store.pool
      → check_operation ram_fs f.descriptor w ≡ done (some f)
  unfolding check_operation
  open_check w f bf pr ne e = rw (bf, pr, check_operation) (ground arith)

  -- For every listener that takes what it is given and is ready, every open buffer file of a valid RAM file
  -- system and every buffer, `append` returns (its fuel is enough), it returns the buffer's length,
  -- and what the listeners hold, followed by what is pending, has grown by exactly that buffer.
  pub append_lossless :
      (w : Flushing Ram) (f : File) (bytes : List ℕ) (l : L)
      → IsListener L notify given Ready
      → Ready l
      → IsValid w.store
      → w.provided ≡ true
      → w.buffer_file ≡ some f
      → f.attached ≡ true
      → f.descriptor ≡ w.store.pool
      → w.store.pool ≢ 0
      → w.store.pool_size ≢ 0
      → (l' : L) × (s' : Ram) × (append ram_fs notify f.descriptor bytes l w
          ≡ done (length bytes, l', record w { store = s' }))
        × (given l' ++ pending s' ≡ (given l ++ pending w.store) ++ bytes)
        × IsValid s'
  unfolding append
  append_lossless w f bytes l k r v pr bf at e ne z =
      let (l', s', eq, (kept, v', _, _)) =
        loop_lem k f at (fuel_for bytes) (length bytes) bytes l w.store v e z r (omega arith)
          (ground arith) in
      (l', s', rw (open_check w f bf pr ne e, append, eq), kept, v')

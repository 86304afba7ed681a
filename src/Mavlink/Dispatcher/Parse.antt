-- ===== src/Mavlink/Dispatcher/Parse.antt =====
-- What the bytes say, and `Unmarshalling::push` on an empty queue.
use esp32cam.Base.{
  ℕ, suc, ◌+◌, ◌≡◌, ◌≤◌, refl, List, [], ◌∷◌, ◌++◌, Option, some, none, ◌>>=◌, length, drop, arith,
}
use esp32cam.Container.Circular.{Circular, size}
use esp32cam.Container.Queue.{Holds, emplace_back-room}
use esp32cam.Mavlink.Dispatcher.{queue_max, enqueue, unmarshal}

abbrev pub to_list : {M : Type 0} → Option M → List M
to_list none = []
to_list (some m) = m ∷ []

-- A message in front of what follows it, where there is one.
abbrev pub prepend : {P M : Type 0} → Option M → P × List M → P × List M
prepend m rest = (rest.0, to_list m ++ rest.1)

-- The first byte's own message, or the one that is found behind it.
abbrev pub or_later : {P M : Type 0} → P → Option M → ℕ × (P × Option M) → ℕ × (P × Option M)
or_later p none rest = (suc rest.0, rest.1)
or_later p (some m) rest = (1, (p, some m))

module _ {P M : Type 0} (frame : P → ℕ → P × Option M) where
  -- The messages in the bytes, and the parser behind them.
  unfoldable pub messages : P → List ℕ → P × List M
  messages p [] = (p, [])
  messages p (b ∷ bs) = prepend (frame p b).1 (messages (frame p b).0 bs)

  -- The bytes up to the first message: how many, the parser behind them, and the message.
  unfoldable pub first_message : P → List ℕ → ℕ × (P × Option M)
  first_message p [] = (0, (p, none))
  first_message p (b ∷ bs) = or_later (frame p b).0 (frame p b).1 (first_message (frame p b).0 bs)

  -- Some bytes are read, and no more than there are.
  pub first_message-bounds :
      (p : P) (bytes : List ℕ)
      → ((first_message p bytes).0 ≤ length bytes)
        × (1 ≤ length bytes → 1 ≤ (first_message p bytes).0)
  unfolding first_message
  first_message-bounds p [] = (omega arith, λ h. h)
  first_message-bounds p (b ∷ bs) =
      within (frame p b).0 (frame p b).1 (first_message (frame p b).0 bs) (length bs)
        (first_message-bounds (frame p b).0 bs).0
    where
      within :
          (p : P) (m : Option M) (rest : ℕ × (P × Option M)) (n : ℕ)
          → rest.0 ≤ n
          → ((or_later p m rest).0 ≤ suc n) × (1 ≤ suc n → 1 ≤ (or_later p m rest).0)
      within p none rest n h = (omega arith, λ i. omega arith)
      within p (some m) rest n h = (omega arith, λ i. omega arith)

  -- The first message and the messages behind it are the messages.
  pub messages-first_message :
      (p : P) (bytes : List ℕ)
      → messages p bytes
        ≡ prepend
            (first_message p bytes).1.1
            (messages (first_message p bytes).1.0 (drop (first_message p bytes).0 bytes))
  unfolding messages first_message
  messages-first_message p [] = refl
  messages-first_message p (b ∷ bs) =
      behind (frame p b).0 (frame p b).1 (messages-first_message (frame p b).0 bs)
    where
      behind :
          (p' : P) (m : Option M)
          → messages p' bs
            ≡ prepend
                (first_message p' bs).1.1
                (messages (first_message p' bs).1.0 (drop (first_message p' bs).0 bs))
          → prepend m (messages p' bs)
            ≡ prepend (or_later p' m (first_message p' bs)).1.1 (
                messages
                  (or_later p' m (first_message p' bs)).1.0
                  (drop (or_later p' m (first_message p' bs)).0 (b ∷ bs)))
      behind p' none h = h
      behind p' (some m) h = refl

  unmarshal_full :
      (bytes : List ℕ) (p : P) (q : Circular M) (m : M)
      → Holds queue_max q (m ∷ [])
      → unmarshal frame bytes p q ≡ some (0, (p, q))
  unfolding unmarshal size
  unmarshal_full [] p q m h = refl
  unmarshal_full (b ∷ bs) p q m h = ground (arith, h.1.0)

  -- From an empty queue, the bytes up to the first message are read and the message is queued.
  pub unmarshal-first_message :
      (bytes : List ℕ) (p : P) (q : Circular M)
      → Holds queue_max q []
      → (q' : Circular M) × ((unmarshal frame bytes p q
            ≡ some ((first_message p bytes).0, ((first_message p bytes).1.0, q')))
          × Holds queue_max q' (to_list (first_message p bytes).1.1))
  unfolding unmarshal first_message size
  unmarshal-first_message [] p q h = (q, (refl, h))
  unmarshal-first_message (b ∷ bs) p q h =
      let later = unmarshal-first_message bs (frame p b).0 q h in
      let (q', (e, k)) = entered (frame p b).1 later in (q', (ground (arith, h.1.0, e), k))
    where
      p' : P
      p' = (frame p b).0

      Read : ℕ × (P × Option M) → Option (ℕ × (P × Circular M)) → Type 0
      Read first r =
          (q' : Circular M) × ((r ≡ some (first.0, (first.1.0, q')))
            × Holds queue_max q' (to_list first.1.1))

      entered :
          (m : Option M)
          → Read (first_message p' bs) (unmarshal frame bs p' q)
          → Read
              (or_later p' m (first_message p' bs))
              (enqueue frame m q >>= λ x. unmarshal frame bs p' x >>= λ r. some (r.0 + 1, r.1))
      entered none (q', (e, k)) = (q', (ground (arith, e), k))
      entered (some m) i =
          let (q', (e, k)) = emplace_back-room queue_max q [] m h (omega arith) in
          (q', (ground (arith, e, unmarshal_full bs p' q' m k), k))

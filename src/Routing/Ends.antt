-- ===== src/Routing/Ends.antt =====
-- `notifyAsImpl` of Receiver.cpp ends.
use esp32cam.Base.{
  ℕ, zero, suc, ◌+◌, ◌≡◌, ◌≤◌, ◌<◌, ◌∙◌, ap, refl, List, [], ◌∷◌, true, false, Option, some, none,
  if◌then◌else◌, arith, ◌⊎◌, inl, inr, length, Bool-cases,
}
use esp32cam.Container.Slice.{Slice}
use esp32cam.Routing.Order.{StrictOrder}
use esp32cam.Routing.Endpoint.{Endpoint}
use esp32cam.Routing.Rules.{Rules, reduce}
use esp32cam.Routing.Notify.{
  Received, Receiver, NotifyCtx, Task, visits, feeds, later, deliver, goes_on, notify,
}
use esp32cam.Routing.Fuel.{onward, notify-le}

-- A receiver either leaves every buffer as it is, or slices something off every buffer that is not
-- empty; and it returns.
module _ {U T C W : Type 0} (r : Receiver U T C W) where
  abbrev pub Leaves : Type 0
  Leaves =
      (e : Endpoint U T) (s : Slice) (c : C) (w : W)
      → (got : Received C) × (w' : W) × (r.on_receive e s c w ≡ some (got, w')) × (got.left ≡ s)

  abbrev pub Consumes : Type 0
  Consumes =
      (e : Endpoint U T) (s : Slice) (c : C) (w : W)
      → (got : Received C) × (w' : W) × (r.on_receive e s c w ≡ some (got, w'))
        × ((length got.left.bytes ≡ 0) ⊎ (length got.left.bytes < length s.bytes))

  abbrev pub Behaves : Type 0
  Behaves = Leaves ⊎ Consumes

abbrev pub AllBehave : {U T C W : Type 0} → List (Receiver U T C W) → Type 0
AllBehave [] = Unit {0}
AllBehave (r ∷ rs) = Behaves r × AllBehave rs

goes_on_self : (s : Slice) → goes_on s s ≡ false
goes_on_self s = ground arith

goes_on_empty : (whole s : Slice) → length s.bytes ≡ 0 → goes_on whole s ≡ false
goes_on_empty whole s h = ground arith

-- Each reduction leads to an endpoint of lower rank.
abbrev pub Falls :
    {U T : Type 0} (o : StrictOrder (Endpoint U T)) → Rules o → (Endpoint U T → ℕ) → Type 0
Falls {U} {T} o rules rank =
    (e k e' : Endpoint U T) → reduce o rules e k ≡ (true, e') → rank e' < rank e

module _ {U T C W : Type 0} (o : StrictOrder (Endpoint U T)) (rules : W → Rules o)
    (registry : List (Receiver U T C W)) where
  abbrev pub Ends : Task U T C W → W → Type 0
  Ends task w = (n : ℕ) × (w' : W) × (notify o rules registry n task w ≡ some w')

  -- One turn of the inner loop.
  feeds-turn :
      (n : ℕ) (r : Receiver U T C W) (reduced : Endpoint U T) (ctx : NotifyCtx U T C) (s : Slice)
      (out : Option (Slice × C)) (w w1 w2 : W) (got : Received C)
      → r.on_receive ctx.sender s ctx.respond w ≡ some (got, w1)
      → deliver (onward o rules registry n reduced) (later got.forwarded out) w1 ≡ some w2
      → notify o rules registry (suc n) (feeds r reduced ctx s out) w ≡ (
          if goes_on ctx.buffer got.left
          then notify o rules registry n (feeds r reduced ctx got.left (later got.forwarded out)) w2
          else some w2)
  unfolding notify
  feeds-turn n r reduced ctx s out w w1 w2 got h k = rw (h, k) refl

  deliver-le :
      (n k : ℕ) (reduced : Endpoint U T) (out : Option (Slice × C)) (w w' : W)
      → deliver (onward o rules registry n reduced) out w ≡ some w'
      → deliver (onward o rules registry (n + k) reduced) out w ≡ some w'
  deliver-le n k reduced none w w' h = h
  deliver-le n k reduced (some x) w w' h =
      notify-le o rules registry n k
        (visits registry (record { sender = reduced; buffer = x.0; respond = x.1 })) w w' h

  -- The inner loop ends if what is forwarded is taken care of and the rest of the loop ends.
  turn-Ends :
      (r : Receiver U T C W) (reduced : Endpoint U T) (ctx : NotifyCtx U T C) (s : Slice)
      (out : Option (Slice × C)) (w w1 w2 : W) (got : Received C) (n : ℕ)
      → r.on_receive ctx.sender s ctx.respond w ≡ some (got, w1)
      → deliver (onward o rules registry n reduced) (later got.forwarded out) w1 ≡ some w2
      → (goes_on ctx.buffer got.left ≡ false)
        ⊎ Ends (feeds r reduced ctx got.left (later got.forwarded out)) w2
      → Ends (feeds r reduced ctx s out) w
  turn-Ends r reduced ctx s out w w1 w2 got n h k (inl stops) =
      (suc n, w2, feeds-turn n r reduced ctx s out w w1 w2 got h k ∙ rw stops refl)
  turn-Ends r reduced ctx s out w w1 w2 got n h k (inr (n', w', rest)) =
      let turn =
        feeds-turn (n + n') r reduced ctx s out w w1 w2 got h
          (deliver-le n n' reduced (later got.forwarded out) w1 w2 k) in
      elim (Bool-cases (goes_on ctx.buffer got.left)) [
        | inl more ↦ (
          suc (n + n'),
          w',
          turn
              ∙ rw more (
                  ap
                    (λ j.
                      notify o rules registry j
                        (feeds r reduced ctx got.left (later got.forwarded out)) w2)
                    (omega arith)
                  ∙ notify-le o rules registry n' n
                      (feeds r reduced ctx got.left (later got.forwarded out)) w2 w' rest),
        )
        | inr stops ↦ (suc (n + n'), w2, turn ∙ rw stops refl)
      ]

  module _ (reduced : Endpoint U T)
      (onward_ends : (x : Slice × C) (w : W)
        → Ends (visits registry (record { sender = reduced; buffer = x.0; respond = x.1 })) w) where
    deliver-Ends :
        (out : Option (Slice × C)) (w : W)
        → (n : ℕ) × (w' : W) × (deliver (onward o rules registry n reduced) out w ≡ some w')
    deliver-Ends none w = (0, w, refl)
    deliver-Ends (some x) w = onward_ends x w

    -- One turn of a receiver that consumes, with what is known of shorter slices.
    consume_turn :
        (r : Receiver U T C W) (ctx : NotifyCtx U T C) (s : Slice) (out : Option (Slice × C))
        (w : W)
        → Consumes r
        → ((s' : Slice) (out' : Option (Slice × C)) (w' : W)
            → length s'.bytes < length s.bytes
            → Ends (feeds r reduced ctx s' out') w')
        → Ends (feeds r reduced ctx s out) w
    consume_turn r ctx s out w consumes shorter =
        let (got, w1, h, less) = consumes ctx.sender s ctx.respond w in
        let (n, w2, k) = deliver-Ends (later got.forwarded out) w1 in
        turn-Ends r reduced ctx s out w w1 w2 got n h k (elim less [
          | inl done ↦ inl (goes_on_empty ctx.buffer got.left done)
          | inr lt ↦ inr (shorter got.left (later got.forwarded out) w2 lt)
        ])

    consumes-Ends :
        (l : ℕ) (r : Receiver U T C W) (ctx : NotifyCtx U T C) (s : Slice)
        (out : Option (Slice × C)) (w : W)
        → Consumes r
        → length s.bytes ≤ l
        → Ends (feeds r reduced ctx s out) w
    consumes-Ends zero r ctx s out w consumes short =
        consume_turn r ctx s out w consumes (λ s' out' w' lt. absurd (omega arith))
    consumes-Ends (suc l) r ctx s out w consumes short =
        consume_turn r ctx s out w consumes
          (λ s' out' w' lt. consumes-Ends l r ctx s' out' w' consumes (omega arith))

    leaves-Ends :
        (r : Receiver U T C W) (ctx : NotifyCtx U T C) (w : W)
        → Leaves r
        → Ends (feeds r reduced ctx ctx.buffer none) w
    leaves-Ends r ctx w leaves =
        let (got, w1, h, same) = leaves ctx.sender ctx.buffer ctx.respond w in
        let (n, w2, k) = deliver-Ends (later got.forwarded none) w1 in
        turn-Ends r reduced ctx ctx.buffer none w w1 w2 got n h k
          (inl (ap (goes_on ctx.buffer) same ∙ goes_on_self ctx.buffer))

    feeds-Ends :
        (r : Receiver U T C W) (ctx : NotifyCtx U T C) (w : W)
        → Behaves r
        → Ends (feeds r reduced ctx ctx.buffer none) w
    feeds-Ends r ctx w (inl leaves) = leaves-Ends r ctx w leaves
    feeds-Ends r ctx w (inr consumes) =
        consumes-Ends (length ctx.buffer.bytes) r ctx ctx.buffer none w consumes (omega arith)

  nothing_left :
      (ctx : NotifyCtx U T C) (w : W) → notify o rules registry 1 (visits [] ctx) w ≡ some w
  unfolding notify
  nothing_left ctx w = refl

  -- The loop over receivers ends where the loop of each that is reduced for ends.
  visit-Ends :
      (r : Receiver U T C W) (rs : List (Receiver U T C W)) (ctx : NotifyCtx U T C) (w : W)
      → ((e : Endpoint U T)
          → reduce o (rules w) ctx.sender r.identity ≡ (true, e)
          → Ends (feeds r e ctx ctx.buffer none) w)
      → ((w' : W) → Ends (visits rs ctx) w')
      → Ends (visits (r ∷ rs) ctx) w
  unfolding notify
  visit-Ends r rs ctx w feed rest = elim (Bool-cases (reduce o (rules w) ctx.sender r.identity).0) [
    | inl found ↦
        let e = (reduce o (rules w) ctx.sender r.identity).1 in
        let (n, w1, h) = feed e (ap (λ b. (b, e)) found) in
        let (n', w2, k) = rest w1 in
        (
          suc (n + n'),
          w2,
          rw found (
              rw (notify-le o rules registry n n' (feeds r e ctx ctx.buffer none) w w1 h) (
                ap (λ j. notify o rules registry j (visits rs ctx) w1) (omega arith)
                ∙ notify-le o rules registry n' n (visits rs ctx) w1 w2 k)),
        )
    | inr missing ↦ let (n, w1, h) = rest w in (suc n, w1, rw missing h)
  ]

  visits-Ends :
      (rank : Endpoint U T → ℕ) (b : ℕ) (rs : List (Receiver U T C W)) (ctx : NotifyCtx U T C)
      (w : W)
      → ((v : W) → Falls o (rules v) rank)
      → AllBehave registry
      → AllBehave rs
      → rank ctx.sender ≤ b
      → Ends (visits rs ctx) w
  visits-Ends rank b [] ctx w falls all these low = (1, w, nothing_left ctx w)
  visits-Ends rank zero (r ∷ rs) ctx w falls all these low =
      visit-Ends r rs ctx w (λ e h. absurd (omega (arith, falls w ctx.sender r.identity e h)))
        (λ w'. visits-Ends rank zero rs ctx w' falls all these.1 low)
  visits-Ends rank (suc b) (r ∷ rs) ctx w falls all these low =
      visit-Ends r rs ctx w
        (λ e h.
          feeds-Ends e
            (λ x w'.
              visits-Ends rank b registry (record { sender = e; buffer = x.0; respond = x.1 }) w'
                falls all all (omega (arith, falls w ctx.sender r.identity e h)))
            r ctx w these.0)
        (λ w'. visits-Ends rank (suc b) rs ctx w' falls all these.1 low)

  -- Where each reduction, by any table that there may be, leads to an endpoint of lower rank, and each receiver of the registry either
  -- leaves every buffer alone or consumes some of every buffer, notifying as any sender ends.
  pub notify-Ends :
      (rank : Endpoint U T → ℕ) (ctx : NotifyCtx U T C) (w : W)
      → ((v : W) → Falls o (rules v) rank)
      → AllBehave registry
      → (n : ℕ) × (w' : W) × (notify o rules registry n (visits registry ctx) w ≡ some w')
  notify-Ends rank ctx w falls all =
      visits-Ends rank (rank ctx.sender) registry ctx w falls all all (omega arith)

-- ===== src/Mavlink/Dispatcher/Drain.antt =====
-- The inner loop of components/wifi_uart_bridge/wifi_uart_bridge/Receiver.cpp's `notifyAsImpl` over
-- the dispatcher: it gets the buffer again until no byte is left.
use esp32cam.Base.{
  ℕ, zero, suc, ◌+◌, ◌≡◌, ◌≤◌, ◌<◌, ◌∙◌, sym, ap, refl, List, [], ◌∷◌, Option, some, none, ◌>>=◌,
  length, drop, take, arith, if◌then◌else◌, length-drop, ◌-◌, leb, leb→le, drop_of_length-le,
  Bool-cases, inl, inr,
}
use esp32cam.Container.Slice.{Slice, slice_lem}
use esp32cam.Container.Circular.{Circular, size}
use esp32cam.Container.Queue.{Holds, pop_front-first}
use esp32cam.Routing.Notify.{Received, goes_on}
use esp32cam.Mavlink.FtpClient.Handlers.{Ret, ignored, no_response, response}
use esp32cam.Mavlink.Dispatcher.{Dispatcher, Service, queue_max, unmarshal, process, on_receive}
use esp32cam.Mavlink.Dispatcher.Parse.{
  messages, first_message, first_message-bounds, messages-first_message, unmarshal-first_message,
  to_list, prepend,
}

module _ {P M S C V : Type 0} (frame : P → ℕ → P × Option M) (service : Service M S)
    (respond : C → List ℕ → V → V) where
  -- The loop, on fuel.
  unfoldable pub drain :
      ℕ → Slice → Slice → C → Dispatcher P M S × V → Option (Dispatcher P M S × V)
  drain zero whole s c w = none
  drain (suc fuel) whole s c w = on_receive frame service respond s c w >>= λ r.
      if goes_on whole r.0.left then drain fuel whole r.0.left c r.1 else some r.1

  -- What `onReceive` does with a return value and the responses.
  abbrev pub send : C → Ret → List ℕ → V → V
  send c ignored resp v = v
  send c no_response resp v = v
  send c response resp v = respond c resp v

  -- The messages, one after the other: the services' state, and the responses sent.
  unfoldable pub serve_all : C → List M → S × V → S × V
  serve_all c [] w = w
  serve_all c (m ∷ ms) w =
      let done = service m w.0 in serve_all c ms (done.state, send c done.ret done.replies w.1)

  -- What one call leaves, with the bytes up to the first message read and the message served.
  abbrev Leaves : ℕ × (P × Option M) → Dispatcher P M S → Ret → Dispatcher P M S → Type 0
  Leaves first d ret d' =
      (d'.parser ≡ first.1.0)
      × (Holds queue_max d'.queue []
          × ((c : C) (v : V)
              → serve_all c (to_list first.1.1) (d.services, v)
                ≡ (d'.services, send c ret d'.resp v)))

  process_first :
      (bytes : List ℕ) (d : Dispatcher P M S)
      → Holds queue_max d.queue []
      → (r : Ret × Dispatcher P M S) × ((process frame service bytes d
            ≡ some (r.0, ((first_message frame d.parser bytes).0, r.1)))
          × Leaves (first_message frame d.parser bytes) d r.0 r.1)
  unfolding process size serve_all
  process_first bytes d h =
      let (q, (e, k)) = unmarshal-first_message frame bytes d.parser d.queue h in
      served q (first_message frame d.parser bytes) e k
    where
      served :
          (q : Circular M) (first : ℕ × (P × Option M))
          → unmarshal frame bytes d.parser d.queue ≡ some (first.0, (first.1.0, q))
          → Holds queue_max q (to_list first.1.1)
          → (r : Ret × Dispatcher P M S) × ((process frame service bytes d
                ≡ some (r.0, (first.0, r.1)))
              × Leaves first d r.0 r.1)
      served q (n, (p, none)) e k = (
        (ignored, record d { parser = p; queue = q }),
        (ground (arith, e, k.1.0), (refl, (k, λ c v. refl))),
      )
      served q (n, (p, some m)) e k =
          let (q', (f, (g, l))) = pop_front-first queue_max q m [] k in
          let done = service m d.services in
          (
            (
              done.ret,
              record { parser = p; queue = q'; services = done.state; resp = done.replies },
            ),
            (ground (arith, e, k.1.0, f, g), (refl, (l, λ c v. refl))),
          )

  on_receive-send :
      (s : Slice) (c : C) (d d' : Dispatcher P M S) (v : V) (n : ℕ) (ret : Ret)
      → process frame service s.bytes d ≡ some (ret, (n, d'))
      → n ≤ length s.bytes
      → (got : Received C) × ((on_receive frame service respond s c (d, v)
            ≡ some (got, (d', send c ret d'.resp v)))
          × (got.left ≡ record { start = s.start + n; bytes = drop n s.bytes }))
  unfolding on_receive
  on_receive-send s c d d' v n ignored e le = (
    record {
      left = record { start = s.start + n; bytes = drop n s.bytes };
      forwarded = some (record { start = s.start + 0; bytes = take n s.bytes }, c);
    },
    (ground (arith, e, slice_lem n s le), refl),
  )
  on_receive-send s c d d' v n no_response e le = (
    record { left = record { start = s.start + n; bytes = drop n s.bytes }; forwarded = none },
    (ground (arith, e, slice_lem n s le), refl),
  )
  on_receive-send s c d d' v n response e le = (
    record { left = record { start = s.start + n; bytes = drop n s.bytes }; forwarded = none },
    (ground (arith, e, slice_lem n s le), refl),
  )

  serve_all-prepend :
      (c : C) (m : Option M) (rest : P × List M) (w : S × V)
      → serve_all c (prepend m rest).1 w ≡ serve_all c rest.1 (serve_all c (to_list m) w)
  unfolding serve_all
  serve_all-prepend c none rest w = refl
  serve_all-prepend c (some m) rest w = refl

  -- What is left when the loop ends: the parser is behind the bytes, their messages have been served
  -- in order, and the queue is empty.
  abbrev pub Drained : P → List ℕ → C → S × V → Dispatcher P M S × V → Type 0
  Drained p bytes c (t, v) w =
      (w.0.parser ≡ (messages frame p bytes).0)
      × ((serve_all c (messages frame p bytes).1 (t, v) ≡ (w.0.services, w.1))
          × Holds queue_max w.0.queue [])

  -- One call, and the loop on what it leaves.
  Drained-first :
      (p p' : P) (bytes : List ℕ) (c : C) (t : S) (v : V) (u : S × V) (w : Dispatcher P M S × V)
      → p' ≡ (first_message frame p bytes).1.0
      → serve_all c (to_list (first_message frame p bytes).1.1) (t, v) ≡ u
      → Drained p' (drop (first_message frame p bytes).0 bytes) c u w
      → Drained p bytes c (t, v) w
  Drained-first p p' bytes c t v u w ep sv (dp, (ds, dq)) =
      let first = first_message frame p bytes in
      let all = messages-first_message frame p bytes in
      let moved = ap (λ x. messages frame x (drop first.0 bytes)) ep in
      (
        dp ∙ ap (λ x. x.0) moved ∙ sym (ap (λ x. x.0) all),
        (
          ap (λ x. serve_all c x.1 (t, v)) all
              ∙ serve_all-prepend c first.1.1 (messages frame first.1.0 (drop first.0 bytes)) (t, v)
              ∙ ap (λ x. serve_all c (messages frame first.1.0 (drop first.0 bytes)).1 x) sv
              ∙ ap (λ x. serve_all c x.1 u) (sym moved)
              ∙ ds,
          dq,
        ),
      )

  Drained-nil :
      (d : Dispatcher P M S) (v : V) (c : C) (bytes : List ℕ)
      → bytes ≡ []
      → Holds queue_max d.queue []
      → Drained d.parser bytes c (d.services, v) (d, v)
  unfolding messages serve_all
  Drained-nil d v c [] e h = (refl, (refl, h))
  Drained-nil d v c (b ∷ bs) e h = absurd (ground (arith, e))

  -- With more fuel than bytes the loop ends; from an empty queue, the parser is then behind all of
  -- the bytes, every message in them has been served in order, and the queue is empty again.
  pub drain_lem :
      (fuel : ℕ) (whole s : Slice) (c : C) (d : Dispatcher P M S) (v : V)
      → Holds queue_max d.queue []
      → length s.bytes < fuel
      → whole.start ≤ s.start
      → (w : Dispatcher P M S × V) × ((drain fuel whole s c (d, v) ≡ some w)
          × Drained d.parser s.bytes c (d.services, v) w)
  unfolding drain
  drain_lem zero whole s c d v h more le = absurd (omega arith)
  drain_lem (suc fuel) whole s c d v h more le =
      let first = first_message frame d.parser s.bytes in
      let bounds = first_message-bounds frame d.parser s.bytes in
      let (r, (e, (ep, (hq, sv)))) = process_first s.bytes d h in
      let (got, (eg, el)) = on_receive-send s c d r.1 v first.0 r.0 e bounds.0 in
      let left : Slice = record { start = s.start + first.0; bytes = drop first.0 s.bytes } in
      let u : S × V = (r.1.services, send c r.0 r.1.resp v) in
      let len : length left.bytes ≡ length s.bytes - first.0 = length-drop first.0 s.bytes in
      let all = λ (w : Dispatcher P M S × V).
        Drained-first d.parser r.1.parser s.bytes c d.services v u w ep (sv c v) in
      elim (Bool-cases (leb (length s.bytes) first.0)) [
        | inl none_left ↦
            let empty =
              drop_of_length-le first.0 s.bytes (leb→le (length s.bytes) first.0 none_left) in
            (
              (r.1, u.1),
              (
                ground (arith, eg, el, ap length empty),
                all (r.1, u.1) (Drained-nil r.1 u.1 c left.bytes empty hq),
              ),
            )
        | inr some_left ↦
            let some_read : 1 ≤ first.0 = bounds.1 (ground (arith, bounds.0)) in
            let (w, (ew, dw)) =
              drain_lem fuel whole left c r.1 u.1 hq (ground (arith, len)) (ground arith) in
            (w, (ground (arith, eg, el, len, ew), all w dw))
      ]

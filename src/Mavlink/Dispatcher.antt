-- ===== src/Mavlink/Dispatcher.antt =====
-- components/mav/priv_include/Dispatcher.cpp, Unmarshalling.cpp and Microservice/Aggregate.impl: bytes
-- become messages, and each message goes to the first microservice that does not ignore it. The
-- parser of single bytes is the MAVLink library's, and a parameter.
use esp32cam.Base.{
  ℕ, ◌+◌, ◌≡◌, List, [], ◌∷◌, ◌++◌, Bool, true, false, ltb, ◌==◌, if◌then◌else◌, Option, some, none,
  ◌>>=◌, length, drop,
}
use esp32cam.Container.Slice.{Slice, as_slice, slice}
use esp32cam.Container.Circular.{Circular, size, front, pop_front, emplace_back}
use esp32cam.Routing.Endpoint.{named, mavlink}
use esp32cam.Routing.Notify.{Received, Receiver}
use esp32cam.Mavlink.FtpClient.Handlers.{Ret, ignored, no_response, response}
pub mod Parse
pub mod Drain
mod Tests

-- What a microservice does with a message: its return value, the message that it may have changed,
-- the responses as packed bytes, and its state.
pub record Served (M S : Type 0) : Type 0 where
  pub ret : Ret
  pub message : M
  pub replies : List ℕ
  pub state : S

abbrev pub Service : Type 0 → Type 0 → Type 0
Service M S = M → S → Served M S

abbrev pub is_ignored : Ret → Bool
is_ignored ignored = true
is_ignored no_response = false
is_ignored response = false

-- `Aggregate::process`.
unfoldable pub aggregate : {M S : Type 0} → List (Service M S) → Service M S
aggregate [] m s = record { ret = ignored; message = m; replies = []; state = s }
aggregate (p ∷ ps) m s =
    let r = p m s in
    let rest = aggregate ps r.message r.state in
    if is_ignored r.ret then record rest { replies = r.replies ++ rest.replies } else r

-- `unmarshalling` with its parser, the microservices, and `resp`.
pub record Dispatcher (P M S : Type 0) : Type 0 where
  pub parser : P
  pub queue : Circular M
  pub services : S
  pub resp : List ℕ

-- `kUnmarshallingQueueMaxSize`.
abbrev pub queue_max : ℕ
queue_max = 1

module _ {P M : Type 0} (frame : P → ℕ → P × Option M) where
  abbrev pub enqueue : Option M → Circular M → Option (Circular M)
  enqueue none q = some q
  enqueue (some m) q = emplace_back queue_max false m q

  -- `Unmarshalling::push`: the number of bytes read, the parser and the queue.
  unfoldable pub unmarshal : List ℕ → P → Circular M → Option (ℕ × (P × Circular M))
  unmarshal [] p q = some (0, (p, q))
  unmarshal (b ∷ bs) p q =
      if ltb (size queue_max q) queue_max
      then (enqueue (frame p b).1 q >>= λ q'.
          unmarshal bs (frame p b).0 q' >>= λ r. some (r.0 + 1, r.1))
      else some (0, (p, q))

  module _ {S : Type 0} (service : Service M S) where
    -- `process`: the return value, the number of bytes read, and the dispatcher.
    unfoldable pub process : List ℕ → Dispatcher P M S → Option (Ret × (ℕ × Dispatcher P M S))
    process bytes d = unmarshal bytes d.parser d.queue >>= λ r.
        if size queue_max r.1.1 == 0
        then some (ignored, (r.0, record d { parser = r.1.0; queue = r.1.1 }))
        else (front queue_max r.1.1 >>= λ m. pop_front queue_max r.1.1 >>= λ q.
            let done = service m d.services in
            some (
              done.ret,
              (
                r.0,
                record { parser = r.1.0; queue = q; services = done.state; resp = done.replies },
              ),
            ))

    -- `onReceive`, as a receiver on the dispatcher and the world of the callbacks for responses.
    unfoldable pub on_receive :
        {C V : Type 0}
        → (C → List ℕ → V → V)
        → Slice
        → C
        → Dispatcher P M S × V
        → Option (Received C × (Dispatcher P M S × V))
    on_receive respond s c (d, v) = process s.bytes d >>= λ r. slice r.1.0 s >>= λ left. elim r.0 [
      | ignored ↦ as_slice 0 r.1.0 s >>= λ part.
          some (record { left = left; forwarded = some (part, c) }, (r.1.1, v))
      | no_response ↦ some (record { left = left; forwarded = none }, (r.1.1, v))
      | response ↦ some (record { left = left; forwarded = none }, (r.1.1, respond c r.1.1.resp v))
    ]

    abbrev pub receiver :
        {U T C V : Type 0} → (C → List ℕ → V → V) → Receiver U T C (Dispatcher P M S × V)
    receiver respond = record {
      identity = named mavlink;
      on_receive = λ e s c w. on_receive respond s c w;
    }

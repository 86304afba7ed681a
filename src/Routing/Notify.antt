-- ===== src/Routing/Notify.antt =====
-- components/wifi_uart_bridge/wifi_uart_bridge/Receiver.cpp: `notifyAsImpl`, which hands a message to
-- the receivers that the rules reduce it for, and what these forward to further receivers. A receiver
-- is a callback on a world of its own, which has the table of the rules in it.
use esp32cam.Base.{
  ℕ, zero, suc, List, [], ◌∷◌, Bool, ◌&&◌, not, ◌==◌, ltb, Option, some, none, ◌>>=◌, if◌then◌else◌,
  length,
}
use esp32cam.Container.Slice.{Slice}
use esp32cam.Routing.Order.{StrictOrder}
use esp32cam.Routing.Endpoint.{Endpoint}
use esp32cam.Routing.Rules.{Rules, reduce}

-- What `onReceive` leaves: the buffer that it may have sliced, and what it passed to `forwardCb` last,
-- a buffer and a callback for responses.
pub record Received (C : Type 0) : Type 0 where
  pub left : Slice
  pub forwarded : Option (Slice × C)

-- `Receiver`: its identity and `onReceive`, of the sender, the buffer and the callback for responses;
-- none where an assertion fails.
pub record Receiver (U T C W : Type 0) : Type 0 where
  pub identity : Endpoint U T
  pub on_receive : Endpoint U T → Slice → C → W → Option (Received C × W)

-- `NotifyCtx`.
pub record NotifyCtx (U T C : Type 0) : Type 0 where
  pub sender : Endpoint U T
  pub buffer : Slice
  pub respond : C

-- The loop over the receivers that are left, and the inner loop of one receiver: the sender as
-- reduced, the slice that it sees next, and what has been forwarded so far.
pub data Task (U T C W : Type 0) : Type 0 where
  visits : List (Receiver U T C W) → NotifyCtx U T C → Task U T C W
  feeds :
      Receiver U T C W → Endpoint U T → NotifyCtx U T C → Slice → Option (Slice × C) → Task U T C W

abbrev pub later : {A : Type 0} → Option A → Option A → Option A
later none b = b
later (some a) b = some a

-- What has been forwarded is handed on, if there is anything.
abbrev pub deliver : {A W : Type 0} → (A → W → Option W) → Option A → W → Option W
deliver f none w = some w
deliver f (some x) w = f x w

-- Whether the inner loop goes on: a slice is left and its pointer is not that of the buffer.
abbrev pub goes_on : Slice → Slice → Bool
goes_on whole s = ltb 0 (length s.bytes) && not (s.start == whole.start)

module _ {U T C W : Type 0} (o : StrictOrder (Endpoint U T)) (rules : W → Rules o)
    (registry : List (Receiver U T C W)) where
  unfoldable pub notify : ℕ → Task U T C W → W → Option W
  notify zero task w = none
  notify (suc n) (visits [] ctx) w = some w
  notify (suc n) (visits (r ∷ rs) ctx) w =
      let (found, reduced) = reduce o (rules w) ctx.sender r.identity in
      if found
      then notify n (feeds r reduced ctx ctx.buffer none) w >>= notify n (visits rs ctx)
      else notify n (visits rs ctx) w
  notify (suc n) (feeds r reduced ctx s out) w =
      r.on_receive ctx.sender s ctx.respond w >>= λ (got, w1).
      let out' = later got.forwarded out in
      deliver
        (λ x. notify n (visits registry (record { sender = reduced; buffer = x.0; respond = x.1 })))
        out' w1
      >>= λ w2.
          if goes_on ctx.buffer got.left
          then notify n (feeds r reduced ctx got.left out') w2
          else some w2

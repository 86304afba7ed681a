-- ===== src/Routing/Fuel.antt =====
-- `notifyAsImpl` of Receiver.cpp on more fuel: the result stays.
use esp32cam.Base.{
  ℕ, zero, suc, ◌≡◌, ◌+◌, ◌∙◌, ap, refl, List, [], ◌∷◌, Bool, true, false, Option, some, none,
  ◌>>=◌, if◌then◌else◌, arith,
}
use esp32cam.Container.Slice.{Slice}
use esp32cam.Routing.Order.{StrictOrder}
use esp32cam.Routing.Endpoint.{Endpoint}
use esp32cam.Routing.Rules.{Rules, reduce}
use esp32cam.Routing.Notify.{
  Received, Receiver, Task, visits, feeds, later, deliver, goes_on, notify,
}

-- Where the first has a result, the second has it too.
abbrev pub More : {W : Type 0} → Option W → Option W → Type 0
More {W} a b = (w : W) → a ≡ some w → b ≡ some w

bind-More :
    {A W : Type 0} (a b : Option A) (f g : A → Option W)
    → More a b
    → ((x : A) → More (f x) (g x))
    → More (a >>= f) (b >>= g)
bind-More none b f g h k w e = cc
bind-More (some x) b f g h k w e = rw (h x refl) (k x w e)

if-More :
    {W : Type 0} (c : Bool) (a b a' b' : Option W)
    → More a a'
    → More b b'
    → More (if c then a else b) (if c then a' else b')
if-More true a b a' b' h k = h
if-More false a b a' b' h k = k

deliver-More :
    {A W : Type 0} (f g : A → W → Option W) (out : Option A) (w : W)
    → ((x : A) → More (f x w) (g x w))
    → More (deliver f out w) (deliver g out w)
deliver-More f g none w h = λ v e. e
deliver-More f g (some x) w h = h x

module _ {U T C W : Type 0} (o : StrictOrder (Endpoint U T)) (rules : W → Rules o)
    (registry : List (Receiver U T C W)) where
  abbrev pub onward : ℕ → Endpoint U T → Slice × C → W → Option W
  onward n reduced x =
      notify o rules registry n
        (visits registry (record { sender = reduced; buffer = x.0; respond = x.1 }))

  notify-More :
      (n : ℕ) (task : Task U T C W) (w : W)
      → More (notify o rules registry n task w) (notify o rules registry (suc n) task w)
  unfolding notify
  notify-More zero task w = λ v e. cc
  notify-More (suc n) (visits [] ctx) w = λ v e. e
  notify-More (suc n) (visits (r ∷ rs) ctx) w =
      let (found, reduced) = reduce o (rules w) ctx.sender r.identity in
      if-More found _ _ _ _
        (bind-More _ _ _ _ (notify-More n (feeds r reduced ctx ctx.buffer none) w)
          (notify-More n (visits rs ctx)))
        (notify-More n (visits rs ctx) w)
  notify-More (suc n) (feeds r reduced ctx s out) w =
      bind-More {A = Received C × W} _ _ _ _ (λ v e. e)
        (λ (got, w1).
          bind-More _ _ _ _
            (deliver-More (onward n reduced) (onward (suc n) reduced) (later got.forwarded out) w1
              (λ x.
                notify-More n
                  (visits registry (record { sender = reduced; buffer = x.0; respond = x.1 })) w1))
            (λ w2.
              if-More (goes_on ctx.buffer got.left) _ _ _ _
                (notify-More n (feeds r reduced ctx got.left (later got.forwarded out)) w2)
                (λ v e. e)))

  pub notify-le :
      (n k : ℕ) (task : Task U T C W) (w : W)
      → More (notify o rules registry n task w) (notify o rules registry (n + k) task w)
  notify-le n zero task w v e = ap (λ j. notify o rules registry j task w) (omega arith) ∙ e
  notify-le n (suc k) task w v e =
      ap (λ j. notify o rules registry j task w) (omega arith)
      ∙ notify-More (n + k) task w v (notify-le n k task w v e)

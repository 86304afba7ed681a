-- ===== src/Routing/StaticEnds.antt =====
-- Notifying over the static rules of MavlinkRouting.cpp ends.
use esp32cam.Base.{
  ℕ, ◌≡◌, ◌≤◌, ◌<◌, ap, List, [], ◌∷◌, some, ◌&&◌, arith, Bool-cases, Option-cases, inl, inr,
}
use esp32cam.Routing.Order.{StrictOrder}
use esp32cam.Routing.Endpoint.{
  Endpoint, as_alternative, named, udp_endpoint, tcp_endpoint, uart_mavlink_forwarded,
  udp_mavlink_forwarded, no_endpoint,
}
use esp32cam.Routing.Rules.{first_some}
use esp32cam.Routing.Map.{entry, resolve, reduce_map}
use esp32cam.Routing.Mavlink.{Config, StaticRule, static_rules, uart_rules, udp_rules, init}
use esp32cam.Routing.Static.{assoc, init-reduces}
use esp32cam.Routing.Notify.{Receiver, NotifyCtx, visits, notify}
use esp32cam.Routing.Ends.{Falls, AllBehave, notify-Ends}

-- `None` is reached in two steps from everything, through the names of what is forwarded.
unfoldable pub rank : {U T : Type 0} → Endpoint U T → ℕ
rank e = elim e [
  | named n ↦ elim n [
    | no_endpoint ↦ 0
    | uart_mavlink_forwarded ↦ 1
    | udp_mavlink_forwarded ↦ 1
    | _ ↦ 2
  ]
  | _ ↦ 2
]

module _ {U T : Type 0} (o : StrictOrder (Endpoint U T)) where
  abbrev Fall : List (StaticRule U T) → Type 0
  Fall [] = Unit {0}
  Fall (r ∷ rs) = (rank r.1.1 < rank r.0) × Fall rs

  static_rules-Fall : (c : Config) → Fall (static_rules c)
  unfolding static_rules uart_rules udp_rules rank
  static_rules-Fall c = ground arith

  rank-eq : (a b : Endpoint U T) → a ≡ b → rank a ≡ rank b
  rank-eq a b h = ap rank h

  assoc-Fall :
      (rs : List (StaticRule U T)) (e i r : Endpoint U T)
      → Fall rs
      → assoc o rs e i ≡ some r
      → rank r < rank e
  unfolding assoc
  assoc-Fall [] e i r f h = cc
  assoc-Fall (s ∷ rs) e i r f h = elim (Bool-cases (o.eq s.0 e && o.eq s.1.0 i)) [
    | inl met ↦ ground (arith, o.eq_iff s.0 e, rank-eq s.0 e, rank-eq s.1.1 r)
    | inr other ↦ ground (arith, assoc-Fall rs e i r f.1)
  ]

  abbrev AllBelow : ℕ → List (Endpoint U T) → Type 0
  AllBelow n [] = Unit {0}
  AllBelow n (e ∷ es) = (rank e ≤ n) × AllBelow n es

  alternatives-AllBelow : (e : Endpoint U T) → AllBelow (rank e) (e ∷ as_alternative e)
  unfolding as_alternative rank
  alternatives-AllBelow e = elim e as (λ k. AllBelow (rank k) (k ∷ as_alternative k)) [
    | named n ↦ (omega arith, tt)
    | udp_endpoint u p ↦ (omega arith, (omega arith, (omega arith, tt)))
    | tcp_endpoint t p ↦ (omega arith, (omega arith, (omega arith, tt)))
    | _ ↦ (omega arith, tt)
  ]

  first_some-Fall :
      (rs : List (StaticRule U T)) (i : Endpoint U T) (n : ℕ) (es : List (Endpoint U T))
      (it : Endpoint U T × Endpoint U T)
      → Fall rs
      → AllBelow n es
      → first_some (entry o (assoc o rs) i) es ≡ some it
      → rank it.1 < n
  unfolding first_some
  first_some-Fall rs i n [] it f b h = cc
  first_some-Fall rs i n (e ∷ es) it f b h = elim (Option-cases (assoc o rs e i)) [
    | inl missing ↦ ground (arith, first_some-Fall rs i n es it f b.1)
    | inr (r, found) ↦ ground (arith, assoc-Fall rs e i r f found, rank-eq r it.1)
  ]

  init-Falls : (c : Config) → Falls o (init o c []) rank
  unfolding reduce_map resolve
  init-Falls c e k e' h = elim (Option-cases (resolve o (assoc o (static_rules c)) e k)) [
    | inl missing ↦ ground (arith, init-reduces o c e k)
    | inr (it, found) ↦ ground (
      arith,
      init-reduces o c e k,
      rank-eq it.1 e',
      first_some-Fall (static_rules c) k (rank e) (e ∷ as_alternative e) it (static_rules-Fall c)
          (alternatives-AllBelow e) found,
    )
  ]

  -- Over the table that MavlinkRouting installs, in each of its configurations and as long as no
  -- receiver changes it, notifying as any
  -- sender ends, whichever receivers there are, as long as each of them either leaves every buffer
  -- alone or consumes some of every buffer.
  pub static_notify_lem :
      {C W : Type 0} (c : Config) (registry : List (Receiver U T C W)) (ctx : NotifyCtx U T C)
      (w : W)
      → AllBehave registry
      → (n : ℕ) × (w' : W) × (notify o (λ v. init o c []) registry n (visits registry ctx) w
          ≡ some w')
  static_notify_lem c registry ctx w all =
      notify-Ends o (λ v. init o c []) registry rank ctx w (λ v. init-Falls c) all

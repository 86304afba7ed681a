-- ===== src/Routing/Static.antt =====
-- MavlinkRouting.cpp: what the table of `init` does.
use esp32cam.Base.{
  ℕ, ◌≡◌, ◌≢◌, ◌∙◌, sym, ap, refl, List, [], ◌∷◌, ◌++◌, true, false, ◌&&◌, ◌==◌, Option, none, some,
  if◌then◌else◌, arith, Bool-cases, inl, inr,
}
use std.Path.{fun_ext}
use esp32cam.Routing.Order.{StrictOrder, pairs}
use esp32cam.Routing.Endpoint.{
  Endpoint, NamedEndpoint, as_alternative, named, uart_endpoint, udp_port, udp_hook, udp_endpoint,
  udp_remote, mavlink, uart_mavlink_forwarded, udp_mavlink_forwarded, mavlink_ip_pack_forwarded,
}
use esp32cam.Routing.Rules.{Rules, Change, adds, removes, change, run, reduce, first_some}
use esp32cam.Routing.Map.{Map, nothing_routed, update, resolve, change_map, run_map, reduce_map}
use esp32cam.Routing.Mavlink.{
  Config, StaticRule, static_rules, uart_rules, udp_rules, add_all, remove_all, init, finish,
}
use esp32cam.Routing.Refine.{run-reduces, run-Agrees, empty-Agrees}
use esp32cam.Routing.Table.{lookup}

module _ {U T : Type 0} (o : StrictOrder (Endpoint U T)) where
  -- A list of rules read from its start.
  unfoldable pub assoc : List (StaticRule U T) → Map o
  assoc [] e i = none
  assoc (r ∷ rs) e i = if o.eq r.0 e && o.eq r.1.0 i then some r.1.1 else assoc rs e i

  abbrev pub IsPlain : List (StaticRule U T) → Type 0
  IsPlain [] = Unit {0}
  IsPlain (r ∷ rs) = (as_alternative r.0 ≡ []) × IsPlain rs

  abbrev pub first : Option (Endpoint U T) → Option (Endpoint U T) → Option (Endpoint U T)
  first none b = b
  first (some a) b = some a

  add-first :
      (m : Map o) (r : StaticRule U T) (e i : Endpoint U T)
      → as_alternative r.0 ≡ []
      → change_map o m (adds r.0 r.1.0 r.1.1) e i
        ≡ first (m e i) (if o.eq r.0 e && o.eq r.1.0 i then some r.1.1 else none)
  unfolding change_map resolve first_some update
  add-first m (f, (t, x)) e i p = elim (Bool-cases (o.eq f e && o.eq t i)) [
    | inl same ↦ ground (arith, o.eq_iff f e, o.eq_iff t i)
    | inr other ↦ ground arith
  ]

  adds-first :
      (m : Map o) (rs : List (StaticRule U T)) (e i : Endpoint U T)
      → IsPlain rs
      → run_map o m (add_all o rs) e i ≡ first (m e i) (assoc rs e i)
  unfolding run_map add_all assoc
  adds-first m [] e i p = ground arith
  adds-first m (r ∷ rs) e i p =
      ground (
        arith,
        adds-first (change_map o m (adds r.0 r.1.0 r.1.1)) rs e i p.1,
        add-first m r e i p.0,
      )

  static_rules-IsPlain : (c : Config) → IsPlain (static_rules c)
  unfolding static_rules uart_rules udp_rules as_alternative
  static_rules-IsPlain c = ground arith

  -- The table of `init` is the list of static rules.
  pub init-reduces :
      (c : Config) (s k : Endpoint U T)
      → reduce o (init o c []) s k ≡ reduce_map o (assoc (static_rules c)) s k
  unfolding init
  init-reduces c s k =
      (run-reduces o (add_all o (static_rules c)) s k).1
      ∙ ap (λ m. reduce_map o m s k)
          (fun_ext λ e.
            fun_ext
              λ i. adds-first (nothing_routed o) (static_rules c) e i (static_rules-IsPlain c))

  distinct : (a b : Endpoint U T) → a ≢ b → o.eq a b ≡ false
  distinct a b h = ground (arith, o.eq_iff a b)

  same : (a : Endpoint U T) → o.eq a a ≡ true
  same a = ground (arith, o.eq_iff a a)

  -- No static rule has a remote as its origin.
  unrouted :
      (c : Config) (e i : Endpoint U T)
      → uart_endpoint c.uart ≢ e
      → udp_port c.port ≢ e
      → ((n : NamedEndpoint) → named n ≢ e)
      → assoc (static_rules c) e i ≡ none
  unfolding assoc static_rules uart_rules udp_rules
  unrouted c e i u p n = ground (
    arith,
    distinct (uart_endpoint c.uart) e u,
    distinct (udp_port c.port) e p,
    distinct (named mavlink) e (n mavlink),
    distinct (named uart_mavlink_forwarded) e (n uart_mavlink_forwarded),
    distinct (named udp_mavlink_forwarded) e (n udp_mavlink_forwarded),
    distinct (named mavlink_ip_pack_forwarded) e (n mavlink_ip_pack_forwarded),
  )

  port_routed :
      (c : Config) (p : ℕ)
      → assoc (static_rules c) (udp_port p) (named mavlink) ≡ (
          if p == c.port && c.udp_mavlink_process then some (named udp_mavlink_forwarded) else none)
  unfolding assoc static_rules uart_rules udp_rules
  port_routed c p = ground (
    arith,
    same (named mavlink),
    o.eq_iff (udp_port c.port) (udp_port p),
    distinct (uart_endpoint c.uart) (udp_port p),
    distinct (uart_endpoint c.uart) (named mavlink),
    distinct (udp_hook c.port) (named mavlink),
    distinct (named mavlink) (udp_port p),
    distinct (named uart_mavlink_forwarded) (udp_port p),
    distinct (named udp_mavlink_forwarded) (udp_port p),
    distinct (named mavlink_ip_pack_forwarded) (udp_port p),
  )

  -- A datagram is for MAVLink exactly if it arrives at the MAVLink port and the flag is set.
  pub datagram_lem :
      (c : Config) (u : U) (p : ℕ)
      → reduce o (init o c []) (udp_endpoint u p) (named mavlink) ≡ (
          if p == c.port && c.udp_mavlink_process
          then (true, named udp_mavlink_forwarded)
          else (false, udp_endpoint u p))
  unfolding reduce_map resolve as_alternative first_some assoc
  datagram_lem c u p =
      init-reduces c (udp_endpoint u p) (named mavlink)
      ∙ ground (
        arith,
        unrouted c (udp_endpoint u p) (named mavlink),
        unrouted c (udp_remote u) (named mavlink),
        port_routed c p,
      )

  remove-update :
      (m : Map o) (r : StaticRule U T) (e i : Endpoint U T)
      → as_alternative r.0 ≡ []
      → change_map o m (removes r.0 r.1.0) e i
        ≡ (if o.eq r.0 e && o.eq r.1.0 i then none else m e i)
  unfolding change_map resolve first_some update
  remove-update m (f, (t, x)) e i p = elim (Bool-cases (o.eq f e && o.eq t i)) [
    | inl met ↦ ground (arith, o.eq_iff f e, o.eq_iff t i)
    | inr other ↦ ground arith
  ]

  removes-assoc :
      (m : Map o) (rs : List (StaticRule U T)) (e i : Endpoint U T)
      → IsPlain rs
      → run_map o m (remove_all o rs) e i ≡ (elim (assoc rs e i) [ none ↦ m e i | some x ↦ none ])
  unfolding run_map remove_all assoc
  removes-assoc m [] e i p = refl
  removes-assoc m (r ∷ rs) e i p = ground (
    arith,
    removes-assoc (change_map o m (removes r.0 r.1.0)) rs e i p.1,
    remove-update m r e i p.0,
  )

  run_map_++ :
      (m : Map o) (cs ds : List (Change o)) → run_map o m (cs ++ ds) ≡ run_map o (run_map o m cs) ds
  unfolding run_map
  run_map_++ m [] ds = refl
  run_map_++ m (c ∷ cs) ds = run_map_++ (change_map o m c) cs ds

  run_++ : (t : Rules o) (cs ds : List (Change o)) → run o t (cs ++ ds) ≡ run o (run o t cs) ds
  unfolding run
  run_++ t [] ds = refl
  run_++ t (c ∷ cs) ds = run_++ (change o t c) cs ds

  nothing_left :
      (c : Config)
      → run_map o (nothing_routed o) (add_all o (static_rules c) ++ remove_all o (static_rules c))
        ≡ nothing_routed o
  nothing_left c = fun_ext λ e. fun_ext λ i. ground (
    arith,
    run_map_++ (nothing_routed o) (add_all o (static_rules c)) (remove_all o (static_rules c)),
    removes-assoc (run_map o (nothing_routed o) (add_all o (static_rules c))) (static_rules c) e i
        (static_rules-IsPlain c),
    adds-first (nothing_routed o) (static_rules c) e i (static_rules-IsPlain c),
  )

  nothing_found : (t : Rules o) → ((e i : Endpoint U T) → lookup (pairs o) (e, i) t ≡ none) → t ≡ []
  unfolding lookup
  nothing_found [] h = refl
  nothing_found (((e, i), r) ∷ t) h = ground (arith, h e i, o.eq_iff e e, o.eq_iff i i)

  -- What the constructor installs the destructor takes away: the table is empty again.
  pub finish-init : (c : Config) → finish o c (init o c []) ≡ []
  unfolding finish init
  finish-init c =
      let cs = add_all o (static_rules c) ++ remove_all o (static_rules c) in
      sym (run_++ [] (add_all o (static_rules c)) (remove_all o (static_rules c)))
      ∙ nothing_found (run o [] cs) (λ e i.
        (run-Agrees o [] (nothing_routed o) cs (empty-Agrees o)).1 e i
        ∙ ap (λ m. m e i) (nothing_left c))

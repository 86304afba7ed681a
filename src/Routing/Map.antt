-- ===== src/Routing/Map.antt =====
-- What the routing table of components/wifi_uart_bridge promises: a partial map from pairs of
-- endpoints, an origin without a rule of its own standing for what it is an alternative of.
use esp32cam.Base.{List, [], ◌∷◌, Bool, true, false, ◌&&◌, Option, none, some, if◌then◌else◌}
use esp32cam.Routing.Order.{StrictOrder}
use esp32cam.Routing.Endpoint.{Endpoint, as_alternative}
use esp32cam.Routing.Rules.{Change, adds, removes, first_some}

module _ {U T : Type 0} (o : StrictOrder (Endpoint U T)) where
  abbrev pub Map : Type 0
  Map = Endpoint U T → Endpoint U T → Option (Endpoint U T)

  abbrev pub nothing_routed : Map
  nothing_routed origin intermediary = none

  -- The map changed at one pair.
  unfoldable pub update : Map → Endpoint U T → Endpoint U T → Option (Endpoint U T) → Map
  update m origin intermediary r e i = if o.eq origin e && o.eq intermediary i then r else m e i

  abbrev pub entry : Map → Endpoint U T → Endpoint U T → Option (Endpoint U T × Endpoint U T)
  entry m i e = elim (m e i) [ none ↦ none | some r ↦ some (e, r) ]

  -- The first of the origin and its alternatives with a rule, and the reduction.
  unfoldable pub resolve : Map → Endpoint U T → Endpoint U T → Option (Endpoint U T × Endpoint U T)
  resolve m origin intermediary = first_some (entry m intermediary) (origin ∷ as_alternative origin)

  unfoldable pub change_map : Map → Change o → Map
  change_map m (adds origin intermediary r) = elim (resolve m origin intermediary) [
    | none ↦ update m origin intermediary (some r)
    | some it ↦ m
  ]
  change_map m (removes origin intermediary) = elim (resolve m origin intermediary) [
    | none ↦ m
    | some it ↦ update m it.0 intermediary none
  ]

  unfoldable pub run_map : Map → List (Change o) → Map
  run_map m [] = m
  run_map m (c ∷ cs) = run_map (change_map m c) cs

  unfoldable pub reduce_map : Map → Endpoint U T → Endpoint U T → Bool × Endpoint U T
  reduce_map m source candidate = elim (resolve m source candidate) [
    | none ↦ (false, source)
    | some it ↦ (true, it.1)
  ]

-- ===== src/Routing/Rules.antt =====
-- components/wifi_uart_bridge/wifi_uart_bridge/RoutingRules.cpp: the table of reductions, and what it
-- promises, a partial map of pairs of endpoints. The mutex makes each operation one step.
use esp32cam.Base.{ℕ, zero, suc, List, [], ◌∷◌, Bool, true, false, Option, none, some}
use esp32cam.Routing.Order.{StrictOrder, pairs}
use esp32cam.Routing.Table.{find_exact, insert, erase}
use esp32cam.Routing.Endpoint.{Endpoint, as_alternative}

-- The loop with `break` over the alternatives.
unfoldable pub first_some : {A B : Type 0} → (A → Option B) → List A → Option B
first_some f [] = none
first_some f (x ∷ t) = elim (f x) [ none ↦ first_some f t | some y ↦ some y ]

module _ {U T : Type 0} (o : StrictOrder (Endpoint U T)) where
  -- `reductionRules`, its `ReductionRule`s with their trigger as the key.
  abbrev pub Rules : Type 0
  Rules = List ((Endpoint U T × Endpoint U T) × Endpoint U T)

  -- `find`: the rule of the pair, else the first one of an alternative of the origin; with the rule,
  -- the origin it is stored under, which is what the iterator points at.
  unfoldable pub find_from :
      ℕ → Rules → Endpoint U T → Endpoint U T → Option (Endpoint U T × Endpoint U T)
  find_from zero rules origin intermediary = none
  find_from (suc n) rules origin intermediary =
      elim (find_exact (pairs o) (origin, intermediary) rules) [
        | some reduction ↦ some (origin, reduction)
        | none ↦ first_some (λ a. find_from n rules a intermediary) (as_alternative origin)
      ]

  -- An alternative has no alternatives, so the recursion is two deep.
  unfoldable pub find : Rules → Endpoint U T → Endpoint U T → Option (Endpoint U T × Endpoint U T)
  find = find_from 2

  -- `addStatic`: whether the rule is added, and the table after it.
  unfoldable pub add_static : Rules → Endpoint U T → Endpoint U T → Endpoint U T → Bool × Rules
  add_static rules origin intermediary reduction = elim (find rules origin intermediary) [
    | none ↦ (true, insert (pairs o) (origin, intermediary) reduction rules)
    | some it ↦ (false, rules)
  ]

  unfoldable pub remove : Rules → Endpoint U T → Endpoint U T → Rules
  remove rules origin intermediary = elim (find rules origin intermediary) [
    | none ↦ rules
    | some it ↦ erase (pairs o) (it.0, intermediary) rules
  ]

  -- `reduce`: whether a rule is found, and `aoSrc` after the call.
  unfoldable pub reduce : Rules → Endpoint U T → Endpoint U T → Bool × Endpoint U T
  reduce rules source candidate = elim (find rules source candidate) [
    | none ↦ (false, source)
    | some it ↦ (true, it.1)
  ]

  -- What callers do to the table.
  pub data Change : Type 0 where
    adds : Endpoint U T → Endpoint U T → Endpoint U T → Change
    removes : Endpoint U T → Endpoint U T → Change

  unfoldable pub change : Rules → Change → Rules
  change rules (adds origin intermediary reduction) =
      (add_static rules origin intermediary reduction).1
  change rules (removes origin intermediary) = remove rules origin intermediary

  unfoldable pub run : Rules → List Change → Rules
  run rules [] = rules
  run rules (c ∷ cs) = run (change rules c) cs

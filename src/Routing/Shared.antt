-- ===== src/Routing/Shared.antt =====
-- RoutingRules.cpp: `remove` of a pair that has no rule of its own.
use esp32cam.Base.{ℕ, true, ◌≡◌, refl, ◌∙◌, false, none, some, arith}
use esp32cam.Routing.Order.{StrictOrder, pairs}
use esp32cam.Routing.Table.{lookup, IsSorted}
use esp32cam.Routing.Endpoint.{Endpoint, udp_endpoint, udp_remote, udp_port, as_alternative}
use esp32cam.Routing.Rules.{Rules, removes, remove, reduce, first_some}
use esp32cam.Routing.Map.{update, resolve, change_map, reduce_map}
use esp32cam.Routing.Refine.{Agrees, remove-Agrees, reduce-Agrees}

module _ {U T : Type 0} (o : StrictOrder (Endpoint U T)) where
  -- Where a sorted table has a rule for a UDP port, and none for a remote at that port or for the
  -- remote alone, `remove` for that one remote takes away the rule of the port, which was for every
  -- sender.
  pub remove_shared :
      (rules : Rules o) (u : U) (p : ℕ) (i r : Endpoint U T)
      → IsSorted (pairs o) rules
      → lookup (pairs o) (udp_endpoint u p, i) rules ≡ none
      → lookup (pairs o) (udp_remote u, i) rules ≡ none
      → lookup (pairs o) (udp_port p, i) rules ≡ some r
      → (reduce o rules (udp_port p) i ≡ (true, r))
        × (reduce o (remove o rules (udp_endpoint u p) i) (udp_port p) i ≡ (false, udp_port p))
  unfolding change_map reduce_map resolve first_some as_alternative update
  remove_shared rules u p i r s none_own none_remote port =
      let m = λ (e : Endpoint U T) (k : Endpoint U T). lookup (pairs o) (e, k) rules in
      let before : Agrees o rules m = (s, λ e k. refl) in
      (
        ground (arith, reduce-Agrees o rules m (udp_port p) i before),
        reduce-Agrees o (remove o rules (udp_endpoint u p) i)
              (change_map o m (removes (udp_endpoint u p) i)) (udp_port p) i
              (remove-Agrees o rules m (udp_endpoint u p) i before)
            ∙ ground (arith, o.eq_iff (udp_port p) (udp_port p), o.eq_iff i i),
      )

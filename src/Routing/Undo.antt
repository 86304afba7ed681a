-- ===== src/Routing/Undo.antt =====
-- RoutingRules.cpp: `remove` takes back what `addStatic` added.
use esp32cam.Base.{ℕ, ◌≡◌, [], true, some, none, arith}
use esp32cam.Routing.Order.{StrictOrder, pairs}
use esp32cam.Routing.Table.{
  lookup, insert, IsSorted, find_exact-eq-lookup, lookup-insert, insert-IsSorted, erase-insert,
}
use esp32cam.Routing.Endpoint.{Endpoint, udp_port, as_alternative}
use esp32cam.Routing.Rules.{Rules, first_some, find_from, find, add_static, remove, reduce}

module _ {U T : Type 0} (o : StrictOrder (Endpoint U T)) where
  find-lookup :
      (t : Rules o) (e i : Endpoint U T)
      → IsSorted (pairs o) t
      → find o t e i ≡ none
      → lookup (pairs o) (e, i) t ≡ none
  unfolding find find_from
  find-lookup t e i s h = ground (arith, find_exact-eq-lookup (pairs o) (e, i) t s)

  -- A rule that is added is found.
  pub find-insert :
      (t : Rules o) (e i r : Endpoint U T)
      → IsSorted (pairs o) t
      → find o t e i ≡ none
      → find o (insert (pairs o) (e, i) r t) e i ≡ some (e, r)
  unfolding find find_from
  find-insert t e i r s h =
      let absent = find-lookup t e i s h in
      ground (
        arith,
        find_exact-eq-lookup (pairs o) (e, i) (insert (pairs o) (e, i) r t)
            (insert-IsSorted (pairs o) (e, i) r t s absent),
        lookup-insert (pairs o) (e, i) (e, i) r t,
        o.eq_iff e e,
        o.eq_iff i i,
      )

  pub remove-add_static :
      (t : Rules o) (e i r : Endpoint U T)
      → IsSorted (pairs o) t
      → find o t e i ≡ none
      → (reduce o (add_static o t e i r).1 e i ≡ (true, r))
        × (remove o (add_static o t e i r).1 e i ≡ t)
  unfolding add_static remove reduce
  remove-add_static t e i r s h =
      ground (
        arith,
        find-insert t e i r s h,
        erase-insert (pairs o) (e, i) r t s (find-lookup t e i s h),
      )

  -- No rule for a port is found in an empty table.
  pub find-nil : (p : ℕ) (i : Endpoint U T) → find o [] (udp_port p) i ≡ none
  unfolding find find_from first_some as_alternative lookup
  find-nil p i =
      ground (arith, find_exact-eq-lookup {V = Endpoint U T} (pairs o) (udp_port p, i) [] tt)

-- ===== src/Routing/Refine.antt =====
-- RoutingRules.cpp against a partial map: no order, no vector, no search.
use esp32cam.Base.{
  ℕ, suc, ◌≡◌, ◌∙◌, refl, List, [], ◌∷◌, Option, none, some, if◌then◌else◌, arith, Option-cases,
  inl, inr,
}
use esp32cam.Routing.Order.{StrictOrder, pairs, eq_pair}
use esp32cam.Routing.Table.{
  find_exact, insert, erase, lookup, IsSorted, find_exact-eq-lookup, lookup-insert, lookup-erase,
  insert-IsSorted, erase-IsSorted,
}
use esp32cam.Routing.Endpoint.{Endpoint, as_alternative, tcp_endpoint, udp_endpoint}
use esp32cam.Routing.Rules.{
  Rules, Change, adds, removes, first_some, find_from, find, add_static, remove, reduce, change,
  run,
}
use esp32cam.Routing.Map.{
  Map, nothing_routed, update, entry, resolve, change_map, run_map, reduce_map,
}

module _ {U T : Type 0} (o : StrictOrder (Endpoint U T)) where
  -- The table is sorted, and looking a pair up in it gives what the map has.
  abbrev pub Agrees : Rules o → Map o → Type 0
  Agrees rules m =
      IsSorted (pairs o) rules × ((e i : Endpoint U T) → lookup (pairs o) (e, i) rules ≡ m e i)

  find_exact-entry :
      (rules : Rules o) (m : Map o) (e i : Endpoint U T)
      → Agrees rules m
      → find_exact (pairs o) (e, i) rules ≡ m e i
  find_exact-entry rules m e i a = find_exact-eq-lookup (pairs o) (e, i) rules a.0 ∙ a.1 e i

  -- Without alternatives, the search ends at the table.
  find_from-plain :
      (n : ℕ) (rules : Rules o) (m : Map o) (e i : Endpoint U T)
      → Agrees rules m
      → as_alternative e ≡ []
      → find_from o (suc n) rules e i ≡ entry o m i e
  unfolding find_from first_some
  find_from-plain n rules m e i a p = ground (arith, find_exact-entry rules m e i a)

  abbrev IsPlain : List (Endpoint U T) → Type 0
  IsPlain [] = Unit {0}
  IsPlain (e ∷ t) = (as_alternative e ≡ []) × IsPlain t

  alternatives-IsPlain : (e : Endpoint U T) → IsPlain (as_alternative e)
  unfolding as_alternative
  alternatives-IsPlain e = elim e as (λ k. IsPlain (as_alternative k)) [
    | udp_endpoint u p ↦ (refl, (refl, tt))
    | tcp_endpoint t p ↦ (refl, (refl, tt))
    | _ ↦ tt
  ]

  first_some-plain :
      (n : ℕ) (rules : Rules o) (m : Map o) (i : Endpoint U T) (t : List (Endpoint U T))
      → Agrees rules m
      → IsPlain t
      → first_some (λ e. find_from o (suc n) rules e i) t ≡ first_some (entry o m i) t
  unfolding first_some
  first_some-plain n rules m i [] a p = refl
  first_some-plain n rules m i (e ∷ t) a p =
      ground (arith, find_from-plain n rules m e i a p.0, first_some-plain n rules m i t a p.1)

  -- Two levels are as many as there are.
  pub find_from-resolve :
      (n : ℕ) (rules : Rules o) (m : Map o) (e i : Endpoint U T)
      → Agrees rules m
      → find_from o (suc (suc n)) rules e i ≡ resolve o m e i
  unfolding find_from first_some resolve
  find_from-resolve n rules m e i a = ground (
    arith,
    find_exact-entry rules m e i a,
    first_some-plain n rules m i (as_alternative e) a (alternatives-IsPlain e),
  )

  pub find-resolve :
      (rules : Rules o) (m : Map o) (e i : Endpoint U T)
      → Agrees rules m
      → find o rules e i ≡ resolve o m e i
  unfolding find
  find-resolve rules m e i a = find_from-resolve 0 rules m e i a

  update-eq :
      (rules : Rules o) (m : Map o) (e i e' i' : Endpoint U T) (v : Option (Endpoint U T))
      → Agrees rules m
      → (if eq_pair o (e, i) (e', i') then v else lookup (pairs o) (e', i') rules)
        ≡ update o m e i v e' i'
  unfolding update
  update-eq rules m e i e' i' v a = ground (arith, a.1 e' i')

  inserted-Agrees :
      (rules : Rules o) (m : Map o) (e i r : Endpoint U T)
      → Agrees rules m
      → m e i ≡ none
      → Agrees (insert (pairs o) (e, i) r rules) (update o m e i (some r))
  inserted-Agrees rules m e i r a h = (
    insert-IsSorted (pairs o) (e, i) r rules a.0 (a.1 e i ∙ h),
    λ e' i'.
        lookup-insert (pairs o) (e, i) (e', i') r rules ∙ update-eq rules m e i e' i' (some r) a,
  )

  erased-Agrees :
      (rules : Rules o) (m : Map o) (e i r : Endpoint U T)
      → Agrees rules m
      → m e i ≡ some r
      → Agrees (erase (pairs o) (e, i) rules) (update o m e i none)
  erased-Agrees rules m e i r a h = (
    erase-IsSorted (pairs o) (e, i) rules a.0,
    λ e' i'.
        lookup-erase (pairs o) (e, i) (e', i') r rules a.0 (a.1 e i ∙ h)
        ∙ update-eq rules m e i e' i' none a,
  )

  first_some-entry :
      (m : Map o) (i : Endpoint U T) (t : List (Endpoint U T)) (it : Endpoint U T × Endpoint U T)
      → first_some (entry o m i) t ≡ some it
      → m it.0 i ≡ some it.1
  unfolding first_some
  first_some-entry m i [] it h = cc
  first_some-entry m i (e ∷ t) it h = ground (arith, first_some-entry m i t it)

  -- A resolved pair has its entry in the map.
  resolve-some :
      (m : Map o) (e i : Endpoint U T) (it : Endpoint U T × Endpoint U T)
      → resolve o m e i ≡ some it
      → m it.0 i ≡ some it.1
  unfolding resolve
  resolve-some m e i it h = first_some-entry m i (e ∷ as_alternative e) it h

  resolve-none : (m : Map o) (e i : Endpoint U T) → resolve o m e i ≡ none → m e i ≡ none
  unfolding resolve first_some
  resolve-none m e i h = ground arith

  add_static-Agrees :
      (rules : Rules o) (m : Map o) (e i r : Endpoint U T)
      → Agrees rules m
      → Agrees (add_static o rules e i r).1 (change_map o m (adds e i r))
  unfolding add_static change_map
  add_static-Agrees rules m e i r a =
      ground
        (arith, find-resolve rules m e i a, resolve-none m e i, inserted-Agrees rules m e i r a)

  pub remove-Agrees :
      (rules : Rules o) (m : Map o) (e i : Endpoint U T)
      → Agrees rules m
      → Agrees (remove o rules e i) (change_map o m (removes e i))
  unfolding remove change_map
  remove-Agrees rules m e i a = elim (Option-cases (resolve o m e i)) [
    | inl missing ↦ ground (arith, find-resolve rules m e i a)
    | inr (it, found) ↦ ground (
      arith,
      find-resolve rules m e i a,
      erased-Agrees rules m it.0 i it.1 a (resolve-some m e i it found),
    )
  ]

  change-Agrees :
      (rules : Rules o) (m : Map o) (c : Change o)
      → Agrees rules m
      → Agrees (change o rules c) (change_map o m c)
  unfolding change
  change-Agrees rules m (adds e i r) a = add_static-Agrees rules m e i r a
  change-Agrees rules m (removes e i) a = remove-Agrees rules m e i a

  pub run-Agrees :
      (rules : Rules o) (m : Map o) (cs : List (Change o))
      → Agrees rules m
      → Agrees (run o rules cs) (run_map o m cs)
  unfolding run run_map
  run-Agrees rules m [] a = a
  run-Agrees rules m (c ∷ cs) a =
      run-Agrees (change o rules c) (change_map o m c) cs (change-Agrees rules m c a)

  pub reduce-Agrees :
      (rules : Rules o) (m : Map o) (s c : Endpoint U T)
      → Agrees rules m
      → reduce o rules s c ≡ reduce_map o m s c
  unfolding reduce reduce_map
  reduce-Agrees rules m s c a = ground (arith, find-resolve rules m s c a)

  pub empty-Agrees : Agrees [] (nothing_routed o)
  unfolding lookup
  empty-Agrees = (tt, λ e i. refl)

  -- After any sequence of `addStatic` and `remove` on an empty table, the table is sorted, and
  -- `reduce` gives what the partial map gives after the same sequence.
  pub run-reduces :
      (cs : List (Change o)) (source candidate : Endpoint U T)
      → IsSorted (pairs o) (run o [] cs)
        × (reduce o (run o [] cs) source candidate
            ≡ reduce_map o (run_map o (nothing_routed o) cs) source candidate)
  run-reduces cs source candidate =
      let a = run-Agrees [] (nothing_routed o) cs empty-Agrees in
      (a.0, reduce-Agrees (run o [] cs) (run_map o (nothing_routed o) cs) source candidate a)

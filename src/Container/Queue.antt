-- ===== src/Container/Queue.antt =====
-- CircularBuffer of components/utility/utility/cont/CircularBuffer.hpp behaves as a bounded queue.
use esp32cam.Base.{
  ℕ, ◌+◌, ◌-◌, ◌≡◌, ◌≤◌, ◌<◌, refl, List, [], ◌∷◌, ◌++◌, Option, some, none, Bool, true, false, ltb,
  if◌then◌else◌, arith, length, length-append, drop,
}
use esp32cam.Container.Counter
use esp32cam.Container.Counter.{
  Counter, fwd, rev, wrapped, fwd-lt, fwd-fwd, fwd-zero, fwd-ne, fwd-around,
}
use esp32cam.Container.Circular.{
  front, Circular, initial, emplace_at, destruct_at, pop_front, ensure_capacity, emplace_back, call,
  run,
}
use esp32cam.Container.Filled.{Filled, emplace_at-Filled, destruct_at-Filled}

module _ {T : Type 0} (limit : ℕ) where
  -- The buffer holds the queue: its objects from the front on.
  abbrev pub Holds : Circular T → List T → Type 0
  Holds b q =
      (b.cc.base < limit)
      × ((b.cc.sz ≡ length q) × ((length q ≤ limit) × Filled limit b.at b.cc.base q))

  emplace_back-Holds :
      (b : Circular T) (q : List T) (x : T)
      → Holds b q
      → length q < limit
      → Holds
          (record {
            cc = record { base = b.cc.base; sz = b.cc.sz + 1 };
            at = emplace_at (Counter.head limit b.cc) x b.at;
          })
          (q ++ x ∷ [])
  unfolding Counter.head fwd
  emplace_back-Holds b q x h hl = (
    h.0,
    (
      ground (arith, length-append q (x ∷ []), h.1.0),
      (
        ground (arith, length-append q (x ∷ [])),
        ground (arith, emplace_at-Filled limit b.at b.cc.base q x h.0 hl h.1.1.1, h.1.0),
      ),
    ),
  )

  pop_front-Holds :
      (b : Circular T) (x : T) (q : List T)
      → Holds b (x ∷ q)
      → Holds
          (record {
            cc = record { base = fwd limit b.cc.base 1; sz = b.cc.sz - 1 };
            at = destruct_at b.cc.base b.at;
          })
          q
  pop_front-Holds b x q h = (
    fwd-lt limit b.cc.base 1 h.0 (omega arith),
    (
      ground (arith, h.1.0),
      (omega arith, destruct_at-Filled limit b.at b.cc.base x q h.0 h.1.1.0 h.1.1.1),
    ),
  )

  -- The same call on the bounded queue: an element to append, or none to take the first one away.
  unfoldable pub call_queue : Bool → Option T → List T → Option (List T)
  call_queue overwrite none [] = none
  call_queue overwrite none (x ∷ q) = some q
  call_queue overwrite (some x) q =
      if ltb (length q) limit
      then some (q ++ x ∷ [])
      else if overwrite
      then some (drop 1 q ++ x ∷ [])
      else none

  unfoldable pub run_queue : Bool → List (Option T) → List T → Option (List T)
  run_queue overwrite [] q = some q
  run_queue overwrite (c ∷ cs) q = elim (call_queue overwrite c q) [
    | none ↦ none
    | some r ↦ run_queue overwrite cs r
  ]

  -- Both fail, or the buffer holds the queue.
  abbrev pub Agree : Option (Circular T) → Option (List T) → Type 0
  Agree none none = Unit {0}
  Agree none (some q) = ⊥
  Agree (some b) none = ⊥
  Agree (some b) (some q) = Holds b q

  pop_front-Agree :
      (overwrite : Bool) (b : Circular T) (q : List T)
      → Holds b q
      → Agree (pop_front limit b) (call_queue overwrite none q)
  unfolding pop_front call_queue Counter.pop Counter.tail
  pop_front-Agree overwrite b [] h = ground (arith, h.1.0)
  pop_front-Agree overwrite b (x ∷ q) h = ground (arith, h.1.0, pop_front-Holds b x q h)

  emplace_back-Agree :
      (overwrite : Bool) (b : Circular T) (q : List T) (x : T)
      → Holds b q
      → Agree (emplace_back limit overwrite x b) (call_queue overwrite (some x) q)
  unfolding emplace_back ensure_capacity pop_front call_queue Counter.push Counter.pop Counter.tail
      Counter.capacity
  emplace_back-Agree true b [] x h = ground (arith, h.0, h.1.0, emplace_back-Holds b [] x h)
  emplace_back-Agree true b (y ∷ q) x h =
      let popped = pop_front-Holds b y q h in
      ground (
        arith,
        h.0,
        h.1.0,
        h.1.1.0,
        emplace_back-Holds b (y ∷ q) x h,
        emplace_back-Holds _ q x popped,
      )
  emplace_back-Agree false b q x h = ground (arith, h.0, h.1.0, h.1.1.0, emplace_back-Holds b q x h)

  call-Agree :
      (overwrite : Bool) (c : Option T) (b : Circular T) (q : List T)
      → Holds b q
      → Agree (call limit overwrite c b) (call_queue overwrite c q)
  unfolding call
  call-Agree overwrite (some x) b q h = emplace_back-Agree overwrite b q x h
  call-Agree overwrite none b q h = pop_front-Agree overwrite b q h

  Agree-bind :
      (r : Option (Circular T)) (s : Option (List T)) (f : Circular T → Option (Circular T))
      (g : List T → Option (List T))
      → ((b : Circular T) (q : List T) → Holds b q → Agree (f b) (g q))
      → Agree r s
      → Agree (elim r [ none ↦ none | some b ↦ f b ]) (elim s [ none ↦ none | some q ↦ g q ])
  Agree-bind none none f g k a = tt
  Agree-bind none (some q) f g k a = absurd a
  Agree-bind (some b) none f g k a = absurd a
  Agree-bind (some b) (some q) f g k a = k b q a

  run-Agree :
      (overwrite : Bool) (cs : List (Option T)) (b : Circular T) (q : List T)
      → Holds b q
      → Agree (run limit overwrite cs b) (run_queue overwrite cs q)
  unfolding run run_queue
  run-Agree overwrite [] b q h = h
  run-Agree overwrite (c ∷ cs) b q h =
      Agree-bind (call limit overwrite c b) (call_queue overwrite c q) (run limit overwrite cs)
        (run_queue overwrite cs) (run-Agree overwrite cs) (call-Agree overwrite c b q h)

  -- Whatever is called on a new buffer of at least one place, the buffer fails an assertion exactly where the bounded queue
  -- has no result, and else holds the elements of the queue in their order.
  pub run_queue_lem :
      (overwrite : Bool) (cs : List (Option T))
      → 0 < limit
      → Agree (run limit overwrite cs (initial limit)) (run_queue overwrite cs [])
  run_queue_lem overwrite cs h =
      run-Agree overwrite cs (initial limit) [] (h, (refl, (omega arith, tt)))

  -- What callers of a buffer that must not overwrite rely on.
  pub emplace_back-room :
      (b : Circular T) (q : List T) (x : T)
      → Holds b q
      → length q < limit
      → (r : Circular T) × ((emplace_back limit false x b ≡ some r) × Holds r (q ++ x ∷ []))
  unfolding emplace_back ensure_capacity Counter.push Counter.capacity
  emplace_back-room b q x h less = (
    record {
      cc = record { base = b.cc.base; sz = b.cc.sz + 1 };
      at = emplace_at (Counter.head limit b.cc) x b.at;
    },
    (ground (arith, h.1.0), emplace_back-Holds b q x h less),
  )

  pub pop_front-first :
      (b : Circular T) (x : T) (q : List T)
      → Holds b (x ∷ q)
      → (r : Circular T) × ((front limit b ≡ some x) × ((pop_front limit b ≡ some r) × Holds r q))
  unfolding front pop_front Counter.pop Counter.tail
  pop_front-first b x q h = (
    record {
      cc = record { base = fwd limit b.cc.base 1; sz = b.cc.sz - 1 };
      at = destruct_at b.cc.base b.at;
    },
    (h.1.1.1.0, (ground (arith, h.1.0), pop_front-Holds b x q h)),
  )

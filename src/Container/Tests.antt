-- ===== src/Container/Tests.antt =====
-- The circular buffer at concrete calls.
use esp32cam.Base.{
  ℕ, ◌≡◌, List, [], ◌∷◌, Option, some, none, true, refl, arith, if◌then◌else◌, ◌==◌,
}
use esp32cam.Container.Counter.{fwd}
use esp32cam.Container.Circular.{Circular, initial, run, traverse, begin, end}
use esp32cam.Container.Queue.{Agree, Holds, run_queue, run_queue_lem}
use esp32cam.Container.Observe.{traverse-Holds, reversed}

abbrev calls : List (Option ℕ)
calls = some 1 ∷ some 2 ∷ some 3 ∷ none ∷ some 4 ∷ []

run_queue_example : Agree 2 (run 2 true calls (initial 2)) (run_queue 2 true calls [])
run_queue_example = run_queue_lem 2 true calls (omega arith)

-- Of three places, the two last hold 5 and 6, and the first 7.
abbrev full : Circular ℕ
full = record {
  cc = record { base = 1; sz = 3 };
  at = λ i. if i == 0 then some 7 else if i == 1 then some 5 else some 6;
}

full-Holds : Holds 3 full (5 ∷ 6 ∷ 7 ∷ [])
unfolding fwd
full-Holds = (omega arith, (refl, (omega arith, (refl, (refl, (refl, tt))))))

traverse-Holds_example :
    traverse 3 4 true full.at (begin 3 full) (end 3 full) ≡ some (5 ∷ 6 ∷ 7 ∷ [])
traverse-Holds_example = traverse-Holds 3 full (5 ∷ 6 ∷ 7 ∷ []) full-Holds

full-reversed : Holds 3 full (reversed 3 (7 ∷ 6 ∷ 5 ∷ []))
unfolding fwd reversed
full-reversed = (omega arith, (refl, (omega arith, (refl, (refl, (refl, tt))))))

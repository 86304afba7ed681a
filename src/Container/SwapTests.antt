-- ===== src/Container/SwapTests.antt =====
-- Two buffers that are exchanged.
use esp32cam.Base.{◌≡◌, [], ◌∷◌, refl, arith, some}
use esp32cam.Container.Swap.{Swap, make}
use esp32cam.Container.Queue.{Holds}
use esp32cam.Container.Swap.Many.{pop_free_many, pop_free_many_lem}
use esp32cam.Container.Swap.Client.{Lent, takes_free, takes_full, gives_full, run}
use esp32cam.Container.Swap.Conserved.{IsConserved, run-IsConserved}

run-IsConserved_example :
    (s : Swap) × (w : Lent) × (make 2 (100 ∷ 200 ∷ []) ≡ some s)
    × (run 2 (takes_free ∷ gives_full 0 ∷ takes_full ∷ []) (s, []) ≡ some w)
    × IsConserved 2 (100 ∷ 200 ∷ []) w
run-IsConserved_example =
    run-IsConserved 2 (100 ∷ 200 ∷ []) (takes_free ∷ gives_full 0 ∷ takes_full ∷ []) refl
      (omega arith)

-- One buffer is free, the other is filled.
abbrev half_full : Swap
half_full = record {
  free = record { pos = 1; at = λ i. 100 };
  ring = record { cc = record { base = 0; sz = 1 }; at = λ i. some 200 };
}

pop_free_many_example :
    (s' : Swap) × (pop_free_many 2 1 half_full ≡ some (200 ∷ [], s'))
    × Holds 2 s'.ring []
    × (s'.free ≡ half_full.free)
pop_free_many_example =
    pop_free_many_lem 2 1 half_full (200 ∷ []) (omega arith, (refl, (omega arith, (refl, tt))))

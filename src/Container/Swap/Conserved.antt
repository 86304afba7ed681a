-- ===== src/Container/Swap/Conserved.antt =====
-- No buffer of components/utility/utility/cont/CircularSwap.hpp is lost or lent twice.
use esp32cam.Base.{
  ℕ, ◌+◌, ◌≡◌, ◌≤◌, ◌<◌, refl, List, [], ◌∷◌, ◌++◌, some, length, length-append, arith,
  Option-cases, inl, inr,
}
use esp32cam.Container.PosArray.{PosArray}
use esp32cam.Container.Circular.{Circular, initial}
use esp32cam.Container.Circular
use esp32cam.Container.Queue.{Holds}
use esp32cam.Container.Swap.{Swap, push_all, make}
use esp32cam.Container.Swap.Client.{
  count, count-append, Call, takes_free, takes_full, gives_free, gives_full, remove_at,
  remove_at_lem, Lent, call, run,
}
use esp32cam.Container.Swap.Steps.{
  Stacked, push_free_lem, pop_free_lem, push_full_lem, pop_full_lem,
}

-- Where the buffers are: in the stack, in the ring, or with the client.
pub record IsConserved (limit : ℕ) (buffers : List ℕ) (w : Lent) : Type 0 where
  pub free : List ℕ
  pub full : List ℕ
  pub stacked : Stacked w.0.free.at w.0.free.pos free
  pub queued : Holds limit w.0.ring full
  pub all : (x : ℕ) → count x free + count x full + count x w.1 ≡ count x buffers
  pub places : length free + length full + length w.1 ≡ limit

module _ (limit : ℕ) (buffers : List ℕ) where
  takes_free_lem :
      (s : Swap) (bs fs rs : List ℕ)
      → Stacked s.free.at s.free.pos fs
      → Holds limit s.ring rs
      → ((x : ℕ) → count x fs + count x rs + count x bs ≡ count x buffers)
      → length fs + length rs + length bs ≡ limit
      → (w' : Lent) × (call limit takes_free (s, bs) ≡ some w') × IsConserved limit buffers w'
  unfolding call
  takes_free_lem s bs [] rs st ho all pl = (
    (s, bs),
    ground (arith, st),
    record { free = []; full = rs; stacked = st; queued = ho; all = all; places = pl },
  )
  takes_free_lem s bs (b ∷ fs) rs st ho all pl =
      let (a, pop, now) = pop_free_lem limit s b fs st in
      (
        (record s { free = a }, b ∷ bs),
        ground (arith, pop, st.0),
        record {
          free = fs;
          full = rs;
          stacked = now;
          queued = ho;
          all = λ x. ground (arith, all x);
          places = omega arith;
        },
      )

  takes_full_lem :
      (s : Swap) (bs fs rs : List ℕ)
      → Stacked s.free.at s.free.pos fs
      → Holds limit s.ring rs
      → ((x : ℕ) → count x fs + count x rs + count x bs ≡ count x buffers)
      → length fs + length rs + length bs ≡ limit
      → (w' : Lent) × (call limit takes_full (s, bs) ≡ some w') × IsConserved limit buffers w'
  unfolding call Circular.size
  takes_full_lem s bs fs [] st ho all pl = (
    (s, bs),
    ground (arith, ho.1.0),
    record { free = fs; full = []; stacked = st; queued = ho; all = all; places = pl },
  )
  takes_full_lem s bs fs (b ∷ rs) st ho all pl =
      let (r, pop, now) = pop_full_lem limit s b rs ho in
      (
        (record s { ring = r }, b ∷ bs),
        ground (arith, pop, ho.1.0),
        record {
          free = fs;
          full = rs;
          stacked = st;
          queued = now;
          all = λ x. ground (arith, all x);
          places = omega arith;
        },
      )

  -- Each call succeeds and keeps each buffer.
  call_lem :
      (c : Call) (w : Lent)
      → IsConserved limit buffers w
      → (w' : Lent) × (call limit c w ≡ some w') × IsConserved limit buffers w'
  unfolding call
  call_lem takes_free (s, bs) i =
      takes_free_lem s bs i.free i.full i.stacked i.queued i.all i.places
  call_lem takes_full (s, bs) i =
      takes_full_lem s bs i.free i.full i.stacked i.queued i.all i.places
  call_lem (gives_free k) (s, bs) i = elim (Option-cases (remove_at k bs)) [
    | inl nothing ↦ ((s, bs), ground (arith, nothing), i)
    | inr ((b, bs'), found) ↦
        let (counted, len) = remove_at_lem k bs (b, bs') found in
        let (a, push, now) = push_free_lem limit s i.free b i.stacked (omega (arith, i.places)) in
        (
          (record s { free = a }, bs'),
          ground (arith, found, push),
          record {
            free = b ∷ i.free;
            full = i.full;
            stacked = now;
            queued = i.queued;
            all = λ x. ground (arith, i.all x, counted x);
            places = omega (arith, i.places);
          },
        )
  ]
  call_lem (gives_full k) (s, bs) i = elim (Option-cases (remove_at k bs)) [
    | inl nothing ↦ ((s, bs), ground (arith, nothing), i)
    | inr ((b, bs'), found) ↦
        let (counted, len) = remove_at_lem k bs (b, bs') found in
        let (r, push, now) = push_full_lem limit s i.full b i.queued (omega (arith, i.places)) in
        (
          (record s { ring = r }, bs'),
          ground (arith, found, push),
          record {
            free = i.free;
            full = i.full ++ b ∷ [];
            stacked = i.stacked;
            queued = now;
            all = λ x. ground (arith, i.all x, counted x, count-append x i.full (b ∷ []));
            places = omega (arith, i.places, length-append i.full (b ∷ []));
          },
        )
  ]

  run_keeps_lem :
      (cs : List Call) (w : Lent)
      → IsConserved limit buffers w
      → (w' : Lent) × (run limit cs w ≡ some w') × IsConserved limit buffers w'
  unfolding run
  run_keeps_lem [] w i = (w, refl, i)
  run_keeps_lem (c ∷ cs) w i =
      let (w1, first, i1) = call_lem c w i in
      let (w2, rest, i2) = run_keeps_lem cs w1 i1 in (w2, ground (arith, first, rest), i2)

  push_all_lem :
      (bs fs : List ℕ) (s : Swap)
      → Stacked s.free.at s.free.pos fs
      → length fs + length bs ≤ limit
      → (a : PosArray ℕ) × (fs' : List ℕ) × (push_all limit bs s ≡ some (record s { free = a }))
        × Stacked a.at a.pos fs'
        × ((x : ℕ) → count x fs' ≡ count x fs + count x bs)
        × (length fs' ≡ length fs + length bs)
  unfolding push_all
  push_all_lem [] fs s h room = (s.free, fs, refl, h, (λ x. omega arith), omega arith)
  push_all_lem (b ∷ bs) fs s h room =
      let (a, push, now) = push_free_lem limit s fs b h (omega arith) in
      let (a', fs', rest, st, counted, len) =
        push_all_lem bs (b ∷ fs) (record s { free = a }) now (omega arith) in
      (
        a',
        fs',
        ground (arith, push, rest),
        st,
        (λ x. ground (arith, counted x)),
        omega (arith, len),
      )

  -- For as many buffers as there are places, at least one, the constructor succeeds, and so does
  -- every sequence of calls of a client that asks only where the count is not 0 and gives back only
  -- what it has borrowed; each buffer then is as often in the stack, in the ring or with the client,
  -- taken together, as it was given to the constructor.
  pub run-IsConserved :
      (cs : List Call)
      → length buffers ≡ limit
      → 0 < limit
      → (s : Swap) × (w : Lent) × (make limit buffers ≡ some s)
        × (run limit cs (s, []) ≡ some w)
        × IsConserved limit buffers w
  unfolding make
  run-IsConserved cs places some_place =
      let (a, fs, built, st, counted, len) =
        push_all_lem buffers []
          (record { free = record { pos = 0; at = λ i. 0 }; ring = initial limit }) refl
          (omega arith) in
      let start : Swap = record { free = a; ring = initial limit } in
      let (w, runs, kept) =
        run_keeps_lem cs (start, [])
          (record {
            free = fs;
            full = [];
            stacked = st;
            queued = (some_place, (refl, (omega arith, tt)));
            all = λ x. ground (arith, counted x);
            places = omega (arith, len);
          }) in
      (start, w, built, runs, kept)

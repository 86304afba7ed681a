-- ===== src/Version/Tests.antt =====
-- The version parser at concrete bytes.
use esp32cam.Base.{ℕ, ◌≡◌, refl, List, [], ◌∷◌, ◌++◌, true}
use esp32cam.Version.{
  reset, parse, parsed, end, iter, iter_start, iter_prefix, iter_size, iter_payload, iter_postfix,
}
use esp32cam.Version.Frame.{at, frame, has_no_start, parse-frame_round_trip}
use esp32cam.Version.Sound.{parsed_framed}

noise-has_no_start : has_no_start (1 ∷ 2 ∷ []) ≡ true
unfolding has_no_start
noise-has_no_start = refl

parse-frame_round_trip_example :
    parse reset ((1 ∷ 2 ∷ []) ++ (frame (9 ∷ 8 ∷ 7 ∷ []) ++ 0 ∷ 5 ∷ [])) ≡ at end 3 (9 ∷ 8 ∷ 7 ∷ [])
parse-frame_round_trip_example =
    parse-frame_round_trip (1 ∷ 2 ∷ []) (9 ∷ 8 ∷ 7 ∷ []) 0 (5 ∷ []) noise-has_no_start

abbrev sent : List ℕ
sent = 3 ∷ 102 ∷ 119 ∷ 118 ∷ 1 ∷ 9 ∷ 70 ∷ 87 ∷ 86 ∷ 4 ∷ 4 ∷ []

sent-parsed : parsed (parse reset sent) ≡ true
unfolding parsed parse iter iter_start iter_prefix iter_size iter_payload iter_postfix
sent-parsed = refl

parsed_framed_example :
    (front : List ℕ) × ((next : ℕ) × ((rest : List ℕ) × (sent
          ≡ (front ++ (frame (parse reset sent).pl ++ next ∷ [])) ++ rest)))
parsed_framed_example = parsed_framed sent sent-parsed

-- ===== src/Version/Frame.antt =====
-- VersionParser.cpp on a frame: what it takes out of it.
use esp32cam.Base.{
  ℕ, ◌≡◌, refl, List, [], ◌∷◌, ◌++◌, Bool, true, false, ◌==◌, if◌then◌else◌, arith, Bool-cases, inl,
  inr, length, sym, ◌∙◌, ap, append_assoc, append-nil,
}
use esp32cam.Version.{
  Parser, Stage, payload, postfix, end, reset, parsed, iter, iter_start, iter_prefix, iter_size,
  iter_payload, iter_postfix, parse, acquire,
}

-- A frame as the flight controller sends it.
abbrev pub frame : List ℕ → List ℕ
frame bytes = 102 ∷ 119 ∷ 118 ∷ length bytes ∷ bytes ++ 70 ∷ 87 ∷ 86 ∷ []

abbrev pub at : Stage → ℕ → List ℕ → Parser
at stage left taken = record { id = stage; info = left; pl = taken }

parse-payload :
    (taken bytes rest : List ℕ)
    → parse (at payload (length bytes) taken) (bytes ++ rest)
      ≡ parse (at payload 0 (taken ++ bytes)) rest
unfolding parse parsed iter iter_payload
parse-payload taken [] rest = ground (arith, append-nil taken)
parse-payload taken (b ∷ bytes) rest =
    ground (arith, parse-payload (taken ++ b ∷ []) bytes rest, append_assoc taken (b ∷ []) bytes)

parse_end : (s : Parser) (rest : List ℕ) → parsed s ≡ true → parse s rest ≡ s
unfolding parse
parse_end s [] h = refl
parse_end s (b ∷ rest) h = ground arith

parse_nil : (s : Parser) → s ≡ parse s []
unfolding parse
parse_nil s = refl

-- A frame takes the parser to the end of the postfix.
parse-frame :
    (bytes rest : List ℕ) → parse reset (frame bytes ++ rest) ≡ parse (at postfix 3 bytes) rest
unfolding parse parsed iter iter_start iter_prefix iter_size iter_payload iter_postfix
parse-frame bytes rest =
    ap (parse (at payload (length bytes) [])) (append_assoc bytes (70 ∷ 87 ∷ 86 ∷ []) rest)
    ∙ parse-payload [] bytes (70 ∷ 87 ∷ 86 ∷ rest)

unfoldable pub has_no_start : List ℕ → Bool
has_no_start [] = true
has_no_start (b ∷ bs) = if b == 102 then false else has_no_start bs

parse-noise :
    (noise rest : List ℕ)
    → has_no_start noise ≡ true
    → parse reset (noise ++ rest) ≡ parse reset rest
unfolding parse parsed iter iter_start has_no_start
parse-noise [] rest h = refl
parse-noise (b ∷ noise) rest h = ground (arith, parse-noise noise rest)

-- Behind noise without the letter 'f', a frame and one more byte give the frame's payload, whatever
-- follows.
pub parse-frame_round_trip :
    (noise bytes : List ℕ) (next : ℕ) (rest : List ℕ)
    → has_no_start noise ≡ true
    → parse reset (noise ++ (frame bytes ++ next ∷ rest)) ≡ at end 3 bytes
unfolding parse parsed iter iter_postfix
parse-frame_round_trip noise bytes next rest h =
    parse-noise noise (frame bytes ++ next ∷ rest) h
    ∙ parse-frame bytes (next ∷ rest)
    ∙ parse_end (at end 3 bytes) rest refl

-- The frame alone is not enough: the parser is not done before a byte behind it arrives.
pub frame_not_parsed : (bytes : List ℕ) → parsed (parse reset (frame bytes)) ≡ false
unfolding parse parsed
frame_not_parsed bytes =
    ap (λ l. parsed (parse reset l)) (sym (append-nil (frame bytes)))
    ∙ ap parsed (parse-frame bytes [])

parse-append : (s : Parser) (xs ys : List ℕ) → parse s (xs ++ ys) ≡ parse (parse s xs) ys
unfolding parse
parse-append s [] ys = refl
parse-append s (b ∷ xs) ys = elim (Bool-cases (parsed s)) [
  | inl done ↦ ground (arith, parse_end s ys done)
  | inr more ↦ ground (arith, parse-append (iter s b) xs ys)
]

unfoldable pub joined : List (List ℕ) → List ℕ
joined [] = []
joined (buffer ∷ buffers) = buffer ++ joined buffers

-- How the UART cuts the bytes into reads makes no difference.
pub acquire-joined :
    (s : Parser) (buffers : List (List ℕ)) → acquire s buffers ≡ parse s (joined buffers)
unfolding acquire joined
acquire-joined s [] = parse_nil s
acquire-joined s (buffer ∷ buffers) = elim (Bool-cases (parsed s)) [
  | inl done ↦ ground (arith, parse_end s (buffer ++ joined buffers) done)
  | inr more ↦
      ground
        (arith, acquire-joined (parse s buffer) buffers, parse-append s buffer (joined buffers))
]

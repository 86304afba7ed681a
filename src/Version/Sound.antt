-- ===== src/Version/Sound.antt =====
-- VersionParser.cpp: a payload is only ever taken out of a frame.
use esp32cam.Base.{
  ℕ, ◌≡◌, ◌≤◌, refl, List, [], ◌∷◌, ◌++◌, true, false, ◌==◌, ◌+◌, if◌then◌else◌, arith, Bool-cases,
  inl, inr, length, length-append, sym, ◌∙◌, ap, append_assoc,
}
use esp32cam.Version.{
  Parser, Stage, start, prefix, size, payload, postfix, end, reset, parsed, iter, iter_start,
  iter_prefix, iter_size, iter_payload, iter_postfix, parse,
}
use esp32cam.Version.Frame.{at, frame}

-- What has been read ends with these bytes.
abbrev pub Ends : List ℕ → List ℕ → Type 0
Ends read w = (front : List ℕ) × (read ≡ front ++ w)

Ends-more : (read w : List ℕ) (b : ℕ) → Ends read w → Ends (read ++ b ∷ []) (w ++ b ∷ [])
Ends-more read w b (front, h) = (front, ap (λ l. l ++ b ∷ []) h ∙ append_assoc front w (b ∷ []))

abbrev pub prefix_part : ℕ → List ℕ
prefix_part i = if i == 1 then 102 ∷ [] else if i == 2 then 102 ∷ 119 ∷ [] else 102 ∷ 119 ∷ 118 ∷ []

abbrev pub postfix_part : ℕ → List ℕ
postfix_part i = if i == 1 then 70 ∷ [] else if i == 2 then 70 ∷ 87 ∷ [] else 70 ∷ 87 ∷ 86 ∷ []

abbrev pub header : ℕ → List ℕ
header n = 102 ∷ 119 ∷ 118 ∷ n ∷ []

-- What the state says of the bytes read.
abbrev pub Reads : List ℕ → Stage → ℕ → List ℕ → Type 0
Reads read start i pl = pl ≡ []
Reads read prefix i pl = (pl ≡ []) × ((1 ≤ i) × ((i ≤ 3) × Ends read (prefix_part i)))
Reads read size i pl = (pl ≡ []) × Ends read (prefix_part 3)
Reads read payload i pl = Ends read (header (length pl + i) ++ pl)
Reads read postfix i pl =
    (1 ≤ i) × ((i ≤ 3) × Ends read ((header (length pl) ++ pl) ++ postfix_part i))
Reads read end i pl = (b : ℕ) × Ends read ((header (length pl) ++ pl ++ postfix_part 3) ++ b ∷ [])

abbrev pub Knows : List ℕ → Parser → Type 0
Knows read s = Reads read s.id s.info s.pl

letter_read : (read : List ℕ) (b : ℕ) → b ≡ 102 → Ends (read ++ b ∷ []) (102 ∷ [])
letter_read read b h = (read, ap (λ k. read ++ k ∷ []) h)

last_read : (read w : List ℕ) (b : ℕ) → Ends read w → (c : ℕ) × Ends (read ++ b ∷ []) (w ++ c ∷ [])
last_read read w b h = (b, Ends-more read w b h)

iter_start-Knows : (read : List ℕ) (b : ℕ) → Knows (read ++ b ∷ []) (iter_start reset b)
unfolding iter_start
iter_start-Knows read b = ground (arith, letter_read read b)

iter_prefix-Knows :
    (read : List ℕ) (i : ℕ) (pl : List ℕ) (b : ℕ)
    → Reads read prefix i pl
    → Knows (read ++ b ∷ []) (iter_prefix (record { id = prefix; info = i; pl = pl }) b)
unfolding iter_prefix iter_size
iter_prefix-Knows read i pl b h =
    ground (arith, Ends-more read (prefix_part i) b h.1.1.1, iter_start-Knows read b)

iter_payload-Knows :
    (read : List ℕ) (i : ℕ) (pl : List ℕ) (b : ℕ)
    → Reads read payload i pl
    → Knows (read ++ b ∷ []) (iter_payload (record { id = payload; info = i; pl = pl }) b)
unfolding iter_payload
iter_payload-Knows read i pl b h = ground (
  arith,
  Ends-more read (header (length pl + i) ++ pl) b h,
  iter_start-Knows read b,
  length-append pl (b ∷ []),
  append_assoc (header (length pl + i)) pl (b ∷ []),
)

iter_postfix-Knows :
    (read : List ℕ) (i : ℕ) (pl : List ℕ) (b : ℕ)
    → Reads read postfix i pl
    → Knows (read ++ b ∷ []) (iter_postfix (record { id = postfix; info = i; pl = pl }) b)
unfolding iter_postfix
iter_postfix-Knows read i pl b h = ground (
  arith,
  Ends-more read ((header (length pl) ++ pl) ++ postfix_part i) b h.1.1,
  iter_start-Knows read b,
  append_assoc (header (length pl) ++ pl) (postfix_part i) (b ∷ []),
  last_read read ((header (length pl) ++ pl) ++ postfix_part 3) b,
)

iter-Reads :
    (read : List ℕ) (stage : Stage) (i : ℕ) (pl : List ℕ) (b : ℕ)
    → parsed (at stage i pl) ≡ false
    → Reads read stage i pl
    → Knows (read ++ b ∷ []) (iter (at stage i pl) b)
unfolding iter parsed iter_start iter_size
iter-Reads read start i pl b p h = ground (arith, letter_read read b)
iter-Reads read prefix i pl b p h = iter_prefix-Knows read i pl b h
iter-Reads read size i pl b p h = ground (arith, Ends-more read (prefix_part 3) b h.1)
iter-Reads read payload i pl b p h = iter_payload-Knows read i pl b h
iter-Reads read postfix i pl b p h = iter_postfix-Knows read i pl b h
iter-Reads read end i pl b p h = cc

-- The parser stops after some of the bytes, and knows what these end with.
parse-Knows :
    (read : List ℕ) (s : Parser) (bytes : List ℕ)
    → Knows read s
    → (taken : List ℕ) × ((rest : List ℕ) × (((read ++ bytes) ≡ taken ++ rest)
          × Knows taken (parse s bytes)))
unfolding parse
parse-Knows read s [] h = (read, ([], (refl, h)))
parse-Knows read s (b ∷ bytes) h = elim (Bool-cases (parsed s)) [
  | inl done ↦ (read, (b ∷ bytes, (refl, ground arith)))
  | inr more ↦
      let later =
        parse-Knows (read ++ b ∷ []) (iter s b) bytes (iter-Reads read s.id s.info s.pl b more h) in
      (
        later.0,
        (
          later.1.0,
          (sym (append_assoc read (b ∷ []) bytes) ∙ later.1.1.0, ground (arith, later.1.1.1)),
        ),
      )
]

end-Reads :
    (read : List ℕ) (stage : Stage) (i : ℕ) (pl : List ℕ)
    → parsed (at stage i pl) ≡ true
    → Reads read stage i pl
    → (b : ℕ) × Ends read (frame pl ++ b ∷ [])
unfolding parsed
end-Reads read end i pl p h = h
end-Reads read start i pl p h = cc
end-Reads read prefix i pl p h = cc
end-Reads read size i pl p h = cc
end-Reads read payload i pl p h = cc
end-Reads read postfix i pl p h = cc

-- When the parser is done, its payload stood in the bytes as a frame with a byte behind it.
pub parsed_framed :
    (bytes : List ℕ)
    → parsed (parse reset bytes) ≡ true
    → (front : List ℕ) × ((next : ℕ) × ((rest : List ℕ) × (bytes
            ≡ (front ++ (frame (parse reset bytes).pl ++ next ∷ [])) ++ rest)))
parsed_framed bytes p =
    let seen = parse-Knows [] reset bytes refl in
    let s = parse reset bytes in
    let last = end-Reads seen.0 s.id s.info s.pl p seen.1.1.1 in
    (last.1.0, (last.0, (seen.1.0, seen.1.1.0 ∙ ap (λ l. l ++ seen.1.0) last.1.1)))

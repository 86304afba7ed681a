-- ===== src/Flash/Crc/Bits.antt =====
-- The checksum bit by bit, which the table stands for.
use native.Mathlib.Decide.{dec_le}
use esp32cam.Base.{
  ℕ, zero, suc, ◌*◌, ◌/◌, ◌%◌, ◌<◌, ◌≡◌, ◌∙◌, ap, sym, refl, arith, List, [], ◌∷◌, Bool, true, ◌&&◌,
  ◌==◌, if◌then◌else◌, bit_xor, bit_and, get_or,
}
use esp32cam.Flash.Crc.{table, update_crc32}
use esp32cam.Flash.Crc.Xor.{
  xor_half, xor_parity, xor_swap, xor_fields, doubled, bit_xor_comm, bit_and_255, xor_byte,
}

-- The polynomial of CRC-32, its lowest power first, and a division by one digit.
abbrev pub polynomial : ℕ
polynomial = 0xEDB88320

unfoldable pub step : ℕ → ℕ
step z = bit_xor (z / 2) (if z % 2 == 1 then polynomial else 0)

unfoldable pub steps : ℕ → ℕ → ℕ
steps zero z = z
steps (suc k) z = steps k (step z)

-- The checksum of bytes, each worked off digit by digit.
unfoldable pub crc_bits : ℕ → List ℕ → ℕ
crc_bits cs [] = cs
crc_bits cs (p ∷ ps) = crc_bits (steps 8 (bit_xor cs p)) ps

step_shift : (x y : ℕ) → step (bit_xor x (2 * y)) ≡ bit_xor (step x) y
unfolding step
step_shift x y =
    let half : bit_xor x (2 * y) / 2 ≡ bit_xor (x / 2) y =
      let e : 2 * y / 2 ≡ y = omega arith in xor_half x (2 * y) ∙ ap (bit_xor (x / 2)) e in
    let odd : bit_xor x (2 * y) % 2 ≡ x % 2 = omega (arith, xor_parity x (2 * y)) in
    ap (λ t. bit_xor t (if bit_xor x (2 * y) % 2 == 1 then polynomial else 0)) half
    ∙ ap (λ (r : ℕ). bit_xor (bit_xor (x / 2) y) (if r == 1 then polynomial else 0)) odd
    ∙ xor_swap (x / 2) y (if x % 2 == 1 then polynomial else 0)

steps_shift : (k x y : ℕ) → steps k (bit_xor x (doubled k y)) ≡ bit_xor (steps k x) y
unfolding steps
steps_shift zero x y = refl
steps_shift (suc k) x y = ap (steps k) (step_shift x (doubled k y)) ∙ steps_shift k (step x) y

-- Eight steps on a number are eight steps on its low byte, over the rest of it.
steps_byte : (z : ℕ) → steps 8 z ≡ bit_xor (steps 8 (z % 256)) (z / 256)
steps_byte z =
    let fields : bit_xor (z % 256) (doubled 8 (z / 256)) ≡ z =
      omega (arith, xor_fields 8 (z % 256) (z / 256) (omega arith)) in
    ap (steps 8) (sym fields) ∙ steps_shift 8 (z % 256) (z / 256)

-- Two functions have the same values below a bound.
agree : (ℕ → ℕ) → (ℕ → ℕ) → ℕ → Bool
agree f g zero = true
agree f g (suc n) = (f n == g n) && agree f g n

last_or_below : (f g : ℕ → ℕ) (n i : ℕ) → f n ≡ g n → (i < n → f i ≡ g i) → i < suc n → f i ≡ g i
last_or_below f g n i here rest less = elim (dec_le n i) [
  | yes over ↦ let e : i ≡ n = omega arith in ap f e ∙ here ∙ ap g (sym e)
  | no below ↦ rest (omega arith)
]

agree_below : (f g : ℕ → ℕ) (n i : ℕ) → agree f g n ≡ true → i < n → f i ≡ g i
unfolding agree
agree_below f g zero i h less = absurd (omega arith)
agree_below f g (suc n) i h less =
    let here : f n ≡ g n = ground (arith) in
    let rest : agree f g n ≡ true = ground (arith) in
    last_or_below f g n i here (agree_below f g n i rest) less

entry : ℕ → ℕ
entry i = get_or table i 0

table_agrees : agree entry (steps 8) 256 ≡ true
unfolding agree entry steps step
table_agrees = refl

-- One byte by the table is eight digits.
byte_lem :
    (cs p : ℕ)
    → p < 256
    → bit_xor (cs / 256) (get_or table (bit_and (bit_xor cs p) 255) 0) ≡ steps 8 (bit_xor cs p)
unfolding entry
byte_lem cs p h =
    let z = bit_xor cs p in
    let looked : entry (bit_and z 255) ≡ steps 8 (z % 256) =
      ap entry (bit_and_255 z)
      ∙ agree_below entry (steps 8) 256 (z % 256) table_agrees (omega arith) in
    ap (bit_xor (cs / 256)) looked
    ∙ bit_xor_comm (cs / 256) (steps 8 (z % 256))
    ∙ ap (bit_xor (steps 8 (z % 256))) (sym (xor_byte cs p h))
    ∙ sym (steps_byte z)

-- `updateCrc32`, which reads its table of 256 numbers once for a byte, gives what the division by
-- the polynomial digit by digit gives (`crc_bits`), for any list of bytes below 256 and from any
-- start.
pub update_crc32-crc_bits :
    (cs : ℕ) (bytes : List ℕ)
    → ((i : ℕ) → get_or bytes i 0 < 256)
    → update_crc32 cs bytes ≡ crc_bits cs bytes
unfolding update_crc32 crc_bits
update_crc32-crc_bits cs [] h = refl
update_crc32-crc_bits cs (p ∷ ps) h =
    ap (λ s. update_crc32 s ps) (byte_lem cs p (h 0))
    ∙ update_crc32-crc_bits (steps 8 (bit_xor cs p)) ps (λ i. h (suc i))

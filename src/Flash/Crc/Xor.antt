-- ===== src/Flash/Crc/Xor.antt =====
-- `^` and `&` by their lowest digits, and the laws of `^` that the checksum uses.
use Prim.Native.Nat.{digits, bitwise, bit_xor-bitwise, bit_and-bitwise, min, differ}
use esp32cam.Base.{
  ℕ, zero, suc, ◌+◌, ◌*◌, ◌/◌, ◌%◌, ◌≤◌, ◌<◌, ◌≡◌, ◌∙◌, ap, sym, refl, arith, bit_xor, bit_and,
}

-- Any count of digits that is enough gives what the first number's own count gives.
enough :
    (rest : ℕ → ℕ) (f : ℕ → ℕ → ℕ) (bound count x y : ℕ)
    → count ≤ bound
    → x ≤ count
    → digits rest f count x y ≡ bitwise rest f x y
enough rest f zero zero zero y h k = refl
enough rest f bound zero (suc x) y h k = absurd (omega arith)
enough rest f zero (suc count) x y h k = absurd (omega arith)
enough rest f (suc bound) zero zero y h k = refl
enough rest f (suc bound) (suc count) zero y h k = refl
enough rest f (suc bound) (suc count) (suc x) y h k =
    let here = enough rest f bound count (suc x / 2) (y / 2) (omega arith) (omega arith) in
    let there = enough rest f bound x (suc x / 2) (y / 2) (omega arith) (omega arith) in
    omega (arith, here, there)

bitwise_digit :
    (rest : ℕ → ℕ) (f : ℕ → ℕ → ℕ) (x y : ℕ)
    → bitwise rest f (suc x) y ≡ bitwise rest f (suc x / 2) (y / 2) * 2 + f (suc x % 2) (y % 2)
bitwise_digit rest f x y =
    omega (arith, enough rest f x x (suc x / 2) (y / 2) (omega arith) (omega arith))

differ_lem : (x y : ℕ) → x < 2 → y < 2 → differ x y ≡ (x + y) % 2
differ_lem zero zero h k = refl
differ_lem zero (suc zero) h k = refl
differ_lem (suc zero) zero h k = refl
differ_lem (suc zero) (suc zero) h k = refl
differ_lem zero (suc (suc y)) h k = absurd (omega arith)
differ_lem (suc zero) (suc (suc y)) h k = absurd (omega arith)
differ_lem (suc (suc x)) y h k = absurd (omega arith)

zero-bit_xor : (y : ℕ) → bit_xor 0 y ≡ y
zero-bit_xor y = bit_xor-bitwise 0 y

xor_digit : (x y : ℕ) → bit_xor x y ≡ bit_xor (x / 2) (y / 2) * 2 + (x + y) % 2
xor_digit zero y = omega (arith, zero-bit_xor y, zero-bit_xor (y / 2))
xor_digit (suc x) y = omega (
  arith,
  bit_xor-bitwise (suc x) y,
  bit_xor-bitwise (suc x / 2) (y / 2),
  bitwise_digit (λ b. b) differ x y,
  differ_lem (suc x % 2) (y % 2) (omega arith) (omega arith),
)

pub xor_half : (x y : ℕ) → bit_xor x y / 2 ≡ bit_xor (x / 2) (y / 2)
xor_half x y = omega (arith, xor_digit x y)

pub xor_parity : (x y : ℕ) → bit_xor x y % 2 ≡ (x + y) % 2
xor_parity x y = omega (arith, xor_digit x y)

-- Two numbers with the same half and the same parity are the same.
by_digit : (x y : ℕ) → x / 2 ≡ y / 2 → x % 2 ≡ y % 2 → x ≡ y
by_digit x y h k = omega arith

comm_below : (n x y : ℕ) → x + y ≤ n → bit_xor x y ≡ bit_xor y x
comm_below zero zero zero h = refl
comm_below zero (suc x) y h = absurd (omega arith)
comm_below zero zero (suc y) h = absurd (omega arith)
comm_below (suc n) x y h =
    omega (arith, xor_digit x y, xor_digit y x, comm_below n (x / 2) (y / 2) (omega arith))

pub bit_xor_comm : (x y : ℕ) → bit_xor x y ≡ bit_xor y x
bit_xor_comm x y = comm_below (x + y) x y (omega arith)

assoc_below : (n x y w : ℕ) → x + y + w ≤ n → bit_xor (bit_xor x y) w ≡ bit_xor x (bit_xor y w)
assoc_below zero zero zero zero h = refl
assoc_below zero (suc x) y w h = absurd (omega arith)
assoc_below zero zero (suc y) w h = absurd (omega arith)
assoc_below zero zero zero (suc w) h = absurd (omega arith)
assoc_below (suc n) x y w h =
    by_digit (bit_xor (bit_xor x y) w) (bit_xor x (bit_xor y w))
      (xor_half (bit_xor x y) w
        ∙ ap (λ t. bit_xor t (w / 2)) (xor_half x y)
        ∙ assoc_below n (x / 2) (y / 2) (w / 2) (omega arith)
        ∙ ap (bit_xor (x / 2)) (sym (xor_half y w))
        ∙ sym (xor_half x (bit_xor y w)))
      (omega (
        arith,
        xor_parity (bit_xor x y) w,
        xor_parity x y,
        xor_parity x (bit_xor y w),
        xor_parity y w,
      ))

pub bit_xor_assoc : (x y w : ℕ) → bit_xor (bit_xor x y) w ≡ bit_xor x (bit_xor y w)
bit_xor_assoc x y w = assoc_below (x + y + w) x y w (omega arith)

pub bit_xor-zero : (x : ℕ) → bit_xor x 0 ≡ x
bit_xor-zero x = bit_xor_comm x 0 ∙ zero-bit_xor x

pub xor_swap : (x y w : ℕ) → bit_xor (bit_xor x y) w ≡ bit_xor (bit_xor x w) y
xor_swap x y w = bit_xor_assoc x y w ∙ ap (bit_xor x) (bit_xor_comm y w) ∙ sym (bit_xor_assoc x w y)

-- The number doubled `k` times.
abbrev pub doubled : ℕ → ℕ → ℕ
doubled zero y = y
doubled (suc k) y = 2 * doubled k y

-- Digits below others.
pub xor_fields : (k lo hi : ℕ) → lo < doubled k 1 → bit_xor lo (doubled k hi) ≡ lo + doubled k hi
xor_fields zero lo hi h =
    let e : lo ≡ 0 = omega arith in
    let sum : hi ≡ lo + hi = omega (arith, e) in ap (λ t. bit_xor t hi) e ∙ zero-bit_xor hi ∙ sum
xor_fields (suc k) lo hi h =
    let half : 2 * doubled k hi / 2 ≡ doubled k hi = omega arith in
    omega (
      arith,
      xor_digit lo (2 * doubled k hi),
      ap (bit_xor (lo / 2)) half,
      xor_fields k (lo / 2) hi (omega arith),
    )

zero-bit_and : (y : ℕ) → bit_and 0 y ≡ 0
zero-bit_and y = bit_and-bitwise 0 y

and_digit : (x y : ℕ) → bit_and x y ≡ bit_and (x / 2) (y / 2) * 2 + min (x % 2) (y % 2)
and_digit zero y = omega (arith, zero-bit_and y, zero-bit_and (y / 2))
and_digit (suc x) y = omega (
  arith,
  bit_and-bitwise (suc x) y,
  bit_and-bitwise (suc x / 2) (y / 2),
  bitwise_digit (λ b. zero) min x y,
)

and_none : (n x : ℕ) → x ≤ n → bit_and x 0 ≡ 0
and_none zero zero h = refl
and_none zero (suc x) h = absurd (omega arith)
and_none (suc n) x h = omega (arith, and_digit x 0, and_none n (x / 2) (omega arith))

min_one : (r : ℕ) → r < 2 → min r 1 ≡ r
min_one zero h = refl
min_one (suc zero) h = refl
min_one (suc (suc r)) h = absurd (omega arith)

-- An odd mask keeps the lowest digit, and its half masks the rest.
odd_mask : (m x : ℕ) → bit_and x (2 * m + 1) ≡ bit_and (x / 2) m * 2 + x % 2
odd_mask m x =
    let half : (2 * m + 1) / 2 ≡ m = omega arith in
    let odd : (2 * m + 1) % 2 ≡ 1 = omega arith in
    omega (
      arith,
      and_digit x (2 * m + 1),
      ap (bit_and (x / 2)) half,
      ap (min (x % 2)) odd,
      min_one (x % 2) (omega arith),
    )

mask_15 : (x : ℕ) → bit_and x 15 ≡ x % 16
mask_15 x = omega (
  arith,
  odd_mask 7 x,
  odd_mask 3 (x / 2),
  odd_mask 1 (x / 2 / 2),
  odd_mask 0 (x / 2 / 2 / 2),
  and_none (x / 2 / 2 / 2 / 2) (x / 2 / 2 / 2 / 2) (omega arith),
)

-- The mask of a byte.
pub bit_and_255 : (x : ℕ) → bit_and x 255 ≡ x % 256
bit_and_255 x = omega (
  arith,
  odd_mask 127 x,
  odd_mask 63 (x / 2),
  odd_mask 31 (x / 2 / 2),
  odd_mask 15 (x / 2 / 2 / 2),
  mask_15 (x / 2 / 2 / 2 / 2),
)

xor_quarter : (x y : ℕ) → bit_xor x y / 4 ≡ bit_xor (x / 4) (y / 4)
xor_quarter x y =
    let across : x / 2 / 2 ≡ x / 4 = omega arith in
    let along : y / 2 / 2 ≡ y / 4 = omega arith in
    let twice : bit_xor x y / 4 ≡ bit_xor (x / 2 / 2) (y / 2 / 2) =
      omega (arith, xor_half x y, xor_half (x / 2) (y / 2)) in
    twice ∙ ap (λ t. bit_xor t (y / 2 / 2)) across ∙ ap (bit_xor (x / 4)) along

xor_nibble : (x y : ℕ) → bit_xor x y / 16 ≡ bit_xor (x / 16) (y / 16)
xor_nibble x y =
    let across : x / 4 / 4 ≡ x / 16 = omega arith in
    let along : y / 4 / 4 ≡ y / 16 = omega arith in
    let twice : bit_xor x y / 16 ≡ bit_xor (x / 4 / 4) (y / 4 / 4) =
      omega (arith, xor_quarter x y, xor_quarter (x / 4) (y / 4)) in
    twice ∙ ap (λ t. bit_xor t (y / 4 / 4)) across ∙ ap (bit_xor (x / 16)) along

-- A byte leaves the digits over it.
pub xor_byte : (x p : ℕ) → p < 256 → bit_xor x p / 256 ≡ x / 256
xor_byte x p h =
    let none : p / 16 / 16 ≡ 0 = omega arith in
    omega (
      arith,
      xor_nibble x p,
      xor_nibble (x / 16) (p / 16),
      ap (bit_xor (x / 16 / 16)) none,
      bit_xor-zero (x / 16 / 16),
    )

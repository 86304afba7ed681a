-- ===== src/Flash/Salute/Laws.antt =====
-- What the transfer into flash memory relies on of components/system/system/middleware/FlashMemory.hpp,
-- and places of lists.
use esp32cam.Base.{
  ℕ, zero, suc, ◌+◌, ◌-◌, ◌*◌, ◌≡◌, ◌≤◌, ◌<◌, ◌∙◌, ap, refl, List, [], ◌∷◌, true, false, some,
  if◌then◌else◌, length, get_or, overwrite, take, drop, arith, length-take, length-drop,
}
use esp32cam.Flash.{Geometry, FlashMemory, within}

-- The number of bytes.
abbrev pub capacity : Geometry → ℕ
capacity g = g.n_erase_blocks * g.erase_block_size

-- A flash memory that works: `cell` is what stands at an address. A call for a block within the
-- capacity whose range stays in the block succeeds; a write block stores the bytes in the range and
-- keeps the rest, reading changes nothing, and erasing a block touches no other block. Nothing is
-- said of a call that leaves its block or the memory. FlashMemory.hpp demands that a write block
-- stores the data in the range and, if it is cached, keeps the rest; Salute/Working says when the
-- memory of Flash/Zd35 does.
pub record IsFlash (M : Type 0) (flash : FlashMemory M) (cell : M → ℕ → ℕ) : Type 0 where
  pub write_lem :
      (id offset : ℕ) (bytes : List ℕ) (m : M)
      → id * flash.geometry.write_block_size + flash.geometry.write_block_size
        ≤ capacity flash.geometry
      → offset + length bytes ≤ flash.geometry.write_block_size
      → (m' : M) × (flash.write_block id offset bytes m ≡ (true, m'))
        × ((i : ℕ)
            → let start = id * flash.geometry.write_block_size + offset in
              cell m' i
              ≡ (if within start (length bytes) i then get_or bytes (i - start) 0 else cell m i))
  pub read_lem :
      (id offset n : ℕ) (m : M)
      → id * flash.geometry.write_block_size + flash.geometry.write_block_size
        ≤ capacity flash.geometry
      → offset + n ≤ flash.geometry.write_block_size
      → (bytes : List ℕ) × (m' : M) × (flash.read_block id offset n m ≡ (some bytes, m'))
        × (length bytes ≡ n)
        × ((i : ℕ)
            → i < n
            → get_or bytes i 0 ≡ cell m (id * flash.geometry.write_block_size + offset + i))
        × ((i : ℕ) → cell m' i ≡ cell m i)
  pub erase_lem :
      (id : ℕ) (m : M)
      → id * flash.geometry.erase_block_size + flash.geometry.erase_block_size
        ≤ capacity flash.geometry
      → (m' : M) × (flash.erase_block id m ≡ (true, m'))
        × ((i : ℕ)
            → within (id * flash.geometry.erase_block_size) flash.geometry.erase_block_size i
              ≡ false
            → cell m' i ≡ cell m i)

-- The places of a list in part.
pub get_or-take : (n i : ℕ) (xs : List ℕ) → i < n → get_or (take n xs) i 0 ≡ get_or xs i 0
get_or-take zero i xs h = absurd (omega arith)
get_or-take (suc n) i [] h = refl
get_or-take (suc n) zero (x ∷ xs) h = refl
get_or-take (suc n) (suc i) (x ∷ xs) h = get_or-take n i xs (omega arith)

pub get_or-drop : (n i : ℕ) (xs : List ℕ) → get_or (drop n xs) i 0 ≡ get_or xs (n + i) 0
get_or-drop zero i xs = let e : i ≡ zero + i = omega arith in ap (λ k. get_or xs k 0) e
get_or-drop (suc n) i [] = refl
get_or-drop (suc n) i (x ∷ xs) =
    let e : suc (n + i) ≡ suc n + i = omega arith in
    get_or-drop n i xs ∙ ap (λ k. get_or (x ∷ xs) k 0) e

-- A place of an overwritten list.
pub get_or-overwrite :
    (xs ys : List ℕ) (p i : ℕ)
    → p + length ys ≤ length xs
    → get_or (overwrite xs p ys) i 0
      ≡ (if within p (length ys) i then get_or ys (i - p) 0 else get_or xs i 0)
get_or-overwrite [] [] p i h = ground arith
get_or-overwrite [] (y ∷ ys) p i h = absurd (omega arith)
get_or-overwrite (x ∷ xs) [] zero i h = ground arith
get_or-overwrite (x ∷ xs) (y ∷ ys) zero zero h = ground arith
get_or-overwrite (x ∷ xs) (y ∷ ys) zero (suc i) h =
    let e : i - zero ≡ i = omega arith in
    let f : suc i - zero ≡ suc i = omega arith in
    ground (
      arith,
      get_or-overwrite xs ys zero i (omega arith),
      ap (λ k. get_or ys k 0) e,
      ap (λ k. get_or (y ∷ ys) k 0) f,
    )
get_or-overwrite (x ∷ xs) ys (suc p) zero h = ground arith
get_or-overwrite (x ∷ xs) ys (suc p) (suc i) h =
    let e : suc i - suc p ≡ i - p = omega arith in
    ground (arith, get_or-overwrite xs ys p i (omega arith), ap (λ k. get_or ys k 0) e)

-- What is copied into a list stands there.
pub get_or-copied :
    (page bytes : List ℕ) (p total k j : ℕ)
    → j < k
    → total + k ≤ length bytes
    → p + k ≤ length page
    → get_or (overwrite page p (take k (drop total bytes))) (p + j) 0 ≡ get_or bytes (total + j) 0
get_or-copied page bytes p total k j less h fits =
    let part = take k (drop total bytes) in
    let len : length part ≡ k =
      ground (arith, length-take k (drop total bytes), length-drop total bytes) in
    let e : p + j - p ≡ j = omega arith in
    ground (
      arith,
      len,
      get_or-overwrite page part p (p + j) (omega arith),
      ap (λ i. get_or part i 0) e,
      get_or-take k j (drop total bytes) less,
      get_or-drop total j bytes,
    )

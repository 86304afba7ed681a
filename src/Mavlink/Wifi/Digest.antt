-- ===== src/Mavlink/Wifi/Digest.antt =====
-- The digest of a password as text.
use esp32cam.Base.{
  ℕ, zero, suc, ◌+◌, ◌-◌, ◌*◌, ◌≡◌, ◌≤◌, ◌∙◌, sym, ap, refl, arith, List, [], ◌∷◌, ◌++◌,
  append_assoc, length, length-append, replicate, overwrite,
}
use esp32cam.Module.Sd.{c_str}
use esp32cam.Mavlink.Wifi.{WifiConfigAp, hex_byte, write_hex, password_into_md5}

-- The two digits of each byte.
unfoldable pub hex_text : List ℕ → List ℕ
hex_text [] = []
hex_text (b ∷ digest) = hex_byte b ++ hex_text digest

-- A write behind the first part of a buffer.
overwrite-append :
    (xs ys zs : List ℕ) → overwrite (xs ++ ys) (length xs) zs ≡ xs ++ overwrite ys 0 zs
overwrite-append [] ys zs = refl
overwrite-append (x ∷ xs) ys zs = ap (◌∷◌ x) (overwrite-append xs ys zs)

overwrite-nil : (xs : List ℕ) → overwrite xs 0 [] ≡ xs
overwrite-nil [] = refl
overwrite-nil (x ∷ xs) = refl

overwrite-zeros :
    (n a b : ℕ) → 3 ≤ n → overwrite (replicate n 0) 0 (a ∷ b ∷ 0 ∷ []) ≡ a ∷ b ∷ replicate (n - 2) 0
overwrite-zeros zero a b h = absurd (omega arith)
overwrite-zeros (suc zero) a b h = absurd (omega arith)
overwrite-zeros (suc (suc zero)) a b h = absurd (omega arith)
overwrite-zeros (suc (suc (suc k))) a b h =
    let e : suc k ≡ suc (suc (suc k)) - 2 = omega arith in
    ap (λ (l : List ℕ). a ∷ b ∷ 0 ∷ l) (overwrite-nil (replicate k 0))
    ∙ ap (λ (j : ℕ). a ∷ b ∷ replicate j 0) e

-- The digits go behind what is there, and the null of each `snprintf` is overwritten by the next.
write_hex_lem :
    (done digest : List ℕ) (i n : ℕ)
    → length done ≡ 2 * i
    → 2 * length digest + 1 ≤ n
    → write_hex i digest (done ++ replicate n 0)
      ≡ done ++ (hex_text digest ++ replicate (n - 2 * length digest) 0)
unfolding write_hex hex_text
write_hex_lem done [] i n e fits =
    let f : n ≡ n - 2 * 0 = omega arith in ap (λ (k : ℕ). done ++ replicate k 0) f
write_hex_lem done (b ∷ digest) i n e fits =
    let two = hex_byte b in
    let done' = done ++ two in
    let size : length done' ≡ 2 * suc i = omega (arith, length-append done two) in
    let written : overwrite (done ++ replicate n 0) (2 * i) (two ++ (0 ∷ []))
        ≡ done' ++ replicate (n - 2) 0 =
      ap (λ k. overwrite (done ++ replicate n 0) k (two ++ (0 ∷ []))) (sym e)
      ∙ overwrite-append done (replicate n 0) (two ++ (0 ∷ []))
      ∙ ap (λ (l : List ℕ). done ++ l) (overwrite-zeros n _ _ (omega arith))
      ∙ sym (append_assoc done two (replicate (n - 2) 0)) in
    let left : n - 2 - 2 * length digest ≡ n - 2 * suc (length digest) = omega arith in
    ap (write_hex (suc i) digest) written
    ∙ write_hex_lem done' digest (suc i) (n - 2) size (omega arith)
    ∙ append_assoc done two (hex_text digest ++ replicate (n - 2 - 2 * length digest) 0)
    ∙ ap (λ (k : ℕ). done ++ (two ++ (hex_text digest ++ replicate k 0))) left

-- With a digest of 16 bytes, `passwordIntoMd5Stringify` leaves its 32 digits and zeros in the field,
-- and nothing of the password but the digest of the text before its first null.
pub password_into_md5_lem :
    (md5 : List ℕ → List ℕ) (m : WifiConfigAp)
    → length (md5 (c_str m.password)) ≡ 16
    → password_into_md5 md5 m
      ≡ record m { password = hex_text (md5 (c_str m.password)) ++ replicate 32 0 }
unfolding password_into_md5
password_into_md5_lem md5 m size =
    let digest = md5 (c_str m.password) in
    let left : 64 - 2 * length digest ≡ 32 = omega (arith, size) in
    ap (λ (t : List ℕ). record m { password = t })
      (write_hex_lem [] digest 0 64 (omega arith) (omega (arith, size))
        ∙ ap (λ (k : ℕ). hex_text digest ++ replicate k 0) left)

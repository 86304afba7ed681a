-- ===== src/Routing/Order.antt =====
-- What the routing table relies on of `operator<` and `operator==`: of the variant library and of
-- asio's addresses for endpoints, and of `std::tuple` for pairs of them.
use esp32cam.Base.{◌≡◌, ◌↔◌, Bool, true, false, ◌&&◌, ◌||◌, not, arith, Bool-cases, inl, inr}

pub record StrictOrder {ℓ} (K : Type ℓ) : Type ℓ where
  pub lt : K → K → Bool
  pub eq : K → K → Bool
  pub eq_iff : (a b : K) → (eq a b ≡ true) ↔ (a ≡ b)
  pub irrefl : (a : K) → lt a a ≡ false
  pub trans : (a b c : K) → lt a b ≡ true → lt b c ≡ true → lt a c ≡ true
  pub total : (a b : K) → lt a b ≡ false → lt b a ≡ false → a ≡ b

module _ {ℓ} {K : Type ℓ} (o : StrictOrder K) where
  pub lt_ne : (a b : K) → o.lt a b ≡ true → o.eq a b ≡ false
  lt_ne a b h = ground (arith, o.eq_iff a b, o.irrefl a)

  pub lt_asym : (a b : K) → o.lt a b ≡ true → o.lt b a ≡ false
  lt_asym a b h = ground (arith, o.trans a b a, o.irrefl a)

  -- `std::tuple`'s order: by the first part, then by the second.
  abbrev pub lt_pair : K × K → K × K → Bool
  lt_pair (a, b) (c, d) = o.lt a c || (not (o.lt c a) && o.lt b d)

  abbrev pub eq_pair : K × K → K × K → Bool
  eq_pair (a, b) (c, d) = o.eq a c && o.eq b d

  pub pair_irrefl : (p : K × K) → lt_pair p p ≡ false
  pair_irrefl (a, b) = ground (arith, o.irrefl a, o.irrefl b)

  pub pair_trans : (p q r : K × K) → lt_pair p q ≡ true → lt_pair q r ≡ true → lt_pair p r ≡ true
  pair_trans (a, b) (c, d) (e, f) h k = elim (Bool-cases (o.lt a c)) [
    | inl left ↦ elim (Bool-cases (o.lt c e)) [
      | inl right ↦ ground (arith, o.trans a c e left right)
      | inr right ↦ ground (arith, o.total c e right)
    ]
    | inr left ↦ ground (arith, o.total a c left, o.trans b d f)
  ]

  pub pair_total : (p q : K × K) → lt_pair p q ≡ false → lt_pair q p ≡ false → p ≡ q
  pair_total (a, b) (c, d) h k = ground (arith, o.total a c, o.total b d)

  pub pair_eq_iff : (p q : K × K) → (eq_pair p q ≡ true) ↔ (p ≡ q)
  pair_eq_iff (a, b) (c, d) = ground (arith, o.eq_iff a c, o.eq_iff b d)

  abbrev pub pairs : StrictOrder (K × K)
  pairs = record {
    lt = lt_pair;
    eq = eq_pair;
    eq_iff = pair_eq_iff;
    irrefl = pair_irrefl;
    trans = pair_trans;
    total = pair_total;
  }

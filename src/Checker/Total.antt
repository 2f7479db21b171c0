-- ===== src/Checker/Total.antt =====
-- The total of a trade and the overflow test of `get_total_sat` (src/checker.cpp).
use democrit.Base.{
  ℕ, zero, suc, ◌*◌, ◌/◌, ◌%◌, ◌≤◌, ◌<◌, ◌≡◌, refl, ap, ◌≢◌, true, some, none, arith, ltb, Option,
  ℤ, pos, negsuc, neg, u64_mod, i64_max, to_int64, to_int64_small, div_int64, eqb_ℤ, if◌then◌else◌,
  Text, Bool-cases, inl, inr,
}
use democrit.Checker.Decoded.{TradeChecker, get_total_sat}

quotient-eq : (x p u : ℕ) → p * suc u ≡ x → x / suc u ≡ p
quotient-eq x p u e = grind arith

product-le : (t p u : ℕ) → t / suc u ≡ p → p * suc u ≤ t
product-le t p u e = grind arith

-- The wrapped product, and whether dividing it gives the price back.
check_product : ℕ → ℕ → ℕ → Option ℤ
unfolding div_int64 to_int64
check_product x p u =
    if eqb_ℤ (div_int64 (to_int64 x) (suc u)) (pos p) then some (to_int64 x) else none

check_product-fits : (x p u : ℕ) → p * suc u ≡ x → x < i64_max → check_product x p u ≡ some (pos x)
unfolding check_product
check_product-fits x p u e h =
    let q = quotient-eq x p u e in rw (to_int64_small x h, q, check_product) (ground arith)

neg_zero_only : (n p : ℕ) → eqb_ℤ (neg n) (pos p) ≡ true → p ≡ 0
neg_zero_only zero p h = ground arith
neg_zero_only (suc n) p h = cc

div-neg : (t u p : ℕ) → eqb_ℤ (div_int64 (negsuc t) (suc u)) (pos p) ≡ true → p ≡ 0
unfolding div_int64
div-neg t u p h = neg_zero_only (suc t / suc u) p h

div-pos : (t u p : ℕ) → eqb_ℤ (div_int64 (pos t) (suc u)) (pos p) ≡ true → t / suc u ≡ p
unfolding div_int64
div-pos t u p h = ground arith

-- A product that does not fit never passes.
check_product-overflows :
    (x p u : ℕ)
    → p * suc u ≡ x
    → i64_max ≤ x
    → eqb_ℤ (div_int64 (to_int64 x) (suc u)) (pos p) ≢ true
unfolding to_int64 div_int64
check_product-overflows x p u e h pass = elim (Bool-cases (ltb (x % u64_mod) i64_max)) [
  | inl low ↦
      let quotient = div-pos (x % u64_mod) u p (rw (low, to_int64) at pass) in
      let bound = product-le (x % u64_mod) p u quotient in ground arith
  | inr high ↦
      let no_price = div-neg _ u p (rw (high, to_int64) at pass) in
      ground (arith, ap (λ (k : ℕ). k * suc u) no_price)
]

-- The trade of a positive number of units at a price, both below 2 ^ 63.
abbrev pub at_price : Text → Text → Text → ℕ → ℕ → TradeChecker
at_price buyer seller asset p u = record {
  buyer = buyer;
  seller = seller;
  asset = asset;
  price = pos p;
  units = pos (suc u);
}

-- For a price below 2 ^ 63 and a positive number of units below 2 ^ 63, the total is price times
-- units if that is below 2 ^ 63, and the overflow is reported otherwise: the check by division after
-- the wrapped multiplication is exact.
pub get_total_sat-exact :
    (buyer seller asset : Text) (p u : ℕ)
    → p < i64_max
    → suc u < i64_max
    → get_total_sat (at_price buyer seller asset p u)
      ≡ some (if ltb (p * suc u) i64_max then some (pos (p * suc u)) else none)
unfolding get_total_sat check_product
get_total_sat-exact buyer seller asset p u hp hu =
    let small : p % u64_mod ≡ p = omega arith in
    let small' : suc u % u64_mod ≡ suc u = omega arith in
    rw (small, small')
      (elim (Bool-cases (ltb (p * suc u) i64_max)) [
        | inl fits ↦ rw fits (ap some (check_product-fits (p * suc u) p u refl (ground arith)))
        | inr over ↦ ground (arith, check_product-overflows (p * suc u) p u refl (ground arith))
      ])

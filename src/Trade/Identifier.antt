-- ===== src/Trade/Identifier.antt =====
-- The maker and the order in the identifier of a trade (src/trades.cpp).
use democrit.Base.{
  ℕ, ◌≡◌, refl, ◌≢◌, [], ◌∷◌, ◌++◌, Text, arith, decimal, decimal-injective, decimal-IsDigit,
  IsDigit, All,
}
use democrit.Proto.{TradeState, account_of, id_of}
use democrit.Trade.{get_identifier}

-- No digit is a new line.
no_newline : (d ys rest : Text) → All IsDigit d → d ≢ ys ++ b'\n' ∷ rest
no_newline [] [] rest h e = cc
no_newline [] (y ∷ ys) rest h e = cc
no_newline (c ∷ d) [] rest h e = ground arith
no_newline (c ∷ d) (y ∷ ys) rest h e = no_newline d ys rest h.1 (tail_eq e)
  where
    tail_eq : {x y : ℕ} {xs ys : Text} → x ∷ xs ≡ y ∷ ys → xs ≡ ys
    tail_eq p = cc

split_newline :
    (a b d e : Text)
    → All IsDigit d
    → All IsDigit e
    → a ++ b'\n' ∷ d ≡ b ++ b'\n' ∷ e
    → (a ≡ b) × (d ≡ e)
split_newline [] [] d e hd he p = (refl, cc)
split_newline [] (y ∷ b) d e hd he p = absurd (no_newline d b e hd (cc))
split_newline (x ∷ a) [] d e hd he p = absurd (no_newline e a d he (cc))
split_newline (x ∷ a) (y ∷ b) d e hd he p =
    let ih = split_newline a b d e hd he (cc) in (cc (ih.0), ih.1)

-- Two trades have the same identifier only if their orders have the same maker and the same id,
-- whatever bytes the names hold.
pub get_identifier-injective :
    (t u : TradeState)
    → get_identifier t ≡ get_identifier u
    → (account_of t.order ≡ account_of u.order) × (id_of t.order ≡ id_of u.order)
unfolding get_identifier
get_identifier-injective t u e =
    let both =
      split_newline (account_of t.order) (account_of u.order) (decimal (id_of t.order))
        (decimal (id_of u.order)) (decimal-IsDigit (id_of t.order))
        (decimal-IsDigit (id_of u.order)) e in
    (both.0, decimal-injective (id_of t.order) (id_of u.order) both.1)

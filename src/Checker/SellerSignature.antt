-- ===== src/Checker/SellerSignature.antt =====
-- What the comparison of a PSBT before and after signing guarantees to the seller, in
-- `CheckForSellerSignature` of src/checker.cpp.
use democrit.Base.{
  ℕ, zero, suc, ◌≡◌, ◌≢◌, refl, inl, inr, true, ◌&&◌, Option, none, some, List, [], ◌∷◌, arith,
  Text, codes, ok, length, get_elem?, ◌==◌, str_eq, str_eq_iff, ap, and_then, and_then-eq-some,
  checked-eq-some, and_true, >>=-eq-ok, or_die-eq-ok, Bool-cases, Option-cases, ==_iff,
}
use democrit.Json.{Json, member, as_str, as_uint}
use democrit.Json.Equality.{json_eq, json_eq_iff}
use democrit.Proto.{SellerData, OutPoint}
use democrit.Env.{Env}
use democrit.Checker.Decoded.{count_changed, same_except, find_input, tx_list, seller_signature_ok}
use democrit.Checker.{check_for_seller_signature}
use democrit.Checker.Signature.{SameTransaction, signed_inputs_sound}

-- The input spends the outpoint.
pub record Spends (out : OutPoint) (input : Json) : Type 0 where
  pub txid : and_then (member (codes "txid") input) as_str ≡ some out.hash
  pub vout : and_then (member (codes "vout") input) as_uint ≡ some out.n

index_eq : (i j : ℕ) → ◌≡◌ {A = Option (Option ℕ)} (some (some i)) (some (some j)) → i ≡ j
index_eq i j h = ground arith

after_first :
    (out : OutPoint) (first : Json) (rest : List Json) (i : ℕ) (found : Option ℕ)
    → ((j : ℕ)
        → found ≡ some j
        → (input : Json) × (get_elem? rest j ≡ some input) × Spends out input)
    → ◌≡◌ {A = Option (Option ℕ)}
        (some (elim found [ none ↦ none | some j ↦ some (suc j) ]))
        (some (some i))
    → (input : Json) × (get_elem? (first ∷ rest) i ≡ some input) × Spends out input
after_first out first rest i none ih h = absurd (ground arith)
after_first out first rest i (some j) ih h = rw (← index_eq (suc j) i h) (ih j refl)

find_input-Spends :
    (out : OutPoint) (vin : List Json) (i : ℕ)
    → find_input out vin ≡ some (some i)
    → (input : Json) × (get_elem? vin i ≡ some input) × Spends out input
unfolding find_input
find_input-Spends out [] i h = absurd (ground arith)
find_input-Spends out (input ∷ rest) i h =
    let (_, h1) = checked-eq-some _ _ h in
    let (hash, e2, h2) = and_then-eq-some _ _ h1 in
    let (n, e3, h3) = and_then-eq-some _ _ h2 in
    elim (Bool-cases (str_eq hash out.hash && n == out.n)) [
      | inl hit ↦
          let both = and_true (str_eq hash out.hash) (n == out.n) hit in
          let first : ◌≡◌ {A = Option (Option ℕ)} (some (some 0)) (some (some i)) = rw hit at h3 in
          (
            input,
            rw (← index_eq 0 i first) refl,
            record {
              txid = cc (e2, (str_eq_iff hash out.hash).0 both.0);
              vout = cc (e3, (==_iff n out.n).0 both.1);
            },
          )
      | inr miss ↦
          let (found, e4, h4) = and_then-eq-some _ _ (rw miss at h3) in
          after_first out input rest i found (λ j e. find_input-Spends out rest j (cc (e4, e))) h4
    ]

-- Inputs after the first that differ leave the count above zero.
none_changed : (bs as' : List Json) → length bs ≡ length as' → count_changed bs as' ≡ 0 → bs ≡ as'
unfolding count_changed
none_changed [] [] e h = refl
none_changed [] (a ∷ as') e h = absurd (omega arith)
none_changed (b ∷ bs) [] e h = absurd (omega arith)
none_changed (b ∷ bs) (a ∷ as') e h = elim (Bool-cases (json_eq b a)) [
  | inl same ↦ cc ((json_eq_iff b a).0 same, none_changed bs as' (omega arith) (rw same at h))
  | inr other ↦ absurd (ground arith)
]

same_except_sound :
    (i : ℕ) (bs as' : List Json)
    → length bs ≡ length as'
    → same_except i bs as' ≡ true
    → (j : ℕ) → j ≢ i
    → get_elem? bs j ≡ get_elem? as' j
unfolding same_except
same_except_sound i [] [] e h j ne = refl
same_except_sound i [] (a ∷ as') e h j ne = absurd (omega arith)
same_except_sound i (b ∷ bs) [] e h j ne = absurd (omega arith)
same_except_sound zero (b ∷ bs) (a ∷ as') e h zero ne = absurd (ne refl)
same_except_sound zero (b ∷ bs) (a ∷ as') e h (suc j) ne =
    rw (none_changed bs as' (omega arith) (ground arith)) refl
same_except_sound (suc i) (b ∷ bs) (a ∷ as') e h zero ne =
    ap some ((json_eq_iff b a).0 (and_true _ _ h).0)
same_except_sound (suc i) (b ∷ bs) (a ∷ as') e h (suc j) ne =
    same_except_sound i bs as' (omega arith) (and_true _ _ h).1 j (λ p. ne (ap suc p))

-- The signature touched the input that spends the outpoint, and no other.
pub record SignsOnly (out : OutPoint) (before after : Json) : Type 0 where
  pub vin : List Json
  pub inputs_before : List Json
  pub inputs_after : List Json
  pub index : ℕ
  pub input : Json
  pub has_vin : tx_list (codes "vin") before ≡ some vin
  pub same : SameTransaction before after inputs_before inputs_after
  pub at_index : get_elem? vin index ≡ some input
  pub spends : Spends out input
  pub others : (j : ℕ) → j ≢ index → get_elem? inputs_before j ≡ get_elem? inputs_after j

seller_signature_ok-SignsOnly :
    (out : OutPoint) (before after : Json)
    → seller_signature_ok out before after ≡ some true
    → SignsOnly out before after
unfolding seller_signature_ok
seller_signature_ok-SignsOnly out before after h =
    let (_, _, h1) = and_then-eq-some _ _ h in
    let (_, _, h2) = and_then-eq-some _ _ h1 in
    let (_, h3) = checked-eq-some _ _ h2 in
    let (vin, e4, h4) = and_then-eq-some _ _ h3 in
    let (found, e5, h5) = and_then-eq-some _ _ h4 in
    elim (Option-cases found) [
      | inl missing ↦ absurd (cc (rw missing at h5))
      | inr (i, at) ↦
          let (r, e6, h6) = and_then-eq-some _ _ (rw at at h5) in
          let same = signed_inputs_sound before after r e6 in
          let (input, elem, spends) = find_input-Spends out vin i (cc (e5, at)) in
          record {
            vin = vin;
            inputs_before = r.0;
            inputs_after = r.1;
            index = i;
            input = input;
            has_vin = e4;
            same = same;
            at_index = elem;
            spends = spends;
            others = same_except_sound i r.0 r.1 same.same_length (ground arith);
          }
    ]

module _ {W : Type 0} (env : Env W) where
  -- Whatever the wallet answers: if the seller's check returns true, then the seller's name output is
  -- known, both PSBTs decoded to the same transaction, one of its inputs spends that output, and
  -- every other input is as it was before the signature.
  pub check_for_seller_signature-SignsOnly :
      (before_str after_str : Text) (sd : SellerData) (w w' : W)
      → check_for_seller_signature env before_str after_str sd w ≡ (ok true, w')
      → (out : OutPoint) × (before : Json) × (after : Json) × (t : W) × (sd.name_output ≡ some out)
        × (env.decode_psbt before_str w ≡ (ok before, t))
        × (env.decode_psbt after_str t ≡ (ok after, w'))
        × SignsOnly out before after
  unfolding check_for_seller_signature
  check_for_seller_signature-SignsOnly before_str after_str sd w w' h =
      let (out, s0, e0, h0) = >>=-eq-ok _ _ w h in
      let (known, q0) = or_die-eq-ok _ w e0 in
      let (before, t, e1, h1) = >>=-eq-ok _ _ s0 h0 in
      let (after, u, e2, h2) = >>=-eq-ok _ _ t h1 in
      let (answer, q) = or_die-eq-ok _ u h2 in
      (
        out,
        before,
        after,
        t,
        known,
        cc (e1, q0),
        cc (e2, q),
        seller_signature_ok-SignsOnly out before after answer,
      )

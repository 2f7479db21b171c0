-- ===== src/Checker/Signature.antt =====
-- What the comparison of a PSBT before and after signing guarantees to the buyer, in
-- `CheckForBuyerSignature` of src/checker.cpp.
use democrit.Base.{
  suc, ◌+◌, ◌≤◌, ◌≡◌, ◌≢◌, ◌⊎◌, ◌↔◌, refl, inl, inr, Bool, true, Option, some, List, [], ◌∷◌, arith,
  Text, codes, ok, length, ap, and_then, and_then-eq-some, checked-eq-some, >>=-eq-ok, or_die-eq-ok,
  Bool-cases, ==_iff,
}
use democrit.Json.{Json, member, as_array}
use democrit.Json.Equality.{json_eq, json_eq_iff}
use democrit.Env.{Env}
use democrit.Checker.Decoded.{count_changed, signed_inputs}
use democrit.Checker.{check_for_buyer_signature}

-- Exactly one of the inputs is as before.
abbrev pub NoneKept : List Json → List Json → Type 0
NoneKept (b ∷ bs) (a ∷ as') = (b ≢ a) × NoneKept bs as'
NoneKept _ _ = Unit

abbrev pub OneKept : List Json → List Json → Type 0
OneKept (b ∷ bs) (a ∷ as') = ((b ≡ a) × NoneKept bs as') ⊎ ((b ≢ a) × OneKept bs as')
OneKept _ _ = ⊥

count_changed-le : (bs as' : List Json) → count_changed bs as' ≤ length bs
unfolding count_changed
count_changed-le [] as' = omega arith
count_changed-le (b ∷ bs) [] = omega arith
count_changed-le (b ∷ bs) (a ∷ as') = ground (arith, count_changed-le bs as')

count_changed-NoneKept :
    (bs as' : List Json)
    → length bs ≡ length as'
    → (count_changed bs as' ≡ length bs) ↔ NoneKept bs as'
unfolding count_changed
count_changed-NoneKept [] [] e = (λ _. tt, λ _. refl)
count_changed-NoneKept [] (a ∷ as') e = absurd (omega arith)
count_changed-NoneKept (b ∷ bs) [] e = absurd (omega arith)
count_changed-NoneKept (b ∷ bs) (a ∷ as') e =
    let ih = count_changed-NoneKept bs as' (omega arith) in
    let bound = count_changed-le bs as' in
    elim (Bool-cases (json_eq b a)) [
      | inl same ↦ rw same (λ h. absurd (omega arith), λ h. absurd (h.0 ((json_eq_iff b a).0 same)))
      | inr other ↦ rw other (
        λ h. (λ p. absurd (cc (other, (json_eq_iff b a).1 p)), ih.0 (omega arith)),
        λ h. ap suc (ih.1 h.1),
      )
    ]

count_changed-OneKept :
    (bs as' : List Json)
    → length bs ≡ length as'
    → (count_changed bs as' + 1 ≡ length bs) ↔ OneKept bs as'
unfolding count_changed
count_changed-OneKept [] [] e = (λ h. absurd (omega arith), λ h. absurd h)
count_changed-OneKept [] (a ∷ as') e = absurd (omega arith)
count_changed-OneKept (b ∷ bs) [] e = absurd (omega arith)
count_changed-OneKept (b ∷ bs) (a ∷ as') e =
    let ih = count_changed-OneKept bs as' (omega arith) in
    let all_kept = count_changed-NoneKept bs as' (omega arith) in
    elim (Bool-cases (json_eq b a)) [
      | inl same ↦
          let p = (json_eq_iff b a).0 same in
          rw same (
            λ h. inl (p, all_kept.0 (omega arith)),
            λ h. elim h [ inl k ↦ let c = all_kept.1 k.1 in omega arith | inr k ↦ absurd (k.0 p) ],
          )
      | inr other ↦
          let differ : b ≢ a = λ p. absurd (cc (other, (json_eq_iff b a).1 p)) in
          rw other (
            λ h. inr (differ, ih.0 (omega arith)),
            λ h. elim h [ inl k ↦ absurd (differ k.0) | inr k ↦ let c = ih.1 k.1 in omega arith ],
          )
    ]

-- The two PSBTs have one transaction, and as many inputs.
pub record SameTransaction (before after : Json) (bs as' : List Json) : Type 0 where
  pub tx : Json
  pub tx_before : member (codes "tx") before ≡ some tx
  pub tx_after : member (codes "tx") after ≡ some tx
  pub inputs_before : and_then (member (codes "inputs") before) as_array ≡ some bs
  pub inputs_after : and_then (member (codes "inputs") after) as_array ≡ some as'
  pub same_length : length bs ≡ length as'

some_pair :
    (bs as' : List Json) (r : List Json × List Json)
    → ◌≡◌ {A = Option (List Json × List Json)} (some (bs, as')) (some r)
    → (bs ≡ r.0) × (as' ≡ r.1)
some_pair bs as' r h = ground arith

pub signed_inputs_sound :
    (before after : Json) (r : List Json × List Json)
    → signed_inputs before after ≡ some r
    → SameTransaction before after r.0 r.1
unfolding signed_inputs
signed_inputs_sound before after r h =
    let (t, e1, h1) = and_then-eq-some _ _ h in
    let (u, e2, h2) = and_then-eq-some _ _ h1 in
    let (same, h3) = checked-eq-some _ _ h2 in
    let (bs, e4, h4) = and_then-eq-some _ _ h3 in
    let (as', e5, h5) = and_then-eq-some _ _ h4 in
    let (lengths, h6) = checked-eq-some _ _ h5 in
    let q = some_pair bs as' r h6 in
    record {
      tx = t;
      tx_before = e1;
      tx_after = cc (e2, (json_eq_iff t u).0 same);
      inputs_before = cc (e4, q.0);
      inputs_after = cc (e5, q.1);
      same_length = cc ((==_iff (length bs) (length as')).0 lengths, ap length q.0, ap length q.1);
    }

module _ {W : Type 0} (env : Env W) where
  -- Whatever the wallet answers: if the buyer's check returns an answer, then both PSBTs decoded to the
  -- same transaction with as many inputs, and the answer is true exactly if the signature changed all
  -- of them but one.
  pub check_for_buyer_signature-OneKept :
      (before_str after_str : Text) (w w' : W) (answer : Bool)
      → check_for_buyer_signature env before_str after_str w ≡ (ok answer, w')
      → (before : Json) × (after : Json) × (bs : List Json) × (as' : List Json) × (t : W)
        × (env.decode_psbt before_str w ≡ (ok before, t))
        × (env.decode_psbt after_str t ≡ (ok after, w'))
        × SameTransaction before after bs as'
        × ((answer ≡ true) ↔ OneKept bs as')
  unfolding check_for_buyer_signature
  check_for_buyer_signature-OneKept before_str after_str w w' answer h =
      let (before, t, e1, h1) = >>=-eq-ok _ _ w h in
      let (after, u, e2, h2) = >>=-eq-ok _ _ t h1 in
      let (r, v, e3, h3) = >>=-eq-ok _ _ u h2 in
      let (signed, q) = or_die-eq-ok _ u e3 in
      let same = signed_inputs_sound before after r signed in
      let exact = count_changed-OneKept r.0 r.1 same.same_length in
      let verdict = ==_iff (count_changed r.0 r.1 + 1) (length r.0) in
      (
        before,
        after,
        r.0,
        r.1,
        t,
        e1,
        cc (e2, q, h3),
        same,
        (λ p. exact.0 (verdict.0 (cc (h3, p))), λ p. cc (h3, verdict.1 (exact.1 p))),
      )

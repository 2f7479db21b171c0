-- ===== src/Checker/Outputs.antt =====
-- What a positive answer of `check_for_seller_outputs` means to the seller.
use democrit.Base.{
  ◌≡◌, ◌⊎◌, refl, inl, inr, Bool, true, false, not, Option, none, some, List, [], ◌∷◌, arith, Text,
  codes, ℤ, pos, eqb_ℤ, ltb_ℤ, ok, value_or, has, if◌then◌else◌, and_then, and_then-eq-some,
  checked-eq-some, and_true, >>=-eq-ok, or_die-eq-ok, check-eq-ok, >>-eq-ok, Bool-cases,
  Option-cases, str_eq_iff, ◌∙◌, ap,
}
use democrit.Json.{Json, null, member, is_object, is_null, as_string, string_is}
use democrit.Proto.{SellerData}
use democrit.Env.{Env}
use democrit.Checker.Decoded.{
  TradeChecker, get_total_sat, tx_list, Found, name_op_matches, pays_chi, matches_address,
  get_xaya_name,
}
use democrit.Checker.{
  check_output, scan_outputs, outputs_ok, check_for_seller_outputs, get_name_update_value,
}

-- Some element of the list.
abbrev pub Any : (Json → Type 0) → List Json → Type 0
Any P [] = ⊥
Any P (x ∷ xs) = P x ⊎ Any P xs

-- The output updates the name to the value, and sends it to the address.
pub record UpdatesName (name value addr : Text) (out : Json) : Type 0 where
  pub script : Json
  pub op : Json
  pub has_script : member (codes "scriptPubKey") out ≡ some script
  pub has_op : member (codes "nameOp") script ≡ some op
  pub is_update : and_then (member (codes "op") op) as_string ≡ some (codes "name_update")
  pub has_name : and_then (member (codes "name") op) as_string ≡ some name
  pub has_value : and_then (member (codes "value") op) as_string ≡ some value
  pub to_address : matches_address script addr ≡ some true

-- The output is no name operation, and pays at least the total to the address.
pub record PaysChi (read : Json → Option ℤ) (total : ℤ) (addr : Text) (out : Json) : Type 0 where
  pub script : Json
  pub payment : ℤ
  pub has_script : member (codes "scriptPubKey") out ≡ some script
  pub no_op : member (codes "nameOp") script ≡ some null
  pub to_address : matches_address script addr ≡ some true
  pub has_value : and_then (member (codes "value") out) read ≡ some payment
  pub enough : ltb_ℤ payment total ≡ false

null-of-is_null : (j : Json) → is_null j ≡ true → j ≡ null
null-of-is_null null h = refl
null-of-is_null _ h = cc

string_is-true :
    (m : Option Json) (s : Text)
    → and_then m (λ v. string_is v s) ≡ some true
    → and_then m as_string ≡ some s
unfolding and_then
string_is-true none s h = cc
string_is-true (some v) s h = elim (Option-cases (as_string v)) [
  | inl e ↦ absurd (ground arith)
  | inr (t, e) ↦ ground (arith, str_eq_iff t s)
]

is_true : (m : Option Bool) (b : Bool) → m ≡ some b → b ≡ true → m ≡ some true
is_true m b e t = e ∙ ap some t

-- A condition that fails by `continue`.
unless_false :
    (b : Bool) (r : Option Bool)
    → (if not b then some false else r) ≡ some true
    → (b ≡ true) × (r ≡ some true)
unless_false true r h = (refl, h)
unless_false false r h = cc

module _ (op script : Json) (name value addr : Text) where
  name_op_matches_sound :
      name_op_matches op script name value addr ≡ some true
      → (and_then (member (codes "op") op) as_string ≡ some (codes "name_update"))
        × (and_then (member (codes "name") op) as_string ≡ some name)
        × (and_then (member (codes "value") op) as_string ≡ some value)
        × (matches_address script addr ≡ some true)
  unfolding name_op_matches
  name_op_matches_sound h =
      let (ne, _, h1) = and_then-eq-some _ _ h in
      let (_, h2) = checked-eq-some ne _ h1 in
      let (ve, _, h3) = and_then-eq-some _ _ h2 in
      let (_, h4) = checked-eq-some _ _ h3 in
      let (op_ok, e5, h5) = and_then-eq-some _ _ h4 in
      let (t5, h6) = unless_false op_ok _ h5 in
      let (name_ok, e7, h7) = and_then-eq-some _ _ h6 in
      let (t7, h8) = unless_false name_ok _ h7 in
      let (value_ok, e9, h9) = and_then-eq-some _ _ h8 in
      let (t9, h10) = unless_false value_ok _ h9 in
      (
        string_is-true _ _ (is_true _ op_ok e5 t5),
        string_is-true _ _ (is_true _ name_ok e7 t7),
        string_is-true _ _ (is_true _ value_ok e9 t9),
        h10,
      )

module _ (read : Json → Option ℤ) (total : ℤ) (addr : Text) (script out : Json) where
  pays_chi_sound :
      pays_chi read total addr script out ≡ some true
      → (payment : ℤ) × (matches_address script addr ≡ some true)
        × (and_then (member (codes "value") out) read ≡ some payment)
        × (ltb_ℤ payment total ≡ false)
  unfolding pays_chi
  pays_chi_sound h =
      let (hit, e1, h1) = and_then-eq-some _ _ h in
      let (t1, h2) = unless_false hit _ h1 in
      let (payment, e3, h3) = and_then-eq-some _ _ h2 in
      (payment, is_true _ hit e1 t1, e3, ground arith)

module _ {W : Type 0} (env : Env W) (c : TradeChecker) (total : ℤ) (na ca : Text) where
  abbrev Name : Json → Type 0
  Name = UpdatesName (get_xaya_name c.seller) (get_name_update_value env c) na

  abbrev Chi : Json → Type 0
  Chi = PaysChi env.amount_from_json total ca

  -- A flag that an output sets is set by an output of its kind.
  check_output_sound :
      (out : Json) (f f' : Found)
      → check_output env c total na ca out f ≡ some f'
      → ((f'.0 ≡ true) → (f.0 ≡ true) ⊎ Chi out) × ((f'.1 ≡ true) → (f.1 ≡ true) ⊎ Name out)
  unfolding check_output
  check_output_sound out (chi, name) f' h =
      let (_, h1) = checked-eq-some _ _ h in
      let (script, has_script, h2) = and_then-eq-some _ _ h1 in
      let (_, h3) = checked-eq-some _ _ h2 in
      let (op, has_op, h4) = and_then-eq-some _ _ h3 in
      elim (Bool-cases (is_object op)) [
        | inl named ↦
            let (hit, e5, h5) = and_then-eq-some _ _ (rw named at h4) in
            (
              λ t. inl (ground arith),
              λ t. elim (Bool-cases hit) [
                | inl yes_hit ↦
                    let (u, n, v, a) =
                      name_op_matches_sound op script _ _ na (is_true _ hit e5 yes_hit) in
                    inr (record {
                      script = script;
                      op = op;
                      has_script = has_script;
                      has_op = has_op;
                      is_update = u;
                      has_name = n;
                      has_value = v;
                      to_address = a;
                    })
                | inr no_hit ↦ inl (ground arith)
              ],
            )
        | inr plain ↦
            let (is_no_op, h5) = checked-eq-some _ _ (rw plain at h4) in
            let (hit, e6, h6) = and_then-eq-some _ _ h5 in
            (
              λ t. elim (Bool-cases hit) [
                | inl yes_hit ↦
                    let (p, a, v, enough) =
                      pays_chi_sound env.amount_from_json total ca script out
                        (is_true _ hit e6 yes_hit) in
                    inr (record {
                      script = script;
                      payment = p;
                      has_script = has_script;
                      no_op = has_op ∙ ap some (null-of-is_null op is_no_op);
                      to_address = a;
                      has_value = v;
                      enough = enough;
                    })
                | inr no_hit ↦ inl (ground arith)
              ],
              λ t. inl (ground arith),
            )
      ]

  scan_outputs_sound :
      (outs : List Json) (f f' : Found)
      → scan_outputs env c total na ca outs f ≡ some f'
      → ((f'.0 ≡ true) → (f.0 ≡ true) ⊎ Any Chi outs)
        × ((f'.1 ≡ true) → (f.1 ≡ true) ⊎ Any Name outs)
  unfolding scan_outputs
  scan_outputs_sound [] f f' h = ground arith
  scan_outputs_sound (out ∷ outs) f f' h =
      let (g, e1, h1) = and_then-eq-some _ _ h in
      let first = check_output_sound out f g e1 in
      let later = scan_outputs_sound outs g f' h1 in
      (
        λ t. elim (later.0 t) [
          | inl now ↦ elim (first.0 now) [ inl old ↦ inl old | inr p ↦ inr (inl p) ]
          | inr p ↦ inr (inr p)
        ],
        λ t. elim (later.1 t) [
          | inl now ↦ elim (first.1 now) [ inl old ↦ inl old | inr p ↦ inr (inl p) ]
          | inr p ↦ inr (inr p)
        ],
      )

zero_or {ℓ} : {P : Type ℓ} (t : ℤ) → (eqb_ℤ t (pos 0) ≡ true) ⊎ P → (t ≡ pos 0) ⊎ P
zero_or t (inl h) = inl (ground arith)
zero_or t (inr p) = inr p

-- What the outputs of a transaction give the seller: the total of the trade does not overflow and is
-- not negative, one output updates the seller's name with the move of the trade and goes to the
-- name address, and, unless the total is zero, another that is no name operation pays at least the
-- total to the CHI address.
pub record Pays {W : Type 0} (env : Env W) (c : TradeChecker) (na ca : Text) (outs : List Json)
    : Type 0 where
  pub total : ℤ
  pub is_total : get_total_sat c ≡ some (some total)
  pub nonneg : ltb_ℤ total (pos 0) ≡ false
  pub name_moved : Any (UpdatesName (get_xaya_name c.seller) (get_name_update_value env c) na) outs
  pub paid : (total ≡ pos 0) ⊎ Any (PaysChi env.amount_from_json total ca) outs

module _ {W : Type 0} (env : Env W) (c : TradeChecker) (na ca : Text) where
  outputs_ok-Pays :
      (outs : List Json) → outputs_ok env c na ca outs ≡ some true → Pays env c na ca outs
  unfolding outputs_ok
  outputs_ok-Pays outs h =
      let (computed, is_total, h1) = and_then-eq-some _ _ h in
      elim (Option-cases computed) [
        | inl none_computed ↦ absurd (cc (rw none_computed at h1))
        | inr (total, some_total) ↦
            let (nonneg, h2) = checked-eq-some _ _ (rw some_total at h1) in
            let (f, scanned, h3) = and_then-eq-some _ _ h2 in
            let both = and_true f.0 f.1 (ground arith) in
            let found = scan_outputs_sound env c total na ca outs _ f scanned in
            record {
              total = total;
              is_total = is_total ∙ ap some some_total;
              nonneg = ground arith;
              name_moved = elim (found.1 both.1) [ inl h ↦ absurd (cc h) | inr p ↦ p ];
              paid = zero_or total (found.0 both.0);
            }
      ]

module _ {W : Type 0} (env : Env W) (c : TradeChecker) where
  -- Whatever the wallet and the node answer: if the seller's check returns true, then both addresses
  -- are there, and the PSBT decodes to outputs that give the seller what the trade promises.
  pub check_for_seller_outputs-Pays :
      (psbt : Text) (sd : SellerData) (w w' : W)
      → check_for_seller_outputs env c psbt sd w ≡ (ok true, w')
      → (has sd.chi_address ≡ true)
        × (has sd.name_address ≡ true)
        × (decoded : Json) × (env.decode_psbt psbt w ≡ (ok decoded, w'))
        × (outs : List Json) × (tx_list (codes "vout") decoded ≡ some outs)
        × Pays env c (value_or [] sd.name_address) (value_or [] sd.chi_address) outs
  unfolding check_for_seller_outputs
  check_for_seller_outputs-Pays psbt sd w w' h =
      let (_, s1, e1, h1) = >>-eq-ok _ _ w h in
      let (addresses, q1) = check-eq-ok _ w e1 in
      let (decoded, s2, e2, h2) = >>=-eq-ok _ _ s1 h1 in
      let (outs, s3, e3, h3) = >>=-eq-ok _ _ s2 h2 in
      let (listed, q3) = or_die-eq-ok _ s2 e3 in
      let (answer, q4) = or_die-eq-ok _ s3 h3 in
      let both = and_true _ _ addresses in
      (
        both.0,
        both.1,
        decoded,
        cc (q1, e2, q3, q4),
        outs,
        listed,
        outputs_ok-Pays env c _ _ outs answer,
      )

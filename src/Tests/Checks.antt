-- ===== src/Tests/Checks.antt =====
-- The checks of src/checker.cpp on a transaction that sells two units for ten each.
use democrit.Base.{
  ℕ, zero, suc, ◌≤◌, ◌≡◌, ◌↔◌, refl, Bool, true, none, some, List, [], ◌∷◌, codes, has, ok, arith,
  str_eq, pos, ◌>>=◌, ◌>>◌, or_die, check, and_then, checked,
}
use democrit.Json.{Json, as_string, str, lookup_field}
use democrit.Proto.{OutPoint}
use democrit.Checker.Decoded.{count_changed, get_total_sat, tx_list}
use democrit.Checker.{
  is_block_ancestor, check_for_buyer_signature, check_for_seller_signature,
  check_for_seller_outputs,
}
use democrit.Checker.Total.{get_total_sat-exact, at_price}
use democrit.Checker.Ancestor.{HasChain, generations_back, is_block_ancestor-decides}
use democrit.Checker.Outputs.{Pays, check_for_seller_outputs-Pays}
use democrit.Checker.Signature.{SameTransaction, OneKept, check_for_buyer_signature-OneKept}
use democrit.Checker.SellerSignature.{SignsOnly, check_for_seller_signature-SignsOnly}
use democrit.Tests.World.{env0, alice, bob, checker0, sale, parent_of, header_of}

get_total_sat-exact_example :
    get_total_sat (at_price bob alice (codes "gold") 10 1) ≡ some (some (pos 20))
get_total_sat-exact_example =
    get_total_sat-exact bob alice (codes "gold") 10 1 (omega arith) (omega arith)

header_of-parent :
    (b : ℕ)
    → lookup_field (codes "previousblockhash") (header_of b)
      ≡ elim (parent_of b) [ none ↦ none | some p ↦ some (str (p ∷ [])) ]
unfolding str_eq
header_of-parent zero = refl
header_of-parent (suc b) = refl

env0-HasChain : HasChain env0 parent_of
env0-HasChain = record {
  header = header_of;
  read = λ b w. refl;
  names_parent = header_of-parent;
  hex = λ b. refl;
}

is_block_ancestor-decides_example :
    (answer : Bool) × (is_block_ancestor env0 5 7 3 0 ≡ (ok answer, 0))
    × ((answer ≡ true) ↔ ((k : ℕ) × (k ≤ 3) × (generations_back parent_of k 7 ≡ some 5)))
is_block_ancestor-decides_example = is_block_ancestor-decides env0 parent_of env0-HasChain 3 5 7 0

buyer_signature_true :
    check_for_buyer_signature env0 (codes "unsigned") (codes "by-buyer") 0 ≡ (ok true, 0)
unfolding check_for_buyer_signature ◌>>=◌ str_eq or_die and_then checked
buyer_signature_true = refl

check_for_buyer_signature-OneKept_example :
    (before : Json) × (after : Json) × (bs : List Json) × (as' : List Json) × (t : ℕ)
    × (env0.decode_psbt (codes "unsigned") 0 ≡ (ok before, t))
    × (env0.decode_psbt (codes "by-buyer") t ≡ (ok after, 0))
    × SameTransaction before after bs as'
    × ((true ≡ true) ↔ OneKept bs as')
check_for_buyer_signature-OneKept_example =
    check_for_buyer_signature-OneKept env0 (codes "unsigned") (codes "by-buyer") 0 0 true
      buyer_signature_true

seller_signature_true :
    check_for_seller_signature env0 (codes "unsigned") (codes "by-seller") sale 0 ≡ (ok true, 0)
unfolding check_for_seller_signature ◌>>=◌ or_die str_eq and_then checked count_changed
seller_signature_true = refl

check_for_seller_signature-SignsOnly_example :
    (out : OutPoint) × (before : Json) × (after : Json) × (t : ℕ) × (sale.name_output ≡ some out)
    × (env0.decode_psbt (codes "unsigned") 0 ≡ (ok before, t))
    × (env0.decode_psbt (codes "by-seller") t ≡ (ok after, 0))
    × SignsOnly out before after
check_for_seller_signature-SignsOnly_example =
    check_for_seller_signature-SignsOnly env0 (codes "unsigned") (codes "by-seller") sale 0 0
      seller_signature_true

seller_outputs_true :
    check_for_seller_outputs env0 checker0 (codes "unsigned") sale 0 ≡ (ok true, 0)
unfolding check_for_seller_outputs ◌>>◌ check str_eq or_die checked and_then as_string
seller_outputs_true = refl

check_for_seller_outputs-Pays_example :
    (has sale.chi_address ≡ true)
    × (has sale.name_address ≡ true)
    × (decoded : Json) × (env0.decode_psbt (codes "unsigned") 0 ≡ (ok decoded, 0))
    × (outs : List Json) × (tx_list (codes "vout") decoded ≡ some outs)
    × Pays env0 checker0 (codes "addr0") (codes "addr1") outs
check_for_seller_outputs-Pays_example =
    check_for_seller_outputs-Pays env0 checker0 (codes "unsigned") sale 0 0 seller_outputs_true

-- ===== src/Checker/Decoded.antt =====
-- src/checker.cpp, the parts that work on decoded JSON alone: outpoints, addresses, name operations,
-- and the comparison of a PSBT before and after signing. `none` is a failed `CHECK`.
use democrit.Base.{
  ℕ, zero, suc, Bool, true, false, not, ◌&&◌, Option, none, some, List, [], ◌∷◌, ◌++◌, Text, codes,
  str_eq, ◌==◌, ℤ, pos, negsuc, mul_int64, div_int64, ltb_ℤ, eqb_ℤ, if◌then◌else◌, has, length,
  and_then, checked,
}
use democrit.Json.{Json, obj, member, is_object, as_array, as_str, as_uint, string_is, lookup_field}
use democrit.Json.Equality.{json_eq}
use democrit.Proto.{OutPoint}

pub record TradeChecker : Type 0 where
  pub buyer : Text
  pub seller : Text
  pub asset : Text
  pub price : ℤ
  pub units : ℤ

abbrev pub max_block_ancestors_checked : ℕ
max_block_ancestors_checked = 3

abbrev pub get_xaya_name : Text → Text
get_xaya_name account = codes "p/" ++ account

-- The JSON outpoint in an object with "txid" and "vout".
unfoldable pub out_point_from_json : Json → Option OutPoint
unfolding member
out_point_from_json val = checked (is_object val) (
    and_then (and_then (member (codes "txid") val) as_str) λ hash.
      and_then (and_then (member (codes "vout") val) as_uint)
        λ n. some (record { hash = hash; n = n }))

-- Computes the total of a trade: `none` on an overflow.
unfoldable pub get_total_sat : TradeChecker → Option (Option ℤ)
unfolding mul_int64 div_int64
get_total_sat c = elim c.units [
  | pos n ↦ elim n [
    | zero ↦ none
    | suc m ↦
        let total = mul_int64 c.price (pos (suc m)) in
        some (if eqb_ℤ (div_int64 total (suc m)) c.price then some total else none)
  ]
  | negsuc n ↦ none
]

unfoldable pub matches_address : Json → Text → Option Bool
unfolding member
matches_address script addr = checked (is_object script) (
    and_then (member (codes "addresses") script) λ addresses.
      and_then (member (codes "address") script) λ address. some (
        if (elim (as_array addresses) [
          | some (a ∷ []) ↦ elim (as_str a) [ some s ↦ str_eq s addr | none ↦ false ]
          | _ ↦ false
        ])
        then true
        else elim (as_str address) [ some s ↦ str_eq s addr | none ↦ false ]))

-- The elements "tx" -> key of a decoded PSBT, with the checks on them.
unfoldable pub tx_list : Text → Json → Option (List Json)
unfolding member
tx_list key decoded = checked (is_object decoded) (
    and_then (member (codes "tx") decoded)
      λ tx. checked (is_object tx) (and_then (member key tx) as_array))

abbrev pub is_member : Text → Json → Bool
is_member k (obj fs) = has (lookup_field k fs)
is_member k _ = false

-- What the output loop has found: the CHI payment and the name update.
abbrev pub Found : Type 0
Found = Bool × Bool

-- The conditions on the name operation of an output, in order; each fails by `continue`.
unfoldable pub name_op_matches : Json → Json → Text → Text → Text → Option Bool
unfolding member matches_address
name_op_matches name_op script name value addr =
    and_then (and_then (member (codes "name_encoding") name_op) λ e. string_is e (codes "utf8"))
      λ ne. checked ne (
        and_then
          (and_then (member (codes "value_encoding") name_op) λ e. string_is e (codes "utf8"))
          λ ve.
            checked (ve && (is_member (codes "name") name_op && is_member (codes "value") name_op))
              (and_then
                (and_then (member (codes "op") name_op) λ v. string_is v (codes "name_update"))
                λ op_ok.
                  if not op_ok
                  then some false
                  else and_then (and_then (member (codes "name") name_op) λ v. string_is v name)
                      λ name_ok.
                        if not name_ok
                        then some false
                        else and_then
                            (and_then (member (codes "value") name_op) λ v. string_is v value)
                            λ value_ok.
                              if not value_ok then some false else matches_address script addr))

-- An output that pays at least the total to the CHI address.
unfoldable pub pays_chi : (Json → Option ℤ) → ℤ → Text → Json → Json → Option Bool
unfolding member matches_address
pays_chi amount_from_json total addr script out = and_then (matches_address script addr) λ hit.
    if not hit
    then some false
    else and_then (and_then (member (codes "value") out) amount_from_json)
        λ payment. some (not (ltb_ℤ payment total))

-- The inputs that the signature changed, over the two arrays at equal positions.
unfoldable pub count_changed : List Json → List Json → ℕ
unfolding json_eq
count_changed (b ∷ bs) (a ∷ as') =
    let rest = count_changed bs as' in if json_eq b a then rest else suc rest
count_changed _ _ = 0

-- All inputs but the one at the index are as before.
unfoldable pub same_except : ℕ → List Json → List Json → Bool
unfolding json_eq
same_except zero (b ∷ bs) (a ∷ as') = count_changed bs as' == 0
same_except (suc i) (b ∷ bs) (a ∷ as') = json_eq b a && same_except i bs as'
same_except _ _ _ = true

-- The position of the first input that spends the outpoint.
unfoldable pub find_input : OutPoint → List Json → Option (Option ℕ)
unfolding member
find_input out [] = some none
find_input out (input ∷ rest) =
    let later = find_input out rest in
    checked (is_object input) (
      and_then (and_then (member (codes "txid") input) as_str) λ hash.
        and_then (and_then (member (codes "vout") input) as_uint) λ n.
          if str_eq hash out.hash && n == out.n
          then some (some 0)
          else and_then later λ found. some (elim found [ none ↦ none | some i ↦ some (suc i) ]))

-- The "inputs" of the PSBT before and after signing, if the checks on both hold: the transaction
-- itself is the same, and so is the number of inputs.
unfoldable pub signed_inputs : Json → Json → Option (List Json × List Json)
unfolding member json_eq
signed_inputs before after = and_then (member (codes "tx") before) λ tx_before.
    and_then (member (codes "tx") after) λ tx_after. checked (json_eq tx_before tx_after) (
      and_then (and_then (member (codes "inputs") before) as_array) λ inputs_before.
        and_then (and_then (member (codes "inputs") after) as_array) λ inputs_after.
          checked (length inputs_before == length inputs_after)
            (some (inputs_before, inputs_after)))

-- The verification of the decoded PSBTs.
unfoldable pub seller_signature_ok : OutPoint → Json → Json → Option Bool
unfolding member json_eq tx_list find_input signed_inputs same_except
seller_signature_ok out before after = and_then (member (codes "tx") before) λ tx_before.
    and_then (member (codes "tx") after) λ tx_after. checked (json_eq tx_before tx_after) (
      and_then (tx_list (codes "vin") before) λ vin. and_then (find_input out vin) λ found.
        elim found [
          | none ↦ some false
          | some i ↦
              and_then (signed_inputs before after) λ inputs. some (same_except i inputs.0 inputs.1)
        ])

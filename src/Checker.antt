-- ===== src/Checker.antt =====
-- src/checker.cpp and src/private/checker.hpp: what buyer and seller verify before they sign. A
-- failed `CHECK` is `fatal` (in pure parts `none`); `false` is the answer of a failed verification.
pub mod Decoded
pub mod Total
pub mod Ancestor
pub mod Outputs
pub mod Signature
pub mod SellerSignature
use democrit.Base.{
  ℕ, zero, suc, ◌+◌, Bool, true, false, not, ◌&&◌, Option, none, some, List, [], ◌∷◌, ◌++◌, Text,
  codes, str_eq, ◌==◌, ℤ, pos, negsuc, mul_int64, div_int64, ltb_ℤ, eqb_ℤ, if◌then◌else◌, has,
  value_or, length, Exec, pure, die, or_die, check, and_then, checked, ◌>>=◌, ◌>>◌,
}
use democrit.Json.{
  Json, null, obj, str, Fields, member, put, empty_object, is_object, is_null, as_array, as_str,
  as_uint, as_object, string_is, lookup_field,
}
use democrit.Json.Equality.{json_eq}
use democrit.Proto.{OutPoint, SellerData}
use democrit.Env.{Env}
use Decoded.{
  TradeChecker, max_block_ancestors_checked, get_xaya_name, out_point_from_json, get_total_sat,
  tx_list, Found, name_op_matches, pays_chi, count_changed, same_except, find_input, signed_inputs,
  seller_signature_ok,
}

module _ {W : Type 0} (env : Env W) where
  open env use {
    decode_psbt, name_show, get_tx_out, get_block_header, hash_from_hex, hash_to_hex, write_string,
    amount_from_json, game_id, transfer_move, is_asset, can_buy, can_sell,
  }

  unfoldable pub get_name_out_point : Text → Exec W OutPoint
  unfolding out_point_from_json
  get_name_out_point account = do
    shown ← name_show (get_xaya_name account)
    or_die (out_point_from_json shown)

  unfoldable pub get_name_update_value : TradeChecker → Text
  unfolding put
  get_name_update_value c =
      let move = transfer_move c.seller c.buyer c.asset c.units in
      let g = put (codes "dem") empty_object (put game_id move empty_object) in
      write_string (put (codes "g") g empty_object)

  -- One step back along the chain: no parent for the genesis block.
  unfoldable pub previous_block : ℕ → Exec W (Option ℕ)
  unfolding member
  previous_block child = do
    header ← get_block_header (hash_to_hex child)
    check (is_object header)
    prev ← or_die (member (codes "previousblockhash") header)
    if is_null prev
        then pure none
        else do parent ← or_die (and_then (as_str prev) hash_from_hex); pure (some parent)

  unfoldable pub is_block_ancestor : ℕ → ℕ → ℕ → Exec W Bool
  is_block_ancestor ancestor child zero = pure (ancestor == child)
  is_block_ancestor ancestor child (suc n) = if ancestor == child then pure true else (do
    parent ← previous_block child
    elim parent [ none ↦ pure false | some p ↦ is_block_ancestor ancestor p n ])

  -- The block at which the name output was still unspent.
  unfoldable pub utxo_block : OutPoint → Exec W (Option ℕ)
  unfolding member
  utxo_block out = do
    utxo ← get_tx_out out.hash out.n
    if is_null utxo then pure none else do
      check (is_object utxo)
      best ← or_die (member (codes "bestblock") utxo)
      block ← or_die (and_then (as_str best) hash_from_hex)
      pure (some block)

  -- The name output to spend, if the trade is valid for the buyer.
  unfoldable pub check_for_buyer_trade : TradeChecker → Exec W (Option OutPoint)
  unfolding get_name_out_point utxo_block is_block_ancestor
  check_for_buyer_trade c = do
    asset_ok ← is_asset c.asset
    if not asset_ok then pure none else do
      buy_ok ← can_buy c.buyer c.asset c.units
      if not buy_ok then pure none else do
        out ← get_name_out_point c.seller
        at ← utxo_block out
        elim at [
          | none ↦ pure none
          | some block ↦ do
            sells ← can_sell c.seller c.asset c.units
            elim sells [
              | none ↦ pure none
              | some gsp_block ↦ do
                linked ← is_block_ancestor block gsp_block max_block_ancestors_checked
                pure (if linked then some out else none)
            ]
        ]

  unfoldable pub check_for_buyer_signature : Text → Text → Exec W Bool
  unfolding signed_inputs count_changed
  check_for_buyer_signature before_str after_str = do
    before ← decode_psbt before_str
    after ← decode_psbt after_str
    inputs ← or_die (signed_inputs before after)
    let (inputs_before, inputs_after) = inputs
    pure (count_changed inputs_before inputs_after + 1 == length inputs_before)

  -- One round of the loop over the outputs.
  unfoldable pub check_output : TradeChecker → ℤ → Text → Text → Json → Found → Option Found
  unfolding member name_op_matches pays_chi get_name_update_value
  check_output c total name_addr chi_addr out (chi, name) = checked (is_object out) (
      and_then (member (codes "scriptPubKey") out) λ script. checked (is_object script) (
        and_then (member (codes "nameOp") script) λ name_op.
          if is_object name_op
          then (and_then
              (name_op_matches name_op script (get_xaya_name c.seller) (get_name_update_value c)
                name_addr)
              λ hit. some (chi, if hit then true else name))
          else checked (is_null name_op) (
              and_then (pays_chi amount_from_json total chi_addr script out)
                λ hit. some (if hit then true else chi, name))))

  unfoldable pub scan_outputs : TradeChecker → ℤ → Text → Text → List Json → Found → Option Found
  unfolding check_output
  scan_outputs c total name_addr chi_addr [] found = some found
  scan_outputs c total name_addr chi_addr (out ∷ outs) found =
      and_then (check_output c total name_addr chi_addr out found)
        λ found'. scan_outputs c total name_addr chi_addr outs found'

  -- The verification of the decoded outputs.
  unfoldable pub outputs_ok : TradeChecker → Text → Text → List Json → Option Bool
  unfolding get_total_sat scan_outputs
  outputs_ok c name_addr chi_addr outs = and_then (get_total_sat c) λ computed. elim computed [
    | none ↦ some false
    | some total ↦ checked (not (ltb_ℤ total (pos 0))) (
        and_then (scan_outputs c total name_addr chi_addr outs (eqb_ℤ total (pos 0), false))
          λ found. some (found.0 && found.1))
  ]

  unfoldable pub check_for_seller_outputs : TradeChecker → Text → SellerData → Exec W Bool
  unfolding tx_list outputs_ok
  check_for_seller_outputs c psbt sd = do
    check (has sd.chi_address && has sd.name_address)
    decoded ← decode_psbt psbt
    outs ← or_die (tx_list (codes "vout") decoded)
    or_die (outputs_ok c (value_or [] sd.name_address) (value_or [] sd.chi_address) outs)

  unfoldable pub check_for_seller_signature : Text → Text → SellerData → Exec W Bool
  unfolding seller_signature_ok
  check_for_seller_signature before_str after_str sd = do
    out ← or_die sd.name_output
    before ← decode_psbt before_str
    after ← decode_psbt after_str
    or_die (seller_signature_ok out before after)

-- ===== src/Trade/Wallet.antt =====
-- src/trades.cpp, the methods of `Trade` and the helpers around it that use the wallet alone: locks,
-- seller data, and the construction and signing of the PSBT.
use democrit.Base.{
  Bool, true, false, not, ◌&&◌, ◌||◌, Option, none, some, List, [], ◌∷◌, Text, codes, ℤ, pos,
  to_int32, if◌then◌else◌, has, value_or, Exec, Outcome, ok, rpc_error, fatal, pure, or_die, check,
  and_then, ◌>>=◌, ◌>>◌,
}
use democrit.Json.{
  Json, int_val, bool_val, str, arr, of_list, put, empty_object, member, is_object, as_str, as_bool,
}
use democrit.Proto.{OutPoint, TradeState, seller_data_of, is_ask}
use democrit.Env.{Env}
use democrit.Checker.Decoded.{
  TradeChecker, get_total_sat, out_point_from_json, tx_list, get_xaya_name,
}
use democrit.Checker.{get_name_out_point, get_name_update_value}
use democrit.Trade.{get_order_type}

-- Value paid into name outputs (in satoshis).
abbrev pub name_value : ℤ
name_value = pos 1_000_000

-- A trade under work, and the world.
pub record Local (W : Type 0) : Type 0 where
  pub pb : TradeState
  pub world : W

abbrev pub json_out_point : OutPoint → Json
json_out_point out =
    put (codes "vout") (int_val (to_int32 out.n)) (put (codes "txid") (str out.hash) empty_object)

-- `catch (const jsonrpc::JsonRpcException&)` that turns the exception into false.
unfoldable pub caught : {W : Type 0} → Outcome Bool × W → Outcome Bool × W
caught (ok b, w) = (ok b, w)
caught (rpc_error, w) = (ok false, w)
caught (fatal, w) = (fatal, w)

module _ {W : Type 0} where
  unfoldable pub lift : {A : Type 0} → Exec W A → Exec (Local W) A
  lift m l = let (r, w) = m l.world in (r, record { pb = l.pb; world = w })

  unfoldable pub get_pb : Exec (Local W) TradeState
  get_pb l = (ok l.pb, l)

  unfoldable pub set_pb : TradeState → Exec (Local W) (Unit {0})
  set_pb t l = (ok tt, record l { pb = t })

module _ {W : Type 0} (env : Env W) where
  open env use {
    get_new_address, lock_unspent, decode_psbt, wallet_create_funded_psbt, create_psbt, name_psbt,
    join_psbts, wallet_process_psbt, amount_to_json, feerate_wo_names,
  }

  unfoldable pub lock_out_point : Bool → OutPoint → Exec W Bool
  unfolding caught
  lock_out_point lock out w =
      caught (lock_unspent (not lock) (arr (of_list (json_out_point out ∷ []))) w)

  unfoldable pub unlock_all : List Json → Exec W (Unit {0})
  unfolding lock_out_point out_point_from_json
  unlock_all [] = pure tt
  unlock_all (input ∷ rest) = do
    out ← or_die (out_point_from_json input)
    lock_out_point false out
    unlock_all rest

  unfoldable pub unlock_psbt_inputs : Text → Exec W (Unit {0})
  unfolding unlock_all tx_list
  unlock_psbt_inputs psbt = do
    decoded ← decode_psbt psbt
    vin ← or_die (tx_list (codes "vin") decoded)
    unlock_all vin

  -- The addresses and the name output, which is locked: true if they are new.
  unfoldable pub create_seller_data : Text → Exec (Local W) Bool
  unfolding get_order_type get_name_out_point lock_out_point
  create_seller_data account = do
    t ← get_pb
    if not (is_ask (get_order_type account t)) || has t.seller_data then pure false else do
      out ← lift (get_name_out_point env account)
      locked ← lift (lock_out_point true out)
      if not locked then pure false else do
        name_address ← lift get_new_address
        chi_address ← lift get_new_address
        set_pb (record t {
          seller_data = some (record {
            name_address = some name_address;
            chi_address = some chi_address;
            name_output = some out;
          });
        })
        pure true

  abbrev psbt_of : Json → Option Text
  psbt_of resp = if is_object resp then and_then (member (codes "psbt") resp) as_str else none

  abbrev pub total_of : TradeChecker → Option ℤ
  total_of c = and_then (get_total_sat c) λ total. total

  -- The unsigned PSBT: the wallet funds the payment, and the name operation is joined to it.
  unfoldable pub construct_transaction : Text → TradeState → TradeChecker → OutPoint → Exec W Text
  unfolding get_order_type get_total_sat put get_name_update_value
  construct_transaction account t c name_in = do
    check (not (is_ask (get_order_type account t)))
    let sd = seller_data_of t
    check (has sd.chi_address && has sd.name_address)
    total ← or_die (total_of c)
    funded ←
        wallet_create_funded_psbt (arr (of_list []))
          (arr
            (of_list (put (value_or [] sd.chi_address) (amount_to_json total) empty_object ∷ [])))
          0
          (put (codes "lockUnspents") (bool_val true)
            (put (codes "fee_rate") (int_val (pos feerate_wo_names)) empty_object))
    chi_part ← or_die (psbt_of funded)
    raw_name ← create_psbt (arr (of_list (json_out_point name_in ∷ []))) (
        arr (
          of_list
            (put (value_or [] sd.name_address) (amount_to_json name_value) empty_object ∷ [])))
    named ← name_psbt raw_name 0 (
        put (codes "value") (str (get_name_update_value env c)) (
          put (codes "name") (str (get_xaya_name t.counterparty))
            (put (codes "op") (str (codes "name_update")) empty_object)))
    name_part ← or_die (psbt_of named)
    join_psbts (arr (of_list (str chi_part ∷ str name_part ∷ [])))

  -- The signed PSBT and whether it is complete.
  unfoldable pub sign_psbt : Text → Exec W (Text × Bool)
  unfolding member
  sign_psbt psbt = do
    reply ← wallet_process_psbt psbt
    signed ← or_die (psbt_of reply)
    complete ← or_die (and_then (member (codes "complete") reply) as_bool)
    pure (signed, complete)

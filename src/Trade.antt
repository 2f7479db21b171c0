-- ===== src/Trade.antt =====
-- src/trades.cpp and src/private/trades.hpp, `class Trade`: one trade as seen by one of its parties.
-- `account` is the local user; the object's TradeState and the world are the state of its methods.
-- The methods that talk to the wallet are in the child modules `Wallet`, `Reply` and `Update`.
pub mod Identifier
pub mod Wallet
pub mod Reply
pub mod Update
pub mod Results
pub mod Steps
pub mod Life
use democrit.Base.{
  ℕ, ◌+◌, ◌++◌, Bool, true, false, not, ◌&&◌, ◌||◌, Option, none, some, List, [], ◌∷◌, Text, codes,
  decimal, str_eq, ℤ, to_int64, if◌then◌else◌, has, value_or,
}
use democrit.Proto.{
  Order, OrderType, ask, bid, TradePhase, initiated, pending, success, failed, abandoned, Role,
  maker, taker, SellerData, TradeState, ProcessingMessage, TakingOrder, account_of, id_of, asset_of,
  min_units_of, type_of, price_of, phase_of, seller_data_of, is_ask, is_maker, is_initiated,
}
use democrit.Proto
use democrit.Checker.Decoded.{TradeChecker}

-- The name may hold any bytes here; a new line separates it from the digits of the id.
unfoldable pub get_identifier : TradeState → Text
unfolding decimal
get_identifier t = account_of t.order ++ (codes "\n" ++ decimal (id_of t.order))

unfoldable pub get_role : Text → TradeState → Role
unfolding str_eq
get_role account t = if str_eq (account_of t.order) account then maker else taker

abbrev pub other_side : OrderType → OrderType
other_side ask = bid
other_side bid = ask

-- The type of the order from the local user's point of view.
unfoldable pub get_order_type : Text → TradeState → OrderType
unfolding get_role
get_order_type account t =
    if is_maker (get_role account t) then type_of t.order else other_side (type_of t.order)

unfoldable pub build_trade_checker : Text → TradeState → TradeChecker
unfolding get_order_type to_int64
build_trade_checker account t =
    let selling = is_ask (get_order_type account t) in
    record {
      buyer = if selling then t.counterparty else account;
      seller = if selling then account else t.counterparty;
      asset = asset_of t.order;
      price = to_int64 (price_of t.order);
      units = to_int64 t.units;
    }

unfoldable pub init_processing_message : TradeState → ProcessingMessage
unfolding get_identifier
init_processing_message t = record {
  counterparty = some t.counterparty;
  identifier = get_identifier t;
  taking_order = none;
  seller_data = none;
  psbt = none;
}

unfoldable pub set_taking_order : TradeState → ProcessingMessage → ProcessingMessage
set_taking_order t msg = record msg {
  taking_order = some (record { id = id_of t.order; units = t.units });
}

abbrev pub is_final : TradePhase → Bool
is_final abandoned = true
is_final success = true
is_final failed = true
is_final _ = false

unfoldable pub is_finalised : TradeState → Bool
is_finalised t = has t.phase && is_final (phase_of t)

unfoldable pub get_public_info : Text → TradeState → Proto.Trade
unfolding get_order_type get_role
get_public_info account t = record {
  phase = phase_of t;
  start_time = t.start_time;
  counterparty = t.counterparty;
  order_type = get_order_type account t;
  asset = asset_of t.order;
  units = t.units;
  price_sat = price_of t.order;
  role = get_role account t;
}

unfoldable pub matches : TradeState → ProcessingMessage → Bool
unfolding get_identifier str_eq
matches t msg =
    str_eq (value_or [] msg.counterparty) t.counterparty && str_eq msg.identifier (get_identifier t)

-- Seller data is taken once, by the buyer, with both addresses, which differ, and no name output.
unfoldable pub merge_seller_data : Text → SellerData → TradeState → TradeState
unfolding get_order_type str_eq
merge_seller_data account sd t =
    if is_ask (get_order_type account t)
    then t
    else if has t.seller_data
    then t
    else if not (has sd.name_address) || not (has sd.chi_address) || has sd.name_output
    then t
    else if str_eq (value_or [] sd.name_address) (value_or [] sd.chi_address)
    then t
    else record t { seller_data = some sd }

unfoldable pub merge_psbt : Text → TradeState → TradeState
merge_psbt psbt t = if has t.their_psbt then t else record t { their_psbt = some psbt }

unfoldable pub merge_data : Text → Option SellerData → TradeState → TradeState
unfolding merge_seller_data
merge_data account none t = t
merge_data account (some sd) t = merge_seller_data account sd t

unfoldable pub merge_their_psbt : Option Text → TradeState → TradeState
unfolding merge_psbt
merge_their_psbt none t = t
merge_their_psbt (some psbt) t = merge_psbt psbt t

unfoldable pub handle_message : Text → ProcessingMessage → TradeState → TradeState
unfolding merge_data merge_their_psbt
handle_message account msg t =
    if is_initiated (phase_of t)
    then merge_their_psbt msg.psbt (merge_data account msg.seller_data t)
    else t

-- ===== src/Proto.antt =====
-- The protocol buffers that the program keeps and exchanges (src/proto/*.proto). An optional field
-- whose presence the code tests is an option; any other stands for the value that its accessor
-- gives, with the default of the format for a missing one.
use democrit.Base.{ℕ, Bool, true, false, Option, none, List, [], Text, Dict, value_or}

-- Order.Type
pub data OrderType : Type 0 where
  ask bid : OrderType

-- Trade.State
pub data TradePhase : Type 0 where
  initiated pending success failed abandoned : TradePhase

-- Trade.Role
pub data Role : Type 0 where
  maker taker : Role

pub record Order : Type 0 where
  pub account : Option Text
  pub id : Option ℕ
  pub asset : Option Text
  pub min_units : Option ℕ
  pub max_units : ℕ
  pub order_type : Option OrderType
  pub price_sat : Option ℕ
  pub locked : Bool

-- The accessors of a field that may be missing.
abbrev pub account_of : Order → Text
account_of o = value_or [] o.account

abbrev pub id_of : Order → ℕ
id_of o = value_or 0 o.id

abbrev pub asset_of : Order → Text
asset_of o = value_or [] o.asset

abbrev pub min_units_of : Order → ℕ
min_units_of o = value_or 0 o.min_units

abbrev pub type_of : Order → OrderType
type_of o = value_or ask o.order_type

abbrev pub price_of : Order → ℕ
price_of o = value_or 0 o.price_sat

pub record OrdersOfAccount : Type 0 where
  pub account : Option Text
  pub orders : Dict ℕ Order

pub record OrderbookForAsset : Type 0 where
  pub asset : Text
  pub bids : List Order
  pub asks : List Order

abbrev pub OrderbookByAsset : Type 0
OrderbookByAsset = Dict Text OrderbookForAsset

pub record OutPoint : Type 0 where
  pub hash : Text
  pub n : ℕ

pub record SellerData : Type 0 where
  pub name_address : Option Text
  pub chi_address : Option Text
  pub name_output : Option OutPoint

pub record TradeState : Type 0 where
  pub order : Order
  pub units : ℕ
  pub counterparty : Text
  pub start_time : ℕ
  pub phase : Option TradePhase
  pub seller_data : Option SellerData
  pub our_psbt : Option Text
  pub their_psbt : Option Text
  pub conflict_height : Option ℕ

abbrev pub phase_of : TradeState → TradePhase
phase_of t = value_or initiated t.phase

abbrev pub empty_seller_data : SellerData
empty_seller_data = record { name_address = none; chi_address = none; name_output = none }

abbrev pub seller_data_of : TradeState → SellerData
seller_data_of t = value_or empty_seller_data t.seller_data

-- The public data of a trade.
pub record Trade : Type 0 where
  pub phase : TradePhase
  pub start_time : ℕ
  pub counterparty : Text
  pub order_type : OrderType
  pub asset : Text
  pub units : ℕ
  pub price_sat : ℕ
  pub role : Role

pub record TakingOrder : Type 0 where
  pub id : ℕ
  pub units : ℕ

pub record ProcessingMessage : Type 0 where
  pub counterparty : Option Text
  pub identifier : Text
  pub taking_order : Option TakingOrder
  pub seller_data : Option SellerData
  pub psbt : Option Text

-- The global state; private/state.hpp only adds a mutex that each access holds.
pub record State : Type 0 where
  pub account : Text
  pub own_orders : Dict ℕ Order
  pub next_free_id : ℕ
  pub trades : List TradeState
  pub trade_archive : List Trade

-- Enum comparisons.
abbrev pub is_ask : OrderType → Bool
is_ask ask = true
is_ask bid = false

abbrev pub is_maker : Role → Bool
is_maker maker = true
is_maker taker = false

abbrev pub is_initiated : TradePhase → Bool
is_initiated initiated = true
is_initiated _ = false

abbrev pub is_pending : TradePhase → Bool
is_pending pending = true
is_pending _ = false

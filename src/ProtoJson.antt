-- ===== src/ProtoJson.antt =====
-- src/json.cpp: the data of the node as JSON values for the RPC interface, and an order back from one.
-- A failed `CHECK` of a conversion to JSON is `none`; `none` of the conversion back is its `false`, after
-- which its callers do not use the order.
pub mod Members
pub mod RoundTrip
pub mod Printing
pub mod Types
pub mod Typing
use democrit.Base.{
  ℕ, Bool, true, false, Option, none, some, List, [], ◌∷◌, Text, Dict, codes, str_eq, str_lt, ltb,
  leb, ◌==◌, ◌^◌, has, value_or, if◌then◌else◌, and_then, checked, ℤ, pos, to_int64, to_uint64,
  ltb_ℤ,
}
use democrit.Json.{
  Json, int_val, bool_val, str, arr, obj, Items, nil, cons, Fields, end, field, of_list,
  lookup_field, put_field, put, member, as_str, as_uint64, is_object, empty_object,
}
use democrit.Proto.{
  Order, OrderType, ask, bid, OrdersOfAccount, OrderbookForAsset, OrderbookByAsset, TradePhase,
  initiated, pending, success, failed, abandoned, Role, maker, taker, Trade, min_units_of, price_of,
}

-- The conversion of a uint64 to the parameter, an int64, is part of the call.
unfoldable pub int_to_json : ℕ → Json
unfolding to_int64
int_to_json n = int_val (to_int64 n)

abbrev pub order_type_to_json : OrderType → Json
order_type_to_json ask = str (codes "ask")
order_type_to_json bid = str (codes "bid")

-- `res[key] = v` for each entry in turn; one without a value is left out.
unfoldable pub assign : List (Text × Option Json) → Fields → Fields
unfolding put_field
assign [] fs = fs
assign ((key, none) ∷ entries) fs = assign entries fs
assign ((key, some v) ∷ entries) fs = assign entries (put_field key v fs)

abbrev pub opt : {A : Type 0} → (A → Json) → Option A → Option Json
opt f none = none
opt f (some a) = some (f a)

abbrev pub order_entries : Order → List (Text × Option Json)
order_entries o =
    (codes "account", opt str o.account)
    ∷ (codes "id", opt int_to_json o.id)
    ∷ (codes "asset", opt str o.asset)
    ∷ (codes "min_units", some (int_to_json (value_or 1 o.min_units)))
    ∷ (codes "max_units", some (int_to_json o.max_units))
    ∷ (codes "price_sat", some (int_to_json (price_of o)))
    ∷ (codes "type", opt order_type_to_json o.order_type)
    ∷ (codes "locked", if o.locked then some (bool_val true) else none)
    ∷ []

-- The `CHECK_GE`: the greater of 1 and the int64 of min_units, taken to a uint64 again.
unfoldable pub has_units : Order → Bool
unfolding to_int64 to_uint64
has_units o =
    let lower = to_int64 (min_units_of o) in
    leb (to_uint64 (if ltb_ℤ (pos 1) lower then lower else pos 1)) o.max_units

unfoldable pub order_to_json : Order → Option Json
unfolding has_units assign int_to_json
order_to_json o = checked (has_units o) (some (obj (assign (order_entries o) end)))

-- `val.isMember (key)`, and the value converted; a missing member is fine.
unfoldable pub optional_at : {A : Type 0} → (Json → Option A) → Text → Json → Option (Option A)
unfolding and_then
optional_at read key (obj fs) = elim (lookup_field key fs) [
  | none ↦ some none
  | some v ↦ and_then (read v) λ a. some (some a)
]
optional_at read key _ = none

unfoldable pub as_order_type : Json → Option OrderType
unfolding str_eq
as_order_type v = and_then (as_str v) λ t.
    if str_eq t (codes "bid") then some bid else if str_eq t (codes "ask") then some ask else none

unfoldable pub order_from_json : Json → Option Order
unfolding optional_at as_order_type member and_then
order_from_json val = checked (is_object val) (
    and_then (optional_at as_str (codes "account") val) λ account.
      and_then (optional_at as_uint64 (codes "id") val) λ id.
        and_then (optional_at as_str (codes "asset") val) λ asset.
          and_then (optional_at as_uint64 (codes "min_units") val) λ min_units.
            and_then (and_then (member (codes "max_units") val) as_uint64) λ max_units.
              and_then (and_then (member (codes "price_sat") val) as_uint64) λ price_sat.
                and_then (optional_at as_order_type (codes "type") val) λ order_type. some (record {
                  account = account;
                  id = id;
                  asset = asset;
                  min_units = min_units;
                  max_units = max_units;
                  order_type = order_type;
                  price_sat = some price_sat;
                  locked = false;
                }))

-- `val.removeMember (key)`
unfoldable pub remove_field : Text → Fields → Fields
unfolding str_eq
remove_field key end = end
remove_field key (field j v fs) =
    let rest = remove_field key fs in if str_eq j key then fs else field j v rest

abbrev pub remove_member : Text → Json → Json
remove_member key (obj fs) = obj (remove_field key fs)
remove_member key v = v

-- `emplace` of the map by id, which keeps an entry that is there.
unfoldable pub emplace : ℕ → Json → Dict ℕ Json → Dict ℕ Json
emplace id v [] = (id, v) ∷ []
emplace id v ((j, w) ∷ d) =
    if id == j
    then (j, w) ∷ d
    else if ltb id j
    then (id, v) ∷ (j, w) ∷ d
    else (j, w) ∷ emplace id v d

unfoldable pub orders_by_id : Dict ℕ Order → Dict ℕ Json → Option (Dict ℕ Json)
unfolding order_to_json remove_field put emplace
orders_by_id [] by_id = some by_id
orders_by_id ((id, o) ∷ os) by_id = and_then (order_to_json o) λ cur.
    orders_by_id os
      (emplace id (put (codes "id") (int_to_json id) (remove_member (codes "account") cur)) by_id)

abbrev pub values_of : Dict ℕ Json → List Json
values_of [] = []
values_of ((id, v) ∷ d) = v ∷ values_of d

unfoldable pub orders_of_account_to_json : OrdersOfAccount → Option Json
unfolding orders_by_id assign
orders_of_account_to_json pb = and_then (orders_by_id pb.orders []) λ by_id. some (
    obj (
      assign
        ((codes "account", some (str (value_or [] pb.account)))
          ∷ (codes "orders", some (arr (of_list (values_of by_id))))
          ∷ [])
        end))

unfoldable pub orderbook_side : List Order → Option (List Json)
unfolding order_to_json remove_field
orderbook_side [] = some []
orderbook_side (o ∷ os) = and_then (order_to_json o) λ cur.
    and_then (orderbook_side os)
      λ rest. some (remove_member (codes "type") (remove_member (codes "asset") cur) ∷ rest)

unfoldable pub orderbook_for_asset_to_json : OrderbookForAsset → Option Json
unfolding orderbook_side assign
orderbook_for_asset_to_json pb = and_then (orderbook_side pb.bids) λ bids.
    and_then (orderbook_side pb.asks) λ asks. some (
      obj (
        assign
          ((codes "asset", some (str pb.asset))
            ∷ (codes "bids", some (arr (of_list bids)))
            ∷ (codes "asks", some (arr (of_list asks)))
            ∷ [])
          end))

unfoldable pub orderbooks_to_json : OrderbookByAsset → Fields → Option Fields
unfolding orderbook_for_asset_to_json put put_field
orderbooks_to_json [] res = some res
orderbooks_to_json ((asset, b) ∷ books) res =
    and_then (orderbook_for_asset_to_json b)
      λ cur. orderbooks_to_json books (put_field asset (put (codes "asset") (str asset) cur) res)

unfoldable pub orderbook_by_asset_to_json : OrderbookByAsset → Option Json
unfolding orderbooks_to_json
orderbook_by_asset_to_json pb = and_then (orderbooks_to_json pb end) λ res. some (obj res)

abbrev pub phase_name : TradePhase → Text
phase_name initiated = codes "initiated"
phase_name pending = codes "pending"
phase_name success = codes "success"
phase_name failed = codes "failed"
phase_name abandoned = codes "abandoned"

abbrev pub role_name : Role → Text
role_name maker = codes "maker"
role_name taker = codes "taker"

unfoldable pub trade_to_json : Trade → Json
unfolding assign int_to_json
trade_to_json pb = obj (
    assign
      ((codes "start_time", some (int_to_json pb.start_time))
        ∷ (codes "counterparty", some (str pb.counterparty))
        ∷ (codes "type", some (order_type_to_json pb.order_type))
        ∷ (codes "asset", some (str pb.asset))
        ∷ (codes "units", some (int_to_json pb.units))
        ∷ (codes "price_sat", some (int_to_json pb.price_sat))
        ∷ (codes "state", some (str (phase_name pb.phase)))
        ∷ (codes "role", some (str (role_name pb.role)))
        ∷ [])
      end)

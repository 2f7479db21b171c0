-- ===== src/ProtoJson/Types.antt =====
-- The types of the JSON values that src/json.cpp writes: which members an object has, and of what kind.
use democrit.Base.{◌≡◌, true, some, List, [], ◌∷◌, All, Text, codes, ℤ, has}
use democrit.Json.{
  Json, int_val, bool_val, str, arr, obj, Items, nil, cons, Fields, end, field, lookup_field,
  member,
}
use democrit.Proto.{TradePhase, Role}
use democrit.ProtoJson.{phase_name, role_name}

-- Every member of an object, by its key.
abbrev pub EachField : (Text → Json → Type 0) → Fields → Type 0
EachField P end = Unit
EachField P (field key v fs) = P key v × EachField P fs

abbrev pub EachItem : (Json → Type 0) → Items → Type 0
EachItem P nil = Unit
EachItem P (cons v vs) = P v × EachItem P vs

pub data IsString : Json → Type 0 where
  is_str : (s : Text) → IsString (str s)

pub data IsInteger : Json → Type 0 where
  is_int : (z : ℤ) → IsInteger (int_val z)

pub data IsOrderType : Json → Type 0 where
  is_ask : IsOrderType (str (codes "ask"))
  is_bid : IsOrderType (str (codes "bid"))

pub data IsArrayOf (P : Json → Type 0) : Json → Type 0 where
  is_arr : {vs : Items} → EachItem P vs → IsArrayOf P (arr vs)

-- An object whose members are all of a kind, and some of them there.
pub data IsObject (P : Text → Json → Type 0) (required : List Text) : Json → Type 0 where
  is_obj :
      {fs : Fields}
      → EachField P fs
      → All (λ key. has (lookup_field key fs) ≡ true) required
      → IsObject P required (obj fs)

-- The members that an order may have.
pub data OrderMember : Text → Json → Type 0 where
  has_account : {v : Json} → IsString v → OrderMember (codes "account") v
  has_id : {v : Json} → IsInteger v → OrderMember (codes "id") v
  has_asset : {v : Json} → IsString v → OrderMember (codes "asset") v
  has_min_units : {v : Json} → IsInteger v → OrderMember (codes "min_units") v
  has_max_units : {v : Json} → IsInteger v → OrderMember (codes "max_units") v
  has_price : {v : Json} → IsInteger v → OrderMember (codes "price_sat") v
  has_type : {v : Json} → IsOrderType v → OrderMember (codes "type") v
  has_lock : OrderMember (codes "locked") (bool_val true)

abbrev pub order_keys : List Text
order_keys = codes "min_units" ∷ codes "max_units" ∷ codes "price_sat" ∷ []

abbrev pub IsOrder : Json → Type 0
IsOrder = IsObject OrderMember order_keys

-- The members of an order book.
pub data BookMember : Text → Json → Type 0 where
  of_asset : {v : Json} → IsString v → BookMember (codes "asset") v
  has_bids : {v : Json} → IsArrayOf IsOrder v → BookMember (codes "bids") v
  has_asks : {v : Json} → IsArrayOf IsOrder v → BookMember (codes "asks") v

abbrev pub book_keys : List Text
book_keys = codes "asset" ∷ codes "bids" ∷ codes "asks" ∷ []

abbrev pub IsBook : Json → Type 0
IsBook = IsObject BookMember book_keys

-- An order book that says that it is for the asset.
abbrev pub IsBookFor : Text → Json → Type 0
IsBookFor asset v = IsBook v × (member (codes "asset") v ≡ some (str asset))

-- An object with the order book of each asset under it.
abbrev pub IsBooks : Json → Type 0
IsBooks = IsObject IsBookFor []

-- The members of the own orders.
pub data OwnMember : Text → Json → Type 0 where
  of_account : {v : Json} → IsString v → OwnMember (codes "account") v
  has_orders : {v : Json} → IsArrayOf IsOrder v → OwnMember (codes "orders") v

abbrev pub IsOwnOrders : Json → Type 0
IsOwnOrders = IsObject OwnMember (codes "account" ∷ codes "orders" ∷ [])

pub data IsPhase : Json → Type 0 where
  is_phase : (p : TradePhase) → IsPhase (str (phase_name p))

pub data IsRole : Json → Type 0 where
  is_role : (r : Role) → IsRole (str (role_name r))

-- The members of a trade.
pub data TradeMember : Text → Json → Type 0 where
  starts : {v : Json} → IsInteger v → TradeMember (codes "start_time") v
  has_counterparty : {v : Json} → IsString v → TradeMember (codes "counterparty") v
  is_of_type : {v : Json} → IsOrderType v → TradeMember (codes "type") v
  trades_asset : {v : Json} → IsString v → TradeMember (codes "asset") v
  has_units : {v : Json} → IsInteger v → TradeMember (codes "units") v
  at_price : {v : Json} → IsInteger v → TradeMember (codes "price_sat") v
  is_in_state : {v : Json} → IsPhase v → TradeMember (codes "state") v
  has_role : {v : Json} → IsRole v → TradeMember (codes "role") v

abbrev pub trade_keys : List Text
trade_keys =
    codes "start_time"
    ∷ codes "counterparty"
    ∷ codes "type"
    ∷ codes "asset"
    ∷ codes "units"
    ∷ codes "price_sat"
    ∷ codes "state"
    ∷ codes "role"
    ∷ []

abbrev pub IsTrade : Json → Type 0
IsTrade = IsObject TradeMember trade_keys

-- ===== src/ProtoJson/Typing.antt =====
-- src/json.cpp: each conversion gives a value of its type.
pub mod Books
use democrit.Base.{
  ℕ, ◌≡◌, refl, sym, ap, ◌∙◌, inl, inr, Bool, true, false, Bool-cases, Option, none, some, List, [],
  ◌∷◌, All, All-mono, Text, Dict, codes, ◌==◌, ltb, str_eq, str_eq_iff, if◌then◌else◌,
  and_then-eq-some, checked-eq-some, some-injective, ℤ, str_lt, has, value_or,
}
use mathlib.Core.Path.{subst}
use democrit.Json.{
  Json, int_val, bool_val, str, arr, obj, Items, nil, cons, Fields, end, field, of_list,
  lookup_field, put, put_field, member,
}
use democrit.Proto.{
  Order, OrderType, ask, bid, OrdersOfAccount, OrderbookForAsset, OrderbookByAsset, TradePhase,
  initiated, pending, success, failed, abandoned, Role, maker, taker, Trade,
}
use democrit.ProtoJson.Members.{
  lookup_field-assign, lookup_field-put_field, lookup_field-remove_field, assigned,
}
use democrit.ProtoJson.{
  int_to_json, order_type_to_json, assign, opt, order_entries, order_to_json, remove_field,
  remove_member, emplace, orders_by_id, values_of, orders_of_account_to_json, orderbook_side,
  orderbook_for_asset_to_json, orderbooks_to_json, orderbook_by_asset_to_json, phase_name,
  role_name, trade_to_json,
}
use democrit.ProtoJson.Types.{
  EachField, EachItem, IsString, is_str, IsInteger, is_int, IsOrderType, is_ask, is_bid, IsArrayOf,
  is_arr, IsObject, is_obj, OrderMember, has_account, has_id, has_asset, has_min_units,
  has_max_units, has_price, has_type, has_lock, order_keys, IsOrder, BookMember, of_asset, has_bids,
  has_asks, IsBook, IsBookFor, IsBooks, OwnMember, of_account, has_orders, IsOwnOrders, IsPhase,
  is_phase, IsRole, is_role, TradeMember, starts, has_counterparty, is_of_type, trades_asset,
  has_units, at_price, is_in_state, has_role, IsTrade, trade_keys, book_keys,
}

-- An entry that has a value, with a key and a value that fit.
abbrev Fits : (Text → Json → Type 0) → Text × Option Json → Type 0
Fits P (key, none) = Unit
Fits P (key, some v) = P key v

module _ (P : Text → Json → Type 0) where
  pub put_field-EachField :
      (key : Text) (v : Json) (fs : Fields)
      → P key v
      → EachField P fs
      → EachField P (put_field key v fs)
  unfolding put_field
  put_field-EachField key v end h hs = (h, tt)
  put_field-EachField key v (field j w fs) h hs = elim (Bool-cases (str_eq j key)) [
    | inl same ↦ rw same (subst (λ k. P k v) (sym ((str_eq_iff j key).0 same)) h, hs.1)
    | inr other ↦ elim (Bool-cases (str_lt key j)) [
      | inl before ↦ rw (other, before) (h, hs)
      | inr after ↦ rw (other, after) (hs.0, put_field-EachField key v fs h hs.1)
    ]
  ]

  pub assign-EachField :
      (entries : List (Text × Option Json)) (fs : Fields)
      → All (Fits P) entries
      → EachField P fs
      → EachField P (assign entries fs)
  unfolding assign
  assign-EachField [] fs fit h = h
  assign-EachField ((key, none) ∷ entries) fs fit h = assign-EachField entries fs fit.1 h
  assign-EachField ((key, some v) ∷ entries) fs fit h =
      assign-EachField entries (put_field key v fs) fit.1 (put_field-EachField key v fs fit.0 h)

  remove_field-EachField :
      (key : Text) (fs : Fields) → EachField P fs → EachField P (remove_field key fs)
  unfolding remove_field
  remove_field-EachField key end h = tt
  remove_field-EachField key (field j v fs) h = elim (Bool-cases (str_eq j key)) [
    | inl same ↦ rw same h.1
    | inr other ↦ rw other (h.0, remove_field-EachField key fs h.1)
  ]

-- The assignments make an object of its type, if each entry fits and those with the required keys have a value.
pub assign-IsObject :
    (P : Text → Json → Type 0) (required : List Text) (entries : List (Text × Option Json))
    → All (Fits P) entries
    → All (λ key. has (assigned key entries none) ≡ true) required
    → IsObject P required (obj (assign entries end))
assign-IsObject P required entries fit there = is_obj (assign-EachField P entries end fit tt) (
    All-mono (λ key. has (assigned key entries none) ≡ true)
      (λ key. has (lookup_field key (assign entries end)) ≡ true)
      (λ key h. ap has (lookup_field-assign key entries end) ∙ h) required there)

pub order_type-IsOrderType : (t : OrderType) → IsOrderType (order_type_to_json t)
order_type-IsOrderType ask = is_ask
order_type-IsOrderType bid = is_bid

opt-Fits :
    {A : Type 0} (P : Text → Json → Type 0) (key : Text) (f : A → Json) (a : Option A)
    → ((b : A) → P key (f b))
    → Fits P (key, opt f a)
opt-Fits P key f none h = tt
opt-Fits P key f (some a) h = h a

lock-Fits :
    (locked : Bool)
    → Fits OrderMember (codes "locked", if locked then some (bool_val true) else none)
lock-Fits true = has_lock
lock-Fits false = tt

order_entries-Fits : (o : Order) → All (Fits OrderMember) (order_entries o)
unfolding int_to_json
order_entries-Fits o = (
  opt-Fits OrderMember (codes "account") str o.account (λ a. has_account (is_str a)),
  (
    opt-Fits OrderMember (codes "id") int_to_json o.id (λ n. has_id (is_int _)),
    (
      opt-Fits OrderMember (codes "asset") str o.asset (λ a. has_asset (is_str a)),
      (
        has_min_units (is_int _),
        (
          has_max_units (is_int _),
          (
            has_price (is_int _),
            (
              opt-Fits OrderMember (codes "type") order_type_to_json o.order_type
                  (λ t. has_type (order_type-IsOrderType t)),
              (lock-Fits o.locked, tt),
            ),
          ),
        ),
      ),
    ),
  ),
)

pub order_to_json-IsOrder : (o : Order) (j : Json) → order_to_json o ≡ some j → IsOrder j
unfolding order_to_json str_eq
order_to_json-IsOrder o j e =
    let (_, made) = checked-eq-some _ _ e in
    let same : obj (assign (order_entries o) end) ≡ j = cc made in
    subst IsOrder same (
      assign-IsObject OrderMember order_keys (order_entries o) (order_entries-Fits o)
        (refl, (refl, (refl, tt))))

-- A member less, which is not required.
pub remove_member-IsObject :
    (P : Text → Json → Type 0) (required : List Text) (key : Text) (j : Json)
    → All (λ k. str_eq key k ≡ false) required
    → IsObject P required j
    → IsObject P required (remove_member key j)
remove_member-IsObject P required key _ other (is_obj {fs = fs} fields there) =
    is_obj (remove_field-EachField P key fs fields) (still required other there)
  where
    still :
        (ks : List Text)
        → All (λ k. str_eq key k ≡ false) ks
        → All (λ k. has (lookup_field k fs) ≡ true) ks
        → All (λ k. has (lookup_field k (remove_field key fs)) ≡ true) ks
    still [] o h = tt
    still (k ∷ ks) o h = (ap has (lookup_field-remove_field k key fs o.0) ∙ h.0, still ks o.1 h.1)

pub put-IsObject :
    (P : Text → Json → Type 0) (required : List Text) (key : Text) (v j : Json)
    → P key v
    → IsObject P required j
    → IsObject P required (put key v j)
unfolding put
put-IsObject P required key v _ h (is_obj {fs = fs} fields there) =
    is_obj (put_field-EachField P key v fs h fields) (
      All-mono (λ k. has (lookup_field k fs) ≡ true)
        (λ k. has (lookup_field k (put_field key v fs)) ≡ true)
        (λ k there. elim (Bool-cases (str_eq key k)) [
          | inl same ↦ ap has (lookup_field-put_field k key v fs) ∙ (rw same refl)
          | inr other ↦ ap has (lookup_field-put_field k key v fs) ∙ (rw other there)
        ])
        required there)

pub items-EachItem : (P : Json → Type 0) (vs : List Json) → All P vs → EachItem P (of_list vs)
items-EachItem P [] h = tt
items-EachItem P (v ∷ vs) h = (h.0, items-EachItem P vs h.1)

abbrev AllValues : (Json → Type 0) → Dict ℕ Json → Type 0
AllValues P d = All (λ e. P e.1) d

emplace-AllValues :
    (P : Json → Type 0) (id : ℕ) (v : Json) (d : Dict ℕ Json)
    → P v
    → AllValues P d
    → AllValues P (emplace id v d)
unfolding emplace
emplace-AllValues P id v [] h hs = (h, tt)
emplace-AllValues P id v ((j, w) ∷ d) h hs = elim (Bool-cases (id == j)) [
  | inl same ↦ rw same hs
  | inr other ↦ elim (Bool-cases (ltb id j)) [
    | inl before ↦ rw (other, before) (h, hs)
    | inr after ↦ rw (other, after) (hs.0, emplace-AllValues P id v d h hs.1)
  ]
]

values_of-All : (P : Json → Type 0) (d : Dict ℕ Json) → AllValues P d → All P (values_of d)
values_of-All P [] h = tt
values_of-All P ((id, v) ∷ d) h = (h.0, values_of-All P d h.1)

orders_by_id-IsOrder :
    (os : Dict ℕ Order) (by_id d : Dict ℕ Json)
    → orders_by_id os by_id ≡ some d
    → AllValues IsOrder by_id
    → AllValues IsOrder d
unfolding orders_by_id str_eq int_to_json
orders_by_id-IsOrder [] by_id d e h =
    let same : by_id ≡ d = cc e in subst (AllValues IsOrder) same h
orders_by_id-IsOrder ((id, o) ∷ os) by_id d e h =
    let (cur, printed, rest) = and_then-eq-some (order_to_json o) _ e in
    orders_by_id-IsOrder os _ d rest (
      emplace-AllValues IsOrder id _ by_id
        (put-IsObject OrderMember order_keys (codes "id") (int_to_json id) _ (has_id (is_int _)) (
          remove_member-IsObject OrderMember order_keys (codes "account") cur
            (refl, (refl, (refl, tt))) (order_to_json-IsOrder o cur printed)))
        h)

pub orders_of_account_to_json-IsOwnOrders :
    (pb : OrdersOfAccount) (j : Json) → orders_of_account_to_json pb ≡ some j → IsOwnOrders j
unfolding orders_of_account_to_json str_eq
orders_of_account_to_json-IsOwnOrders pb j e =
    let (by_id, printed, made) = and_then-eq-some (orders_by_id pb.orders []) _ e in
    let orders = values_of-All IsOrder by_id (orders_by_id-IsOrder pb.orders [] by_id printed tt) in
    subst IsOwnOrders (some-injective made) (
      assign-IsObject OwnMember (codes "account" ∷ codes "orders" ∷ [])
        ((codes "account", some (str (value_or [] pb.account)))
          ∷ (codes "orders", some (arr (of_list (values_of by_id))))
          ∷ [])
        (of_account (is_str _), (has_orders (is_arr (items-EachItem IsOrder _ orders)), tt))
        (refl, (refl, tt)))

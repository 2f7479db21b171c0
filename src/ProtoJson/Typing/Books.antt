-- ===== src/ProtoJson/Typing/Books.antt =====
-- src/json.cpp: order books and trades are of their types.
use democrit.Base.{
  ◌≡◌, refl, ap, none, some, List, [], ◌∷◌, All, Text, codes, str_eq, and_then-eq-some,
  some-injective, str_lt,
}
use mathlib.Core.Path.{subst}
use democrit.Json.{Json, null, str, arr, Fields, end, of_list, put, put_field, member}
use democrit.Proto.{Order, OrderbookForAsset, OrderbookByAsset, Trade}
use democrit.ProtoJson.Members.{lookup_field-put_field}
use democrit.ProtoJson.{
  int_to_json, order_type_to_json, assign, order_to_json, orderbook_side,
  orderbook_for_asset_to_json, orderbooks_to_json, orderbook_by_asset_to_json, phase_name,
  role_name, trade_to_json,
}
use democrit.ProtoJson.Types.{
  EachField, is_str, is_int, is_arr, is_obj, OrderMember, order_keys, IsOrder, BookMember, of_asset,
  has_bids, has_asks, IsBookFor, IsBooks, is_phase, is_role, TradeMember, starts, has_counterparty,
  is_of_type, trades_asset, has_units, at_price, is_in_state, has_role, IsTrade, trade_keys,
  book_keys,
}
use democrit.ProtoJson.Typing.{
  put_field-EachField, assign-IsObject, remove_member-IsObject, put-IsObject, items-EachItem,
  order_type-IsOrderType, order_to_json-IsOrder,
}

orderbook_side-IsOrder :
    (os : List Order) (js : List Json) → orderbook_side os ≡ some js → All IsOrder js
unfolding orderbook_side str_eq
orderbook_side-IsOrder [] js e = let same : [] ≡ js = cc e in subst (All IsOrder) same tt
orderbook_side-IsOrder (o ∷ os) js e =
    let (cur, printed, e1) = and_then-eq-some (order_to_json o) _ e in
    let (rest, others, made) = and_then-eq-some (orderbook_side os) _ e1 in
    subst (All IsOrder) (some-injective made) (
      remove_member-IsObject OrderMember order_keys (codes "type") _ (refl, (refl, (refl, tt)))
          (remove_member-IsObject OrderMember order_keys (codes "asset") cur
            (refl, (refl, (refl, tt))) (order_to_json-IsOrder o cur printed)),
      orderbook_side-IsOrder os rest others,
    )

pub orderbook_for_asset_to_json-IsBook :
    (pb : OrderbookForAsset) (j : Json)
    → orderbook_for_asset_to_json pb ≡ some j
    → IsBookFor pb.asset j
unfolding orderbook_for_asset_to_json str_eq member assign put_field str_lt
orderbook_for_asset_to_json-IsBook pb j e =
    let (bids, printed, e1) = and_then-eq-some (orderbook_side pb.bids) _ e in
    let (asks, others, made) = and_then-eq-some (orderbook_side pb.asks) _ e1 in
    subst (IsBookFor pb.asset) (some-injective made) (
      assign-IsObject BookMember book_keys
          ((codes "asset", some (str pb.asset))
            ∷ (codes "bids", some (arr (of_list bids)))
            ∷ (codes "asks", some (arr (of_list asks)))
            ∷ [])
          (
            of_asset (is_str _),
            (
              has_bids (
                  is_arr
                    (items-EachItem IsOrder bids (orderbook_side-IsOrder pb.bids bids printed))),
              (
                has_asks (
                    is_arr
                      (items-EachItem IsOrder asks (orderbook_side-IsOrder pb.asks asks others))),
                tt,
              ),
            ),
          )
          (refl, (refl, (refl, tt))),
      refl,
    )

-- The asset is told again, as the key.
put-IsBookFor :
    (asset by : Text) (j : Json)
    → IsBookFor by j
    → IsBookFor asset (put (codes "asset") (str asset) j)
unfolding put member str_eq
put-IsBookFor asset by _ (is_obj {fs = fs} fields there, _) = (
  put-IsObject BookMember book_keys (codes "asset") (str asset) _ (of_asset (is_str asset))
      (is_obj fields there),
  ap (λ v. some (elim v [ none ↦ null | some w ↦ w ]))
      (lookup_field-put_field (codes "asset") (codes "asset") (str asset) fs),
)

orderbooks_to_json-IsBookFor :
    (books : OrderbookByAsset) (res fs : Fields)
    → orderbooks_to_json books res ≡ some fs
    → EachField IsBookFor res
    → EachField IsBookFor fs
unfolding orderbooks_to_json
orderbooks_to_json-IsBookFor [] res fs e h =
    let same : res ≡ fs = cc e in subst (EachField IsBookFor) same h
orderbooks_to_json-IsBookFor ((asset, b) ∷ books) res fs e h =
    let (cur, printed, rest) = and_then-eq-some (orderbook_for_asset_to_json b) _ e in
    orderbooks_to_json-IsBookFor books _ fs rest (
      put_field-EachField IsBookFor asset _ res
        (put-IsBookFor asset b.asset cur (orderbook_for_asset_to_json-IsBook b cur printed)) h)

pub orderbook_by_asset_to_json-IsBooks :
    (books : OrderbookByAsset) (j : Json) → orderbook_by_asset_to_json books ≡ some j → IsBooks j
unfolding orderbook_by_asset_to_json
orderbook_by_asset_to_json-IsBooks books j e =
    let (fs, printed, made) = and_then-eq-some (orderbooks_to_json books end) _ e in
    subst IsBooks (some-injective made)
      (is_obj (orderbooks_to_json-IsBookFor books end fs printed tt) tt)

pub trade_to_json-IsTrade : (t : Trade) → IsTrade (trade_to_json t)
unfolding trade_to_json str_eq int_to_json
trade_to_json-IsTrade t =
    assign-IsObject TradeMember trade_keys
      ((codes "start_time", some (int_to_json t.start_time))
        ∷ (codes "counterparty", some (str t.counterparty))
        ∷ (codes "type", some (order_type_to_json t.order_type))
        ∷ (codes "asset", some (str t.asset))
        ∷ (codes "units", some (int_to_json t.units))
        ∷ (codes "price_sat", some (int_to_json t.price_sat))
        ∷ (codes "state", some (str (phase_name t.phase)))
        ∷ (codes "role", some (str (role_name t.role)))
        ∷ [])
      (
        starts (is_int _),
        (
          has_counterparty (is_str _),
          (
            is_of_type (order_type-IsOrderType t.order_type),
            (
              trades_asset (is_str _),
              (
                has_units (is_int _),
                (
                  at_price (is_int _),
                  (is_in_state (is_phase t.phase), (has_role (is_role t.role), tt)),
                ),
              ),
            ),
          ),
        ),
      )
      (refl, (refl, (refl, (refl, (refl, (refl, (refl, (refl, tt))))))))

-- ===== src/Daemon/Serving.antt =====
-- What the calls of src/daemon.cpp and src/rpcserver.cpp that read the order book answer.
use democrit.Base.{
  ◌≡◌, refl, true, none, some, checked, List, [], ◌∷◌, All, All-mono, Text, and_then-some, ℕ, ok,
}
use democrit.Json.{Json, Fields, obj}
use democrit.Proto.{Order, OrderbookForAsset, OrderbookByAsset}
use democrit.Env.{Env}
use democrit.OrderBook.{all_complete}
use democrit.OrderBook.Contents.{Each}
use democrit.OrderBook.Getters.{internal_get_by_asset-books}
use democrit.OrderBook.Assets.{get_by_asset}
use democrit.ProtoJson.{
  order_to_json, orderbook_side, orderbook_for_asset_to_json, orderbooks_to_json,
  orderbook_by_asset_to_json,
}
use democrit.ProtoJson.Printing.{has_units-has_valid_units}
use democrit.Daemon.{Daemon, get_orders_by_asset}
use democrit.Daemon.Events.{Event, handle_all}
use democrit.Daemon.Keeping.{IsListable, IsConsistent}
use democrit.Daemon.Handlers.{handle_all-IsConsistent}
use democrit.Daemon.Books.{HasUnits, IsPrintable, get_by_asset-IsPrintable}

pub order_to_json-prints : (o : Order) → HasUnits o → (j : Json) × (order_to_json o ≡ some j)
unfolding order_to_json checked
order_to_json-prints o h = rw (has_units-has_valid_units o h, order_to_json) (_, refl)

orderbook_side-prints :
    (os : List Order) → All HasUnits os → (js : List Json) × (orderbook_side os ≡ some js)
unfolding orderbook_side
orderbook_side-prints [] h = ([], refl)
orderbook_side-prints (o ∷ os) h =
    let (first, one) = order_to_json-prints o h.0 in
    let (rest, many) = orderbook_side-prints os h.1 in
    (_, and_then-some _ one (and_then-some _ many refl))

for_asset-prints :
    (b : OrderbookForAsset) → IsPrintable b → (j : Json) × (orderbook_for_asset_to_json b ≡ some j)
unfolding orderbook_for_asset_to_json
for_asset-prints b h =
    let (bids, one) = orderbook_side-prints b.bids h.0 in
    let (asks, two) = orderbook_side-prints b.asks h.1 in
    (_, and_then-some _ one (and_then-some _ two refl))

orderbooks-print :
    (books : OrderbookByAsset) (res : Fields)
    → Each IsPrintable books
    → (fs : Fields) × (orderbooks_to_json books res ≡ some fs)
unfolding orderbooks_to_json
orderbooks-print [] res h = (res, refl)
orderbooks-print ((asset, b) ∷ books) res h =
    let (cur, one) = for_asset-prints b h.0 in
    let (fs, many) = orderbooks-print books _ h.1 in (fs, and_then-some _ one many)

-- After any events that the process survives, from a consistent state of the node, the call for all order
-- books fails no `CHECK`, and neither does the conversion of its answer to JSON.
pub handle_all-serves :
    {W : Type 0} (env : Env W) (timeout : ℕ) (servers : List Text) (account : Text)
    (es : List Event) (d d' : Daemon W)
    → handle_all env timeout servers es d ≡ (ok tt, d')
    → IsConsistent servers account d
    → (books : OrderbookByAsset) × (get_orders_by_asset d' ≡ some books)
      × (j : Json) × (orderbook_by_asset_to_json books ≡ some j)
unfolding get_orders_by_asset orderbook_by_asset_to_json get_by_asset
handle_all-serves env timeout servers account es d d' e h =
    let after = handle_all-IsConsistent env timeout servers account es d d' e h in
    let complete =
      All-mono (λ p. IsListable p.1) (λ p. all_complete p.1.orders ≡ true) (λ p k. k.0)
        d'.all_orders.orders after.entries in
    let (books, got, _) = internal_get_by_asset-books none d'.all_orders complete in
    let (fs, printed) =
      orderbooks-print books Fields.end
        (get_by_asset-IsPrintable d'.all_orders got after.entries) in
    (books, got, obj fs, and_then-some _ printed refl)

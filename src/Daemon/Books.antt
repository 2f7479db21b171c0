-- ===== src/Daemon/Books.antt =====
-- The order books by asset (src/orderbook.cpp) have the units of the orders that they list.
use democrit.Base.{
  ◌≡◌, refl, inl, inr, true, false, Bool-cases, Bool, Option, none, some, List, [], ◌∷◌, All,
  All-append, Text, Dict, lookup, text_eq, value_or, if◌then◌else◌, and_then-eq-some,
  checked-eq-some, ltb, length, ◌||◌, reverse, insert, ℕ,
}
use mathlib.Core.Path.{subst}
use democrit.Proto.{Order, OrderType, ask, bid, OrderbookForAsset, OrderbookByAsset, type_of}
use democrit.OrderBook.{AccountOrders, OrderBook}
use democrit.OrderBook.Assets.{
  empty_for, bare, add_side, add_order_for_asset, by_price_asc, insert_sorted, sorted,
  all_comparable, sort_side, sort_book, sort_by_prices, listed_by, listed, is_wanted, collect,
  internal_get_by_asset, get_by_asset,
}
use democrit.OrderBook.Sorting.{All-reverse}
use democrit.OrderBook.Contents.{Each, insert-Each, lookup-Each}
use democrit.Daemon.{has_valid_units}
use democrit.Daemon.Keeping.{IsListable}

abbrev pub HasUnits : Order → Type 0
HasUnits o = has_valid_units o ≡ true

abbrev pub IsPrintable : OrderbookForAsset → Type 0
IsPrintable b = All HasUnits b.bids × All HasUnits b.asks

listed_by-HasUnits :
    (account : Text) (d : Dict ℕ Order)
    → All (λ e. has_valid_units e.1 ≡ true) d
    → All HasUnits (listed_by account d)
unfolding listed_by
listed_by-HasUnits account [] h = tt
listed_by-HasUnits account ((id, o) ∷ d) h = (h.0, listed_by-HasUnits account d h.1)

listed-HasUnits :
    (orders : Dict Text AccountOrders) → Each IsListable orders → All HasUnits (listed orders)
unfolding listed
listed-HasUnits [] h = tt
listed-HasUnits ((account, a) ∷ d) h =
    All-append HasUnits (listed_by account a.orders) (listed d)
      (listed_by-HasUnits account a.orders h.0.1) (listed-HasUnits d h.1)

add_side-IsPrintable :
    (t : OrderType) (o : Order) (b : OrderbookForAsset)
    → HasUnits o
    → IsPrintable b
    → IsPrintable (add_side t (bare o) b)
add_side-IsPrintable ask o b k h = (h.0, All-append HasUnits b.asks (bare o ∷ []) h.1 (k, tt))
add_side-IsPrintable bid o b k h = (All-append HasUnits b.bids (bare o ∷ []) h.0 (k, tt), h.1)

entry-IsPrintable :
    (asset : Text) (books : OrderbookByAsset) (found : Option OrderbookForAsset)
    → lookup asset books ≡ found
    → Each IsPrintable books
    → IsPrintable (value_or (empty_for asset) found)
entry-IsPrintable asset books none e h = (tt, tt)
entry-IsPrintable asset books (some b) e h = lookup-Each (λ _. IsPrintable) asset books e h

add_order-IsPrintable :
    (books : OrderbookByAsset) (o : Order) (asset : Option Text) {after : OrderbookByAsset}
    → (elim asset as (λ _. Option OrderbookByAsset) [
      | none ↦ none
      | some a ↦
          some (
            insert a
              (add_side (type_of o) (bare o) (value_or (empty_for a) (lookup a books)))
              books)
    ])
      ≡ some after
    → HasUnits o
    → Each IsPrintable books
    → Each IsPrintable after
add_order-IsPrintable books o none e k h = cc e
add_order-IsPrintable books o (some a) {after} e k h =
    let b = add_side (type_of o) (bare o) (value_or (empty_for a) (lookup a books)) in
    let same : insert a b books ≡ after = cc e in
    subst (Each IsPrintable) same (
      insert-Each (λ _. IsPrintable) a b books
        (add_side-IsPrintable (type_of o) o _ k (entry-IsPrintable a books (lookup a books) refl h))
        h)

add_wanted-IsPrintable :
    (wanted : Bool) (books : OrderbookByAsset) (o : Order) {after : OrderbookByAsset}
    → (if wanted then add_order_for_asset books o else some books) ≡ some after
    → HasUnits o
    → Each IsPrintable books
    → Each IsPrintable after
unfolding add_order_for_asset
add_wanted-IsPrintable true books o e k h = add_order-IsPrintable books o o.asset e k h
add_wanted-IsPrintable false books o {after} e k h =
    let same : books ≡ after = cc e in subst (Each IsPrintable) same h

collect-IsPrintable :
    (want : Option Text) (os : List Order) (books : OrderbookByAsset) {after : OrderbookByAsset}
    → collect want os books ≡ some after
    → All HasUnits os
    → Each IsPrintable books
    → Each IsPrintable after
unfolding collect
collect-IsPrintable want [] books {after} e k h =
    let same : books ≡ after = cc e in subst (Each IsPrintable) same h
collect-IsPrintable want (o ∷ os) books e k h =
    let (asset, _, rest) = and_then-eq-some o.asset _ e in
    let (middle, added, last) = and_then-eq-some _ (collect want os) rest in
    collect-IsPrintable want os middle last k.1
      (add_wanted-IsPrintable (is_wanted want asset) books o added k.0 h)

insert_sorted-HasUnits :
    (o : Order) (os : List Order) → HasUnits o → All HasUnits os → All HasUnits (insert_sorted o os)
unfolding insert_sorted
insert_sorted-HasUnits o [] k h = (k, tt)
insert_sorted-HasUnits o (p ∷ ps) k h = elim (Bool-cases (by_price_asc p o)) [
  | inl before ↦ rw before (h.0, insert_sorted-HasUnits o ps k h.1)
  | inr after ↦ rw after (k, h)
]

sorted-HasUnits : (os : List Order) → All HasUnits os → All HasUnits (sorted os)
unfolding sorted
sorted-HasUnits [] h = tt
sorted-HasUnits (o ∷ os) h = insert_sorted-HasUnits o (sorted os) h.0 (sorted-HasUnits os h.1)

sort_side-HasUnits :
    (os : List Order) {after : List Order}
    → sort_side os ≡ some after
    → All HasUnits os
    → All HasUnits after
unfolding sort_side
sort_side-HasUnits os {after} e h =
    let (_, result) =
      checked-eq-some (ltb (length os) 2 || all_comparable os) (some (sorted os)) e in
    let same : sorted os ≡ after = cc result in subst (All HasUnits) same (sorted-HasUnits os h)

sort_book-IsPrintable :
    (b : OrderbookForAsset) {after : OrderbookForAsset}
    → sort_book b ≡ some after
    → IsPrintable b
    → IsPrintable after
unfolding sort_book
sort_book-IsPrintable b {after} e h =
    let (asks, sorted_asks, rest) = and_then-eq-some (sort_side b.asks) _ e in
    let (bids, sorted_bids, last) = and_then-eq-some (sort_side b.bids) _ rest in
    let same : ◌≡◌ {A = OrderbookForAsset} (record b { asks = asks; bids = reverse bids }) after =
      cc last in
    subst IsPrintable same (
      All-reverse HasUnits bids (sort_side-HasUnits b.bids sorted_bids h.0),
      sort_side-HasUnits b.asks sorted_asks h.1,
    )

sort_by_prices-IsPrintable :
    (books : OrderbookByAsset) {after : OrderbookByAsset}
    → sort_by_prices books ≡ some after
    → Each IsPrintable books
    → Each IsPrintable after
unfolding sort_by_prices
sort_by_prices-IsPrintable [] {after} e h =
    let same : [] ≡ after = cc e in subst (Each IsPrintable) same tt
sort_by_prices-IsPrintable ((asset, b) ∷ books) {after} e h =
    let (first, one, rest) = and_then-eq-some (sort_book b) _ e in
    let (others, many, last) = and_then-eq-some (sort_by_prices books) _ rest in
    let same : ◌≡◌ {A = OrderbookByAsset} ((asset, first) ∷ others) after = cc last in
    subst (Each IsPrintable) same
      (sort_book-IsPrintable b one h.0, sort_by_prices-IsPrintable books many h.1)

pub get_by_asset-IsPrintable :
    (b : OrderBook) {books : OrderbookByAsset}
    → get_by_asset b ≡ some books
    → Each IsListable b.orders
    → Each IsPrintable books
unfolding get_by_asset internal_get_by_asset
get_by_asset-IsPrintable b e h =
    let (collected, first, last) =
      and_then-eq-some (collect none (listed b.orders) []) sort_by_prices e in
    sort_by_prices-IsPrintable collected last
      (collect-IsPrintable none (listed b.orders) [] first (listed-HasUnits b.orders h) tt)

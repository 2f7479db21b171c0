-- ===== src/OrderBook/Assets.antt =====
-- src/orderbook.cpp, the order books by asset: `AddOrderForAsset`, `SortByPrices` and the getters. A
-- failed `CHECK` is `none`. An order in a book has its account and id, and no asset or type.
use democrit.Base.{
  ℕ, Bool, true, not, ◌&&◌, ◌||◌, Option, none, some, List, [], ◌∷◌, ◌++◌, reverse, Text, Dict,
  lookup, insert, text_eq, ltb, str_eq, str_lt, ◌==◌, has, value_or, if◌then◌else◌, length,
  and_then, checked,
}
use democrit.Proto.{
  Order, OrderType, ask, bid, OrderbookForAsset, OrderbookByAsset, account_of, id_of, price_of,
  type_of,
}
use democrit.OrderBook.{AccountOrders, OrderBook}

abbrev pub empty_for : Text → OrderbookForAsset
empty_for asset = record { asset = asset; bids = []; asks = [] }

abbrev pub bare : Order → Order
bare o = record o { asset = none; order_type = none }

abbrev pub add_side : OrderType → Order → OrderbookForAsset → OrderbookForAsset
add_side ask o b = record b { asks = b.asks ++ (o ∷ []) }
add_side bid o b = record b { bids = b.bids ++ (o ∷ []) }

unfoldable pub add_order_for_asset : OrderbookByAsset → Order → Option OrderbookByAsset
add_order_for_asset books o = elim o.asset [
  | none ↦ none
  | some asset ↦ some (
      insert asset (add_side (type_of o) (bare o) (value_or (empty_for asset) (lookup asset books)))
        books)
]

-- The order that `std::sort` is given.
unfoldable pub by_price_asc : Order → Order → Bool
unfolding str_eq str_lt
by_price_asc a b =
    if not (price_of a == price_of b)
    then ltb (price_of a) (price_of b)
    else if not (str_eq (account_of a) (account_of b))
    then str_lt (account_of a) (account_of b)
    else ltb (id_of a) (id_of b)

unfoldable pub insert_sorted : Order → List Order → List Order
unfolding by_price_asc
insert_sorted o [] = o ∷ []
insert_sorted o (p ∷ ps) = if by_price_asc p o then p ∷ insert_sorted o ps else o ∷ p ∷ ps

-- Accounts and ids tell any two orders of a book apart, so every sorting gives this list.
unfoldable pub sorted : List Order → List Order
unfolding insert_sorted
sorted [] = []
sorted (o ∷ os) = insert_sorted o (sorted os)

abbrev pub is_comparable : Order → Bool
is_comparable o = has o.price_sat && (has o.account && has o.id)

unfoldable pub all_comparable : List Order → Bool
all_comparable [] = true
all_comparable (o ∷ os) = is_comparable o && all_comparable os

-- Up to one order is never compared, and of more every one is.
unfoldable pub sort_side : List Order → Option (List Order)
unfolding all_comparable sorted
sort_side os = checked (ltb (length os) 2 || all_comparable os) (some (sorted os))

-- The bids are sorted from the back.
unfoldable pub sort_book : OrderbookForAsset → Option OrderbookForAsset
unfolding sort_side
sort_book b =
    and_then (sort_side b.asks) λ asks.
      and_then (sort_side b.bids) λ bids. some (record b { asks = asks; bids = reverse bids })

unfoldable pub sort_by_prices : OrderbookByAsset → Option OrderbookByAsset
unfolding sort_book
sort_by_prices [] = some []
sort_by_prices ((asset, b) ∷ books) =
    and_then (sort_book b)
      λ sorted_book. and_then (sort_by_prices books) λ rest. some ((asset, sorted_book) ∷ rest)

-- The orders of one account, and of all, as the loops take them: with account and id.
unfoldable pub listed_by : Text → Dict ℕ Order → List Order
listed_by account [] = []
listed_by account ((id, o) ∷ d) =
    record o { account = some account; id = some id } ∷ listed_by account d

unfoldable pub listed : Dict Text AccountOrders → List Order
unfolding listed_by
listed [] = []
listed ((account, a) ∷ d) = listed_by account a.orders ++ listed d

abbrev pub is_wanted : Option Text → Text → Bool
is_wanted none asset = true
is_wanted (some want) asset = str_eq asset want

unfoldable pub collect : Option Text → List Order → OrderbookByAsset → Option OrderbookByAsset
unfolding add_order_for_asset
collect want [] books = some books
collect want (o ∷ os) books = and_then o.asset λ asset.
    and_then (if is_wanted want asset then add_order_for_asset books o else some books)
      (collect want os)

unfoldable pub internal_get_by_asset : Option Text → OrderBook → Option OrderbookByAsset
unfolding collect listed sort_by_prices
internal_get_by_asset want b = and_then (collect want (listed b.orders) []) sort_by_prices

unfoldable pub only_book : Text → OrderbookByAsset → Option OrderbookForAsset
only_book asset [] = some (empty_for asset)
only_book asset (book ∷ books) =
    checked (length (book ∷ books) == 1)
      (and_then (lookup asset (book ∷ books)) λ b. checked (str_eq b.asset asset) (some b))

unfoldable pub get_for_asset : Text → OrderBook → Option OrderbookForAsset
unfolding internal_get_by_asset only_book
get_for_asset asset b = and_then (internal_get_by_asset (some asset) b) (only_book asset)

unfoldable pub get_by_asset : OrderBook → Option OrderbookByAsset
unfolding internal_get_by_asset
get_by_asset = internal_get_by_asset none

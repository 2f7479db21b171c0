-- ===== src/OrderBook/Getters.antt =====
-- `InternalGetByAsset` of src/orderbook.cpp against the book that each asset should have.
use democrit.Base.{
  ℕ, ◌≡◌, refl, ap, ◌∙◌, inl, inr, true, ◌&&◌, Bool-cases, Option, none, some, List, [], ◌∷◌,
  reverse, All, All-append, arith, Text, Dict, lookup, text_eq, str_eq, has, if◌then◌else◌,
  and_then-some, checked, and_true, length, ltb,
}
use democrit.Proto.{Order, OrderbookForAsset, OrderbookByAsset}
use democrit.OrderBook.{AccountOrders, OrderBook, all_complete}
use democrit.OrderBook.Assets.{
  sorted, all_comparable, sort_side, sort_book, sort_by_prices, listed_by, listed, is_wanted,
  internal_get_by_asset,
}
use democrit.OrderBook.Listing.{is_traded, book_of, add_all, add_all-none}
use democrit.OrderBook.Collecting.{IsListed, AreComparable, collect-Collected}

-- Every order has the fields that `UpdateOrders` checks.
abbrev pub AreComplete : Dict Text AccountOrders → Type 0
AreComplete orders = All (λ e. all_complete e.1.orders ≡ true) orders

listed_by-IsListed :
    (account : Text) (d : Dict ℕ Order) → all_complete d ≡ true → All IsListed (listed_by account d)
unfolding listed_by all_complete
listed_by-IsListed account [] h = tt
listed_by-IsListed account ((id, o) ∷ d) h =
    let both = and_true (has o.asset && has o.order_type && has o.price_sat) (all_complete d) h in
    ((ground arith, ground arith), listed_by-IsListed account d both.1)

listed-IsListed :
    (orders : Dict Text AccountOrders) → AreComplete orders → All IsListed (listed orders)
unfolding listed
listed-IsListed [] h = tt
listed-IsListed ((account, a) ∷ d) h =
    All-append IsListed (listed_by account a.orders) (listed d)
      (listed_by-IsListed account a.orders h.0) (listed-IsListed d h.1)

sort_side-sorted : (os : List Order) → all_comparable os ≡ true → sort_side os ≡ some (sorted os)
unfolding sort_side checked
sort_side-sorted os h =
    rw h (elim (Bool-cases (ltb (length os) 2)) [ inl e ↦ rw e refl | inr e ↦ rw e refl ])

abbrev sorted_book : OrderbookForAsset → OrderbookForAsset
sorted_book b = record b { asks = sorted b.asks; bids = reverse (sorted b.bids) }

sorted_entry : Option OrderbookForAsset → Option OrderbookForAsset
sorted_entry none = none
sorted_entry (some b) = some (sorted_book b)

sort_book-sorted :
    (b : OrderbookForAsset)
    → all_comparable b.asks ≡ true
    → all_comparable b.bids ≡ true
    → sort_book b ≡ some (sorted_book b)
unfolding sort_book
sort_book-sorted b h k =
    and_then-some _ (sort_side-sorted b.asks h) (and_then-some _ (sort_side-sorted b.bids k) refl)

-- The sorted books, with the entry of each asset.
sort_by_prices-sorted :
    (books : OrderbookByAsset)
    → AreComparable books
    → (result : OrderbookByAsset) × (sort_by_prices books ≡ some result)
      × ((asset : Text) → lookup asset result ≡ sorted_entry (lookup asset books))
unfolding sort_by_prices sorted_entry
sort_by_prices-sorted [] h = ([], refl, λ asset. refl)
sort_by_prices-sorted ((a, b) ∷ books) h =
    let (rest, e, entries) = sort_by_prices-sorted books h.1 in
    (
      (a, sorted_book b) ∷ rest,
      and_then-some _ (sort_book-sorted b h.0.0 h.0.1) (and_then-some _ e refl),
      λ asset. elim (Bool-cases (str_eq a asset)) [
        | inl same ↦ rw same refl
        | inr other ↦ rw other (entries asset)
      ],
    )

add_all-sorted :
    (asset : Text) (os : List Order)
    → sorted_entry (add_all asset os none)
      ≡ (if is_traded asset os then some (book_of asset os) else none)
unfolding sorted_entry
add_all-sorted asset os = elim (Bool-cases (is_traded asset os)) [
  | inl traded ↦ rw (add_all-none asset os, traded) refl
  | inr absent ↦ rw (add_all-none asset os, absent) refl
]

-- The books of all wanted assets.
pub internal_get_by_asset-books :
    (want : Option Text) (b : OrderBook)
    → AreComplete b.orders
    → (books : OrderbookByAsset) × (internal_get_by_asset want b ≡ some books)
      × ((asset : Text)
          → is_wanted want asset ≡ true
          → lookup asset books ≡ (
              if is_traded asset (listed b.orders)
              then some (book_of asset (listed b.orders))
              else none))
unfolding internal_get_by_asset
internal_get_by_asset-books want b h =
    let c = collect-Collected want (listed b.orders) [] (listed-IsListed b.orders h) tt in
    let (books, e, entries) = sort_by_prices-sorted c.result c.comparable in
    (
      books,
      and_then-some _ c.collects e,
      λ asset w.
          entries asset
          ∙ (ap sorted_entry (c.entry asset w) ∙ add_all-sorted asset (listed b.orders)),
    )

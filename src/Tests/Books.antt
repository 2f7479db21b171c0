-- ===== src/Tests/Books.antt =====
-- The order book of src/orderbook.cpp: Alice's orders time out, and Bob's do not; the books of what
-- is left.
use democrit.Base.{
  codes, and_then, checked, ◌+◌, ◌≡◌, refl, none, some, List, [], ◌∷◌, lookup, text_eq, ltb,
  if◌then◌else◌, arith, Text, str_eq, reverse,
}
use democrit.Proto.{OrdersOfAccount, OrderbookByAsset, Order}
use democrit.OrderBook.Assets.{sort_by_prices, listed, get_for_asset, get_by_asset}
use democrit.OrderBook.Sorting.{AllSorted, sort_by_prices-AllSorted}
use democrit.OrderBook.Listing.{is_traded, book_of}
use democrit.OrderBook.Views.{play-views}
use democrit.OrderBook.{run_timeout}
use democrit.OrderBook.Validity.{Step, expires, updated, play, empty_book, play-expires}
use democrit.Tests.World.{alice, bob, stored_order, alice_order}

abbrev orders_by : Text → OrdersOfAccount
orders_by account = record { account = some account; orders = (7, stored_order) ∷ [] }

abbrev steps : List Step
steps = updated 10 (orders_by alice) ∷ expires 12 ∷ updated 20 (orders_by bob) ∷ []

play-expires_example :
    lookup alice (run_timeout 15 30 (play 15 steps empty_book)).orders
    ≡ elim (lookup alice (play 15 steps empty_book).orders) [
      | none ↦ none
      | some a ↦ if ltb (a.last_update + 15) 30 then none else some a
    ]
play-expires_example =
    play-expires 15 30 steps alice (omega arith, (omega arith, (omega arith, tt)))

alice_times_out : lookup alice (run_timeout 15 30 (play 15 steps empty_book)).orders ≡ none
unfolding run_timeout play str_eq
alice_times_out = refl

abbrev offers_of_two : List Order
offers_of_two = record alice_order { price_sat = some 12 } ∷ alice_order ∷ []

abbrev unsorted_books : OrderbookByAsset
unsorted_books =
    (codes "gold", record { asset = codes "gold"; asks = offers_of_two; bids = offers_of_two }) ∷ []

abbrev sorted_books : OrderbookByAsset
sorted_books =
    (
      codes "gold",
      record { asset = codes "gold"; asks = reverse offers_of_two; bids = offers_of_two },
    )
    ∷ []

books_sorted : sort_by_prices unsorted_books ≡ some sorted_books
unfolding sort_by_prices and_then checked
books_sorted = refl

sort_by_prices-AllSorted_example : AllSorted unsorted_books sorted_books
sort_by_prices-AllSorted_example = sort_by_prices-AllSorted unsorted_books sorted_books books_sorted

play-views_example :
    ((asset : Text)
      → get_for_asset asset (play 15 steps empty_book)
        ≡ some (book_of asset (listed (play 15 steps empty_book).orders)))
    × (books : OrderbookByAsset) × (get_by_asset (play 15 steps empty_book) ≡ some books)
    × ((asset : Text)
        → lookup asset books ≡ (
            if is_traded asset (listed (play 15 steps empty_book).orders)
            then some (book_of asset (listed (play 15 steps empty_book).orders))
            else none))
play-views_example = play-views 15 steps

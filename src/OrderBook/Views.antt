-- ===== src/OrderBook/Views.antt =====
-- The order books that the getters of src/orderbook.cpp give after any updates and time-outs.
use democrit.Base.{
  ℕ, ◌≡◌, refl, true, none, some, List, [], ◌∷◌, Text, lookup, text_eq, if◌then◌else◌,
}
use democrit.Proto.{OrderbookByAsset}
use democrit.OrderBook.{AccountOrders, OrderBook, run_timeout, all_complete, update_orders}
use democrit.OrderBook.Contents.{run_timeout-Each, update_orders-Each}
use democrit.OrderBook.Assets.{listed, get_for_asset, get_by_asset}
use democrit.OrderBook.Listing.{is_traded, book_of}
use democrit.OrderBook.Getters.{AreComplete, internal_get_by_asset-books}
use democrit.OrderBook.OneAsset.{get_for_asset-book_of}
use democrit.OrderBook.Validity.{Step, expires, updated, play, empty_book}

abbrev pub IsComplete : AccountOrders → Type 0
IsComplete a = all_complete a.orders ≡ true

play-AreComplete :
    (timeout : ℕ) (steps : List Step) (b : OrderBook)
    → AreComplete b.orders
    → AreComplete (play timeout steps b).orders
unfolding play
play-AreComplete timeout [] b h = h
play-AreComplete timeout (expires now ∷ steps) b h =
    play-AreComplete timeout steps (run_timeout timeout now b)
      (run_timeout-Each (λ _. IsComplete) timeout now b h)
play-AreComplete timeout (updated now upd ∷ steps) b h =
    play-AreComplete timeout steps (update_orders now upd b).1 (
      update_orders-Each (λ _. IsComplete) now upd b (λ account by complete some_orders. complete)
        h)

-- After any updates and time-outs of a new order book, no `CHECK` of the getters fails. `GetForAsset`
-- gives the book of the asset: its asks sorted, and its bids sorted and reversed, among all the
-- orders. `GetByAsset` has the same book for each asset that some order is on, and no other.
pub play-views :
    (timeout : ℕ) (steps : List Step)
    → let b = play timeout steps empty_book in
      ((asset : Text) → get_for_asset asset b ≡ some (book_of asset (listed b.orders)))
      × (books : OrderbookByAsset) × (get_by_asset b ≡ some books)
      × ((asset : Text)
          → lookup asset books ≡ (
              if is_traded asset (listed b.orders)
              then some (book_of asset (listed b.orders))
              else none))
unfolding get_by_asset
play-views timeout steps =
    let b = play timeout steps empty_book in
    let complete = play-AreComplete timeout steps empty_book tt in
    let (books, e, entries) = internal_get_by_asset-books none b complete in
    ((λ asset. get_for_asset-book_of asset b complete), books, e, (λ asset. entries asset refl))

-- ===== src/OrderBook/OneAsset.antt =====
-- `GetForAsset` of src/orderbook.cpp: at most the book of one asset is collected.
use democrit.Base.{
  ◌≡◌, ◌⊎◌, refl, sym, ap, ◌∙◌, inl, inr, true, false, Bool-cases, Option, none, some, List, [],
  ◌∷◌, reverse, Text, lookup, insert, text_eq, str_eq, str_eq_iff, value_or, if◌then◌else◌,
  and_then, and_then-eq-some, and_then-some, checked,
}
use mathlib.Core.Path.{subst}
use democrit.Proto.{Order, OrderType, ask, bid, OrderbookForAsset, OrderbookByAsset, type_of}
use democrit.OrderBook.{OrderBook}
use democrit.OrderBook.Assets.{
  empty_for, bare, add_side, add_order_for_asset, sorted, sort_book, sort_by_prices, listed,
  collect, internal_get_by_asset, only_book, get_for_asset,
}
use democrit.OrderBook.Listing.{is_on, offers, is_traded, book_of}
use democrit.OrderBook.Collecting.{add_order_for_asset-added, added}
use democrit.OrderBook.Getters.{AreComplete, internal_get_by_asset-books}

-- At most the book of the asset is there.
abbrev IsOnly : Text → OrderbookByAsset → Type 0
IsOnly asset [] = Unit {0}
IsOnly asset ((a, b) ∷ []) = (a ≡ asset) × (b.asset ≡ asset)
IsOnly asset (x ∷ y ∷ books) = ⊥

insert-IsOnly :
    (asset : Text) (b : OrderbookForAsset) (books : OrderbookByAsset)
    → b.asset ≡ asset
    → IsOnly asset books
    → IsOnly asset (insert asset b books)
insert-IsOnly asset b [] e h = (refl, e)
insert-IsOnly asset b ((a, c) ∷ []) e h = rw ((str_eq_iff a asset).1 h.0) (h.0, e)
insert-IsOnly asset b (x ∷ y ∷ books) e h = absurd h

lookup-IsOnly :
    (asset : Text) (books : OrderbookByAsset)
    → IsOnly asset books
    → (value_or (empty_for asset) (lookup asset books)).asset ≡ asset
lookup-IsOnly asset [] h = refl
lookup-IsOnly asset ((a, c) ∷ []) h = rw ((str_eq_iff a asset).1 h.0) h.1
lookup-IsOnly asset (x ∷ y ∷ books) h = absurd h

add_side-asset :
    (t : OrderType) (o : Order) (b : OrderbookForAsset) → (add_side t o b).asset ≡ b.asset
add_side-asset ask o b = refl
add_side-asset bid o b = refl

collect-IsOnly :
    (want : Text) (os : List Order) (books result : OrderbookByAsset)
    → collect (some want) os books ≡ some result
    → IsOnly want books
    → IsOnly want result
unfolding collect
collect-IsOnly want [] books result e h = subst (IsOnly want) (cc e) h
collect-IsOnly want (o ∷ os) books result e h =
    let (asset, on, e1) = and_then-eq-some _ _ e in
    let (next, stored, e2) = and_then-eq-some _ _ e1 in
    collect-IsOnly want os next result e2 (elim (Bool-cases (str_eq asset want)) [
      | inr other ↦
          let kept : ◌≡◌ {A = Option OrderbookByAsset} (some books) (some next) =
            rw other at stored in
          let same : books ≡ next = cc kept in subst (IsOnly want) same h
      | inl same ↦
          let here : asset ≡ want = (str_eq_iff asset want).0 same in
          let put : add_order_for_asset books o ≡ some next = rw same at stored in
          let same : added o want books ≡ next =
            cc (put, add_order_for_asset-added o want books (on ∙ ap some here)) in
          subst (IsOnly want) same (
            insert-IsOnly want _ books
              (add_side-asset (type_of o) (bare o) (value_or (empty_for want) (lookup want books))
                ∙ lookup-IsOnly want books h)
              h)
    ])

sort_book-asset : (b c : OrderbookForAsset) → sort_book b ≡ some c → c.asset ≡ b.asset
unfolding sort_book
sort_book-asset b c e =
    let (asks, e1, r1) = and_then-eq-some _ _ e in
    let (bids, e2, r2) = and_then-eq-some _ _ r1 in
    let same : record b { asks = asks; bids = reverse bids } ≡ c = cc r2 in
    ap (λ r. r.asset) (sym same)

sort_by_prices-IsOnly :
    (asset : Text) (books result : OrderbookByAsset)
    → sort_by_prices books ≡ some result
    → IsOnly asset books
    → IsOnly asset result
unfolding sort_by_prices and_then
sort_by_prices-IsOnly asset [] result e h =
    let same : [] ≡ result = cc e in subst (IsOnly asset) same tt
sort_by_prices-IsOnly asset ((a, b) ∷ []) result e h =
    let (c, e1, r1) = and_then-eq-some _ _ e in
    let same : (a, c) ∷ [] ≡ result = cc r1 in
    subst (IsOnly asset) same (h.0, sort_book-asset b c e1 ∙ h.1)
sort_by_prices-IsOnly asset (x ∷ y ∷ books) result e h = absurd h

only_book-lookup :
    (asset : Text) (books : OrderbookByAsset)
    → IsOnly asset books
    → only_book asset books ≡ some (value_or (empty_for asset) (lookup asset books))
unfolding only_book checked and_then
only_book-lookup asset [] h = refl
only_book-lookup asset ((a, b) ∷ []) h =
    rw ((str_eq_iff a asset).1 h.0, (str_eq_iff b.asset asset).1 h.1) refl
only_book-lookup asset (x ∷ y ∷ books) h = absurd h

offers_absent :
    (side : OrderType) (asset : Text) (os : List Order)
    → is_traded asset os ≡ false
    → offers side asset os ≡ []
offers_absent side asset [] h = refl
offers_absent side asset (o ∷ os) h = elim (Bool-cases (is_on asset o)) [
  | inl on ↦ absurd (cc (rw on at h))
  | inr off ↦ rw off (offers_absent side asset os (rw off at h))
]

book_of-absent :
    (asset : Text) (os : List Order)
    → is_traded asset os ≡ false
    → book_of asset os ≡ empty_for asset
unfolding sorted
book_of-absent asset os h = λ i. record {
  asset = asset;
  bids = reverse (sorted (offers_absent bid asset os h i));
  asks = sorted (offers_absent ask asset os h i);
}

pub get_for_asset-book_of :
    (asset : Text) (b : OrderBook)
    → AreComplete b.orders
    → get_for_asset asset b ≡ some (book_of asset (listed b.orders))
unfolding get_for_asset internal_get_by_asset
get_for_asset-book_of asset b h =
    let (books, e, entries) = internal_get_by_asset-books (some asset) b h in
    and_then-some _ e (
      only_book-lookup asset books (internal-IsOnly books e)
      ∙ ap some (
          by_trade books (Bool-cases (is_traded asset (listed b.orders)))
            (entries asset ((str_eq_iff asset asset).1 refl))))
  where
    internal-IsOnly :
        (books : OrderbookByAsset)
        → internal_get_by_asset (some asset) b ≡ some books
        → IsOnly asset books
    internal-IsOnly books e =
        let (unsorted, e1, e2) = and_then-eq-some _ _ e in
        sort_by_prices-IsOnly asset unsorted books e2
          (collect-IsOnly asset (listed b.orders) [] unsorted e1 tt)

    by_trade :
        (books : OrderbookByAsset)
        → (is_traded asset (listed b.orders) ≡ true) ⊎ (is_traded asset (listed b.orders) ≡ false)
        → lookup asset books ≡ (
            if is_traded asset (listed b.orders)
            then some (book_of asset (listed b.orders))
            else none)
        → value_or (empty_for asset) (lookup asset books) ≡ book_of asset (listed b.orders)
    by_trade books (inl traded) e =
        let found : lookup asset books ≡ some (book_of asset (listed b.orders)) =
          e ∙ rw traded refl in
        ap (value_or (empty_for asset)) found
    by_trade books (inr absent) e =
        let missing : lookup asset books ≡ none = e ∙ rw absent refl in
        ap (value_or (empty_for asset)) missing
        ∙ sym (book_of-absent asset (listed b.orders) absent)

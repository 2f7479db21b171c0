-- ===== src/OrderBook/Sorting.antt =====
-- The sorting of the order books (`SortByPrices` of src/orderbook.cpp).
use democrit.Base.{
  refl, ◌||◌, ltb, some, length, checked-eq-some, and_then-eq-some, some-injective, ◌≤◌, ◌≡◌, sym,
  inl, inr, true, false, Bool-cases, List, [], ◌∷◌, ◌++◌, reverse, All, All-append, All-mono, arith,
}
use mathlib.Core.Path.{subst}
use mathlib.Core.List.Perm
use mathlib.Core.List.{Perm, reverse-cons, reverse_perm}
use democrit.Proto.{Order, OrderbookForAsset, OrderbookByAsset, price_of}
use democrit.OrderBook.Assets.{
  by_price_asc, insert_sorted, sorted, all_comparable, sort_side, sort_book, sort_by_prices,
}

-- Every order is at most as expensive as those after it.
abbrev pub Ascending : List Order → Type 0
Ascending [] = Unit {0}
Ascending (o ∷ os) = All (λ p. price_of o ≤ price_of p) os × Ascending os

abbrev pub Descending : List Order → Type 0
Descending [] = Unit {0}
Descending (o ∷ os) = All (λ p. price_of p ≤ price_of o) os × Descending os

by_price_asc-true : (a b : Order) → by_price_asc a b ≡ true → price_of a ≤ price_of b
unfolding by_price_asc
by_price_asc-true a b h = ground arith

by_price_asc-false : (a b : Order) → by_price_asc a b ≡ false → price_of b ≤ price_of a
unfolding by_price_asc
by_price_asc-false a b h = ground arith

All-insert_sorted :
    (P : Order → Type 0) (o : Order) (os : List Order) → P o → All P os → All P (insert_sorted o os)
unfolding insert_sorted
All-insert_sorted P o [] h hs = (h, tt)
All-insert_sorted P o (p ∷ ps) h hs = elim (Bool-cases (by_price_asc p o)) [
  | inl later ↦ rw later (hs.0, All-insert_sorted P o ps h hs.1)
  | inr here ↦ rw here (h, hs)
]

insert_sorted-Ascending :
    (o : Order) (os : List Order) → Ascending os → Ascending (insert_sorted o os)
unfolding insert_sorted
insert_sorted-Ascending o [] h = (tt, tt)
insert_sorted-Ascending o (p ∷ ps) h = elim (Bool-cases (by_price_asc p o)) [
  | inl later ↦ rw later (
    All-insert_sorted (λ q. price_of p ≤ price_of q) o ps (by_price_asc-true p o later) h.0,
    insert_sorted-Ascending o ps h.1,
  )
  | inr here ↦
      let first = by_price_asc-false p o here in
      rw here (
        (
          first,
          All-mono (λ q. price_of p ≤ price_of q) (λ q. price_of o ≤ price_of q)
              (λ q k. omega arith) ps h.0,
        ),
        h,
      )
]

sorted-Ascending : (os : List Order) → Ascending (sorted os)
unfolding sorted
sorted-Ascending [] = tt
sorted-Ascending (o ∷ os) = insert_sorted-Ascending o (sorted os) (sorted-Ascending os)

Descending-append :
    (os : List Order) (o : Order)
    → Descending os
    → All (λ p. price_of o ≤ price_of p) os
    → Descending (os ++ (o ∷ []))
Descending-append [] o h k = (tt, tt)
Descending-append (p ∷ ps) o h k = (
  All-append (λ q. price_of q ≤ price_of p) ps (o ∷ []) h.0 (k.0, tt),
  Descending-append ps o h.1 k.1,
)

pub All-reverse : (P : Order → Type 0) (os : List Order) → All P os → All P (reverse os)
All-reverse P [] h = tt
All-reverse P (o ∷ os) h =
    subst (All P) (sym (reverse-cons o os))
      (All-append P (reverse os) (o ∷ []) (All-reverse P os h.1) (h.0, tt))

reverse-Descending : (os : List Order) → Ascending os → Descending (reverse os)
reverse-Descending [] h = tt
reverse-Descending (o ∷ os) h = subst Descending (sym (reverse-cons o os)) (
    Descending-append (reverse os) o (reverse-Descending os h.1)
      (All-reverse (λ p. price_of o ≤ price_of p) os h.0))

insert_sorted-perm : (o : Order) (os : List Order) → Perm (insert_sorted o os) (o ∷ os)
unfolding insert_sorted
insert_sorted-perm o [] = Perm.refl (o ∷ [])
insert_sorted-perm o (p ∷ ps) = elim (Bool-cases (by_price_asc p o)) [
  | inl later ↦ rw later (Perm.trans (Perm.cons p (insert_sorted-perm o ps)) (Perm.swap o p ps))
  | inr here ↦ rw here (Perm.refl (o ∷ p ∷ ps))
]

sorted-perm : (os : List Order) → Perm (sorted os) os
unfolding sorted
sorted-perm [] = Perm.refl []
sorted-perm (o ∷ os) = Perm.trans (insert_sorted-perm o (sorted os)) (Perm.cons o (sorted-perm os))

sort_side-eq-some : (os side : List Order) → sort_side os ≡ some side → side ≡ sorted os
unfolding sort_side
sort_side-eq-some os side e =
    let (_, made) = checked-eq-some (ltb (length os) 2 || all_comparable os) _ e in
    sym (some-injective made)

-- The asks go up, the bids down, and each side has the orders that it had.
abbrev pub IsSorting : OrderbookForAsset → OrderbookForAsset → Type 0
IsSorting b c =
    (c.asset ≡ b.asset)
    × Ascending c.asks
    × Perm c.asks b.asks
    × Descending c.bids
    × Perm c.bids b.bids

sort_book-IsSorting : (b c : OrderbookForAsset) → sort_book b ≡ some c → IsSorting b c
unfolding sort_book
sort_book-IsSorting b c e =
    let (asks, has_asks, next) = and_then-eq-some (sort_side b.asks) _ e in
    let (bids, has_bids, made) = and_then-eq-some (sort_side b.bids) _ next in
    let up = sort_side-eq-some b.asks asks has_asks in
    let down = sort_side-eq-some b.bids bids has_bids in
    subst (IsSorting b) (some-injective made) (
      refl,
      subst Ascending (sym up) (sorted-Ascending b.asks),
      subst (λ os. Perm os b.asks) (sym up) (sorted-perm b.asks),
      subst (λ os. Descending (reverse os)) (sym down)
          (reverse-Descending (sorted b.bids) (sorted-Ascending b.bids)),
      subst (λ os. Perm (reverse os) b.bids) (sym down)
          (Perm.trans (reverse_perm (sorted b.bids)) (sorted-perm b.bids)),
    )

-- The books of two lists one by one: under the same assets, each sorted.
abbrev pub AllSorted : OrderbookByAsset → OrderbookByAsset → Type 0
AllSorted [] [] = Unit
AllSorted [] (_ ∷ _) = ⊥
AllSorted (_ ∷ _) [] = ⊥
AllSorted ((asset, b) ∷ bs) ((asset', c) ∷ cs) = (asset' ≡ asset) × IsSorting b c × AllSorted bs cs

-- Where the sorting fails no `CHECK`, there is a book for each asset as before, in which the asks are sorted by
-- ascending and the bids by descending prices, and no order of either side is lost or new.
pub sort_by_prices-AllSorted :
    (books sorted_books : OrderbookByAsset)
    → sort_by_prices books ≡ some sorted_books
    → AllSorted books sorted_books
unfolding sort_by_prices
sort_by_prices-AllSorted [] [] e = tt
sort_by_prices-AllSorted [] (_ ∷ _) e = cc e
sort_by_prices-AllSorted ((asset, b) ∷ bs) cs e =
    let (c, one, next) = and_then-eq-some (sort_book b) _ e in
    let (rest, others, made) = and_then-eq-some (sort_by_prices bs) _ next in
    subst (AllSorted ((asset, b) ∷ bs)) (some-injective made)
      (refl, sort_book-IsSorting b c one, sort_by_prices-AllSorted bs rest others)

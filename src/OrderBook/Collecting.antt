-- ===== src/OrderBook/Collecting.antt =====
-- The loop of `InternalGetByAsset` (src/orderbook.cpp) and the sorting after it: they fail no `CHECK`
-- on complete orders, and give each asset its entry.
use democrit.Base.{
  ◌≡◌, ◌⊎◌, refl, ap, ◌∙◌, inl, inr, true, false, Bool-cases, Option-cases, Option, none, some,
  List, [], ◌∷◌, ◌++◌, All, Text, lookup, insert, lookup-insert, text_eq, str_eq, str_eq_iff,
  value_or, has, if◌then◌else◌, and_then-some, and_true,
}
use democrit.Proto.{Order, OrderType, ask, bid, OrderbookForAsset, OrderbookByAsset, type_of}
use democrit.OrderBook.Assets.{
  empty_for, bare, add_side, add_order_for_asset, is_comparable, all_comparable, is_wanted, collect,
}
use democrit.OrderBook.Listing.{is_on, add_all}

-- An order has what the checks of the order book ask for.
abbrev pub IsListed : Order → Type 0
IsListed o = (has o.asset ≡ true) × (is_comparable o ≡ true)

abbrev IsComparable : OrderbookForAsset → Type 0
IsComparable b = (all_comparable b.asks ≡ true) × (all_comparable b.bids ≡ true)

abbrev pub AreComparable : OrderbookByAsset → Type 0
AreComparable books = All (λ e. IsComparable e.1) books

all_comparable-append :
    (os : List Order) (o : Order)
    → all_comparable os ≡ true
    → is_comparable o ≡ true
    → all_comparable (os ++ (o ∷ [])) ≡ true
unfolding all_comparable
all_comparable-append [] o h k = rw k refl
all_comparable-append (p ∷ ps) o h k =
    let both = and_true (is_comparable p) (all_comparable ps) h in
    rw (both.0, all_comparable-append ps o both.1 k) refl

add_side-IsComparable :
    (t : OrderType) (o : Order) (b : OrderbookForAsset)
    → is_comparable o ≡ true
    → IsComparable b
    → IsComparable (add_side t (bare o) b)
add_side-IsComparable ask o b k h = (all_comparable-append b.asks (bare o) h.0 k, h.1)
add_side-IsComparable bid o b k h = (h.0, all_comparable-append b.bids (bare o) h.1 k)

insert-AreComparable :
    (asset : Text) (b : OrderbookForAsset) (books : OrderbookByAsset)
    → IsComparable b
    → AreComparable books
    → AreComparable (insert asset b books)
insert-AreComparable asset b [] h hs = (h, tt)
insert-AreComparable asset b ((a, c) ∷ books) h hs = elim (Bool-cases (str_eq a asset)) [
  | inl same ↦ rw same (h, hs.1)
  | inr other ↦ rw other (hs.0, insert-AreComparable asset b books h hs.1)
]

empty_for-IsComparable : (asset : Text) → IsComparable (empty_for asset)
unfolding all_comparable
empty_for-IsComparable asset = (refl, refl)

lookup-IsComparable :
    (asset : Text) (books : OrderbookByAsset)
    → AreComparable books
    → IsComparable (value_or (empty_for asset) (lookup asset books))
lookup-IsComparable asset [] hs = empty_for-IsComparable asset
lookup-IsComparable asset ((a, c) ∷ books) hs = elim (Bool-cases (str_eq a asset)) [
  | inl same ↦ rw same hs.0
  | inr other ↦ rw other (lookup-IsComparable asset books hs.1)
]

-- What the loop has made of the books: the entry of every asset that is wanted.
pub record Collected (want : Option Text) (os : List Order) (books : OrderbookByAsset)
    : Type 0 where
  pub result : OrderbookByAsset
  pub collects : collect want os books ≡ some result
  pub comparable : AreComparable result
  pub entry :
      (asset : Text)
      → is_wanted want asset ≡ true
      → lookup asset result ≡ add_all asset os (lookup asset books)

abbrev pub added : Order → Text → OrderbookByAsset → OrderbookByAsset
added o a books =
    insert a (add_side (type_of o) (bare o) (value_or (empty_for a) (lookup a books))) books

added-entry :
    (asset a : Text) (o : Order) (books : OrderbookByAsset)
    → o.asset ≡ some a
    → lookup asset (added o a books) ≡ (
        if is_on asset o
        then some (add_side (type_of o) (bare o) (value_or (empty_for asset) (lookup asset books)))
        else lookup asset books)
added-entry asset a o books e =
    lookup-insert a asset _ books ∙ by_asset (Bool-cases (str_eq a asset))
  where
    by_asset :
        (str_eq a asset ≡ true) ⊎ (str_eq a asset ≡ false)
        → (if str_eq a asset
            then some (add_side (type_of o) (bare o) (value_or (empty_for a) (lookup a books)))
            else lookup asset books)
          ≡ (if is_on asset o
              then some
                  (add_side (type_of o) (bare o) (value_or (empty_for asset) (lookup asset books)))
              else lookup asset books)
    by_asset (inl same) =
        let here : a ≡ asset = (str_eq_iff a asset).0 same in
        rw (e, same)
          (ap (λ k. some (add_side (type_of o) (bare o) (value_or (empty_for k) (lookup k books))))
            here)
    by_asset (inr other) = rw (e, other) refl

pub add_order_for_asset-added :
    (o : Order) (a : Text) (books : OrderbookByAsset)
    → o.asset ≡ some a
    → add_order_for_asset books o ≡ some (added o a books)
unfolding add_order_for_asset
add_order_for_asset-added o a books e =
    ap
      (λ (x : Option Text). elim x as (λ _. Option OrderbookByAsset) [
        | none ↦ none
        | some asset ↦ some (
            insert asset
              (add_side (type_of o) (bare o) (value_or (empty_for asset) (lookup asset books)))
              books)
      ])
      e

pub collect-Collected :
    (want : Option Text) (os : List Order) (books : OrderbookByAsset)
    → All IsListed os
    → AreComparable books
    → Collected want os books
unfolding collect add_all
collect-Collected want [] books h k = record {
  result = books;
  collects = refl;
  comparable = k;
  entry = λ asset w. refl;
}
collect-Collected want (o ∷ os) books h k = elim (Option-cases o.asset) [
  | inl missing ↦ absurd (cc (h.0.0, ap has missing))
  | inr (a, e) ↦ elim (Bool-cases (is_wanted want a)) [
    | inl wanted ↦
        let new = add_side (type_of o) (bare o) (value_or (empty_for a) (lookup a books)) in
        let rest = collect-Collected want os (insert a new books) h.1 (
          insert-AreComparable a new books
            (add_side-IsComparable (type_of o) o _ h.0.1 (lookup-IsComparable a books k)) k) in
        record {
          result = rest.result;
          collects =
              and_then-some _ e
                (and_then-some _ (rw wanted (add_order_for_asset-added o a books e)) rest.collects);
          comparable = rest.comparable;
          entry =
              λ asset w. rest.entry asset w ∙ ap (add_all asset os) (added-entry asset a o books e);
        }
    | inr unwanted ↦
        let rest = collect-Collected want os books h.1 k in
        record {
          result = rest.result;
          collects = and_then-some _ e (and_then-some _ (rw unwanted refl) rest.collects);
          comparable = rest.comparable;
          entry = λ asset w.
              rest.entry asset w ∙ ap (add_all asset os) (passed_over asset a e unwanted w);
        }
  ]
]
  where
    passed_over :
        (asset a : Text)
        → o.asset ≡ some a
        → is_wanted want a ≡ false
        → is_wanted want asset ≡ true
        → lookup asset books ≡ (
            if is_on asset o
            then some
                (add_side (type_of o) (bare o) (value_or (empty_for asset) (lookup asset books)))
            else lookup asset books)
    passed_over asset a e unwanted this_wanted = elim (Bool-cases (str_eq a asset)) [
      | inl same ↦
          absurd (cc (unwanted, this_wanted, ap (is_wanted want) ((str_eq_iff a asset).0 same)))
      | inr other ↦ rw (e, other) refl
    ]

-- ===== src/OrderBook/Listing.antt =====
-- The order books by asset (src/orderbook.cpp) against what they should list: for each asset the
-- offers on either side among all orders.
use democrit.Base.{
  ◌≡◌, refl, sym, ap, ◌∙◌, inl, inr, Bool, true, false, ◌&&◌, ◌||◌, Bool-cases, Option, none, some,
  List, [], ◌∷◌, ◌++◌, reverse, Text, text_eq, str_eq, value_or, if◌then◌else◌,
}
use democrit.Proto.{Order, OrderType, ask, bid, OrderbookForAsset, type_of}
use democrit.OrderBook.Assets.{empty_for, bare, add_side, sorted}

abbrev pub is_on : Text → Order → Bool
is_on asset o = elim o.asset [ none ↦ false | some b ↦ str_eq b asset ]

abbrev pub is_side : OrderType → OrderType → Bool
is_side ask ask = true
is_side bid bid = true
is_side _ _ = false

-- The orders of one type on the asset, in the form in which a book has them.
abbrev pub offers : OrderType → Text → List Order → List Order
offers side asset [] = []
offers side asset (o ∷ os) =
    let rest = offers side asset os in
    if is_on asset o && is_side (type_of o) side then bare o ∷ rest else rest

abbrev pub is_traded : Text → List Order → Bool
is_traded asset [] = false
is_traded asset (o ∷ os) = is_on asset o || is_traded asset os

-- The book of the asset.
abbrev pub book_of : Text → List Order → OrderbookForAsset
book_of asset os = record {
  asset = asset;
  bids = reverse (sorted (offers bid asset os));
  asks = sorted (offers ask asset os);
}

-- What the loop makes of the entry of one asset.
unfoldable pub add_all : Text → List Order → Option OrderbookForAsset → Option OrderbookForAsset
add_all asset [] e = e
add_all asset (o ∷ os) e = add_all asset os (
    if is_on asset o
    then some (add_side (type_of o) (bare o) (value_or (empty_for asset) e))
    else e)

append_assoc_one : (xs ys : List Order) (o : Order) → (xs ++ (o ∷ [])) ++ ys ≡ xs ++ (o ∷ ys)
append_assoc_one [] ys o = refl
append_assoc_one (x ∷ xs) ys o = ap (λ zs. x ∷ zs) (append_assoc_one xs ys o)

append_nil : (xs : List Order) → xs ++ [] ≡ xs
append_nil [] = refl
append_nil (x ∷ xs) = ap (λ zs. x ∷ zs) (append_nil xs)

abbrev pub grown : Text → List Order → OrderbookForAsset → OrderbookForAsset
grown asset os b = record {
  asset = b.asset;
  bids = b.bids ++ offers bid asset os;
  asks = b.asks ++ offers ask asset os;
}

grown-add_side :
    (asset : Text) (o : Order) (os : List Order) (b : OrderbookForAsset)
    → is_on asset o ≡ true
    → grown asset os (add_side (type_of o) (bare o) b) ≡ grown asset (o ∷ os) b
grown-add_side asset o os b on = by_type (type_of o) refl
  where
    by_type :
        (t : OrderType)
        → type_of o ≡ t
        → grown asset os (add_side (type_of o) (bare o) b) ≡ grown asset (o ∷ os) b
    by_type ask e =
        rw (e, on)
          (λ i. record {
            asset = b.asset;
            bids = b.bids ++ offers bid asset os;
            asks = append_assoc_one b.asks (offers ask asset os) (bare o) i;
          })
    by_type bid e =
        rw (e, on)
          (λ i. record {
            asset = b.asset;
            bids = append_assoc_one b.bids (offers bid asset os) (bare o) i;
            asks = b.asks ++ offers ask asset os;
          })

add_all-some :
    (asset : Text) (os : List Order) (b : OrderbookForAsset)
    → add_all asset os (some b) ≡ some (grown asset os b)
unfolding add_all
add_all-some asset [] b = λ i.
    some (record {
      asset = b.asset;
      bids = sym (append_nil b.bids) i;
      asks = sym (append_nil b.asks) i;
    })
add_all-some asset (o ∷ os) b = elim (Bool-cases (is_on asset o)) [
  | inl on ↦
      rw on (add_all-some asset os (add_side (type_of o) (bare o) b))
      ∙ ap some (grown-add_side asset o os b on)
  | inr off ↦ rw off (add_all-some asset os b)
]

pub add_all-none :
    (asset : Text) (os : List Order)
    → add_all asset os none
      ≡ (if is_traded asset os then some (grown asset os (empty_for asset)) else none)
unfolding add_all
add_all-none asset [] = refl
add_all-none asset (o ∷ os) = elim (Bool-cases (is_on asset o)) [
  | inl on ↦
      rw on (add_all-some asset os (add_side (type_of o) (bare o) (empty_for asset)))
      ∙ (ap some (grown-add_side asset o os (empty_for asset) on) ∙ sym (rw on refl))
  | inr off ↦ rw off (add_all-none asset os)
]

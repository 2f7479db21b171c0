-- ===== src/TradeManager/Agreement.antt =====
-- The terms and the identifier of a trade (src/trades.cpp) as its two sides see them.
use democrit.Base.{
  ◌≡◌, refl, sym, ◌∙◌, ◌≢◌, inl, inr, true, false, Bool-cases, Text, str_eq, str_eq_iff, to_int64,
  if◌then◌else◌,
}
use democrit.Proto.{
  OrderType, ask, bid, TradeState, account_of, type_of, asset_of, price_of, is_ask,
}
use democrit.Trade.{get_role, get_order_type, build_trade_checker, other_side, get_identifier}
use democrit.Checker.Decoded.{TradeChecker}
use democrit.TradeManager.Parties.{Between}

str_eq-same : (a b : Text) → a ≡ b → str_eq a b ≡ true
str_eq-same a b e = (str_eq_iff a b).1 e

str_eq-other : (a b : Text) → a ≢ b → str_eq a b ≡ false
str_eq-other a b h = elim (Bool-cases (str_eq a b)) [
  | inl e ↦ absurd (h ((str_eq_iff a b).0 e))
  | inr e ↦ e
]

-- The same trade on the other side: the same order and amount, with the two sides swapped.
pub record Mirrors (account : Text) (t : TradeState) (other : Text) (u : TradeState) : Type 0 where
  pub theirs : t.counterparty ≡ other
  pub ours : u.counterparty ≡ account
  pub order : u.order ≡ t.order
  pub units : u.units ≡ t.units

other_side-twice : (o : OrderType) → other_side (other_side o) ≡ o
other_side-twice ask = refl
other_side-twice bid = refl

-- The sides take opposite types of the order.
get_order_type-opposite :
    (account other : Text) (t u : TradeState)
    → Mirrors account t other u
    → Between account t
    → get_order_type other u ≡ other_side (get_order_type account t)
unfolding get_order_type get_role
get_order_type-opposite account other t u m (apart, inl own) =
    rw
      (
        m.order,
        str_eq-same (account_of t.order) account own,
        str_eq-other (account_of t.order) other (λ e. apart (m.theirs ∙ (sym e ∙ own))),
      )
      refl
get_order_type-opposite account other t u m (apart, inr by) =
    rw
      (
        m.order,
        str_eq-other (account_of t.order) account (λ e. apart (sym by ∙ e)),
        str_eq-same (account_of t.order) other (by ∙ m.theirs),
      )
      (sym (other_side-twice (type_of t.order)))

abbrev terms : OrderType → Text → Text → TradeState → TradeChecker
terms type by with_whom t = record {
  buyer = if is_ask type then with_whom else by;
  seller = if is_ask type then by else with_whom;
  asset = asset_of t.order;
  price = to_int64 (price_of t.order);
  units = to_int64 t.units;
}

terms-swap :
    (type : OrderType) (by with_whom : Text) (t : TradeState)
    → terms (other_side type) with_whom by t ≡ terms type by with_whom t
terms-swap ask by with_whom t = refl
terms-swap bid by with_whom t = refl

-- Both sides of a trade check it against the same terms: buyer, seller, asset, price and units; and
-- they know it by the same identifier. The trade is with somebody else, on an order of one of the two.
pub build_trade_checker-agree :
    (account other : Text) (t u : TradeState)
    → Mirrors account t other u
    → Between account t
    → (build_trade_checker other u ≡ build_trade_checker account t)
      × (get_identifier u ≡ get_identifier t)
unfolding build_trade_checker get_identifier
build_trade_checker-agree account other t u m b = (
  rw (get_order_type-opposite account other t u m b, m.order, m.units, m.ours, m.theirs)
      (terms-swap (get_order_type account t) account other t),
  rw m.order refl,
)

-- ===== src/TradeManager/Opening.antt =====
-- What `TakeOrder` does to the trades, in each of its results.
use democrit.Base.{
  ◌≡◌, refl, sym, ◌∙◌, ◌≢◌, inl, inr, Bool, true, false, ◌||◌, Bool-cases, Option, none, some, [],
  ◌∷◌, ◌++◌, str_eq, str_eq_iff, ℤ, ℕ, to_int64, to_uint64, ltb_ℤ, Outcome, ok, rpc_error, fatal,
  continue, ◌>>=◌, if◌then◌else◌,
}
use mathlib.Core.Bool.{false≢true}
use democrit.Proto.{Order, TradeState, ProcessingMessage, account_of, id_of, min_units_of}
use democrit.Env.{Env}
use democrit.MyOrders.{Node}
use democrit.Trade.{set_taking_order}
use democrit.Trade.Wallet.{Local}
use democrit.Trade.Life.{Evolves}
use democrit.Trade.Life.Replying.{has_reply-Evolves}
use democrit.TradeManager.{
  Manager, check_order, new_trade, append_trade, on_world, open_after, open_with, take_new,
  take_order,
}

-- One trade on the order is new, at the end of the list, with the maker of the order, who is somebody
-- else; the amount is within the order's bounds, and the message names the order and the amount.
pub record Opens {W : Type 0} (o : Order) (units : ℤ) (n : Node) (msg : ProcessingMessage)
    (m' : Manager W) : Type 0 where
  pub trade : TradeState
  pub added : m'.node.state.trades ≡ (n.state.trades ++ (trade ∷ []))
  pub order : trade.order ≡ o
  pub amount : trade.units ≡ to_uint64 units
  pub counterparty : trade.counterparty ≡ account_of o
  pub not_own : account_of o ≢ n.state.account
  pub not_above : ltb_ℤ (to_int64 o.max_units) units ≡ false
  pub not_below : ltb_ℤ units (to_int64 (min_units_of o)) ≡ false
  pub named : msg.taking_order ≡ some (record { id = id_of o; units = to_uint64 units })

-- Where no message comes back, the node is as before.
abbrev pub Taken :
    {W : Type 0} → Order → ℤ → Node → Outcome (Option ProcessingMessage) → Manager W → Type 0
Taken o units n (ok (some msg)) m' = Opens o units n msg m'
Taken o units n (ok none) m' = m'.node ≡ n
Taken o units n rpc_error m' = m'.node ≡ n
Taken o units n fatal m' = m'.node ≡ n

check_order-bounds :
    (o : Order) (units : ℤ)
    → check_order o units ≡ true
    → (ltb_ℤ (to_int64 o.max_units) units ≡ false)
      × (ltb_ℤ units (to_int64 (min_units_of o)) ≡ false)
unfolding check_order
check_order-bounds o units h =
    neither (ltb_ℤ (to_int64 o.max_units) units) (ltb_ℤ units (to_int64 (min_units_of o))) _ h
  where
    neither : (a b c : Bool) → (if a || b then false else c) ≡ true → (a ≡ false) × (b ≡ false)
    neither true b c h = cc
    neither false true c h = cc
    neither false false c h = (refl, refl)

module _ {W : Type 0} (env : Env W) (o : Order) (units : ℤ)
    (checked_ok : check_order o units ≡ true) where
  open_after-Taken :
      (now : ℕ) (r : Outcome (Option ProcessingMessage)) (l : Local W) (m : Manager W)
      → account_of o ≢ m.node.state.account
      → Evolves (new_trade o units (account_of o) now) l.pb
      → Taken o units m.node (open_after env r l m).0 (open_after env r l m).1
  unfolding open_after open_with append_trade set_taking_order new_trade
  open_after-Taken now (ok reply) l m other e = record {
    trade = l.pb;
    added = refl;
    order = e.0.order;
    amount = e.0.units;
    counterparty = e.0.counterparty;
    not_own = other;
    not_above = (check_order-bounds o units checked_ok).0;
    not_below = (check_order-bounds o units checked_ok).1;
    named = λ i. some (record { id = id_of (e.0.order i); units = e.0.units i });
  }
  open_after-Taken now rpc_error l m other e = refl
  open_after-Taken now fatal l m other e = refl

  take_new-Taken :
      (now : ℕ) (m : Manager W)
      → Taken o units m.node (take_new env o units now m).0 (take_new env o units now m).1
  unfolding take_new new_trade
  take_new-Taken now m = elim (Bool-cases (str_eq (account_of o) m.node.state.account)) [
    | inl own ↦ rw own refl
    | inr other ↦ rw other (
        open_after-Taken now _ _ m
          (λ e. false≢true (sym other ∙ (str_eq_iff (account_of o) m.node.state.account).1 e))
          (has_reply-Evolves env m.node.state.account _))
  ]

  after_clock-Taken :
      (r : Outcome ℕ) (m : Manager W)
      → Taken o units m.node
          (continue r (take_new env o units) m).0
          (continue r (take_new env o units) m).1
  after_clock-Taken (ok now) m = take_new-Taken now m
  after_clock-Taken rpc_error m = refl
  after_clock-Taken fatal m = refl

-- Whatever the world answers: taking an order opens one trade on it, as it returns a message, or it
-- leaves the node as it is.
pub take_order-Taken :
    {W : Type 0} (env : Env W) (o : Order) (units : ℤ) (m : Manager W)
    → Taken o units m.node (take_order env o units m).0 (take_order env o units m).1
unfolding take_order on_world ◌>>=◌
take_order-Taken env o units m = elim (Bool-cases (check_order o units)) [
  | inl good ↦ rw good (
      after_clock-Taken env o units good (env.current_time m.world).0
        (record m { world = (env.current_time m.world).1 }))
  | inr bad ↦ rw bad refl
]

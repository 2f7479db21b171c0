-- ===== src/TradeManager/Settlement.antt =====
-- `HandleSuccess` for the maker: the order goes, and what is left of it is offered again.
use democrit.Base.{
  ℕ, ◌+◌, ◌-◌, ◌<◌, ◌≡◌, ◌⊎◌, Outcome, Bool, ◌&&◌, none, some, ok, lookup, erase, nat_eq,
  if◌then◌else◌, u64_mod,
}
use democrit.Proto.{Order, TradeState}
use democrit.Env.{Env}
use democrit.MyOrders.{Validator, Node, stripped, with_orders}
use democrit.MyOrders.Refresh.{accepts, refreshed}
use democrit.MyOrders.Throwing.{Throws}
use democrit.MyOrders.Invariant.{IsValid}
use democrit.MyOrders.Holding.{passing}
use democrit.TradeManager.{Manager, is_offerable}

-- What is left of the maker's order.
abbrev pub rest_of : TradeState → Order
rest_of t = record t.order { id = none; max_units = t.order.max_units - t.units }

-- The id has no order, and the next free id has the rest if there is to be one and it is valid.
abbrev pub Settled : Validator → ℕ → Order → Node → Bool → Node → Type 0
Settled valid id rest n again n' =
    let p = accepts valid n.state.account in
    (lookup id n'.state.own_orders ≡ none)
    × (lookup n.state.next_free_id n'.state.own_orders
        ≡ (if again && p rest then passing p (some (stripped rest)) else none))

-- It returns, with the orders settled, or a validation of an order has thrown, and it throws that.
abbrev pub Returns : {A : Type 0} → Validator → ℕ → Order → Node → Bool → Outcome A × Node → Type 0
Returns {A} valid id rest n again r =
    ((a : A) × (n' : Node) × (r ≡ (ok a, n')) × Settled valid id rest n again n')
    ⊎ Throws valid n.state.account r.0

-- The rest is added after the order is gone, in the node that the first refresh leaves.
module _ (valid : Validator) (id : ℕ) (rest : Order) (n : Node) (v : IsValid n.state)
    (old : id < n.state.next_free_id) (room : n.state.next_free_id + 1 < u64_mod) where
  abbrev left : Node
  left = refreshed valid (with_orders (erase id n.state.own_orders) n)

abbrev pub IsSettled :
    {W : Type 0} → Env W → ℕ → Order → Manager W → Outcome (Unit {0}) × Manager W → Type 0
IsSettled env id rest m r =
    let valid = env.validate m.world in
    ((r.0 ≡ ok tt) × Settled valid id rest m.node (is_offerable rest) r.1.node)
    ⊎ Throws valid m.node.state.account r.0

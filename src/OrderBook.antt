-- ===== src/OrderBook.antt =====
-- src/orderbook.cpp and src/private/orderbook.hpp: the orders of other accounts, as they broadcast
-- them. The time of the steady clock is an argument of each call, and `timeout` a parameter. A map
-- is an association list here; the order books do not depend on its order, as they are sorted.
pub mod Expiry
pub mod Validity
pub mod Assets
pub mod Sorting
pub mod Listing
pub mod Collecting
pub mod Getters
pub mod OneAsset
pub mod Views
pub mod Contents
use democrit.Base.{
  ℕ, ◌+◌, Bool, true, false, not, ◌&&◌, Option, none, some, List, [], ◌∷◌, ◌++◌, Text, Dict, lookup,
  insert, erase, text_eq, ltb, leb, str_eq, str_lt, ◌==◌, has, value_or, if◌then◌else◌, Exec,
  Outcome, ok, fatal,
}
use democrit.Proto.{
  Order, OrderType, ask, bid, OrdersOfAccount, OrderbookForAsset, OrderbookByAsset, account_of,
  id_of, asset_of, type_of, price_of,
}

pub record AccountOrders : Type 0 where
  pub orders : Dict ℕ Order
  pub last_update : ℕ

pub record UpdateEvent : Type 0 where
  pub account : Text
  pub time : ℕ

-- The queue has its front first.
pub record OrderBook : Type 0 where
  pub orders : Dict Text AccountOrders
  pub updates : List UpdateEvent

-- time < now - timeout
abbrev pub is_stale : ℕ → ℕ → ℕ → Bool
is_stale timeout now time = ltb (time + timeout) now

unfoldable pub drop_found :
    ℕ → ℕ → Text → Option AccountOrders → Dict Text AccountOrders → Dict Text AccountOrders
drop_found timeout now account none orders = orders
drop_found timeout now account (some a) orders =
    if is_stale timeout now a.last_update then erase account orders else orders

unfoldable pub drop_stale : ℕ → ℕ → Text → Dict Text AccountOrders → Dict Text AccountOrders
unfolding drop_found
drop_stale timeout now account orders =
    drop_found timeout now account (lookup account orders) orders

-- The loop takes the stale events off the front of the queue.
unfoldable pub expire :
    ℕ → ℕ → List UpdateEvent → Dict Text AccountOrders → List UpdateEvent × Dict Text AccountOrders
unfolding drop_stale
expire timeout now [] orders = ([], orders)
expire timeout now (e ∷ es) orders =
    let rest = expire timeout now es (drop_stale timeout now e.account orders) in
    if is_stale timeout now e.time then rest else (e ∷ es, orders)

unfoldable pub run_timeout : ℕ → ℕ → OrderBook → OrderBook
unfolding expire
run_timeout timeout now b =
    let (updates, orders) = expire timeout now b.updates b.orders in
    record { orders = orders; updates = updates }

-- The `CHECK` on every order of an update.
unfoldable pub all_complete : Dict ℕ Order → Bool
all_complete [] = true
all_complete ((id, o) ∷ d) = (has o.asset && has o.order_type && has o.price_sat) && all_complete d

unfoldable pub store_update : ℕ → Text → Dict ℕ Order → OrderBook → OrderBook
store_update now account [] b = record b { orders = erase account b.orders }
store_update now account (entry ∷ entries) b = record {
  orders = insert account (record { orders = entry ∷ entries; last_update = now }) b.orders;
  updates = b.updates ++ (record { account = account; time = now } ∷ []);
}

unfoldable pub update_orders : ℕ → OrdersOfAccount → Exec OrderBook (Unit {0})
unfolding all_complete store_update
update_orders now upd b = elim upd.account [
  | none ↦ (fatal, b)
  | some account ↦
      if all_complete upd.orders then (ok tt, store_update now account upd.orders b) else (fatal, b)
]

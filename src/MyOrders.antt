-- ===== src/MyOrders.antt =====
-- src/myorders.cpp and src/private/myorders.hpp: the orders of the local user. `ValidateOrder` is
-- virtual, and may throw: it is the parameter `valid`, whose answers are fixed for the time of one call.
-- `UpdateOrders`, the other virtual method, publishes the orders: the messages go to the list `sent`, the
-- newest first. The periodic job only calls `run_refresh`.
pub mod Refresh
pub mod Throwing
pub mod Invariant
pub mod Holding
pub mod Locking
use democrit.Base.{
  ℕ, ◌+◌, ◌%◌, Bool, true, false, not, ◌||◌, Option, none, some, List, [], ◌∷◌, Text, Dict, Exec,
  Outcome, ok, rpc_error, fatal, pure, ◌>>◌, u64_mod, lookup, insert, erase, nat_eq, if◌then◌else◌,
}
use democrit.Proto.{Order, OrdersOfAccount, State}

-- The answers of `ValidateOrder`, and what `std::move` leaves of an order, which the library of the protocol
-- buffers decides.
pub record Validator : Type 0 where
  pub answer : Text → Order → Outcome Bool
  pub moved_from : Order → Order

pub record Node : Type 0 where
  pub state : State
  pub sent : List OrdersOfAccount

-- The loops over the map keep the entries that pass a test.
unfoldable pub keep : (Order → Bool) → Dict ℕ Order → Dict ℕ Order
keep p [] = []
keep p ((id, o) ∷ d) = let rest = keep p d in if p o then (id, o) ∷ rest else rest

unfoldable pub internal_get_orders : Bool → State → OrdersOfAccount
unfolding keep
internal_get_orders include_locked s = record {
  account = some s.account;
  orders = keep (λ o. include_locked || not o.locked) s.own_orders;
}

unfoldable pub get_orders : State → OrdersOfAccount
unfolding internal_get_orders
get_orders = internal_get_orders true

-- What a valid entry, or an invalid one, adds to `updated`.
abbrev pub keep_entry : Outcome Bool → ℕ × Order → Outcome (Dict ℕ Order) → Outcome (Dict ℕ Order)
keep_entry (ok true) e (ok rest) = ok (e ∷ rest)
keep_entry (ok true) e rpc_error = rpc_error
keep_entry (ok true) e fatal = fatal
keep_entry (ok false) e rest = rest
keep_entry rpc_error e rest = rpc_error
keep_entry fatal e rest = fatal

-- `updated` after the loop, which ends with the first validation that throws.
unfoldable pub kept_orders : (Order → Outcome Bool) → Dict ℕ Order → Outcome (Dict ℕ Order)
kept_orders ask [] = ok []
kept_orders ask ((id, o) ∷ d) = keep_entry (ask o) (id, o) (kept_orders ask d)

abbrev pub left_entry :
    Outcome Bool → (Order → Order) → ℕ → Order → Dict ℕ Order → Dict ℕ Order → Dict ℕ Order
left_entry (ok true) moved id o d rest = (id, moved o) ∷ rest
left_entry (ok false) moved id o d rest = (id, o) ∷ rest
left_entry rpc_error moved id o d rest = (id, o) ∷ d
left_entry fatal moved id o d rest = (id, o) ∷ d

-- What stands in the map then: the valid orders before have been moved out of it.
unfoldable pub left_orders : (Order → Outcome Bool) → (Order → Order) → Dict ℕ Order → Dict ℕ Order
left_orders ask moved [] = []
left_orders ask moved ((id, o) ∷ d) = left_entry (ask o) moved id o d (left_orders ask moved d)

abbrev pub with_orders : Dict ℕ Order → Node → Node
with_orders orders n = record n { state = record n.state { own_orders = orders } }

-- Only a loop that has ended swaps the maps, and only then the orders are published.
unfoldable pub swap_orders : Outcome (Dict ℕ Order) → Dict ℕ Order → Exec Node (Unit {0})
unfolding internal_get_orders
swap_orders (ok kept) left n =
    let s = record n.state { own_orders = kept } in
    (ok tt, record { state = s; sent = internal_get_orders false s ∷ n.sent })
swap_orders rpc_error left n = (rpc_error, with_orders left n)
swap_orders fatal left n = (fatal, with_orders left n)

unfoldable pub run_refresh : Validator → Exec Node (Unit {0})
unfolding kept_orders left_orders swap_orders
run_refresh valid n =
    let ask = valid.answer n.state.account in
    swap_orders (kept_orders ask n.state.own_orders)
      (left_orders ask valid.moved_from n.state.own_orders) n

-- The order without its account and id, as it is stored.
abbrev pub stripped : Order → Order
stripped o = record o { account = none; id = none }

unfoldable pub store_new : Order → State → State
store_new o s = record s {
  next_free_id = (s.next_free_id + 1) % u64_mod;
  own_orders = insert s.next_free_id (stripped o) s.own_orders;
}

-- The order is stored, and the refresh follows it, if the validation says so.
unfoldable pub add_answered : Validator → Outcome Bool → Order → Exec Node Bool
unfolding run_refresh store_new
add_answered valid (ok true) o n =
    (do run_refresh valid; pure true) (record n { state = store_new o n.state })
add_answered valid (ok false) o n = (ok false, n)
add_answered valid rpc_error o n = (rpc_error, n)
add_answered valid fatal o n = (fatal, n)

unfoldable pub add : Validator → Order → Exec Node Bool
unfolding add_answered
add valid o n = add_answered valid (valid.answer n.state.account o) o n

unfoldable pub remove_by_id : Validator → ℕ → Exec Node (Unit {0})
unfolding run_refresh
remove_by_id valid id n = run_refresh valid (with_orders (erase id n.state.own_orders) n)

unfoldable pub set_order : ℕ → Order → Node → Node
set_order id o n = record n {
  state = record n.state { own_orders = insert id o n.state.own_orders };
}

unfoldable pub lock_found : Validator → ℕ → Option Order → Exec Node (Option Order)
unfolding run_refresh set_order
lock_found valid id none n = (ok none, n)
lock_found valid id (some o) n =
    if o.locked
    then (ok none, n)
    else (do
      run_refresh valid
      pure (some (record o { account = some n.state.account; id = some id })))
        (set_order id (record o { locked = true }) n)

unfoldable pub try_lock : Validator → ℕ → Exec Node (Option Order)
unfolding lock_found
try_lock valid id n = lock_found valid id (lookup id n.state.own_orders) n

unfoldable pub unlock_found : Validator → ℕ → Option Order → Exec Node (Unit {0})
unfolding run_refresh set_order
unlock_found valid id none n = (fatal, n)
unlock_found valid id (some o) n =
    if o.locked
    then run_refresh valid (set_order id (record o { locked = false }) n)
    else (fatal, n)

unfoldable pub unlock : Validator → ℕ → Exec Node (Unit {0})
unfolding unlock_found
unlock valid id n = unlock_found valid id (lookup id n.state.own_orders) n

-- The calls that change the orders, each with the validity that it meets.
pub data Call : Type 0 where
  refreshes : Validator → Call
  adds : Validator → Order → Call
  removes : Validator → ℕ → Call
  locks : Validator → ℕ → Call
  unlocks : Validator → ℕ → Call

unfoldable pub attempt : Call → Exec Node (Unit {0})
unfolding run_refresh add remove_by_id try_lock unlock
attempt (refreshes valid) = run_refresh valid
attempt (adds valid o) = do add valid o; pure tt
attempt (removes valid id) = remove_by_id valid id
attempt (locks valid id) = do try_lock valid id; pure tt
attempt (unlocks valid id) = unlock valid id

-- The state after each call, however it has ended: an exception is caught above, and the node goes on.
unfoldable pub run : List Call → Node → Node
unfolding attempt
run [] n = n
run (c ∷ cs) n = run cs (attempt c n).1

-- ===== src/Tests/Orders.antt =====
-- The own orders at work, in src/myorders.cpp.
use democrit.Base.{
  ◌>>◌, ◌≡◌, refl, true, none, some, List, [], ok, rpc_error, ◌∷◌, lookup, nat_eq, arith,
}
use democrit.MyOrders.{
  Validator, Node, add, run_refresh, try_lock, run, attempt, Call, adds, removes, locks, unlocks,
  refreshes,
}
use democrit.MyOrders.Invariant.{IsValid, run-IsValid}
use democrit.MyOrders.Holding.{AllReturn}
use democrit.MyOrders.Locking.{add-stores, try_lock-exclusive}
use democrit.Tests.World.{alice, stored_order, alice_order, node_of}

abbrev all_valid : Validator
all_valid = record { answer = λ _ _. ok true; moved_from = λ o. o }

-- A validation that throws.
abbrev offline : Validator
offline = record { answer = λ _ _. rpc_error; moved_from = λ o. o }

abbrev node0 : Node
node0 = (node_of alice []).node

node0-IsValid : IsValid node0.state
node0-IsValid = (omega arith, refl, tt)

run-IsValid_example :
    IsValid
      (run (adds all_valid stored_order ∷ refreshes offline ∷ removes all_valid 7 ∷ []) node0).state
run-IsValid_example =
    run-IsValid (adds all_valid stored_order ∷ refreshes offline ∷ removes all_valid 7 ∷ []) node0
      (omega arith) node0-IsValid

with_eight : add all_valid alice_order node0 ≡ (ok true, (add all_valid alice_order node0).1)
unfolding add ◌>>◌
with_eight = refl

add-stores_example :
    let n' = (add all_valid alice_order node0).1 in
    (true ≡ true)
    × (lookup 8 node0.state.own_orders ≡ none)
    × (n'.state.next_free_id ≡ 9)
    × (lookup 8 n'.state.own_orders ≡ some stored_order)
add-stores_example =
    add-stores all_valid alice_order node0 (add all_valid alice_order node0).1 8 true (omega arith)
      node0-IsValid refl with_eight

-- Where the validation throws, the refresh leaves the orders and publishes nothing.
offline_node : run_refresh offline node0 ≡ (rpc_error, node0)
unfolding run_refresh
offline_node = refl

abbrev seven_locked : Node
seven_locked = (try_lock all_valid 7 node0).1

try_lock_seven : try_lock all_valid 7 node0 ≡ (ok (some alice_order), seven_locked)
unfolding try_lock ◌>>◌
try_lock_seven = refl

abbrev calls_between : List Call
calls_between = adds all_valid stored_order ∷ locks all_valid 8 ∷ unlocks all_valid 8 ∷ []

between_return : AllReturn calls_between seven_locked
unfolding attempt try_lock ◌>>◌
between_return = (refl, (refl, (refl, tt)))

try_lock-exclusive_example : (try_lock all_valid 7 (run calls_between seven_locked)).0 ≡ ok none
try_lock-exclusive_example =
    try_lock-exclusive all_valid all_valid 7 node0 seven_locked alice_order calls_between
      node0-IsValid (omega arith) try_lock_seven (tt, (tt, ((λ e. omega arith), tt))) between_return

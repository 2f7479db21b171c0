-- ===== src/MyOrders/Locking.antt =====
-- What the calls on the own orders do: a new order, the published list, and the lock that keeps an
-- order from being taken twice.
use democrit.Base.{
  ℕ, ◌+◌, ◌<◌, ◌≡◌, ◌∙◌, refl, sym, ap, ok, Bool, true, none, some, List, arith, lookup, insert,
  length, if◌then◌else◌, u64_mod, ◌==◌, lookup-insert, nat_eq, All,
}
use democrit.Proto.{Order}
use democrit.MyOrders.{
  Validator, Node, run_refresh, store_new, stripped, add_answered, add, try_lock, Call, run,
}
use democrit.MyOrders.Refresh.{accepts, refreshed, run_refresh-refreshed, then_pure-eq-ok}
use democrit.MyOrders.Invariant.{IsValid, lookup_above, Below-mono, insert-Below}
use democrit.MyOrders.Holding.{
  passing, lookup-passing, Keeps, AllReturn, run-Held, try_lock-offered, lock_found-locks,
}

add_answered-refreshed :
    (valid : Validator) (o : Order) (n n' : Node) (added : Bool)
    → add_answered valid (ok true) o n ≡ (ok added, n')
    → (added ≡ true) × (n' ≡ refreshed valid (record n { state = store_new o n.state }))
unfolding add_answered
add_answered-refreshed valid o n n' added e =
    let m = record n { state = store_new o n.state } in
    let (_, done, same) = then_pure-eq-ok (run_refresh valid) true added m n' e in
    (sym same, run_refresh-refreshed valid m n' done)

-- An `Add` that returns, with room for one more id: a valid order goes to the next free id, which no order had,
-- without account and id, if it is valid in that form too; the other orders stay as far as they are valid.
pub add-stores :
    (valid : Validator) (o : Order) (n n' : Node) (id : ℕ) (added : Bool)
    → n.state.next_free_id + 1 < u64_mod
    → IsValid n.state
    → valid.answer n.state.account o ≡ ok true
    → add valid o n ≡ (ok added, n')
    → (added ≡ true)
      × (lookup n.state.next_free_id n.state.own_orders ≡ none)
      × (n'.state.next_free_id ≡ n.state.next_free_id + 1)
      × (lookup id n'.state.own_orders
          ≡ passing (accepts valid n.state.account) (
              if n.state.next_free_id == id
              then some (stripped o)
              else lookup id n.state.own_orders))
unfolding add store_new
add-stores valid o n n' id added room h e done =
    let fresh =
      lookup_above n.state.next_free_id n.state.next_free_id n.state.own_orders h (omega arith) in
    let below =
      insert-Below (n.state.next_free_id + 1) n.state.next_free_id (stripped o) n.state.own_orders
        (omega arith) (Below-mono n.state.next_free_id _ n.state.own_orders (omega arith) h) in
    let stored = ap (λ r. add_answered valid r o n) (sym e) ∙ done in
    let (was_added, after) = add_answered-refreshed valid o n n' added stored in
    let counter = ap (λ m. m.state.next_free_id) after in
    (
      was_added,
      fresh,
      omega (arith, counter),
      ap (λ m. lookup id m.state.own_orders) after
          ∙ rw
              (
                lookup-passing (accepts valid n.state.account) id (n.state.next_free_id + 1)
                    (insert n.state.next_free_id (stripped o) n.state.own_orders) below,
                lookup-insert n.state.next_free_id id (stripped o) n.state.own_orders,
              )
              refl,
    )

-- Once an order has been locked, no call of `try_lock` for its id succeeds any more, whatever calls come in
-- between and return (new orders, cancellations, refreshes under any validity, other locks), as long as none of
-- them is an `unlock` of that id and the id counter has room for them.
pub try_lock-exclusive :
    (valid later : Validator) (id : ℕ) (n n' : Node) (out : Order) (cs : List Call)
    → IsValid n.state
    → n.state.next_free_id + length cs < u64_mod
    → try_lock valid id n ≡ (ok (some out), n')
    → All (Keeps id) cs
    → AllReturn cs n'
    → (try_lock later id (run cs n')).0 ≡ ok none
unfolding try_lock
try_lock-exclusive valid later id n n' out cs v room h k returned =
    let locked = lock_found-locks valid id (lookup id n.state.own_orders) n n' out refl v h in
    try_lock-offered later id (run cs n')
      (run-Held cs id n' (omega arith) locked.3 (omega arith) k returned locked.0)

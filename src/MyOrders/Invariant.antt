-- ===== src/MyOrders/Invariant.antt =====
-- The ids of the own orders (src/myorders.cpp) over the calls.
use democrit.Base.{
  ℕ, ◌+◌, ◌≤◌, ◌<◌, ◌≡◌, refl, sym, ap, Outcome, ok, rpc_error, fatal, inl, inr, Bool, true, false,
  Option, none, some, List, [], ◌∷◌, arith, Dict, lookup, insert, erase, length, Bool-cases,
  if◌then◌else◌, u64_mod, lookup-insert, lookup-erase, nat_eq,
}
use mathlib.Core.Path.{subst}
use democrit.Proto.{Order, State}
use democrit.MyOrders.{
  Validator, Node, keep, left_entry, left_orders, with_orders, run_refresh, store_new, stripped,
  add_answered, add, remove_by_id, lock_found, try_lock, unlock_found, unlock, set_order, Call,
  refreshes, adds, removes, locks, unlocks, attempt, run,
}
use democrit.MyOrders.Refresh.{accepts, run_refresh-holds, then_pure-state}

-- Every id of the dictionary is below the bound, and no id stands in it twice.
abbrev pub Below : ℕ → Dict ℕ Order → Type 0
Below n [] = Unit {0}
Below n ((id, o) ∷ d) = (id < n) × (lookup id d ≡ none) × Below n d

pub Below-mono : (m n : ℕ) (d : Dict ℕ Order) → m ≤ n → Below m d → Below n d
Below-mono m n [] h b = tt
Below-mono m n ((id, o) ∷ d) h b = (omega arith, b.1, Below-mono m n d h b.2)

pub lookup-keep-none :
    (p : Order → Bool) (id : ℕ) (d : Dict ℕ Order)
    → lookup id d ≡ none
    → lookup id (keep p d) ≡ none
unfolding keep
lookup-keep-none p id [] h = refl
lookup-keep-none p id ((j, o) ∷ d) h = ground (arith, lookup-keep-none p id d)

pub keep-Below : (p : Order → Bool) (n : ℕ) (d : Dict ℕ Order) → Below n d → Below n (keep p d)
unfolding keep
keep-Below p n [] b = tt
keep-Below p n ((id, o) ∷ d) b = ground (arith, keep-Below p n d b.2, lookup-keep-none p id d b.1)

pub lookup_above : (n id : ℕ) (d : Dict ℕ Order) → Below n d → n ≤ id → lookup id d ≡ none
lookup_above n id [] b h = refl
lookup_above n id ((j, o) ∷ d) b h = ground (arith, lookup_above n id d b.2)

pub insert-Below :
    (n id : ℕ) (o : Order) (d : Dict ℕ Order) → id < n → Below n d → Below n (insert id o d)
insert-Below n id o [] h b = (h, refl, tt)
insert-Below n id o ((j, w) ∷ d) h b =
    ground (arith, insert-Below n id o d h b.2, lookup-insert id j o d)

pub erase-Below : (n id : ℕ) (d : Dict ℕ Order) → Below n d → Below n (erase id d)
erase-Below n id [] b = tt
erase-Below n id ((j, w) ∷ d) b = ground (arith, erase-Below n id d b.2, lookup-erase id j d)

-- With distinct ids, an order is kept exactly if it passes the test.
pub lookup-keep :
    (p : Order → Bool) (id n : ℕ) (d : Dict ℕ Order)
    → Below n d
    → lookup id (keep p d)
      ≡ elim (lookup id d) [ none ↦ none | some o ↦ if p o then some o else none ]
unfolding keep
lookup-keep p id n [] b = refl
lookup-keep p id n ((j, o) ∷ d) b =
    ground (arith, lookup-keep p id n d b.2, lookup-keep-none p id d)

abbrev pub IsValid : State → Type 0
IsValid s = Below s.next_free_id s.own_orders

lookup-left_orders-none :
    (ask : Order → Outcome Bool) (moved : Order → Order) (id : ℕ) (d : Dict ℕ Order)
    → lookup id d ≡ none
    → lookup id (left_orders ask moved d) ≡ none
unfolding left_orders
lookup-left_orders-none ask moved id [] h = refl
lookup-left_orders-none ask moved id ((j, o) ∷ d) h =
    entry (ask o) (left_orders ask moved d) (λ k. lookup-left_orders-none ask moved id d k)
  where
    entry :
        (r : Outcome Bool) (rest : Dict ℕ Order)
        → (lookup id d ≡ none → lookup id rest ≡ none)
        → lookup id (left_entry r moved j o d rest) ≡ none
    entry (ok true) rest k = ground arith
    entry (ok false) rest k = ground arith
    entry rpc_error rest k = h
    entry fatal rest k = h

left_orders-Below :
    (ask : Order → Outcome Bool) (moved : Order → Order) (n : ℕ) (d : Dict ℕ Order)
    → Below n d
    → Below n (left_orders ask moved d)
unfolding left_orders
left_orders-Below ask moved n [] b = tt
left_orders-Below ask moved n ((id, o) ∷ d) b =
    entry (ask o) (left_orders ask moved d) (left_orders-Below ask moved n d b.2)
      (lookup-left_orders-none ask moved id d b.1)
  where
    entry :
        (r : Outcome Bool) (rest : Dict ℕ Order)
        → Below n rest
        → lookup id rest ≡ none
        → Below n (left_entry r moved id o d rest)
    entry (ok true) rest h e = (b.0, e, h)
    entry (ok false) rest h e = (b.0, e, h)
    entry rpc_error rest h e = b
    entry fatal rest h e = b

pub run_refresh-IsValid :
    (valid : Validator) (n : Node) → IsValid n.state → IsValid (run_refresh valid n).1.state
run_refresh-IsValid valid n h =
    run_refresh-holds (λ m. IsValid m.state) valid n
      (λ sent. keep-Below (accepts valid n.state.account) _ n.state.own_orders h)
      (left_orders-Below (valid.answer n.state.account) valid.moved_from _ n.state.own_orders h)

-- The id counter is that of before, however the refresh ends.
run_refresh-next :
    (valid : Validator) (n : Node)
    → (run_refresh valid n).1.state.next_free_id ≡ n.state.next_free_id
run_refresh-next valid n =
    run_refresh-holds (λ m. m.state.next_free_id ≡ n.state.next_free_id) valid n (λ sent. refl) refl

pub store_new-IsValid :
    (o : Order) (s : State) → s.next_free_id + 1 < u64_mod → IsValid s → IsValid (store_new o s)
unfolding store_new
store_new-IsValid o s room h =
    insert-Below _ s.next_free_id (stripped o) s.own_orders (omega arith)
      (Below-mono s.next_free_id _ s.own_orders (omega arith) h)

pub lookup-lt :
    (n id : ℕ) (d : Dict ℕ Order) (o : Order) → Below n d → lookup id d ≡ some o → id < n
lookup-lt n id [] o b e = cc
lookup-lt n id ((j, w) ∷ d) o b e = ground (arith, lookup-lt n id d o b.2)

pub set_order-IsValid :
    (id : ℕ) (o o' : Order) (n : Node)
    → lookup id n.state.own_orders ≡ some o'
    → IsValid n.state
    → IsValid (set_order id o n).state
unfolding set_order
set_order-IsValid id o o' n e h =
    insert-Below _ id o n.state.own_orders (lookup-lt _ id n.state.own_orders o' h e) h

add_answered-IsValid :
    (valid : Validator) (r : Outcome Bool) (o : Order) (n : Node)
    → n.state.next_free_id + 1 < u64_mod
    → IsValid n.state
    → IsValid (add_answered valid r o n).1.state
unfolding add_answered
add_answered-IsValid valid (ok true) o n room h =
    let m = record n { state = store_new o n.state } in
    subst (λ k. IsValid k.state) (sym (then_pure-state (run_refresh valid) true m))
      (run_refresh-IsValid valid m (store_new-IsValid o n.state room h))
add_answered-IsValid valid (ok false) o n room h = h
add_answered-IsValid valid rpc_error o n room h = h
add_answered-IsValid valid fatal o n room h = h

lock_found-IsValid :
    (valid : Validator) (id : ℕ) (found : Option Order) (n : Node)
    → lookup id n.state.own_orders ≡ found
    → IsValid n.state
    → IsValid (lock_found valid id found n).1.state
unfolding lock_found
lock_found-IsValid valid id none n e h = h
lock_found-IsValid valid id (some o) n e h = elim (Bool-cases o.locked) [
  | inl p ↦ rw (p, lock_found) h
  | inr p ↦
      rw
        (
          p,
          lock_found,
          then_pure-state (run_refresh valid) _ (set_order id (record o { locked = true }) n),
        )
        (run_refresh-IsValid valid (set_order id (record o { locked = true }) n)
          (set_order-IsValid id (record o { locked = true }) o n e h))
]

unlock_found-IsValid :
    (valid : Validator) (id : ℕ) (found : Option Order) (n : Node)
    → lookup id n.state.own_orders ≡ found
    → IsValid n.state
    → IsValid (unlock_found valid id found n).1.state
unfolding unlock_found
unlock_found-IsValid valid id none n e h = h
unlock_found-IsValid valid id (some o) n e h = elim (Bool-cases o.locked) [
  | inl p ↦
      rw (p, unlock_found)
        (run_refresh-IsValid valid (set_order id (record o { locked = false }) n)
          (set_order-IsValid id (record o { locked = false }) o n e h))
  | inr p ↦ rw (p, unlock_found) h
]

remove_by_id-IsValid :
    (valid : Validator) (id : ℕ) (n : Node)
    → IsValid n.state
    → IsValid (remove_by_id valid id n).1.state
unfolding remove_by_id
remove_by_id-IsValid valid id n h =
    run_refresh-IsValid valid (with_orders (erase id n.state.own_orders) n)
      (erase-Below n.state.next_free_id id n.state.own_orders h)

-- Every call keeps the ids distinct and below the next free one, while the counter has room.
pub attempt-IsValid :
    (c : Call) (n : Node)
    → n.state.next_free_id + 1 < u64_mod
    → IsValid n.state
    → IsValid (attempt c n).1.state
unfolding attempt add try_lock unlock
attempt-IsValid (refreshes valid) n room h = run_refresh-IsValid valid n h
attempt-IsValid (adds valid o) n room h =
    subst (λ k. IsValid k.state) (sym (then_pure-state (add valid o) tt n))
      (add_answered-IsValid valid (valid.answer n.state.account o) o n room h)
attempt-IsValid (removes valid id) n room h = remove_by_id-IsValid valid id n h
attempt-IsValid (locks valid id) n room h =
    subst (λ k. IsValid k.state) (sym (then_pure-state (try_lock valid id) tt n))
      (lock_found-IsValid valid id _ n refl h)
attempt-IsValid (unlocks valid id) n room h = unlock_found-IsValid valid id _ n refl h

lock_found-next :
    (valid : Validator) (id : ℕ) (found : Option Order) (n : Node)
    → (lock_found valid id found n).1.state.next_free_id ≡ n.state.next_free_id
unfolding lock_found
lock_found-next valid id none n = refl
lock_found-next valid id (some o) n = elim (Bool-cases o.locked) [
  | inl p ↦ rw (p, lock_found) refl
  | inr p ↦
      rw
        (
          p,
          lock_found,
          then_pure-state (run_refresh valid) _ (set_order id (record o { locked = true }) n),
        )
        (run_refresh-next valid (set_order id (record o { locked = true }) n))
]

unlock_found-next :
    (valid : Validator) (id : ℕ) (found : Option Order) (n : Node)
    → (unlock_found valid id found n).1.state.next_free_id ≡ n.state.next_free_id
unfolding unlock_found
unlock_found-next valid id none n = refl
unlock_found-next valid id (some o) n = elim (Bool-cases o.locked) [
  | inl p ↦
      rw (p, unlock_found) (run_refresh-next valid (set_order id (record o { locked = false }) n))
  | inr p ↦ rw (p, unlock_found) refl
]

add_answered-next :
    (valid : Validator) (r : Outcome Bool) (o : Order) (n : Node)
    → n.state.next_free_id + 1 < u64_mod
    → (n.state.next_free_id ≤ (add_answered valid r o n).1.state.next_free_id)
      × ((add_answered valid r o n).1.state.next_free_id ≤ n.state.next_free_id + 1)
unfolding add_answered store_new
add_answered-next valid (ok true) o n room =
    let m = record n { state = store_new o n.state } in
    let same = ap (λ k. k.state.next_free_id) (then_pure-state (run_refresh valid) true m) in
    let kept = run_refresh-next valid m in (omega (arith, same, kept), omega (arith, same, kept))
add_answered-next valid (ok false) o n room = (omega arith, omega arith)
add_answered-next valid rpc_error o n room = (omega arith, omega arith)
add_answered-next valid fatal o n room = (omega arith, omega arith)

-- One call takes one id at most, and gives none back.
pub attempt-next :
    (c : Call) (n : Node)
    → n.state.next_free_id + 1 < u64_mod
    → (n.state.next_free_id ≤ (attempt c n).1.state.next_free_id)
      × ((attempt c n).1.state.next_free_id ≤ n.state.next_free_id + 1)
unfolding attempt add try_lock unlock remove_by_id
attempt-next (refreshes valid) n room =
    let same = run_refresh-next valid n in (omega (arith, same), omega (arith, same))
attempt-next (adds valid o) n room =
    subst
      (λ k.
        (n.state.next_free_id ≤ k.state.next_free_id)
        × (k.state.next_free_id ≤ n.state.next_free_id + 1))
      (sym (then_pure-state (add valid o) tt n))
      (add_answered-next valid (valid.answer n.state.account o) o n room)
attempt-next (removes valid id) n room =
    let same = run_refresh-next valid (with_orders (erase id n.state.own_orders) n) in
    (omega (arith, same), omega (arith, same))
attempt-next (locks valid id) n room =
    let state = ap (λ k. k.state.next_free_id) (then_pure-state (try_lock valid id) tt n) in
    let same = lock_found-next valid id (lookup id n.state.own_orders) n in
    (omega (arith, state, same), omega (arith, state, same))
attempt-next (unlocks valid id) n room =
    let same = unlock_found-next valid id (lookup id n.state.own_orders) n in
    (omega (arith, same), omega (arith, same))

-- After any sequence of calls that fits the counter, the ids are distinct and below the next one, also where
-- calls have ended in an exception of a validation.
pub run-IsValid :
    (cs : List Call) (n : Node)
    → n.state.next_free_id + length cs < u64_mod
    → IsValid n.state
    → IsValid (run cs n).state
unfolding run
run-IsValid [] n room h = h
run-IsValid (c ∷ cs) n room h =
    let next = attempt-next c n (omega arith) in
    run-IsValid cs (attempt c n).1 (omega arith) (attempt-IsValid c n (omega arith) h)

-- ===== src/MyOrders/Holding.antt =====
-- The lock of an own order (src/myorders.cpp): once it is held, the calls but its release keep it so.
use democrit.Base.{
  ℕ, ◌+◌, ◌<◌, ◌≡◌, refl, sym, ap, inl, inr, Outcome, ok, rpc_error, fatal, ◌≢◌, Bool, true, false,
  not, Option, none, some, List, [], ◌∷◌, arith, Dict, lookup, insert, erase, length, Bool-cases,
  if◌then◌else◌, u64_mod, lookup-insert, lookup-erase, nat_eq, All,
}
use mathlib.Core.Path.{subst}
use democrit.Proto.{Order, State}
use democrit.MyOrders.{
  Validator, Node, keep, run_refresh, with_orders, store_new, stripped, add_answered, add,
  remove_by_id, set_order, try_lock, lock_found, unlock_found, unlock, Call, refreshes, adds,
  removes, locks, unlocks, attempt, run,
}
use democrit.MyOrders.Refresh.{accepts, run_refresh-refreshed, then_pure-eq-ok}
use democrit.MyOrders.Invariant.{
  Below, IsValid, lookup-keep, keep-Below, erase-Below, attempt-IsValid, attempt-next, lookup-lt,
  set_order-IsValid, store_new-IsValid,
}

-- What a refresh leaves of an entry.
abbrev pub passing : (Order → Bool) → Option Order → Option Order
passing p none = none
passing p (some o) = if p o then some o else none

pub lookup-passing :
    (p : Order → Bool) (id n : ℕ) (d : Dict ℕ Order)
    → Below n d
    → lookup id (keep p d) ≡ passing p (lookup id d)
lookup-passing p id n d b = ground (arith, lookup-keep p id n d b)

-- The unlocked part of an entry.
abbrev pub offered : Option Order → Option Order
offered = passing (λ o. not o.locked)

-- The order of the id cannot be taken: it is locked, or there is none.
abbrev pub Held : ℕ → State → Type 0
Held id s = offered (lookup id s.own_orders) ≡ none

keep-Held :
    (p : Order → Bool) (id n : ℕ) (d : Dict ℕ Order)
    → Below n d
    → offered (lookup id d) ≡ none
    → offered (lookup id (keep p d)) ≡ none
keep-Held p id n d b h = ground (arith, lookup-keep p id n d b)

-- `insert` of a held order, or at another id.
insert-Held :
    (id j : ℕ) (o : Order) (d : Dict ℕ Order)
    → ((j ≡ id) → o.locked ≡ true)
    → offered (lookup id d) ≡ none
    → offered (lookup id (insert j o d)) ≡ none
insert-Held id j o d held h = ground (arith, lookup-insert j id o d)

erase-Held :
    (id j : ℕ) (d : Dict ℕ Order)
    → offered (lookup id d) ≡ none
    → offered (lookup id (erase j d)) ≡ none
erase-Held id j d h = ground (arith, lookup-erase j id d)

-- The call is no release of the id.
abbrev pub Keeps : ℕ → Call → Type 0
Keeps id (unlocks valid j) = j ≢ id
Keeps id _ = Unit

run_refresh-Held :
    (valid : Validator) (id : ℕ) (n n' : Node)
    → IsValid n.state
    → Held id n.state
    → run_refresh valid n ≡ (ok tt, n')
    → Held id n'.state
run_refresh-Held valid id n n' v h done =
    subst (λ m. Held id m.state) (sym (run_refresh-refreshed valid n n' done))
      (keep-Held (accepts valid n.state.account) id n.state.next_free_id n.state.own_orders v h)

lock_found-Held :
    (valid : Validator) (j id : ℕ) (found out : Option Order) (n n' : Node)
    → lookup j n.state.own_orders ≡ found
    → IsValid n.state
    → Held id n.state
    → lock_found valid j found n ≡ (ok out, n')
    → Held id n'.state
unfolding lock_found
lock_found-Held valid j id none out n n' e v h done =
    subst (λ m. Held id m.state) (ap (λ r. r.1) done) h
lock_found-Held valid j id (some o) out n n' e v h done = elim (Bool-cases o.locked) [
  | inl p ↦ subst (λ m. Held id m.state) (ap (λ r. r.1) (rw (p, lock_found) at done)) h
  | inr p ↦
      let m = set_order j (record o { locked = true }) n in
      let (_, fresh, _) =
        then_pure-eq-ok (run_refresh valid) _ out m n' (rw (p, lock_found) at done) in
      run_refresh-Held valid id m n' (set_order-IsValid j (record o { locked = true }) o n e v)
        (insert-Held id j (record o { locked = true }) n.state.own_orders (λ _. refl) h) fresh
]

unlock_found-Held :
    (valid : Validator) (j id : ℕ) (found : Option Order) (n n' : Node)
    → j ≢ id
    → lookup j n.state.own_orders ≡ found
    → IsValid n.state
    → Held id n.state
    → unlock_found valid j found n ≡ (ok tt, n')
    → Held id n'.state
unfolding unlock_found
unlock_found-Held valid j id none n n' other e v h done = cc done
unlock_found-Held valid j id (some o) n n' other e v h done = elim (Bool-cases o.locked) [
  | inl p ↦
      run_refresh-Held valid id (set_order j (record o { locked = false }) n) n'
        (set_order-IsValid j (record o { locked = false }) o n e v)
        (insert-Held id j (record o { locked = false }) n.state.own_orders (λ q. absurd (other q))
          h)
        (rw (p, unlock_found) at done)
  | inr p ↦ cc (rw (p, unlock_found) at done)
]

add_answered-Held :
    (valid : Validator) (r : Outcome Bool) (o : Order) (id : ℕ) (n n' : Node) (added : Bool)
    → n.state.next_free_id + 1 < u64_mod
    → IsValid n.state
    → id < n.state.next_free_id
    → Held id n.state
    → add_answered valid r o n ≡ (ok added, n')
    → Held id n'.state
unfolding add_answered store_new
add_answered-Held valid (ok true) o id n n' added room v old h done =
    let m = record n { state = store_new o n.state } in
    let (_, fresh, _) = then_pure-eq-ok (run_refresh valid) true added m n' done in
    run_refresh-Held valid id m n' (store_new-IsValid o n.state room v)
      (insert-Held id n.state.next_free_id (stripped o) n.state.own_orders
        (λ q. absurd (omega arith)) h)
      fresh
add_answered-Held valid (ok false) o id n n' added room v old h done =
    subst (λ m. Held id m.state) (ap (λ r. r.1) done) h
add_answered-Held valid rpc_error o id n n' added room v old h done = cc done
add_answered-Held valid fatal o id n n' added room v old h done = cc done

attempt-Held :
    (c : Call) (id : ℕ) (n n' : Node)
    → n.state.next_free_id + 1 < u64_mod
    → IsValid n.state
    → id < n.state.next_free_id
    → Keeps id c
    → Held id n.state
    → attempt c n ≡ (ok tt, n')
    → Held id n'.state
unfolding attempt add try_lock unlock remove_by_id
attempt-Held (refreshes valid) id n n' room v old k h done = run_refresh-Held valid id n n' v h done
attempt-Held (adds valid o) id n n' room v old k h done =
    let (added, answered, _) = then_pure-eq-ok (add valid o) tt tt n n' done in
    add_answered-Held valid (valid.answer n.state.account o) o id n n' added room v old h answered
attempt-Held (removes valid j) id n n' room v old k h done =
    run_refresh-Held valid id (with_orders (erase j n.state.own_orders) n) n'
      (erase-Below n.state.next_free_id j n.state.own_orders v)
      (erase-Held id j n.state.own_orders h) done
attempt-Held (locks valid j) id n n' room v old k h done =
    let (out, found, _) = then_pure-eq-ok (try_lock valid j) tt tt n n' done in
    lock_found-Held valid j id _ out n n' refl v h found
attempt-Held (unlocks valid j) id n n' room v old k h done =
    unlock_found-Held valid j id _ n n' k refl v h done

-- Each of the calls returns, from the state that those before it have left.
abbrev pub AllReturn : List Call → Node → Type 0
AllReturn [] n = Unit
AllReturn (c ∷ cs) n = ((attempt c n).0 ≡ ok tt) × AllReturn cs (attempt c n).1

pub run-Held :
    (cs : List Call) (id : ℕ) (n : Node)
    → n.state.next_free_id + length cs < u64_mod
    → IsValid n.state
    → id < n.state.next_free_id
    → All (Keeps id) cs
    → AllReturn cs n
    → Held id n.state
    → Held id (run cs n).state
unfolding run
run-Held [] id n room v old k returned h = h
run-Held (c ∷ cs) id n room v old k returned h =
    let next = attempt-next c n (omega arith) in
    run-Held cs id (attempt c n).1 (omega arith) (attempt-IsValid c n (omega arith) v) (omega arith)
      k.1 returned.1
      (attempt-Held c id n (attempt c n).1 (omega arith) v old k.0 h
        (λ i. (returned.0 i, (attempt c n).1)))

-- A held order is not given out.
lock_found-offered :
    (valid : Validator) (id : ℕ) (found : Option Order) (n : Node)
    → offered found ≡ none
    → (lock_found valid id found n).0 ≡ ok none
unfolding lock_found
lock_found-offered valid id none n h = refl
lock_found-offered valid id (some o) n h = elim (Bool-cases o.locked) [
  | inl p ↦ rw (p, lock_found) refl
  | inr p ↦ cc (rw p at h)
]

pub try_lock-offered :
    (valid : Validator) (id : ℕ) (n : Node) → Held id n.state → (try_lock valid id n).0 ≡ ok none
unfolding try_lock
try_lock-offered valid id n h = lock_found-offered valid id (lookup id n.state.own_orders) n h

pub lock_found-locks :
    (valid : Validator) (id : ℕ) (found : Option Order) (n n' : Node) (out : Order)
    → lookup id n.state.own_orders ≡ found
    → IsValid n.state
    → lock_found valid id found n ≡ (ok (some out), n')
    → Held id n'.state
      × (id < n.state.next_free_id)
      × (n'.state.next_free_id ≡ n.state.next_free_id)
      × IsValid n'.state
unfolding lock_found
lock_found-locks valid id none n n' out e v done = cc done
lock_found-locks valid id (some o) n n' out e v done = elim (Bool-cases o.locked) [
  | inl p ↦ cc (rw (p, lock_found) at done)
  | inr p ↦
      let m = set_order id (record o { locked = true }) n in
      let below = set_order-IsValid id (record o { locked = true }) o n e v in
      let (_, fresh, _) =
        then_pure-eq-ok (run_refresh valid) _ _ m n' (rw (p, lock_found) at done) in
      let after = run_refresh-refreshed valid m n' fresh in
      let q = accepts valid n.state.account in
      (
        run_refresh-Held valid id m n' below
            (rw (lookup-insert id id (record o { locked = true }) n.state.own_orders)
              (ground arith))
            fresh,
        lookup-lt n.state.next_free_id id n.state.own_orders o v e,
        ap (λ k. k.state.next_free_id) after,
        subst (λ k. IsValid k.state) (sym after) (keep-Below q n.state.next_free_id _ below),
      )
]

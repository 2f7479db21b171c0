-- ===== src/Daemon/OwnOrders.antt =====
-- The own orders of src/myorders.cpp under the validation of src/daemon.cpp can always be printed.
use democrit.Base.{
  ap, Outcome, rpc_error, fatal, ℕ, ◌≡◌, refl, sym, inl, inr, Bool, true, false, Bool-cases, Option,
  none, some, List, [], ◌∷◌, All, Text, Dict, erase, nat_eq, ok, and_then-some,
}
use mathlib.Core.Path.{subst}
use democrit.Json.{Json}
use democrit.Proto.{Order}
use democrit.Env.{Env}
use democrit.MyOrders.{
  Validator, Node, keep, internal_get_orders, get_orders, run_refresh, store_new, add_answered, add,
  remove_by_id, with_orders, set_order, lock_found, try_lock, unlock_found, unlock, Call, refreshes,
  adds, removes, locks, unlocks, attempt, run,
}
use democrit.MyOrders.Refresh.{accepts, says_yes, run_refresh-refreshed, then_pure-eq-ok}
use democrit.MyOrders.Holding.{AllReturn}
use democrit.ProtoJson.{orders_by_id, orders_of_account_to_json}
use democrit.Daemon.{validate_order}
use democrit.Daemon.Validity.{EachOrder, validate_order-accepts}
use democrit.Daemon.Books.{HasUnits}
use democrit.Daemon.Serving.{order_to_json-prints}

-- `MyOrdersImpl::ValidateOrder`: what the answers lets through, the daemon has in some state of the world.
abbrev pub IsOfDaemon : {W : Type 0} → Env W → Validator → Type 0
IsOfDaemon {W = W} env valid =
    (account : Text) (o : Order)
    → valid.answer account o ≡ ok true
    → (w : W) × (w' : W) × (validate_order env account o w ≡ (ok true, w'))

abbrev pub validator_of : Call → Validator
validator_of (refreshes valid) = valid
validator_of (adds valid o) = valid
validator_of (removes valid id) = valid
validator_of (locks valid id) = valid
validator_of (unlocks valid id) = valid

keep-EachOrder :
    (P : Order → Type 0) (p : Order → Bool) (d : Dict ℕ Order)
    → ((o : Order) → p o ≡ true → P o)
    → EachOrder P (keep p d)
unfolding keep
keep-EachOrder P p [] h = tt
keep-EachOrder P p ((id, o) ∷ d) h = elim (Bool-cases (p o)) [
  | inl kept ↦ rw kept (h o kept, keep-EachOrder P p d h)
  | inr dropped ↦ rw dropped (keep-EachOrder P p d h)
]

keep_all :
    (P : Order → Type 0) (d : Dict ℕ Order) → EachOrder P d → EachOrder P (keep (λ o. true) d)
unfolding keep
keep_all P [] h = tt
keep_all P ((id, o) ∷ d) h = (h.0, keep_all P d h.1)

orders_by_id-prints :
    (os : Dict ℕ Order) (by_id : Dict ℕ Json)
    → EachOrder HasUnits os
    → (result : Dict ℕ Json) × (orders_by_id os by_id ≡ some result)
unfolding orders_by_id
orders_by_id-prints [] by_id h = (by_id, refl)
orders_by_id-prints ((id, o) ∷ os) by_id h =
    let (cur, one) = order_to_json-prints o h.0 in
    let (result, rest) = orders_by_id-prints os _ h.1 in (result, and_then-some _ one rest)

module _ {W : Type 0} (env : Env W) where
  accepted-HasUnits :
      (valid : Validator) (account : Text) (o : Order) (r : Outcome Bool)
      → IsOfDaemon env valid
      → valid.answer account o ≡ r
      → says_yes r ≡ true
      → HasUnits o
  accepted-HasUnits valid account o (ok true) of_daemon e accepted =
      let (w, w', validated) = of_daemon account o e in
      (validate_order-accepts env account o w w' validated).0
  accepted-HasUnits valid account o (ok false) of_daemon e refused = absurd (cc refused)
  accepted-HasUnits valid account o rpc_error of_daemon e refused = absurd (cc refused)
  accepted-HasUnits valid account o fatal of_daemon e refused = absurd (cc refused)

  -- Any refresh that returns leaves valid orders only.
  run_refresh-HasUnits :
      (valid : Validator) (n n' : Node)
      → IsOfDaemon env valid
      → run_refresh valid n ≡ (ok tt, n')
      → EachOrder HasUnits n'.state.own_orders
  run_refresh-HasUnits valid n n' of_daemon done =
      subst (λ m. EachOrder HasUnits m.state.own_orders)
        (sym (run_refresh-refreshed valid n n' done))
        (keep-EachOrder HasUnits (accepts valid n.state.account) n.state.own_orders
          λ o accepted. accepted-HasUnits valid n.state.account o _ of_daemon refl accepted)

  lock_found-HasUnits :
      (valid : Validator) (id : ℕ) (found out : Option Order) (n n' : Node)
      → IsOfDaemon env valid
      → EachOrder HasUnits n.state.own_orders
      → lock_found valid id found n ≡ (ok out, n')
      → EachOrder HasUnits n'.state.own_orders
  unfolding lock_found
  lock_found-HasUnits valid id none out n n' of_daemon h done =
      subst (λ m. EachOrder HasUnits m.state.own_orders) (ap (λ r. r.1) done) h
  lock_found-HasUnits valid id (some o) out n n' of_daemon h done = elim (Bool-cases o.locked) [
    | inl locked ↦
        subst (λ m. EachOrder HasUnits m.state.own_orders)
          (ap (λ r. r.1) (rw (locked, lock_found) at done)) h
    | inr free ↦
        let m = set_order id (record o { locked = true }) n in
        let (_, fresh, _) =
          then_pure-eq-ok (run_refresh valid) _ out m n' (rw (free, lock_found) at done) in
        run_refresh-HasUnits valid m n' of_daemon fresh
  ]

  unlock_found-HasUnits :
      (valid : Validator) (id : ℕ) (found : Option Order) (n n' : Node)
      → IsOfDaemon env valid
      → unlock_found valid id found n ≡ (ok tt, n')
      → EachOrder HasUnits n'.state.own_orders
  unfolding unlock_found
  unlock_found-HasUnits valid id none n n' of_daemon done = cc done
  unlock_found-HasUnits valid id (some o) n n' of_daemon done = elim (Bool-cases o.locked) [
    | inl locked ↦
        run_refresh-HasUnits valid (set_order id (record o { locked = false }) n) n' of_daemon
          (rw (locked, unlock_found) at done)
    | inr free ↦ cc (rw (free, unlock_found) at done)
  ]

  add_answered-HasUnits :
      (valid : Validator) (r : Outcome Bool) (o : Order) (n n' : Node) (added : Bool)
      → IsOfDaemon env valid
      → EachOrder HasUnits n.state.own_orders
      → add_answered valid r o n ≡ (ok added, n')
      → EachOrder HasUnits n'.state.own_orders
  unfolding add_answered
  add_answered-HasUnits valid (ok true) o n n' added of_daemon h done =
      let m = record n { state = store_new o n.state } in
      let (_, fresh, _) = then_pure-eq-ok (run_refresh valid) true added m n' done in
      run_refresh-HasUnits valid m n' of_daemon fresh
  add_answered-HasUnits valid (ok false) o n n' added of_daemon h done =
      subst (λ m. EachOrder HasUnits m.state.own_orders) (ap (λ r. r.1) done) h
  add_answered-HasUnits valid rpc_error o n n' added of_daemon h done = cc done
  add_answered-HasUnits valid fatal o n n' added of_daemon h done = cc done

  attempt-HasUnits :
      (c : Call) (n n' : Node)
      → IsOfDaemon env (validator_of c)
      → EachOrder HasUnits n.state.own_orders
      → attempt c n ≡ (ok tt, n')
      → EachOrder HasUnits n'.state.own_orders
  unfolding attempt add remove_by_id try_lock unlock
  attempt-HasUnits (refreshes valid) n n' of_daemon h done =
      run_refresh-HasUnits valid n n' of_daemon done
  attempt-HasUnits (adds valid o) n n' of_daemon h done =
      let (added, answered, _) = then_pure-eq-ok (add valid o) tt tt n n' done in
      add_answered-HasUnits valid (valid.answer n.state.account o) o n n' added of_daemon h answered
  attempt-HasUnits (removes valid id) n n' of_daemon h done =
      run_refresh-HasUnits valid (with_orders (erase id n.state.own_orders) n) n' of_daemon done
  attempt-HasUnits (locks valid id) n n' of_daemon h done =
      let (out, found, _) = then_pure-eq-ok (try_lock valid id) tt tt n n' done in
      lock_found-HasUnits valid id _ out n n' of_daemon h found
  attempt-HasUnits (unlocks valid id) n n' of_daemon h done =
      unlock_found-HasUnits valid id _ n n' of_daemon done

  run-HasUnits :
      (cs : List Call) (n : Node)
      → All (λ c. IsOfDaemon env (validator_of c)) cs
      → AllReturn cs n
      → EachOrder HasUnits n.state.own_orders
      → EachOrder HasUnits (run cs n).state.own_orders
  unfolding run
  run-HasUnits [] n of_daemon returned h = h
  run-HasUnits (c ∷ cs) n of_daemon returned h =
      run-HasUnits cs (attempt c n).1 of_daemon.1 returned.1
        (attempt-HasUnits c n (attempt c n).1 of_daemon.0 h (λ i. (returned.0 i, (attempt c n).1)))

  -- The own orders can be printed after any calls that return, from a node without own orders, if the answers
  -- of the validation are the daemon's: the call for them fails no `CHECK`, also with orders that are locked.
  -- Nothing is said of calls that an exception of the validation has ended.
  pub run-prints :
      (cs : List Call) (n : Node)
      → n.state.own_orders ≡ []
      → All (λ c. IsOfDaemon env (validator_of c)) cs
      → AllReturn cs n
      → (j : Json) × (orders_of_account_to_json (get_orders (run cs n).state) ≡ some j)
  unfolding orders_of_account_to_json get_orders internal_get_orders
  run-prints cs n empty of_daemon returned =
      let own = run-HasUnits cs n of_daemon returned (subst (EachOrder HasUnits) (sym empty) tt) in
      let (by_id, printed) =
        orders_by_id-prints (keep (λ o. true) (run cs n).state.own_orders) []
          (keep_all HasUnits (run cs n).state.own_orders own) in
      (_, and_then-some _ printed refl)

-- ===== src/Daemon/Broadcasts.antt =====
-- `HandleMessage` of src/daemon.cpp: what a broadcast of orders does to the order book.
use democrit.Base.{
  ℕ, ◌≡◌, ◌≢◌, ◌↔◌, refl, ap, ◌∙◌, inl, inr, Bool, true, false, ◌&&◌, Bool-cases, Option, none,
  some, List, [], ◌∷◌, Text, Dict, lookup, lookup-insert, lookup-erase, text_eq, str_eq, has,
  and_true, if◌then◌else◌, Outcome, ok, fatal, ◌>>=◌,
}
use democrit.Proto.{Order, OrdersOfAccount}
use democrit.Env.{Env}
use democrit.Authenticator.{Jid, authenticate}
use democrit.OrderBook.{AccountOrders, OrderBook, all_complete, store_update, update_orders}
use democrit.Daemon.{
  Daemon, on_world, on_book, authenticated, valid_orders, receive_orders, handle_muc_message,
}
use democrit.Daemon.Validity.{EachOrder, validate_order-accepts, valid_orders-EachOrder}

-- The validation does not ask for these two fields.
abbrev pub HasKind : Order → Type 0
HasKind o = (has o.asset ≡ true) × (has o.order_type ≡ true)

all_complete-HasKind :
    (os : Dict ℕ Order)
    → EachOrder (λ o. has o.price_sat ≡ true) os
    → (all_complete os ≡ true) ↔ EachOrder HasKind os
unfolding all_complete
all_complete-HasKind [] h = ((λ e. tt), (λ e. refl))
all_complete-HasKind ((id, o) ∷ os) h =
    let (there, back) = all_complete-HasKind os h.1 in
    (
      (λ e.
          let (one, rest) =
            and_true (has o.asset && has o.order_type && has o.price_sat) (all_complete os) e in
          let (kind, _) = and_true (has o.asset && has o.order_type) (has o.price_sat) one in
          (and_true (has o.asset) (has o.order_type) kind, there rest)),
      (λ k. rw (k.0.0, k.0.1, h.0, back k.1) refl),
    )

-- What the order book then has for the account.
abbrev pub listed_as : ℕ → Dict ℕ Order → Option AccountOrders
listed_as now [] = none
listed_as now (e ∷ os) = some (record { orders = e ∷ os; last_update = now })

store_update-lookup :
    (now : ℕ) (by : Text) (os : Dict ℕ Order) (b : OrderBook) (account : Text)
    → lookup account (store_update now by os b).orders
      ≡ (if str_eq by account then listed_as now os else lookup account b.orders)
unfolding store_update
store_update-lookup now by [] b account = lookup-erase by account b.orders
store_update-lookup now by (e ∷ os) b account =
    lookup-insert by account (record { orders = e ∷ os; last_update = now }) b.orders

module _ {W : Type 0} (env : Env W) (servers : List Text) (now : ℕ) where
  -- The result of the handler, when the sender is authentic and the validation answers.
  handle_muc_message-result :
      (sender : Jid) (pb : OrdersOfAccount) (d : Daemon W) (by : Text) (known : Dict Text Jid)
      (kept : Dict ℕ Order) (w : W)
      → authenticate servers sender d.known_jids ≡ (some by, known)
      → valid_orders env by pb.orders d.manager.world ≡ (ok kept, w)
      → let r = handle_muc_message env servers now sender (some pb) d in
        (r.0 ≡ (if all_complete kept then ok tt else fatal))
        × (r.1.all_orders
            ≡ (if all_complete kept then store_update now by kept d.all_orders else d.all_orders))
  unfolding handle_muc_message authenticated receive_orders on_world on_book update_orders ◌>>=◌
  handle_muc_message-result sender pb d by known kept w known_as filtered =
      elim (Bool-cases (all_complete kept)) [
        | inl complete ↦ rw (known_as, filtered, complete) (refl, refl)
        | inr partly ↦ rw (known_as, filtered, partly) (refl, refl)
      ]

  ok_iff :
      {r : Outcome (Unit {0})} (b : Bool)
      → r ≡ (if b then ok tt else fatal)
      → (r ≡ ok tt) ↔ (b ≡ true)
  ok_iff true e = ((λ _. refl), (λ _. e))
  ok_iff false e = ((λ k. cc (e, k)), (λ k. cc k))

  -- A broadcast of an authentic sender, when the validation answers: the handler goes through if and only
  -- if every order that is let through names its asset and its type, and a failed `CHECK` ends the process
  -- otherwise. After it, the account of the sender has in the order book just the orders that were let
  -- through, none if there are none, and the entries of all others are as before.
  pub handle_muc_message-lists :
      (sender : Jid) (pb : OrdersOfAccount) (d : Daemon W) (by : Text) (known : Dict Text Jid)
      (kept : Dict ℕ Order) (w : W)
      → authenticate servers sender d.known_jids ≡ (some by, known)
      → valid_orders env by pb.orders d.manager.world ≡ (ok kept, w)
      → let r = handle_muc_message env servers now sender (some pb) d in
        ((r.0 ≡ ok tt) ↔ EachOrder HasKind kept)
        × ((r.0 ≢ ok tt) → r.0 ≡ fatal)
        × ((r.0 ≡ ok tt)
            → (account : Text)
            → lookup account r.1.all_orders.orders ≡ (
                if str_eq by account
                then listed_as now kept
                else lookup account d.all_orders.orders))
  handle_muc_message-lists sender pb d by known kept w known_as filtered =
      let (outcome, book) =
        handle_muc_message-result sender pb d by known kept w known_as filtered in
      let done = ok_iff (all_complete kept) outcome in
      let kinds = all_complete-HasKind kept (
        valid_orders-EachOrder env (λ o. has o.price_sat ≡ true) by
          (λ o w w' accepted. (validate_order-accepts env by o w w' accepted).1) pb.orders
          d.manager.world w filtered) in
      (
        ((λ e. kinds.0 (done.0 e)), (λ k. done.1 (kinds.1 k))),
        (λ other. elim (Bool-cases (all_complete kept)) [
          | inl complete ↦ absurd (other (done.1 complete))
          | inr partly ↦ rw partly at outcome
        ]),
        (λ e account.
            let stored = rw (done.0 e) at book in
            ap (λ b. lookup account b.orders) stored
            ∙ store_update-lookup now by kept d.all_orders account),
      )

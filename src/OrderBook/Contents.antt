-- ===== src/OrderBook/Contents.antt =====
-- What holds of every entry of the order book (src/orderbook.cpp) holds after its updates and time-outs.
use democrit.Base.{
  ℕ, ◌≡◌, refl, inl, inr, Bool, true, false, Bool-cases, Option, none, some, List, [], ◌∷◌, All,
  Text, Dict, lookup, insert, erase, text_eq, str_eq, str_eq_iff, sym, ◌≢◌, if◌then◌else◌, Outcome,
  ok, fatal,
}
use mathlib.Core.Path.{subst}
use democrit.Proto.{Order, OrdersOfAccount}
use democrit.OrderBook.{
  AccountOrders, UpdateEvent, OrderBook, is_stale, drop_found, drop_stale, expire, run_timeout,
  all_complete, store_update, update_orders,
}

-- Every entry of a map from strings has the property, together with its key.
abbrev pub EachBy : {V : Type 0} → (Text → V → Type 0) → Dict Text V → Type 0
EachBy P d = All (λ e. P e.0 e.1) d

-- The same without the key.
abbrev pub Each : {V : Type 0} → (V → Type 0) → Dict Text V → Type 0
Each P d = All (λ e. P e.1) d

module _ {V : Type 0} (P : Text → V → Type 0) where
  pub erase-Each : (key : Text) (d : Dict Text V) → EachBy P d → EachBy P (erase key d)
  erase-Each key [] h = tt
  erase-Each key ((j, v) ∷ d) h = elim (Bool-cases (str_eq j key)) [
    | inl same ↦ rw same (erase-Each key d h.1)
    | inr other ↦ rw other (h.0, erase-Each key d h.1)
  ]

  pub insert-Each :
      (key : Text) (v : V) (d : Dict Text V) → P key v → EachBy P d → EachBy P (insert key v d)
  insert-Each key v [] h hs = (h, tt)
  insert-Each key v ((j, w) ∷ d) h hs = elim (Bool-cases (str_eq j key)) [
    | inl same ↦ rw same (subst (λ k. P k v) (sym ((str_eq_iff j key).0 same)) h, hs.1)
    | inr other ↦ rw other (hs.0, insert-Each key v d h hs.1)
  ]

  pub lookup-Each :
      (key : Text) (d : Dict Text V) {v : V} → lookup key d ≡ some v → EachBy P d → P key v
  lookup-Each key [] e h = cc
  lookup-Each key ((j, w) ∷ d) {v} e h = elim (Bool-cases (str_eq j key)) [
    | inl same ↦
        let found : ◌≡◌ {A = Option V} (some w) (some v) = rw same at e in
        let same_value : w ≡ v = cc found in
        subst (λ k. P k v) ((str_eq_iff j key).0 same) (subst (P j) same_value h.0)
    | inr other ↦ lookup-Each key d (rw other at e) h.1
  ]

module _ (P : Text → AccountOrders → Type 0) where
  drop_found-Each :
      (timeout now : ℕ) (account : Text) (found : Option AccountOrders)
      (orders : Dict Text AccountOrders)
      → EachBy P orders
      → EachBy P (drop_found timeout now account found orders)
  unfolding drop_found
  drop_found-Each timeout now account none orders h = h
  drop_found-Each timeout now account (some a) orders h =
      elim (Bool-cases (is_stale timeout now a.last_update)) [
        | inl stale ↦ rw stale (erase-Each P account orders h)
        | inr fresh ↦ rw fresh h
      ]

  expire-Each :
      (timeout now : ℕ) (es : List UpdateEvent) (orders : Dict Text AccountOrders)
      → EachBy P orders
      → EachBy P (expire timeout now es orders).1
  unfolding expire drop_stale
  expire-Each timeout now [] orders h = h
  expire-Each timeout now (e ∷ es) orders h = elim (Bool-cases (is_stale timeout now e.time)) [
    | inr fresh ↦ rw fresh h
    | inl stale ↦ rw stale (
        expire-Each timeout now es (drop_stale timeout now e.account orders)
          (drop_found-Each timeout now e.account (lookup e.account orders) orders h))
  ]

  pub run_timeout-Each :
      (timeout now : ℕ) (b : OrderBook)
      → EachBy P b.orders
      → EachBy P (run_timeout timeout now b).orders
  unfolding run_timeout
  run_timeout-Each timeout now b h = expire-Each timeout now b.updates b.orders h

  store_update-Each :
      (now : ℕ) (account : Text) (os : Dict ℕ Order) (b : OrderBook)
      → (os ≢ [] → P account (record { orders = os; last_update = now }))
      → EachBy P b.orders
      → EachBy P (store_update now account os b).orders
  unfolding store_update
  store_update-Each now account [] b k h = erase-Each P account b.orders h
  store_update-Each now account (entry ∷ entries) b k h =
      insert-Each P account (record { orders = entry ∷ entries; last_update = now }) b.orders
        (k (λ e. cc e)) h

  -- The new entry needs the property only where there are orders, which pass the checks.
  pub update_orders-Each :
      (now : ℕ) (upd : OrdersOfAccount) (b : OrderBook)
      → ((account : Text)
          → upd.account ≡ some account
          → all_complete upd.orders ≡ true
          → upd.orders ≢ []
          → P account (record { orders = upd.orders; last_update = now }))
      → EachBy P b.orders
      → EachBy P (update_orders now upd b).1.orders
  unfolding update_orders
  update_orders-Each now upd b k h = checked_update upd.account (all_complete upd.orders) refl refl
    where
      checked_update :
          (by : Option Text) (complete : Bool)
          → upd.account ≡ by
          → all_complete upd.orders ≡ complete
          → EachBy P
              (elim by as (λ _. Outcome (Unit {0}) × OrderBook) [
                | none ↦ (fatal, b)
                | some account ↦
                    if complete then (ok tt, store_update now account upd.orders b) else (fatal, b)
              ]).1.orders
      checked_update none complete from e = h
      checked_update (some account) true from e =
          store_update-Each now account upd.orders b (k account from e) h
      checked_update (some account) false from e = h

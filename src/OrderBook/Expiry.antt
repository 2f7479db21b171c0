-- ===== src/OrderBook/Expiry.antt =====
-- The time-out of accounts by the queue of updates, in src/orderbook.cpp.
use democrit.Base.{
  ℕ, ◌+◌, ◌≤◌, ◌≡◌, ◌⊎◌, refl, sym, ap, ◌∙◌, inl, inr, true, false, Bool-cases, Option, none, some,
  List, [], ◌∷◌, All, Text, Dict, lookup, lookup-erase, text_eq, str_eq, str_eq_iff, ltb,
  if◌then◌else◌, Option-cases, arith,
}
use democrit.OrderBook.{
  AccountOrders, UpdateEvent, OrderBook, is_stale, drop_found, drop_stale, expire, run_timeout,
}

-- The queue is in the order of time.
abbrev pub Ordered : List UpdateEvent → Type 0
Ordered [] = Unit {0}
Ordered (e ∷ es) = All (λ x. e.time ≤ x.time) es × Ordered es

-- The update of the account at that time is in the queue.
abbrev pub Queued : Text → ℕ → List UpdateEvent → Type 0
Queued account time [] = ⊥
Queued account time (e ∷ es) = ((e.account ≡ account) × (e.time ≡ time)) ⊎ Queued account time es

Queued-time :
    (t : ℕ) (account : Text) (time : ℕ) (es : List UpdateEvent)
    → All (λ x. t ≤ x.time) es
    → Queued account time es
    → t ≤ time
Queued-time t account time [] h q = absurd q
Queued-time t account time (e ∷ es) h (inl q) = omega (arith, h.0, q.1)
Queued-time t account time (e ∷ es) h (inr q) = Queued-time t account time es h.1 q

module _ (timeout now : ℕ) where
  lookup-drop_found-none :
      (account by : Text) (found : Option AccountOrders) (os : Dict Text AccountOrders)
      → lookup account os ≡ none
      → lookup account (drop_found timeout now by found os) ≡ none
  unfolding drop_found
  lookup-drop_found-none account by none os h = h
  lookup-drop_found-none account by (some a) os h =
      elim (Bool-cases (is_stale timeout now a.last_update)) [
        | inr fresh ↦ rw fresh h
        | inl stale ↦ rw (stale, lookup-erase by account os, h) (ground arith)
      ]

  lookup-drop_stale-none :
      (account by : Text) (os : Dict Text AccountOrders)
      → lookup account os ≡ none
      → lookup account (drop_stale timeout now by os) ≡ none
  unfolding drop_stale
  lookup-drop_stale-none account by os h = lookup-drop_found-none account by (lookup by os) os h

  lookup-expire-none :
      (account : Text) (es : List UpdateEvent) (os : Dict Text AccountOrders)
      → lookup account os ≡ none
      → lookup account (expire timeout now es os).1 ≡ none
  unfolding expire
  lookup-expire-none account [] os h = h
  lookup-expire-none account (e ∷ es) os h = elim (Bool-cases (is_stale timeout now e.time)) [
    | inr fresh ↦ rw fresh h
    | inl stale ↦ rw stale (
        lookup-expire-none account es (drop_stale timeout now e.account os)
          (lookup-drop_stale-none account e.account os h))
  ]

  lookup-drop_found-other :
      (account by : Text) (found : Option AccountOrders) (os : Dict Text AccountOrders)
      → str_eq by account ≡ false
      → lookup account (drop_found timeout now by found os) ≡ lookup account os
  unfolding drop_found
  lookup-drop_found-other account by none os other = refl
  lookup-drop_found-other account by (some a) os other =
      elim (Bool-cases (is_stale timeout now a.last_update)) [
        | inr fresh ↦ rw fresh refl
        | inl stale ↦ rw (stale, lookup-erase by account os, other) refl
      ]

  drop_found-fresh :
      (by : Text) (a : AccountOrders) (os : Dict Text AccountOrders)
      → is_stale timeout now a.last_update ≡ false
      → drop_found timeout now by (some a) os ≡ os
  unfolding drop_found
  drop_found-fresh by a os fresh = rw fresh refl

  drop_found-stale :
      (account : Text) (a : AccountOrders) (os : Dict Text AccountOrders)
      → is_stale timeout now a.last_update ≡ true
      → lookup account (drop_found timeout now account (some a) os) ≡ none
  unfolding drop_found
  drop_found-stale account a os stale =
      rw (stale, lookup-erase account account os, (str_eq_iff account account).1 refl) refl

  -- An entry that is fresh, or of another account, is not dropped.
  lookup-drop_stale-some :
      (account by : Text) (os : Dict Text AccountOrders) (a : AccountOrders)
      → lookup account os ≡ some a
      → (is_stale timeout now a.last_update ≡ false) ⊎ (str_eq by account ≡ false)
      → lookup account (drop_stale timeout now by os) ≡ some a
  unfolding drop_stale
  lookup-drop_stale-some account by os a h kind = elim (Bool-cases (str_eq by account)) [
    | inr other ↦ lookup-drop_found-other account by (lookup by os) os other ∙ h
    | inl same ↦ elim kind [
      | inr other ↦ absurd (cc (same, other))
      | inl fresh ↦
          let found = ap (λ k. lookup k os) ((str_eq_iff by account).0 same) ∙ h in
          ap (λ f. lookup account (drop_found timeout now by f os)) found
          ∙ (ap (lookup account) (drop_found-fresh by a os fresh) ∙ h)
    ]
  ]

  lookup-expire-fresh :
      (account : Text) (es : List UpdateEvent) (os : Dict Text AccountOrders) (a : AccountOrders)
      → lookup account os ≡ some a
      → is_stale timeout now a.last_update ≡ false
      → lookup account (expire timeout now es os).1 ≡ some a
  unfolding expire
  lookup-expire-fresh account [] os a h fresh = h
  lookup-expire-fresh account (e ∷ es) os a h fresh =
      elim (Bool-cases (is_stale timeout now e.time)) [
        | inr new ↦ rw new h
        | inl old ↦ rw old (
            lookup-expire-fresh account es (drop_stale timeout now e.account os) a
              (lookup-drop_stale-some account e.account os a h (inl fresh)) fresh)
      ]

  drop_stale-drops :
      (account : Text) (os : Dict Text AccountOrders) (a : AccountOrders)
      → lookup account os ≡ some a
      → is_stale timeout now a.last_update ≡ true
      → lookup account (drop_stale timeout now account os) ≡ none
  unfolding drop_stale
  drop_stale-drops account os a h stale =
      ap (λ f. lookup account (drop_found timeout now account f os)) h
      ∙ drop_found-stale account a os stale

  lookup-expire-stale :
      (account : Text) (es : List UpdateEvent) (os : Dict Text AccountOrders) (a : AccountOrders)
      → Ordered es
      → Queued account a.last_update es
      → lookup account os ≡ some a
      → is_stale timeout now a.last_update ≡ true
      → lookup account (expire timeout now es os).1 ≡ none
  unfolding expire
  lookup-expire-stale account [] os a o q h stale = absurd q
  lookup-expire-stale account (e ∷ es) os a o q h stale =
      let reached : is_stale timeout now e.time ≡ true = elim q [
        | inl here ↦ rw here.1 stale
        | inr later ↦
            let before = Queued-time e.time account a.last_update es o.0 later in ground arith
      ] in
      rw reached (elim (Bool-cases (str_eq e.account account)) [
        | inl same ↦ lookup-expire-none account es _ (
            ap (λ k. lookup account (drop_stale timeout now k os))
              ((str_eq_iff e.account account).0 same)
            ∙ drop_stale-drops account os a h stale)
        | inr other ↦
            lookup-expire-stale account es (drop_stale timeout now e.account os) a o.1
              (elim q [
                | inl here ↦ absurd (cc (other, (str_eq_iff e.account account).1 here.0))
                | inr later ↦ later
              ])
              (lookup-drop_stale-some account e.account os a h (inr other)) stale
      ])

-- What a call of the order book keeps: the queue is in the order of time, no update is later than
-- the last call, and the last update of every account is in the queue.
pub record IsValid (now : ℕ) (b : OrderBook) : Type 0 where
  pub ordered : Ordered b.updates
  pub past : All (λ e. e.time ≤ now) b.updates
  pub queued :
      (account : Text) (a : AccountOrders)
      → lookup account b.orders ≡ some a
      → Queued account a.last_update b.updates

-- The time-out of a valid order book.
pub run_timeout-expires :
    (timeout now before : ℕ) (b : OrderBook) (account : Text)
    → IsValid before b
    → lookup account (run_timeout timeout now b).orders ≡ elim (lookup account b.orders) [
      | none ↦ none
      | some a ↦ if ltb (a.last_update + timeout) now then none else some a
    ]
unfolding run_timeout
run_timeout-expires timeout now before b account v = elim (Option-cases (lookup account b.orders)) [
  | inl missing ↦ rw missing (lookup-expire-none timeout now account b.updates b.orders missing)
  | inr (a, found) ↦ elim (Bool-cases (is_stale timeout now a.last_update)) [
    | inl stale ↦
        lookup-expire-stale timeout now account b.updates b.orders a v.ordered
          (v.queued account a found) found stale
        ∙ sym (rw (found, stale) refl)
    | inr fresh ↦
        lookup-expire-fresh timeout now account b.updates b.orders a found fresh
        ∙ sym (rw (found, fresh) refl)
  ]
]

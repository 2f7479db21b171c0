-- ===== src/OrderBook/Validity.antt =====
-- The queue of updates and the order book (src/orderbook.cpp) over any calls.
use democrit.Base.{
  ℕ, ◌+◌, ◌≤◌, ◌≡◌, ◌⊎◌, refl, sym, ap, ◌∙◌, inl, inr, Bool, true, false, Bool-cases, Option, none,
  some, List, [], ◌∷◌, ◌++◌, All, All-append, All-mono, Text, Dict, lookup, lookup-insert,
  lookup-erase, text_eq, str_eq, str_eq_iff, ltb, if◌then◌else◌, arith, Outcome, ok, fatal,
}
use mathlib.Core.Path.{subst}
use democrit.Proto.{Order, OrdersOfAccount}
use democrit.OrderBook.{
  AccountOrders, UpdateEvent, OrderBook, is_stale, expire, run_timeout, all_complete, store_update,
  update_orders,
}
use democrit.OrderBook.Expiry.{Ordered, Queued, IsValid, run_timeout-expires}

Ordered-append :
    (now : ℕ) (e : UpdateEvent) (es : List UpdateEvent)
    → now ≡ e.time
    → Ordered es
    → All (λ x. x.time ≤ now) es
    → Ordered (es ++ (e ∷ []))
Ordered-append now e [] same o h = (tt, tt)
Ordered-append now e (x ∷ es) same o h = (
  All-append (λ y. x.time ≤ y.time) es (e ∷ []) o.0 (omega (arith, same, h.0), tt),
  Ordered-append now e es same o.1 h.1,
)

Queued-append :
    (account : Text) (time : ℕ) (es fs : List UpdateEvent)
    → Queued account time es ⊎ Queued account time fs
    → Queued account time (es ++ fs)
Queued-append account time [] fs (inl q) = absurd q
Queued-append account time [] fs (inr q) = q
Queued-append account time (e ∷ es) fs (inl (inl here)) = inl here
Queued-append account time (e ∷ es) fs (inl (inr q)) =
    inr (Queued-append account time es fs (inl q))
Queued-append account time (e ∷ es) fs (inr q) = inr (Queued-append account time es fs (inr q))

past_later :
    (before now : ℕ) (es : List UpdateEvent)
    → before ≤ now
    → All (λ e. e.time ≤ before) es
    → All (λ e. e.time ≤ now) es
past_later before now es h =
    All-mono (λ e. e.time ≤ before) (λ e. e.time ≤ now) (λ e p. omega arith) es

store_update-IsValid :
    (before now : ℕ) (account : Text) (os : Dict ℕ Order) (b : OrderBook)
    → before ≤ now
    → IsValid before b
    → IsValid now (store_update now account os b)
unfolding store_update
store_update-IsValid before now account [] b later v = record {
  ordered = v.ordered;
  past = past_later before now b.updates later v.past;
  queued = λ other a e. elim (Bool-cases (str_eq account other)) [
    | inl same ↦ absurd (cc (rw (lookup-erase account other b.orders, same) at e))
    | inr apart ↦ v.queued other a (rw (lookup-erase account other b.orders, apart) at e)
  ];
}
store_update-IsValid before now account (entry ∷ entries) b later v =
    let past = past_later before now b.updates later v.past in
    let event : UpdateEvent = record { account = account; time = now } in
    let new : AccountOrders = record { orders = entry ∷ entries; last_update = now } in
    record {
      ordered = Ordered-append now event b.updates refl v.ordered past;
      past = All-append (λ e. e.time ≤ now) b.updates (event ∷ []) past (omega arith, tt);
      queued = λ other a e.
          Queued-append other a.last_update b.updates (event ∷ [])
            (elim (Bool-cases (str_eq account other)) [
              | inl same ↦
                  let found : ◌≡◌ {A = Option AccountOrders} (some new) (some a) =
                    rw (lookup-insert account other new b.orders, same) at e in
                  let the_entry : new ≡ a = cc found in
                  inr (inl ((str_eq_iff account other).0 same, ap (λ r. r.last_update) the_entry))
              | inr apart ↦
                  inl (v.queued other a (rw (lookup-insert account other new b.orders, apart) at e))
            ]);
    }

Queued-expire :
    (timeout now : ℕ) (account : Text) (time : ℕ) (es : List UpdateEvent)
    (os : Dict Text AccountOrders)
    → is_stale timeout now time ≡ false
    → Queued account time es
    → Queued account time (expire timeout now es os).0
unfolding expire
Queued-expire timeout now account time [] os fresh q = absurd q
Queued-expire timeout now account time (e ∷ es) os fresh q =
    elim (Bool-cases (is_stale timeout now e.time)) [
      | inr new ↦ rw new q
      | inl old ↦ rw old (
          Queued-expire timeout now account time es _ fresh
            (elim q [ inl here ↦ absurd (cc (old, fresh, here.1)) | inr later ↦ later ]))
    ]

expire-Ordered :
    (timeout now : ℕ) (es : List UpdateEvent) (os : Dict Text AccountOrders)
    → Ordered es
    → Ordered (expire timeout now es os).0
unfolding expire
expire-Ordered timeout now [] os o = tt
expire-Ordered timeout now (e ∷ es) os o = elim (Bool-cases (is_stale timeout now e.time)) [
  | inr new ↦ rw new o
  | inl old ↦ rw old (expire-Ordered timeout now es _ o.1)
]

expire-past :
    (timeout now bound : ℕ) (es : List UpdateEvent) (os : Dict Text AccountOrders)
    → All (λ e. e.time ≤ bound) es
    → All (λ e. e.time ≤ bound) (expire timeout now es os).0
unfolding expire
expire-past timeout now bound [] os h = tt
expire-past timeout now bound (e ∷ es) os h = elim (Bool-cases (is_stale timeout now e.time)) [
  | inr new ↦ rw new h
  | inl old ↦ rw old (expire-past timeout now bound es _ h.1)
]

run_timeout-IsValid :
    (timeout before now : ℕ) (b : OrderBook)
    → before ≤ now
    → IsValid before b
    → IsValid now (run_timeout timeout now b)
run_timeout-IsValid timeout before now b later v = record {
  ordered = unfold run_timeout in expire-Ordered timeout now b.updates b.orders v.ordered;
  past =
      unfold run_timeout in
      expire-past timeout now now b.updates b.orders (past_later before now b.updates later v.past);
  queued = λ account a e.
      kept account a (lookup account b.orders) refl
        (sym (run_timeout-expires timeout now before b account v) ∙ e);
}
  where
    kept :
        (account : Text) (a : AccountOrders) (found : Option AccountOrders)
        → lookup account b.orders ≡ found
        → (elim found [
          | none ↦ none
          | some r ↦ if ltb (r.last_update + timeout) now then none else some r
        ])
          ≡ some a
        → Queued account a.last_update (run_timeout timeout now b).updates
    kept account a none h e = cc e
    kept account a (some r) h e = elim (Bool-cases (is_stale timeout now r.last_update)) [
      | inl stale ↦ absurd (cc (rw stale at e))
      | inr fresh ↦
          let same : ◌≡◌ {A = Option AccountOrders} (some r) (some a) = rw fresh at e in
          let the_entry : r ≡ a = cc same in
          subst (λ k. Queued account k.last_update (run_timeout timeout now b).updates) the_entry
            (unfold run_timeout in
              Queued-expire timeout now account r.last_update b.updates b.orders fresh
                (v.queued account r h))
    ]

-- The calls that change the order book, each with the time that it takes.
pub data Step : Type 0 where
  expires : ℕ → Step
  updated : ℕ → OrdersOfAccount → Step

abbrev pub time_of : Step → ℕ
time_of (expires now) = now
time_of (updated now upd) = now

-- An update that fails its `CHECK` leaves the order book as it is.
unfoldable pub play : ℕ → List Step → OrderBook → OrderBook
unfolding run_timeout update_orders
play timeout [] b = b
play timeout (expires now ∷ steps) b = play timeout steps (run_timeout timeout now b)
play timeout (updated now upd ∷ steps) b = play timeout steps (update_orders now upd b).1

abbrev pub empty_book : OrderBook
empty_book = record { orders = []; updates = [] }

-- The clock does not go back.
abbrev pub InOrder : ℕ → List Step → Type 0
InOrder before [] = Unit {0}
InOrder before (s ∷ steps) = (before ≤ time_of s) × InOrder (time_of s) steps

IsValid-later : (before now : ℕ) (b : OrderBook) → before ≤ now → IsValid before b → IsValid now b
IsValid-later before now b later v = record {
  ordered = v.ordered;
  past = past_later before now b.updates later v.past;
  queued = v.queued;
}

update_orders-IsValid :
    (before now : ℕ) (upd : OrdersOfAccount) (b : OrderBook)
    → before ≤ now
    → IsValid before b
    → IsValid now (update_orders now upd b).1
unfolding update_orders
update_orders-IsValid before now upd b later v =
    checked_update upd.account (all_complete upd.orders)
  where
    checked_update :
        (by : Option Text) (complete : Bool)
        → IsValid now
            (elim by as (λ _. Outcome (Unit {0}) × OrderBook) [
              | none ↦ (fatal, b)
              | some account ↦
                  if complete then (ok tt, store_update now account upd.orders b) else (fatal, b)
            ]).1
    checked_update none complete = IsValid-later before now b later v
    checked_update (some account) true =
        store_update-IsValid before now account upd.orders b later v
    checked_update (some account) false = IsValid-later before now b later v

play-IsValid :
    (timeout before : ℕ) (steps : List Step) (b : OrderBook)
    → InOrder before steps
    → IsValid before b
    → (now : ℕ) × IsValid now (play timeout steps b)
unfolding play
play-IsValid timeout before [] b o v = (before, v)
play-IsValid timeout before (expires now ∷ steps) b o v =
    play-IsValid timeout now steps (run_timeout timeout now b) o.1
      (run_timeout-IsValid timeout before now b o.0 v)
play-IsValid timeout before (updated now upd ∷ steps) b o v =
    play-IsValid timeout now steps (update_orders now upd b).1 o.1
      (update_orders-IsValid before now upd b o.0 v)

-- After any updates and time-outs of a new order book, on a clock that does not go back: a time-out
-- drops exactly the accounts whose last update is older than the time-out. Any other account keeps
-- its orders.
pub play-expires :
    (timeout now : ℕ) (steps : List Step) (account : Text)
    → InOrder 0 steps
    → lookup account (run_timeout timeout now (play timeout steps empty_book)).orders
      ≡ elim (lookup account (play timeout steps empty_book).orders) [
        | none ↦ none
        | some a ↦ if ltb (a.last_update + timeout) now then none else some a
      ]
play-expires timeout now steps account o =
    let v =
      play-IsValid timeout 0 steps empty_book o
        (record { ordered = tt; past = tt; queued = λ account a e. cc e }) in
    run_timeout-expires timeout now v.0 (play timeout steps empty_book) account v.1

-- ===== src/MyOrders/Refresh.antt =====
-- The refresh of src/myorders.cpp: what it is where no validation throws, and what any refresh leaves.
use democrit.Base.{
  ℕ, ◌≡◌, ◌∙◌, refl, sym, ap, Bool, true, false, List, [], ◌∷◌, Text, Dict, nat_eq, Outcome, ok,
  rpc_error, fatal, Exec, pure, ◌>>◌, ◌>>=◌, >>-eq-ok, ok-eq-ok, continue, if◌then◌else◌,
}
use mathlib.Core.Path.{subst}
use democrit.Proto.{Order, OrdersOfAccount}
use democrit.MyOrders.{
  Validator, Node, keep, keep_entry, kept_orders, left_orders, swap_orders, run_refresh,
  internal_get_orders, with_orders,
}

abbrev pub says_yes : Outcome Bool → Bool
says_yes (ok b) = b
says_yes rpc_error = false
says_yes fatal = false

-- The order is let through.
abbrev pub accepts : Validator → Text → Order → Bool
accepts valid account o = says_yes (valid.answer account o)

-- The validation answers, for every order of the account.
abbrev pub IsAnswering : Validator → Text → Type 0
IsAnswering valid account = (o : Order) → (b : Bool) × (valid.answer account o ≡ ok b)

-- The state after a refresh that has returned, and the message.
abbrev pub refreshed : Validator → Node → Node
refreshed valid n =
    let s = record n.state {
      own_orders = keep (accepts valid n.state.account) n.state.own_orders;
    } in
    record { state = s; sent = internal_get_orders false s ∷ n.sent }

keep_entry-kept :
    (r : Outcome Bool) (id : ℕ) (o : Order) (rest : Outcome (Dict ℕ Order)) (d k : Dict ℕ Order)
    → ((l : Dict ℕ Order) → rest ≡ ok l → l ≡ d)
    → keep_entry r (id, o) rest ≡ ok k
    → k ≡ (if says_yes r then (id, o) ∷ d else d)
keep_entry-kept (ok true) id o (ok l) d k h e = sym (cc e) ∙ ap (λ x. (id, o) ∷ x) (h l refl)
keep_entry-kept (ok true) id o rpc_error d k h e = cc e
keep_entry-kept (ok true) id o fatal d k h e = cc e
keep_entry-kept (ok false) id o rest d k h e = h k e
keep_entry-kept rpc_error id o rest d k h e = cc e
keep_entry-kept fatal id o rest d k h e = cc e

pub kept_orders-keep :
    (ask : Order → Outcome Bool) (d k : Dict ℕ Order)
    → kept_orders ask d ≡ ok k
    → k ≡ keep (λ o. says_yes (ask o)) d
unfolding kept_orders keep
kept_orders-keep ask [] k e = cc e
kept_orders-keep ask ((id, o) ∷ d) k e =
    keep_entry-kept (ask o) id o (kept_orders ask d) (keep (λ o. says_yes (ask o)) d) k
      (λ l e'. kept_orders-keep ask d l e') e

swap_orders-ok :
    (r : Outcome (Dict ℕ Order)) (left : Dict ℕ Order) (n n' : Node)
    → swap_orders r left n ≡ (ok tt, n')
    → (k : Dict ℕ Order) × (r ≡ ok k)
      × (n' ≡ (
          let s = record n.state { own_orders = k } in
          record { state = s; sent = internal_get_orders false s ∷ n.sent }))
unfolding swap_orders
swap_orders-ok (ok k) left n n' e = (k, refl, sym (ap (λ r. r.1) e))
swap_orders-ok rpc_error left n n' e = cc e
swap_orders-ok fatal left n n' e = cc e

-- A refresh that returns keeps the valid orders and publishes those of them that are not locked.
pub run_refresh-refreshed :
    (valid : Validator) (n n' : Node) → run_refresh valid n ≡ (ok tt, n') → n' ≡ refreshed valid n
unfolding run_refresh
run_refresh-refreshed valid n n' e =
    let (k, kept, same) = swap_orders-ok _ _ n n' e in
    same
    ∙ ap
        (λ d.
          let s = record n.state { own_orders = d } in
          record { state = s; sent = internal_get_orders false s ∷ n.sent })
        (kept_orders-keep (valid.answer n.state.account) n.state.own_orders k kept)

kept_orders-returns :
    (ask : Order → Outcome Bool)
    → ((o : Order) → (b : Bool) × (ask o ≡ ok b))
    → (d : Dict ℕ Order) → kept_orders ask d ≡ ok (keep (λ o. says_yes (ask o)) d)
unfolding kept_orders keep
kept_orders-returns ask answers [] = refl
kept_orders-returns ask answers ((id, o) ∷ d) =
    let (b, answer) = answers o in rw (answer, kept_orders-returns ask answers d) (entry b)
  where
    entry :
        (b : Bool)
        → keep_entry (ok b) (id, o) (ok (keep (λ o. says_yes (ask o)) d))
          ≡ ok (
              if b
              then (id, o) ∷ keep (λ o. says_yes (ask o)) d
              else keep (λ o. says_yes (ask o)) d)
    entry true = refl
    entry false = refl

-- It returns if the validation of each order does.
pub run_refresh-returns :
    (valid : Validator) (n : Node)
    → IsAnswering valid n.state.account
    → run_refresh valid n ≡ (ok tt, refreshed valid n)
unfolding run_refresh swap_orders
run_refresh-returns valid n answers =
    rw (kept_orders-returns (valid.answer n.state.account) answers n.state.own_orders) refl

-- What a condition says of the orders that are kept, and of those that are left, it says of a refresh.
swap_orders-holds :
    (P : Node → Type 0) (r : Outcome (Dict ℕ Order)) (left : Dict ℕ Order) (n : Node)
    → ((k : Dict ℕ Order) (sent : List OrdersOfAccount)
        → r ≡ ok k
        → P (record { state = record n.state { own_orders = k }; sent = sent }))
    → P (with_orders left n)
    → P (swap_orders r left n).1
unfolding swap_orders
swap_orders-holds P (ok k) left n kept other = kept k _ refl
swap_orders-holds P rpc_error left n kept other = other
swap_orders-holds P fatal left n kept other = other

pub run_refresh-holds :
    (P : Node → Type 0) (valid : Validator) (n : Node)
    → ((sent : List OrdersOfAccount)
        → P (record {
          state = record n.state {
            own_orders = keep (accepts valid n.state.account) n.state.own_orders;
          };
          sent = sent;
        }))
    → P (
        with_orders
          (left_orders (valid.answer n.state.account) valid.moved_from n.state.own_orders)
          n)
    → P (run_refresh valid n).1
unfolding run_refresh
run_refresh-holds P valid n kept other =
    swap_orders-holds P _ _ n
      (λ k sent e.
        subst (λ d. P (record { state = record n.state { own_orders = d }; sent = sent }))
          (sym (kept_orders-keep (valid.answer n.state.account) n.state.own_orders k e))
          (kept sent))
      other

continue-pure-state :
    {S A B : Type 0} (r : Outcome A) (b : B) (s : S) → (continue r (λ _. pure {S = S} b) s).1 ≡ s
continue-pure-state (ok a) b s = refl
continue-pure-state rpc_error b s = refl
continue-pure-state fatal b s = refl

-- To give a value at the end changes nothing, and what is left does not depend on it.
pub then_pure-state :
    {S A B : Type 0} (m : Exec S A) (b : B) (s : S) → ((m >> pure b) s).1 ≡ (m s).1
unfolding ◌>>◌ ◌>>=◌
then_pure-state m b s = continue-pure-state (m s).0 b (m s).1

pub then_pure-eq-ok :
    {S A B : Type 0} (m : Exec S A) (b c : B) (s t : S)
    → (m >> pure b) s ≡ (ok c, t)
    → (a : A) × (m s ≡ (ok a, t)) × (b ≡ c)
then_pure-eq-ok m b c s t e =
    let (a, u, first, last) = >>-eq-ok m (pure b) s e in
    let same : u ≡ t = ap (λ r. r.1) last in
    (a, first ∙ ap (λ x. (ok a, x)) same, ok-eq-ok b c u t last)

pub then_pure-ok :
    {S A B : Type 0} (m : Exec S A) (a : A) (b : B) (s t : S)
    → m s ≡ (ok a, t)
    → (m >> pure b) s ≡ (ok b, t)
unfolding ◌>>◌ ◌>>=◌
then_pure-ok m a b s t e = ap (λ r. continue r.0 (λ _. pure b) r.1) e

-- ===== src/TradeManager/Parties.antt =====
-- Who trades with whom: what all calls of the manager keep about the parties of each trade.
use democrit.Base.{
  ◌≡◌, refl, sym, ap, ◌∙◌, ◌≢◌, ◌⊎◌, inl, inr, ◌≡◌, Bool-cases, Bool, true, false, Outcome, ok,
  rpc_error, fatal, pure, ◌>>◌, erase, nat_eq, Option, none, some, List, [], ◌∷◌, All, Text, ℕ,
}
use mathlib.Core.Path.{subst}
use democrit.Proto.{Order, TradeState, ProcessingMessage, State, account_of}
use democrit.MyOrders.{
  Validator, Node, run_refresh, store_new, add_answered, add, remove_by_id, with_orders, set_order,
  lock_found, unlock_found,
}
use democrit.MyOrders.Refresh.{run_refresh-holds, then_pure-state}
use democrit.Trade.Life.{Kept}
use democrit.TradeManager.{Swept}
use democrit.TradeManager.Sweep.{Splits, all_swept, goes_on, is_over}
use democrit.TradeManager.Processing.{Touched}

-- The trade is with somebody else, and one of the two has made the order.
abbrev pub Between : Text → TradeState → Type 0
Between account t =
    (t.counterparty ≢ account)
    × ((account_of t.order ≡ account) ⊎ (account_of t.order ≡ t.counterparty))

pub Between-Kept :
    (account : Text) (t u : TradeState) → Kept t u → Between account t → Between account u
Between-Kept account t u k h = (
  (λ e. h.0 (sym k.counterparty ∙ e)),
  elim h.1 [
    | inl e ↦ inl (ap account_of k.order ∙ e)
    | inr e ↦ inr (ap account_of k.order ∙ (e ∙ sym k.counterparty))
  ],
)

pub Splits-Between :
    (account : Text) {ts : List TradeState} {s : Swept}
    → Splits account ts s
    → All (Between account) ts
    → All (Between account) s.active
Splits-Between account all_swept h = tt
Splits-Between account (goes_on {t} {u} e _ r) h =
    (Between-Kept account t u e.0 h.0, Splits-Between account r h.1)
Splits-Between account (is_over e _ r) h = Splits-Between account r h.1

pub Touched-Between :
    (account : Text) (msg : ProcessingMessage) (ts us : List TradeState)
    → Touched msg ts us
    → All (Between account) ts
    → All (Between account) us
Touched-Between account msg [] us e h = subst (All (Between account)) (sym e) tt
Touched-Between account msg (t ∷ ts) [] e h = absurd e
Touched-Between account msg (t ∷ ts) (u ∷ us) (inl (_, e, same)) h =
    (Between-Kept account t u e.0 h.0, subst (All (Between account)) (sym same) h.1)
Touched-Between account msg (t ∷ ts) (u ∷ us) (inr (_, same, e)) h =
    (subst (Between account) (sym same) h.0, Touched-Between account msg ts us e h.1)

-- The node of the account has only such trades.
abbrev pub IsSound : Text → State → Type 0
IsSound account s = (s.account ≡ account) × All (Between account) s.trades

-- The calls on the own orders leave the account and the trades alone.
abbrev pub SameTrades : State → State → Type 0
SameTrades s s' = (s'.account ≡ s.account) × (s'.trades ≡ s.trades)

pub SameTrades-IsSound :
    (account : Text) (s s' : State) → SameTrades s s' → IsSound account s → IsSound account s'
SameTrades-IsSound account s s' same h =
    (same.0 ∙ h.0, subst (All (Between account)) (sym same.1) h.1)

pub run_refresh-SameTrades :
    (valid : Validator) (n : Node) → SameTrades n.state (run_refresh valid n).1.state
run_refresh-SameTrades valid n =
    run_refresh-holds (λ m. SameTrades n.state m.state) valid n (λ sent. (refl, refl)) (refl, refl)

-- A refresh from a node with the same account and trades, and what follows it.
then-SameTrades :
    {A : Type 0} (valid : Validator) (s : State) (a : A) (n : Node)
    → SameTrades s n.state
    → SameTrades s ((run_refresh valid >> pure a) n).1.state
then-SameTrades valid s a n same =
    let fresh = run_refresh-SameTrades valid n in
    subst (λ m. SameTrades s m.state) (sym (then_pure-state (run_refresh valid) a n))
      (fresh.0 ∙ same.0, fresh.1 ∙ same.1)

add_answered-SameTrades :
    (valid : Validator) (r : Outcome Bool) (o : Order) (n : Node)
    → SameTrades n.state (add_answered valid r o n).1.state
unfolding add_answered store_new
add_answered-SameTrades valid (ok true) o n =
    then-SameTrades valid n.state true (record n { state = store_new o n.state }) (refl, refl)
add_answered-SameTrades valid (ok false) o n = (refl, refl)
add_answered-SameTrades valid rpc_error o n = (refl, refl)
add_answered-SameTrades valid fatal o n = (refl, refl)

pub add-SameTrades :
    (valid : Validator) (o : Order) (n : Node) → SameTrades n.state (add valid o n).1.state
unfolding add
add-SameTrades valid o n = add_answered-SameTrades valid (valid.answer n.state.account o) o n

pub remove_by_id-SameTrades :
    (valid : Validator) (id : ℕ) (n : Node) → SameTrades n.state (remove_by_id valid id n).1.state
unfolding remove_by_id
remove_by_id-SameTrades valid id n =
    run_refresh-SameTrades valid (with_orders (erase id n.state.own_orders) n)

pub lock_found-SameTrades :
    (valid : Validator) (id : ℕ) (found : Option Order) (n : Node)
    → SameTrades n.state (lock_found valid id found n).1.state
unfolding lock_found set_order
lock_found-SameTrades valid id none n = (refl, refl)
lock_found-SameTrades valid id (some o) n = elim (Bool-cases o.locked) [
  | inl e ↦ rw (e, lock_found) (refl, refl)
  | inr e ↦
      rw (e, lock_found)
        (then-SameTrades valid n.state _ (set_order id (record o { locked = true }) n) (refl, refl))
]

pub unlock_found-SameTrades :
    (valid : Validator) (id : ℕ) (found : Option Order) (n : Node)
    → SameTrades n.state (unlock_found valid id found n).1.state
unfolding unlock_found set_order
unlock_found-SameTrades valid id none n = (refl, refl)
unlock_found-SameTrades valid id (some o) n = elim (Bool-cases o.locked) [
  | inl e ↦
      rw (e, unlock_found)
        (run_refresh-SameTrades valid (set_order id (record o { locked = false }) n))
  | inr e ↦ rw (e, unlock_found) (refl, refl)
]

-- ===== src/MyOrders/Throwing.antt =====
-- Where a refresh of src/myorders.cpp does not return: the exception is that of a validation.
use democrit.Base.{
  ℕ, ◌≡◌, refl, sym, ◌⊎◌, inl, inr, Bool, true, false, [], ◌∷◌, Dict, Outcome, ok, rpc_error, fatal,
  Exec, ◌>>◌, ◌>>=◌, continue, Text,
}
use mathlib.Core.Path.{subst}
use democrit.Proto.{Order}
use democrit.MyOrders.{Validator, Node, keep_entry, kept_orders, swap_orders, run_refresh}
use democrit.MyOrders.Refresh.{refreshed, kept_orders-keep}

-- An exception, and the same one.
abbrev pub SameThrow : {A B : Type 0} → Outcome A → Outcome B → Type 0
SameThrow (ok _) r = ⊥
SameThrow rpc_error (ok _) = ⊥
SameThrow rpc_error rpc_error = Unit
SameThrow rpc_error fatal = ⊥
SameThrow fatal (ok _) = ⊥
SameThrow fatal rpc_error = ⊥
SameThrow fatal fatal = Unit

-- The outcome is that of the validation of an order, which has thrown.
abbrev pub Throws : {A : Type 0} → Validator → Text → Outcome A → Type 0
Throws valid account r = (o : Order) × SameThrow (valid.answer account o) r

SameThrow-continue :
    {S A B C : Type 0} (a : Outcome C) (r : Outcome A) (k : A → Exec S B) (s : S)
    → SameThrow a r
    → SameThrow a (continue r k s).0
SameThrow-continue (ok a) r k s h = absurd h
SameThrow-continue rpc_error (ok b) k s h = absurd h
SameThrow-continue rpc_error rpc_error k s h = h
SameThrow-continue rpc_error fatal k s h = absurd h
SameThrow-continue fatal (ok b) k s h = absurd h
SameThrow-continue fatal rpc_error k s h = absurd h
SameThrow-continue fatal fatal k s h = h

-- What follows an exception does not happen.
pub Throws-then :
    {S A B : Type 0} (valid : Validator) (account : Text) (m : Exec S A) (k : Exec S B) (s : S)
    → Throws valid account (m s).0
    → Throws valid account ((m >> k) s).0
unfolding ◌>>◌ ◌>>=◌
Throws-then valid account m k s (o, same) =
    (o, SameThrow-continue (valid.answer account o) (m s).0 (λ _. k) (m s).1 same)

-- The loop ends, or a validation has thrown.
keep_entry-throws :
    (ask : Order → Outcome Bool) (o : Order) (r : Outcome Bool) (id : ℕ)
    (rest : Outcome (Dict ℕ Order))
    → ask o ≡ r
    → ((k : Dict ℕ Order) × (rest ≡ ok k)) ⊎ ((p : Order) × SameThrow (ask p) rest)
    → ((k : Dict ℕ Order) × (keep_entry r (id, o) rest ≡ ok k))
      ⊎ ((p : Order) × SameThrow (ask p) (keep_entry r (id, o) rest))
keep_entry-throws ask o (ok true) id (ok k) e h = inl ((id, o) ∷ k, refl)
keep_entry-throws ask o (ok true) id rpc_error e (inl (k, never)) = cc never
keep_entry-throws ask o (ok true) id rpc_error e (inr h) = inr h
keep_entry-throws ask o (ok true) id fatal e (inl (k, never)) = cc never
keep_entry-throws ask o (ok true) id fatal e (inr h) = inr h
keep_entry-throws ask o (ok false) id rest e h = h
keep_entry-throws ask o rpc_error id rest e h =
    inr (o, subst (λ r. SameThrow {B = Dict ℕ Order} r rpc_error) (sym e) tt)
keep_entry-throws ask o fatal id rest e h =
    inr (o, subst (λ r. SameThrow {B = Dict ℕ Order} r fatal) (sym e) tt)

kept_orders-throws :
    (ask : Order → Outcome Bool) (d : Dict ℕ Order)
    → ((k : Dict ℕ Order) × (kept_orders ask d ≡ ok k))
      ⊎ ((o : Order) × SameThrow (ask o) (kept_orders ask d))
unfolding kept_orders
kept_orders-throws ask [] = inl ([], refl)
kept_orders-throws ask ((id, o) ∷ d) =
    keep_entry-throws ask o (ask o) id (kept_orders ask d) refl (kept_orders-throws ask d)

swap_orders-throws :
    {C : Type 0} (a : Outcome C) (r : Outcome (Dict ℕ Order)) (left : Dict ℕ Order) (n : Node)
    → SameThrow a r
    → SameThrow a (swap_orders r left n).0
unfolding swap_orders
swap_orders-throws (ok a) r left n h = absurd h
swap_orders-throws rpc_error (ok b) left n h = absurd h
swap_orders-throws rpc_error rpc_error left n h = h
swap_orders-throws rpc_error fatal left n h = absurd h
swap_orders-throws fatal (ok b) left n h = absurd h
swap_orders-throws fatal rpc_error left n h = absurd h
swap_orders-throws fatal fatal left n h = h

-- A refresh returns, or a validation has thrown.
pub run_refresh-Throws :
    (valid : Validator) (n : Node)
    → (run_refresh valid n ≡ (ok tt, refreshed valid n))
      ⊎ Throws valid n.state.account (run_refresh valid n).0
unfolding run_refresh swap_orders
run_refresh-Throws valid n =
    elim (kept_orders-throws (valid.answer n.state.account) n.state.own_orders) [
      | inl (k, kept) ↦ inl (
          rw (kept, kept_orders-keep (valid.answer n.state.account) n.state.own_orders k kept) refl)
      | inr (o, same) ↦ inr (o, swap_orders-throws (valid.answer n.state.account o) _ _ n same)
    ]

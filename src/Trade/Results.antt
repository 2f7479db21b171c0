-- ===== src/Trade/Results.antt =====
-- A calculus for the result of a method of a trade: where it returns, the value and the trade that it leaves
-- satisfy a condition together.
use democrit.Base.{
  ◌≡◌, refl, sym, Bool, true, false, Option, none, some, Exec, Outcome, ok, rpc_error, fatal, pure,
  or_die, check, ◌>>=◌, ◌>>◌, continue, if◌then◌else◌,
}
use mathlib.Core.Path.{subst}
use democrit.Proto.{TradeState}
use democrit.Trade.Wallet.{Local, lift, get_pb, set_pb}
use democrit.Trade.Steps.{Relation, Leaves}

-- What a value and the trade that is left with it satisfy, where a method returns.
abbrev pub Post : Type 0 → Type 1
Post A = A → TradeState → Type 0

abbrev pub Told : {A : Type 0} → Post A → Outcome A → TradeState → Type 0
Told P (ok a) t = P a t
Told P rpc_error t = Unit
Told P fatal t = Unit

pub record Tells {W A : Type 0} (P : Post A) (t : TradeState) (m : Exec (Local W) A) : Type 0 where
  pub at : (l : Local W) → l.pb ≡ t → Told P (m l).0 (m l).1.pb

module _ {W A : Type 0} {P : Post A} {t : TradeState} where
  pub Tells-pure : (a : A) → P a t → Tells {W = W} P t (pure a)
  Tells-pure a h = record { at = λ l e. subst (P a) (sym e) h }

  pub Tells-if :
      (b : Bool) (m n : Exec (Local W) A)
      → (b ≡ true → Tells P t m)
      → (b ≡ false → Tells P t n)
      → Tells P t (if b then m else n)
  Tells-if true m n hm hn = hm refl
  Tells-if false m n hm hn = hn refl

  pub Tells-option :
      {B : Type 0} (o : Option B) (m : Exec (Local W) A) (f : B → Exec (Local W) A)
      → Tells P t m
      → ((b : B) → Tells P t (f b))
      → Tells P t (elim o [ none ↦ m | some b ↦ f b ])
  Tells-option none m f hm hf = hm
  Tells-option (some b) m f hm hf = hf b

  pub Tells-check : (b : Bool) (k : Exec (Local W) A) → Tells P t k → Tells P t (check b >> k)
  unfolding ◌>>◌ check
  Tells-check true k h = h
  Tells-check false k h = record { at = λ l e. tt }

  pub Tells-or_die :
      {B : Type 0} (o : Option B) (f : B → Exec (Local W) A)
      → ((b : B) → Tells P t (f b))
      → Tells P t (or_die o >>= f)
  unfolding ◌>>=◌ or_die
  Tells-or_die none f h = record { at = λ l e. tt }
  Tells-or_die (some b) f h = h b

  pub Tells-get : (f : TradeState → Exec (Local W) A) → Tells P t (f t) → Tells P t (get_pb >>= f)
  unfolding ◌>>=◌ get_pb
  Tells-get f h = record {
    at = λ l e. subst (λ u. Told P (f u l).0 (f u l).1.pb) (sym e) (h.at l e);
  }

  pub Tells-set : (u : TradeState) (k : Exec (Local W) A) → Tells P u k → Tells P t (set_pb u >> k)
  unfolding ◌>>◌ ◌>>=◌ set_pb
  Tells-set u k h = record { at = λ l e. h.at (record l { pb = u }) refl }

continue-Told :
    {W A B : Type 0} {P : Post B} (Q : Post A) (r : Outcome A) (f : A → Exec (Local W) B)
    (l : Local W)
    → Told Q r l.pb
    → ((a : A) (u : TradeState) → Q a u → Tells P u (f a))
    → Told P (continue r f l).0 (continue r f l).1.pb
continue-Told Q (ok a) f l h k = (k a l.pb h).at l refl
continue-Told Q rpc_error f l h k = tt
continue-Told Q fatal f l h k = tt

lift-Told :
    {A : Type 0} (t : TradeState) (r : Outcome A) (u : TradeState)
    → u ≡ t
    → Told {A = A} (λ _ u. u ≡ t) r u
lift-Told t (ok a) u e = e
lift-Told t rpc_error u e = tt
lift-Told t fatal u e = tt

lifted :
    {W A : Type 0} (t : TradeState) (m : Exec W A) (l : Local W)
    → l.pb ≡ t
    → Told {A = A} (λ _ u. u ≡ t) (lift m l).0 (lift m l).1.pb
unfolding lift
lifted t m l e = lift-Told t (m l.world).0 l.pb e

Leaves-Told :
    {A : Type 0} (P : Post A) (R : Relation) (t : TradeState) (r : Outcome A) (u : TradeState)
    → R t u
    → Told P r u
    → Told (λ a v. R t v × P a v) r u
Leaves-Told P R t (ok a) u h p = (h, p)
Leaves-Told P R t rpc_error u h p = tt
Leaves-Told P R t fatal u h p = tt

Told-map :
    {A : Type 0} (P Q : Post A) (r : Outcome A) (u : TradeState)
    → ((a : A) (v : TradeState) → P a v → Q a v)
    → Told P r u
    → Told Q r u
Told-map P Q (ok a) u f h = f a u h
Told-map P Q rpc_error u f h = tt
Told-map P Q fatal u f h = tt

-- A weaker condition.
pub Tells-map :
    {W A : Type 0} (P Q : Post A) {t : TradeState} {m : Exec (Local W) A}
    → ((a : A) (v : TradeState) → P a v → Q a v)
    → Tells P t m
    → Tells Q t m
Tells-map P Q {m} f h = record { at = λ l e. Told-map P Q (m l).0 (m l).1.pb f (h.at l e) }

module _ {W A : Type 0} {P : Post A} {R : Relation} {t : TradeState} where
  -- Together with what the method leaves however it ends.
  pub Tells-Leaves :
      {m : Exec (Local W) A} → Leaves R t m → Tells P t m → Tells (λ a u. R t u × P a u) t m
  Tells-Leaves {m} left says = record {
    at = λ l e. Leaves-Told P R t (m l).0 (m l).1.pb (left.at l e) (says.at l e);
  }

module _ {W A B : Type 0} {P : Post B} {t : TradeState} where
  pub Tells-bind :
      (Q : Post A) (m : Exec (Local W) A) (f : A → Exec (Local W) B)
      → Tells Q t m
      → ((a : A) (u : TradeState) → Q a u → Tells P u (f a))
      → Tells P t (m >>= f)
  unfolding ◌>>=◌
  Tells-bind Q m f hm hf = record { at = λ l e. continue-Told Q (m l).0 f (m l).1 (hm.at l e) hf }

  pub Tells-lift :
      (m : Exec W A) (f : A → Exec (Local W) B)
      → ((a : A) → Tells P t (f a))
      → Tells P t (lift m >>= f)
  Tells-lift m f h =
      Tells-bind (λ _ u. u ≡ t) (lift m) f asked
        λ a u same. subst (λ v. Tells P v (f a)) (sym same) (h a)
    where
      asked : Tells (λ _ u. u ≡ t) t (lift m)
      asked = record { at = λ l e. lifted t m l e }

  pub Tells-lift_then :
      (m : Exec W A) (k : Exec (Local W) B) → Tells P t k → Tells P t (lift m >> k)
  unfolding ◌>>◌
  Tells-lift_then m k h = Tells-lift m (λ _. k) (λ _. h)

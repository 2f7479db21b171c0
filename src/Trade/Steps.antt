-- ===== src/Trade/Steps.antt =====
-- A calculus for the methods of a trade: from a state t, whatever the calls of the world answer and
-- however the method ends, the state that it leaves stands in a relation to t.
use democrit.Base.{
  ◌≡◌, refl, sym, Bool, true, false, Option, none, some, Exec, Outcome, ok, rpc_error, fatal, pure,
  or_die, check, ◌>>=◌, ◌>>◌, continue, if◌then◌else◌,
}
use mathlib.Core.Path.{subst}
use democrit.Proto.{TradeState}
use democrit.Trade.Wallet.{Local, lift, get_pb, set_pb}

abbrev pub Relation : Type 1
Relation = TradeState → TradeState → Type 0

pub record Leaves {W A : Type 0} (R : Relation) (t : TradeState) (m : Exec (Local W) A)
    : Type 0 where
  pub at : (l : Local W) → l.pb ≡ t → R t (m l).1.pb

-- A relation that holds of a state and itself.
pub Leaves-pure :
    {W A : Type 0} {R : Relation} {t : TradeState} (a : A) → R t t → Leaves {W = W} R t (pure a)
Leaves-pure {R} {t} a stays = record { at = λ l e. subst (R t) (sym e) stays }

pub Leaves-or_die :
    {W A : Type 0} {R : Relation} {t : TradeState} (o : Option A)
    → R t t
    → Leaves {W = W} R t (or_die o)
unfolding or_die
Leaves-or_die {R} {t} none stays = record { at = λ l e. subst (R t) (sym e) stays }
Leaves-or_die {R} {t} (some a) stays = record { at = λ l e. subst (R t) (sym e) stays }

pub Leaves-lift_only :
    {W A : Type 0} {R : Relation} {t : TradeState} (m : Exec W A) → R t t → Leaves R t (lift m)
unfolding lift
Leaves-lift_only {R} {t} m stays = record { at = λ l e. subst (R t) (sym e) stays }

module _ {W A B : Type 0} {R : Relation} {t : TradeState} (stays : R t t) where
  continue-Leaves :
      (r : Outcome A) (f : A → Exec (Local W) B) (l : Local W)
      → l.pb ≡ t
      → ((a : A) → r ≡ ok a → Leaves R t (f a))
      → R t (continue r f l).1.pb
  continue-Leaves (ok a) f l e k = (k a refl).at l e
  continue-Leaves rpc_error f l e k = subst (R t) (sym e) stays
  continue-Leaves fatal f l e k = subst (R t) (sym e) stays

  -- A call of the world leaves the trade alone.
  pub Leaves-lift :
      (m : Exec W A) (f : A → Exec (Local W) B)
      → ((a : A) → Leaves R t (f a))
      → Leaves R t (lift m >>= f)
  unfolding ◌>>=◌ lift
  Leaves-lift m f k = record { at = λ l e. continue-Leaves (m l.world).0 f _ e (λ a _. k a) }

  -- What follows a `CHECK` may use the value that it has found.
  pub Leaves-bind-or_die :
      (o : Option A) (f : A → Exec (Local W) B)
      → ((a : A) → o ≡ some a → Leaves R t (f a))
      → Leaves R t (or_die o >>= f)
  unfolding ◌>>=◌ or_die
  Leaves-bind-or_die none f k = record { at = λ l e. subst (R t) (sym e) stays }
  Leaves-bind-or_die (some a) f k = k a refl

module _ {W B : Type 0} {R : Relation} {t : TradeState} where
  pub Leaves-check :
      R t t
      → (b : Bool) (k : Exec (Local W) B) → (b ≡ true → Leaves R t k)
      → Leaves R t (check b >> k)
  unfolding ◌>>◌ check
  Leaves-check stays true k h = h refl
  Leaves-check stays false k h = record { at = λ l e. subst (R t) (sym e) stays }

  pub Leaves-get :
      (f : TradeState → Exec (Local W) B) → Leaves R t (f t) → Leaves R t (get_pb >>= f)
  unfolding ◌>>=◌ get_pb
  Leaves-get f h = record { at = λ l e. subst (λ u. R t (f u l).1.pb) (sym e) (h.at l e) }

  pub Leaves-if :
      (b : Bool) (m n : Exec (Local W) B)
      → (b ≡ true → Leaves R t m)
      → (b ≡ false → Leaves R t n)
      → Leaves R t (if b then m else n)
  Leaves-if true m n hm hn = hm refl
  Leaves-if false m n hm hn = hn refl

  pub Leaves-option :
      {A : Type 0} (o : Option A) (m : Exec (Local W) B) (f : A → Exec (Local W) B)
      → (o ≡ none → Leaves R t m)
      → ((a : A) → o ≡ some a → Leaves R t (f a))
      → Leaves R t (elim o [ none ↦ m | some a ↦ f a ])
  Leaves-option none m f hm hf = hm refl
  Leaves-option (some a) m f hm hf = hf a refl

pub Leaves-set :
    {W : Type 0} {R : Relation} {t : TradeState} (u : TradeState)
    → R t u
    → Leaves {W = W} R t (set_pb u)
unfolding set_pb
Leaves-set u h = record { at = λ l e. h }

pub Leaves-set-pure :
    {W B : Type 0} {R : Relation} {t : TradeState} (u : TradeState) (b : B)
    → R t u
    → Leaves {W = W} R t (set_pb u >> pure b)
unfolding ◌>>◌ set_pb
Leaves-set-pure u b h = record { at = λ l e. h }

module _ {W A B : Type 0} (R S T : Relation) (t : TradeState)
    (stop : (u : TradeState) → R t u → T t u)
    (join : (u v : TradeState) → R t u → S u v → T t v) where
  go_on_from :
      (r : Outcome A) (f : A → Exec (Local W) B) (l : Local W)
      → ((a : A) (u : TradeState) → R t u → Leaves S u (f a))
      → R t l.pb
      → T t (continue r f l).1.pb
  go_on_from (ok a) f l hf h = join l.pb _ h ((hf a l.pb h).at l refl)
  go_on_from rpc_error f l hf h = stop l.pb h
  go_on_from fatal f l hf h = stop l.pb h

  -- The rest goes on from the state that the first part has left.
  pub Leaves-bind :
      (m : Exec (Local W) A) (f : A → Exec (Local W) B)
      → Leaves R t m
      → ((a : A) (u : TradeState) → R t u → Leaves S u (f a))
      → Leaves T t (m >>= f)
  unfolding ◌>>=◌
  Leaves-bind m f hm hf = record { at = λ l e. go_on_from (m l).0 f (m l).1 hf (hm.at l e) }

-- A call whose answer is not used.
pub Leaves-lift_then :
    {W A B : Type 0} {R : Relation} {t : TradeState}
    → R t t
    → (m : Exec W A) (k : Exec (Local W) B) → Leaves R t k
    → Leaves R t (lift m >> k)
unfolding ◌>>◌
Leaves-lift_then stays m k h = Leaves-lift stays m (λ _. k) (λ _. h)

-- What follows a write, where it leaves the trade alone.
pub Leaves-set_then :
    {W B : Type 0} {R : Relation} {t : TradeState} (u : TradeState) (k : Exec (Local W) B)
    → R t u
    → ((l : Local W) → (k l).1.pb ≡ l.pb)
    → Leaves R t (set_pb u >> k)
unfolding ◌>>◌ ◌>>=◌ set_pb
Leaves-set_then {R} {t} u k h same = record {
  at = λ l e. subst (R t) (sym (same (record l { pb = u }))) h;
}

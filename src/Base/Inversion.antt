-- ===== src/Base/Inversion.antt =====
-- What a computation that succeeded has gone through.
use mathlib.Core.Path.{◌≡◌, refl, ap, ◌∙◌}
use mathlib.Core.Bool.{Bool, true, false, ◌&&◌}
use mathlib.Core.Option.{Option, none, some}
use native.Mathlib.Omega.{arith}
use democrit.Base.Effects.{
  Outcome, ok, rpc_error, fatal, Exec, or_die, check, continue, ◌>>=◌, ◌>>◌, and_then, checked,
}

pub and_then-eq-some {ℓ κ} :
    {A : Type ℓ} {B : Type κ} (m : Option A) (f : A → Option B) {b : B}
    → and_then m f ≡ some b
    → (a : A) × (m ≡ some a) × (f a ≡ some b)
unfolding and_then
and_then-eq-some none f h = cc
and_then-eq-some (some a) f h = (a, refl, h)

pub and_then-some {ℓ κ} :
    {A : Type ℓ} {B : Type κ} {m : Option A} (f : A → Option B) {a : A} {r : Option B}
    → m ≡ some a
    → f a ≡ r
    → and_then m f ≡ r
unfolding and_then
and_then-some f e h = ap (λ x. and_then x f) e ∙ h

pub checked-eq-some {ℓ} :
    {A : Type ℓ} (b : Bool) (r : Option A) {a : A}
    → checked b r ≡ some a
    → (b ≡ true) × (r ≡ some a)
unfolding checked
checked-eq-some true r h = (refl, h)
checked-eq-some false r h = cc

pub and_true : (a b : Bool) → (a && b) ≡ true → (a ≡ true) × (b ≡ true)
and_true true b h = (refl, h)
and_true false b h = cc

module _ {S A B : Type 0} where
  continue-eq-ok :
      (r : Outcome A) (s : S) (f : A → Exec S B) {b : B} {s' : S}
      → continue r f s ≡ (ok b, s')
      → (a : A) × (r ≡ ok a) × (f a s ≡ (ok b, s'))
  continue-eq-ok (ok a) s f h = (a, refl, h)
  continue-eq-ok rpc_error s f h = cc
  continue-eq-ok fatal s f h = cc

  -- A chain of calls that returns has returned from the first, in some state.
  pub >>=-eq-ok :
      (m : Exec S A) (f : A → Exec S B) (s : S) {b : B} {s' : S}
      → (m >>= f) s ≡ (ok b, s')
      → (a : A) × (t : S) × (m s ≡ (ok a, t)) × (f a t ≡ (ok b, s'))
  unfolding ◌>>=◌
  >>=-eq-ok m f s h =
      let (a, e, rest) = continue-eq-ok (m s).0 (m s).1 f h in
      (a, (m s).1, (λ i. (e i, (m s).1)), rest)

pub or_die-eq-ok :
    {S A : Type 0} (o : Option A) (s : S) {a : A} {t : S}
    → or_die o s ≡ (ok a, t)
    → (o ≡ some a) × (s ≡ t)
unfolding or_die
or_die-eq-ok none s h = cc
or_die-eq-ok (some b) s h = ground arith

pub check-eq-ok :
    {S : Type 0} (b : Bool) (s : S) {u : Unit {0}} {t : S}
    → check b s ≡ (ok u, t)
    → (b ≡ true) × (s ≡ t)
unfolding check
check-eq-ok true s h = ground arith
check-eq-ok false s h = cc

pub ok-eq-ok :
    {S A : Type 0} (a b : A) (s t : S) → ◌≡◌ {A = Outcome A × S} (ok a, s) (ok b, t) → a ≡ b
ok-eq-ok a b s t h = cc h

-- The same for a check before the rest of a chain.
pub >>-eq-ok :
    {S A B : Type 0} (m : Exec S A) (k : Exec S B) (s : S) {b : B} {s' : S}
    → (m >> k) s ≡ (ok b, s')
    → (a : A) × (t : S) × (m s ≡ (ok a, t)) × (k t ≡ (ok b, s'))
unfolding ◌>>◌
>>-eq-ok m k s h = >>=-eq-ok m (λ _. k) s h

pub some-injective {ℓ} : {A : Type ℓ} {a b : A} → ◌≡◌ {A = Option A} (some a) (some b) → a ≡ b
some-injective e = cc e

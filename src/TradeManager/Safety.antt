-- ===== src/TradeManager/Safety.antt =====
-- A calculus for the calls of the manager: what they keep of the state where they return. It is used for
-- properties that only depend on the account and the trades.
use democrit.Base.{
  ◌≡◌, refl, Bool, true, false, Option, none, some, Text, Exec, ok, pure, check, ◌>>=◌, ◌>>◌,
  >>=-eq-ok, >>-eq-ok, if◌then◌else◌,
}
use mathlib.Core.Path.{subst}
use democrit.Proto.{State}
use democrit.TradeManager.{Manager, on_world}
use democrit.TradeManager.Parties.{IsSound, SameTrades, SameTrades-IsSound}

pub record Framed : Type 1 where
  pub holds : State → Type 0
  pub framed : (s s' : State) → SameTrades s s' → holds s → holds s'

-- The parties of the trades.
abbrev pub sound : Text → Framed
sound account = record { holds = IsSound account; framed = SameTrades-IsSound account }

-- A call that keeps the property where it returns.
pub record Safe {W A : Type 0} (F : Framed) (f : Exec (Manager W) A) : Type 0 where
  pub at :
      (m m' : Manager W) (a : A) → f m ≡ (ok a, m') → F.holds m.node.state → F.holds m'.node.state

module _ {W A : Type 0} {F : Framed} where
  pub Safe-total :
      (f : Exec (Manager W) A)
      → ((m : Manager W) → F.holds m.node.state → F.holds (f m).1.node.state)
      → Safe F f
  Safe-total f keeps = record {
    at = λ m m' a e h. subst (λ p. F.holds p.1.node.state) e (keeps m h);
  }

  pub Safe-frame :
      (f : Exec (Manager W) A)
      → ((m : Manager W) → SameTrades m.node.state (f m).1.node.state)
      → Safe F f
  Safe-frame f same = Safe-total f λ m h. F.framed m.node.state (f m).1.node.state (same m) h

  pub Safe-pure : (a : A) → Safe {W = W} F (pure a)
  Safe-pure a = Safe-frame (pure a) λ m. (refl, refl)

  pub Safe-if :
      (b : Bool) (f g : Exec (Manager W) A) → Safe F f → Safe F g → Safe F (if b then f else g)
  Safe-if true f g hf hg = hf
  Safe-if false f g hf hg = hg

  pub Safe-option :
      {B : Type 0} (o : Option B) (f : Exec (Manager W) A) (g : B → Exec (Manager W) A)
      → Safe F f
      → ((b : B) → Safe F (g b))
      → Safe F (elim o [ none ↦ f | some b ↦ g b ])
  Safe-option none f g hf hg = hf
  Safe-option (some b) f g hf hg = hg b

module _ {W A B : Type 0} {F : Framed} where
  pub Safe-bind :
      (f : Exec (Manager W) A) (g : A → Exec (Manager W) B)
      → Safe F f
      → ((a : A) → Safe F (g a))
      → Safe F (f >>= g)
  Safe-bind f g hf hg = record {
    at = λ m m' b e h.
        let (a, t, first, rest) = >>=-eq-ok f g m e in (hg a).at t m' b rest (hf.at m t a first h);
  }

  pub Safe-then :
      (f : Exec (Manager W) A) (g : Exec (Manager W) B) → Safe F f → Safe F g → Safe F (f >> g)
  Safe-then f g hf hg = record {
    at = λ m m' b e h.
        let (a, t, first, rest) = >>-eq-ok f g m e in hg.at t m' b rest (hf.at m t a first h);
  }

pub Safe-check : {W : Type 0} {F : Framed} (b : Bool) → Safe {W = W} F (check b)
unfolding check
Safe-check true = Safe-frame (check true) λ m. (refl, refl)
Safe-check false = Safe-frame (check false) λ m. (refl, refl)

pub Safe-world : {W A : Type 0} {F : Framed} (f : Exec W A) → Safe F (on_world f)
unfolding on_world
Safe-world f = Safe-frame (on_world f) λ m. (refl, refl)

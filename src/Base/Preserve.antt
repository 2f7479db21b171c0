-- ===== src/Base/Preserve.antt =====
-- A calculus for what a computation keeps of its state where it returns.
use mathlib.Core.Path.{◌≡◌, subst}
use mathlib.Core.Bool.{Bool, true, false}
use mathlib.Core.Option.{Option, none, some}
use democrit.Base.Tests.{if◌then◌else◌}
use democrit.Base.Effects.{ok, Exec, pure, ◌>>=◌, ◌>>◌}
use democrit.Base.Inversion.{>>=-eq-ok, >>-eq-ok}

pub record Keeps {S A : Type 0} (P : S → Type 0) (f : Exec S A) : Type 0 where
  pub at : (s s' : S) (a : A) → f s ≡ (ok a, s') → P s → P s'

module _ {S A : Type 0} (P : S → Type 0) where
  pub Keeps-total : (f : Exec S A) → ((s : S) → P s → P (f s).1) → Keeps P f
  Keeps-total f keeps = record { at = λ s s' a e h. subst (λ p. P p.1) e (keeps s h) }

  pub Keeps-pure : (a : A) → Keeps P (pure a)
  Keeps-pure a = Keeps-total (pure a) λ s h. h

  pub Keeps-if : (b : Bool) (f g : Exec S A) → Keeps P f → Keeps P g → Keeps P (if b then f else g)
  Keeps-if true f g hf hg = hf
  Keeps-if false f g hf hg = hg

  pub Keeps-option :
      {B : Type 0} (o : Option B) (f : Exec S A) (g : B → Exec S A)
      → Keeps P f
      → ((b : B) → Keeps P (g b))
      → Keeps P (elim o [ none ↦ f | some b ↦ g b ])
  Keeps-option none f g hf hg = hf
  Keeps-option (some b) f g hf hg = hg b

module _ {S A B : Type 0} (P : S → Type 0) where
  pub Keeps-bind :
      (f : Exec S A) (g : A → Exec S B) → Keeps P f → ((a : A) → Keeps P (g a)) → Keeps P (f >>= g)
  Keeps-bind f g hf hg = record {
    at = λ s s' b e h.
        let (a, t, first, rest) = >>=-eq-ok f g s e in (hg a).at t s' b rest (hf.at s t a first h);
  }

  pub Keeps-then : (f : Exec S A) (g : Exec S B) → Keeps P f → Keeps P g → Keeps P (f >> g)
  Keeps-then f g hf hg = record {
    at = λ s s' b e h.
        let (a, t, first, rest) = >>-eq-ok f g s e in hg.at t s' b rest (hf.at s t a first h);
  }

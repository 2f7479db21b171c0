-- ===== src/Base/Effects.antt =====
-- The effects of the C++ code. A call returns, throws a `jsonrpc::JsonRpcException`, or dies in a
-- failed `CHECK` or `LOG (FATAL)`. The state comes back beside a throw, since what was written
-- before it stays written.
use mathlib.Core.Bool.{Bool, true, false}
use mathlib.Core.Option.{Option, none, some}
use democrit.Base.Tests.{if◌then◌else◌}

pub data Outcome (A : Type 0) : Type 0 where
  ok : A → Outcome A
  rpc_error : Outcome A
  fatal : Outcome A

abbrev pub Exec : Type 0 → Type 0 → Type 0
Exec S A = S → Outcome A × S

module _ {S A : Type 0} where
  abbrev pub pure : A → Exec S A
  pure a s = (ok a, s)

  abbrev pub die : Exec S A
  die s = (fatal, s)

  -- What a `CHECK` on a decoded value gives.
  unfoldable pub or_die : Option A → Exec S A
  or_die none s = (fatal, s)
  or_die (some a) s = (ok a, s)

module _ {S A B : Type 0} where
  abbrev pub continue : Outcome A → (A → Exec S B) → Exec S B
  continue (ok a) f s = f a s
  continue rpc_error f s = (rpc_error, s)
  continue fatal f s = (fatal, s)

  infixl 5 ◌>>=◌ ◌>>◌
  unfoldable pub ◌>>=◌ : Exec S A → (A → Exec S B) → Exec S B
  ◌>>=◌ m f s = let (r, s') = m s in continue r f s'

  unfoldable pub ◌>>◌ : Exec S A → Exec S B → Exec S B
  unfolding ◌>>=◌
  m >> k = m >>= λ _. k

-- `CHECK (b)`
unfoldable pub check : {S : Type 0} → Bool → Exec S (Unit {0})
check b s = if b then (ok tt, s) else (fatal, s)

-- A step of a computation in which only a failed `CHECK` can go wrong.
unfoldable pub and_then {ℓ κ} : {A : Type ℓ} {B : Type κ} → Option A → (A → Option B) → Option B
and_then none f = none
and_then (some a) f = f a

-- `CHECK (b)` in such a computation.
unfoldable pub checked {ℓ} : {A : Type ℓ} → Bool → Option A → Option A
checked true r = r
checked false r = none

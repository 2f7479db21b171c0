-- ===== src/Checker/Ancestor.antt =====
-- The search of `is_block_ancestor` (src/checker.cpp) against the chain of headers.
use democrit.Base.{
  ℕ, zero, suc, ◌≤◌, ◌≡◌, ◌↔◌, refl, ap, Bool, true, false, Option, none, some, arith, codes, ok,
  if◌then◌else◌, ◌==◌, Bool-cases, Option-cases, inl, inr, ◌>>=◌, ◌>>◌, or_die, check, and_then,
}
use democrit.Json.{Fields, obj, str, lookup_field}
use democrit.Env.{Env}
use democrit.Checker.{previous_block, is_block_ancestor}

-- The block k generations before.
abbrev pub generations_back : (ℕ → Option ℕ) → ℕ → ℕ → Option ℕ
generations_back parent zero block = some block
generations_back parent (suc k) block = elim (parent block) [
  | none ↦ none
  | some p ↦ generations_back parent k p
]

-- The headers of the chain: reading one changes nothing, and it names the hash of the parent, or no
-- parent for the genesis block.
pub record HasChain {W : Type 0} (env : Env W) (parent : ℕ → Option ℕ) : Type 0 where
  pub header : ℕ → Fields
  pub read : (b : ℕ) (w : W) → env.get_block_header (env.hash_to_hex b) w ≡ (ok (obj (header b)), w)
  pub names_parent :
      (b : ℕ)
      → lookup_field (codes "previousblockhash") (header b)
        ≡ elim (parent b) [ none ↦ none | some p ↦ some (str (env.hash_to_hex p)) ]
  pub hex : (b : ℕ) → env.hash_from_hex (env.hash_to_hex b) ≡ some b

module _ {W : Type 0} (env : Env W) (parent : ℕ → Option ℕ) (chain : HasChain env parent) where
  previous_block-parent : (b : ℕ) (w : W) → previous_block env b w ≡ (ok (parent b), w)
  unfolding previous_block ◌>>=◌ ◌>>◌ or_die check and_then
  previous_block-parent b w = elim (Option-cases (parent b)) [
    | inl genesis ↦ rw (genesis) (rw (chain.read b w, chain.names_parent b, genesis) refl)
    | inr (p, e) ↦ rw (chain.read b w, chain.names_parent b, e, chain.hex p) refl
  ]

  -- Whether the ancestor is the block itself or one of the n blocks before it.
  within : ℕ → ℕ → ℕ → Bool
  within a b zero = a == b
  within a b (suc n) =
      if a == b then true else elim (parent b) [ none ↦ false | some p ↦ within a p n ]

  is_block_ancestor-within :
      (n a b : ℕ) (w : W) → is_block_ancestor env a b n w ≡ (ok (within a b n), w)
  unfolding is_block_ancestor within ◌>>=◌
  is_block_ancestor-within zero a b w = refl
  is_block_ancestor-within (suc n) a b w = elim (Bool-cases (a == b)) [
    | inl here ↦ rw here refl
    | inr further ↦ elim (Option-cases (parent b)) [
      | inl genesis ↦ rw (further, previous_block-parent b w, genesis) refl
      | inr (p, e) ↦ rw (further, previous_block-parent b w, e) (is_block_ancestor-within n a p w)
    ]
  ]

  one_more :
      (n a b p : ℕ)
      → parent b ≡ some p
      → (k : ℕ) × (k ≤ n) × (generations_back parent k p ≡ some a)
      → (k : ℕ) × (k ≤ suc n) × (generations_back parent k b ≡ some a)
  one_more n a b p e (k, bound, path) = (suc k, omega arith, rw (e, generations_back) path)

  within_sound :
      (n a b : ℕ) → within a b n ≡ true → (k : ℕ) × (k ≤ n) × (generations_back parent k b ≡ some a)
  unfolding within
  within_sound zero a b h = (0, omega arith, ap some (ground arith))
  within_sound (suc n) a b h = elim (Bool-cases (a == b)) [
    | inl here ↦ (0, omega arith, ap some (ground arith))
    | inr further ↦ elim (Option-cases (parent b)) [
      | inl genesis ↦ absurd (ground arith)
      | inr (p, e) ↦ one_more n a b p e (within_sound n a p (rw (further, e) at h))
    ]
  ]

  within_complete :
      (k n a b : ℕ) → k ≤ n → generations_back parent k b ≡ some a → within a b n ≡ true
  unfolding within
  within_complete zero zero a b h e = ground arith
  within_complete zero (suc n) a b h e = ground arith
  within_complete (suc k) zero a b h e = elim h [ ]
  within_complete (suc k) (suc n) a b h e = elim (Option-cases (parent b)) [
    | inl genesis ↦ absurd (ground arith)
    | inr (p, parent_of) ↦ rw parent_of (
        ground
          (arith, within_complete k n a p (omega arith) (rw (parent_of, generations_back) at e)))
  ]

  -- On a chain of headers the search always ends with an answer and changes nothing, and the answer
  -- is true exactly if the ancestor is the block itself or at most n generations before it.
  pub is_block_ancestor-decides :
      (n a b : ℕ) (w : W)
      → (answer : Bool) × (is_block_ancestor env a b n w ≡ (ok answer, w))
        × ((answer ≡ true) ↔ ((k : ℕ) × (k ≤ n) × (generations_back parent k b ≡ some a)))
  is_block_ancestor-decides n a b w = (
    within a b n,
    is_block_ancestor-within n a b w,
    (within_sound n a b, λ back. within_complete back.0 n a b back.1 back.2),
  )

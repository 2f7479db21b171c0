-- ===== src/Nonfungible/Balances.antt =====
-- nonfungible/main.cpp under the daemon of src/daemon.cpp: what an order that is let through stands on.
use democrit.Base.{
  ℕ, ◌<◌, ◌≤◌, ◌≡◌, sym, inl, inr, true, false, not, Bool-cases, Option, none, some, Text, codes,
  if◌then◌else◌, ℤ, pos, negsuc, ltb_ℤ, to_int64, to_int64_small, i64_max, ok, or_die, check,
  and_then, >>=-eq-ok, >>-eq-ok, or_die-eq-ok, ok-eq-ok, has, arith,
}
use mathlib.Core.Path.{subst}
use democrit.Json.{Json, is_object, member}
use democrit.Proto.{Order, ask, asset_of, type_of}
use democrit.Env.{Env}
use democrit.Daemon.{can_trade, validate_order}
use democrit.Daemon.Validity.{validate_order-can_trade}
use democrit.Nonfungible.{NfRpc, get_nf_asset, as_int64, can_sell, with_spec}

-- The GSP has answered, in some state, that the account owns so many of the asset.
abbrev pub IsOwned : {W : Type 0} → NfRpc W → Text → Text → ℤ → Type 0
IsOwned {W = W} gsp account asset balance =
    (w : W) × (w' : W) × (response : Json) × (gsp.get_balance (get_nf_asset asset) account w
      ≡ (ok response, w'))
    × (and_then (member (codes "data") response) as_int64 ≡ some balance)

module _ {W : Type 0} (gsp : NfRpc W) where
  enough :
      (balance n : ℤ) (hash : ℕ)
      → has (if not (ltb_ℤ balance n) then some hash else none) ≡ true
      → ltb_ℤ balance n ≡ false
  enough balance n hash h = elim (Bool-cases (ltb_ℤ balance n)) [
    | inr fine ↦ fine
    | inl less ↦ cc (rw less at h)
  ]

  can_sell-IsOwned :
      (account asset : Text) (n : ℤ) (w w' : W) {hash : Option ℕ}
      → can_sell gsp account asset n w ≡ (ok hash, w')
      → has hash ≡ true
      → (balance : ℤ) × IsOwned gsp account asset balance × (ltb_ℤ balance n ≡ false)
  unfolding can_sell
  can_sell-IsOwned account asset n w w' {hash} e h =
      let (_, w1, _, e1) = >>-eq-ok (check (is_object (get_nf_asset asset))) _ w e in
      let (response, w2, answered, e2) =
        >>=-eq-ok (gsp.get_balance (get_nf_asset asset) account) _ w1 e1 in
      let (_, w3, _, e3) = >>-eq-ok (check (is_object response)) _ w2 e2 in
      let (balance, w4, known, e4) =
        >>=-eq-ok (or_die (and_then (member (codes "data") response) as_int64)) _ w3 e3 in
      let (hash_val, w5, _, e5) = >>=-eq-ok (or_die _) _ w4 e4 in
      let (block, w6, _, e6) = >>=-eq-ok (or_die _) _ w5 e5 in
      let same : (if not (ltb_ℤ balance n) then some block else none) ≡ hash =
        ok-eq-ok _ hash _ w' e6 in
      (
        balance,
        (w1, w2, response, answered, (or_die-eq-ok _ w3 known).0),
        enough balance n block (subst (λ o. has o ≡ true) (sym same) h),
      )

-- An offer to sell at most 2 ^ 63 - 1 units that a daemon with this asset spec lets through: the GSP has
-- answered that the account owns at least so many.
pub validate_order-IsOwned :
    {W : Type 0} (gsp : NfRpc W) (env : Env W) (account : Text) (o : Order) (w w' : W)
    → validate_order (with_spec gsp env) account o w ≡ (ok true, w')
    → type_of o ≡ ask
    → o.max_units < i64_max
    → (balance : ℕ) × IsOwned gsp account (asset_of o) (pos balance) × (o.max_units ≤ balance)
unfolding can_trade
validate_order-IsOwned gsp env account o w w' e asks small =
    let (w1, traded) = validate_order-can_trade (with_spec gsp env) account o w w' e in
    let sold = rw (asks, can_trade) at traded in
    let (hash, w2, sells, found) =
      >>=-eq-ok (can_sell gsp account (asset_of o) (to_int64 o.max_units)) _ w1 sold in
    let (balance, owned, covers) =
      can_sell-IsOwned gsp account (asset_of o) (to_int64 o.max_units) w1 w2 sells
        (ok-eq-ok (has hash) true w2 w' found) in
    natural balance owned (rw (to_int64_small o.max_units small) at covers)
  where
    natural :
        (balance : ℤ)
        → IsOwned gsp account (asset_of o) balance
        → ltb_ℤ balance (pos o.max_units) ≡ false
        → (n : ℕ) × IsOwned gsp account (asset_of o) (pos n) × (o.max_units ≤ n)
    natural (pos n) owned covers = (n, owned, ground (arith, covers))
    natural (negsuc n) owned covers = cc covers

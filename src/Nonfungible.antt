-- ===== src/Nonfungible.antt =====
-- nonfungible/main.cpp: the asset spec for the game of non-fungible assets. An asset is the name of its
-- minter and its own, parted by a line break. The RPC interface of the game's GSP is a parameter. A
-- member of a value that has none ends the process here, as a failed `CHECK` does.
pub mod Pairs
pub mod Balances
use democrit.Base.{
  ℕ, ◌==◌, Bool, true, false, not, Option, none, some, List, [], ◌∷◌, Text, codes, str_eq,
  if◌then◌else◌, ℤ, pos, negsuc, ltb, leb, ltb_ℤ, ◌^◌, Exec, Outcome, ok, pure, or_die, check,
  and_then, ◌>>=◌, ◌>>◌, has,
}
use democrit.Json.{
  Json, null, int_val, str, obj, Fields, lookup_field, member, put, is_null, is_object, as_str,
  as_object, empty_object,
}
use democrit.Env.{Env}
use democrit.Gsp.{is_member}

abbrev pub put_first : ℕ → Option (Text × Text) → Option (Text × Text)
put_first c none = none
put_first c (some (before, after)) = some (c ∷ before, after)

-- `str.find ('\n')`, with the parts before and after.
unfoldable pub split_line : Text → Option (Text × Text)
split_line [] = none
split_line (c ∷ rest) =
    let later = split_line rest in if c == b'\n' then some ([], rest) else put_first c later

unfoldable pub get_nf_asset : Text → Json
unfolding split_line put
get_nf_asset asset = elim (split_line asset) [
  | none ↦ null
  | some (minter, name) ↦ put (codes "a") (str name) (put (codes "m") (str minter) empty_object)
]

-- The JSON-RPC interface of the game's GSP.
pub record NfRpc (W : Type 0) : Type 0 where
  pub get_asset_details : Json → Exec W Json
  pub get_balance : Json → Text → Exec W Json
  pub hash_from_hex : Text → Option ℕ

-- `isInt64 ()` and `asInt64 ()`
unfoldable pub as_int64 : Json → Option ℤ
as_int64 (int_val (pos n)) = if ltb n (2 ^ 63) then some (pos n) else none
as_int64 (int_val (negsuc n)) = if ltb n (2 ^ 63) then some (negsuc n) else none
as_int64 _ = none

module _ {W : Type 0} (gsp : NfRpc W) where
  unfoldable pub is_asset : Text → Exec W Bool
  unfolding get_nf_asset member
  is_asset asset = if is_null (get_nf_asset asset) then pure false else do
    response ← gsp.get_asset_details (get_nf_asset asset)
    check (is_member (codes "data") response)
    details ← or_die (member (codes "data") response)
    pure (not (is_null details))

  -- The hash of the block is set in any case, and used only with a positive answer.
  unfoldable pub can_sell : Text → Text → ℤ → Exec W (Option ℕ)
  unfolding get_nf_asset member as_int64 and_then
  can_sell name asset n = do
    check (is_object (get_nf_asset asset))
    response ← gsp.get_balance (get_nf_asset asset) name
    check (is_object response)
    balance ← or_die (and_then (member (codes "data") response) as_int64)
    hash_val ← or_die (and_then (member (codes "blockhash") response) as_str)
    hash ← or_die (gsp.hash_from_hex hash_val)
    pure (if not (ltb_ℤ balance n) then some hash else none)

  unfoldable pub can_buy : Text → Text → ℤ → Exec W Bool
  can_buy name asset n = pure true

abbrev pub game_id : Text
game_id = codes "nf"

-- A failed `CHECK` is `none`.
unfoldable pub get_transfer_move : Text → Text → Text → ℤ → Option Json
unfolding get_nf_asset put
get_transfer_move sender receiver asset n = elim (is_object (get_nf_asset asset)) [
  | false ↦ none
  | true ↦ some (
      put (codes "t")
        (put (codes "r") (str receiver)
          (put (codes "n") (int_val n) (put (codes "a") (get_nf_asset asset) empty_object)))
        empty_object)
]

abbrev or_null : Option Json → Json
or_null none = null
or_null (some v) = v

-- The environment of a node that is started with this asset spec. It asks for a move only where the check on
-- the asset passes.
abbrev pub with_spec : {W : Type 0} → NfRpc W → Env W → Env W
with_spec gsp env = record env {
  game_id = game_id;
  is_asset = is_asset gsp;
  can_sell = can_sell gsp;
  can_buy = can_buy gsp;
  transfer_move = λ sender receiver asset n. or_null (get_transfer_move sender receiver asset n);
}

-- The flags that `main` needs.
pub record Flags : Type 0 where
  pub gsp_rpc_url : Text
  pub xaya_rpc_url : Text
  pub dem_rpc_url : Text
  pub rpc_port : ℕ
  pub account : Text
  pub jid : Text

-- The first of the tests of `main` that fails, with its message; the node starts if there is none.
abbrev first_failing : List (Bool × Text) → Option Text
first_failing [] = none
first_failing ((bad, message) ∷ tests) = if bad then some message else first_failing tests

unfoldable pub usage_error : Flags → Option Text
unfolding str_eq
usage_error f = first_failing (
    (str_eq f.gsp_rpc_url [], codes "--gsp_rpc_url must be set")
    ∷ (str_eq f.xaya_rpc_url [], codes "--xaya_rpc_url must be set")
    ∷ (str_eq f.dem_rpc_url [], codes "--dem_rpc_url must be set")
    ∷ (f.rpc_port == 0, codes "--rpc_port must be set")
    ∷ (str_eq f.account [], codes "--account must be set")
    ∷ (str_eq f.jid [], codes "--jid must be set")
    ∷ [])

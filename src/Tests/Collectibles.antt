-- ===== src/Tests/Collectibles.antt =====
-- The asset spec of nonfungible/main.cpp over a GSP by which Alice has nine swords of Bob.
use democrit.Base.{
  ℕ, ◌≡◌, ◌↔◌, ◌≤◌, refl, true, some, ◌∷◌, ◌++◌, Text, codes, pos, ok, or_die, check, and_then,
  ◌>>=◌, ◌>>◌, str_eq, str_lt, arith,
}
use democrit.Json.{int_val, str, obj, field, end, member, empty_object, put}
use democrit.Proto.{Order}
use democrit.Daemon.{validate_order}
use democrit.Nonfungible.{NfRpc, get_nf_asset, as_int64, is_asset, can_sell, with_spec}
use democrit.Nonfungible.Pairs.{HasNoLine, pair_json, get_nf_asset-pairs}
use democrit.Nonfungible.Balances.{IsOwned, validate_order-IsOwned}
use democrit.Tests.World.{env0, alice, bob, stored_order}

abbrev sword : Text
sword = bob ++ (b'\n' ∷ codes "sword")

get_nf_asset-pairs_example :
    (get_nf_asset sword ≡ pair_json bob (codes "sword"))
    ↔ ((sword ≡ bob ++ (b'\n' ∷ codes "sword")) × HasNoLine bob)
get_nf_asset-pairs_example = get_nf_asset-pairs sword bob (codes "sword")

abbrev gsp0 : NfRpc ℕ
gsp0 = record {
  get_asset_details = λ asset w. (ok (obj (field (codes "data") empty_object end)), w);
  get_balance = λ asset name w. (
    ok (
        obj (
          field (codes "blockhash") (str (codes "hash"))
            (field (codes "data") (int_val (pos 9)) end))),
    w,
  );
  hash_from_hex = λ hex. some 1;
}

abbrev sells_swords : Order
sells_swords = record stored_order { asset = some sword }

sells_valid : validate_order (with_spec gsp0 env0) alice sells_swords 0 ≡ (ok true, 0)
unfolding validate_order or_die check and_then ◌>>=◌ ◌>>◌ member str_eq as_int64 put str_lt
    get_nf_asset is_asset can_sell
sells_valid = refl

validate_order-IsOwned_example :
    (balance : ℕ) × IsOwned gsp0 alice sword (pos balance) × (5 ≤ balance)
validate_order-IsOwned_example =
    validate_order-IsOwned gsp0 env0 alice sells_swords 0 0 sells_valid refl (omega arith)

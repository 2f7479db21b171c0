-- ===== src/Env.antt =====
-- What the program calls and does not implement: the JSON-RPC interfaces of Xaya Core and of the
-- g/dem GSP (src/rpc-stubs), the AssetSpec of the game (src/assetspec.hpp), the clock, the helpers of
-- xayautil and jsoncpp, and the command-line flags. `W` is the state of all of these (wallet,
-- chain, games); any call that is an `Exec` may change it, and may throw.
use democrit.Base.{ℕ, Bool, Option, Text, ℤ, Exec}
use democrit.Json.{Json}
use democrit.MyOrders.{Validator}

pub record Env (W : Type 0) : Type 0 where
  pub get_new_address : Exec W Text
  pub name_show : Text → Exec W Json
  pub get_tx_out : Text → ℕ → Exec W Json
  pub get_block_header : Text → Exec W Json
  pub decode_psbt : Text → Exec W Json
  -- inputs, outputs, lock time, options
  pub wallet_create_funded_psbt : Json → Json → ℕ → Json → Exec W Json
  pub create_psbt : Json → Json → Exec W Text
  pub name_psbt : Text → ℕ → Json → Exec W Json
  pub join_psbts : Json → Exec W Text
  pub wallet_process_psbt : Text → Exec W Json
  pub combine_psbt : Json → Exec W Text
  pub finalize_psbt : Text → Exec W Json
  pub send_raw_transaction : Text → Exec W Text
  -- unlock?, outputs
  pub lock_unspent : Bool → Json → Exec W Bool
  pub check_trade : Text → Exec W Json
  -- the asset spec; `can_sell` gives the block hash of its check with a positive answer
  pub game_id : Text
  pub is_asset : Text → Exec W Bool
  pub can_sell : Text → Text → ℤ → Exec W (Option ℕ)
  pub can_buy : Text → Text → ℤ → Exec W Bool
  pub transfer_move : Text → Text → Text → ℤ → Json
  -- `MyOrders::ValidateOrder` as the world stands: it leaves the world, and may throw
  pub validate : W → Validator
  pub current_time : Exec W ℕ
  -- xayautil and jsoncpp: block hashes are numbers
  pub hash_from_hex : Text → Option ℕ
  pub hash_to_hex : ℕ → Text
  pub write_string : Json → Text
  pub amount_to_json : ℤ → Json
  pub amount_from_json : Json → Option ℤ
  -- flags
  pub confirmations : ℕ
  pub feerate_wo_names : ℕ
  pub trade_timeout_ms : ℕ

-- ===== src/RpcServer.antt =====
-- src/rpcserver.cpp: the JSON-RPC methods of the node over its daemon. Parameters come as the stubs of
-- libjson-rpc-cpp give them; `int` is an integer.
pub mod Answers
pub mod Loop
use democrit.Base.{
  ℕ, Bool, true, false, Option, none, some, List, [], ◌∷◌, Text, codes, str_eq, str_lt, ℤ,
  to_uint64, Exec, Outcome, ok, rpc_error, fatal, pure, or_die, and_then, ◌>>=◌, ◌>>◌, map,
}
use democrit.Json.{Json, null, bool_val, str, arr, obj, end, of_list, empty_object, put}
use democrit.Proto.{Order, Trade}
use democrit.Env.{Env}
use democrit.ProtoJson.{
  assign, order_from_json, orders_of_account_to_json, orderbook_for_asset_to_json,
  orderbook_by_asset_to_json, trade_to_json,
}
use democrit.TradeManager.{get_trades}
use democrit.Daemon.{
  Daemon, get_orders_for_asset, get_orders_by_asset, get_own_orders, get_account, add_order,
  cancel_order, take_offer,
}

module _ {W : Type 0} where
  unfoldable pub getordersforasset : Text → Exec (Daemon W) Json
  unfolding get_orders_for_asset orderbook_for_asset_to_json and_then or_die
  getordersforasset asset d =
      or_die (and_then (get_orders_for_asset d asset) orderbook_for_asset_to_json) d

  unfoldable pub getordersbyasset : Exec (Daemon W) Json
  unfolding get_orders_by_asset orderbook_by_asset_to_json and_then or_die
  getordersbyasset d = or_die (and_then (get_orders_by_asset d) orderbook_by_asset_to_json) d

  unfoldable pub getownorders : Exec (Daemon W) Json
  unfolding get_own_orders orders_of_account_to_json or_die
  getownorders d = or_die (orders_of_account_to_json (get_own_orders d)) d

  unfoldable pub gettrades : Exec (Daemon W) Json
  unfolding get_trades trade_to_json
  gettrades d = (ok (arr (of_list (map trade_to_json (get_trades d.manager.node.state)))), d)

module _ {W : Type 0} (env : Env W) where
  unfoldable pub getstatus : Exec (Daemon W) Json
  unfolding assign get_account
  getstatus d = (
    ok (
        obj (
          assign
            ((codes "connected", some (bool_val d.connected))
              ∷ (codes "gameid", some (str env.game_id))
              ∷ (codes "account", some (str (get_account d)))
              ∷ [])
            end)),
    d,
  )

  -- `throw jsonrpc::JsonRpcException`, if the order cannot be read.
  unfoldable pub with_order :
      {A : Type 0} → Option Order → (Order → Exec (Daemon W) A) → Exec (Daemon W) A
  with_order none f d = (rpc_error, d)
  with_order (some o) f d = f o d

  unfoldable pub addorder : Json → Exec (Daemon W) Bool
  unfolding with_order order_from_json add_order
  addorder order = with_order (order_from_json order) (add_order env)

  unfoldable pub cancelorder : ℤ → Exec (Daemon W) Json
  unfolding cancel_order to_uint64
  cancelorder id = do cancel_order env (to_uint64 id); pure null

  unfoldable pub takeorder : Json → ℤ → Exec (Daemon W) Bool
  unfolding with_order order_from_json take_offer
  takeorder order units = with_order (order_from_json order) λ o. take_offer env o units

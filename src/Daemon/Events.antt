-- ===== src/Daemon/Events.antt =====
-- The handlers and calls of src/daemon.cpp in any order, up to a failed `CHECK` or an exception that nothing
-- catches. `timeout` is that of the orders of others, and `servers` the trusted ones.
use democrit.Base.{
  ℕ, Bool, Option, List, [], ◌∷◌, Text, ℤ, Exec, Outcome, ok, rpc_error, fatal, pure, ◌>>◌,
}
use democrit.Proto.{Order, OrdersOfAccount, ProcessingMessage}
use democrit.Env.{Env}
use democrit.MyOrders.{run_refresh}
use democrit.TradeManager.{on_orders, update_and_archive_trades}
use democrit.Authenticator.{Jid}
use democrit.OrderBook.{run_timeout}
use democrit.Daemon.{
  Daemon, on_manager, handle_muc_message, handle_private, handle_disconnect, add_order,
  cancel_order, take_offer,
}

-- What happens around the handlers: messages, the calls of the user, the periodic jobs, and the
-- connection that goes up and down. A disconnect is that of another participant.
pub data Event : Type 0 where
  message : ℕ → Jid → Option OrdersOfAccount → Event
  private_message : Jid → Option ProcessingMessage → Event
  disconnect : ℕ → Jid → Event
  times_out : ℕ → Event
  connection : Bool → Event
  updates_trades refreshes : Event
  adds_order : Order → Event
  cancels_order : ℕ → Event
  takes_offer : Order → ℤ → Event

-- The RPC server catches an exception of JSON-RPC, and answers the user with an error.
abbrev pub answered : {A : Type 0} → Outcome A → Outcome (Unit {0})
answered (ok _) = ok tt
answered rpc_error = ok tt
answered fatal = fatal

unfoldable pub caught : {S A : Type 0} → Exec S A → Exec S (Unit {0})
caught m s = let (r, s') = m s in (answered r, s')

module _ {W : Type 0} (env : Env W) (timeout : ℕ) (servers : List Text) where
  unfoldable pub handle : Event → Exec (Daemon W) (Unit {0})
  unfolding caught handle_muc_message handle_private handle_disconnect run_timeout on_manager
      add_order cancel_order take_offer
  handle (message now sender ext) = handle_muc_message env servers now sender ext
  handle (private_message sender ext) = handle_private env servers sender ext
  handle (disconnect now jid) = handle_disconnect env servers now jid
  handle (times_out now) =
      λ d. (ok tt, record d { all_orders = run_timeout timeout now d.all_orders })
  handle (connection up) = λ d. (ok tt, record d { connected = up })
  handle updates_trades = on_manager (update_and_archive_trades env)
  handle refreshes = on_manager (on_orders env λ valid. run_refresh valid)
  handle (adds_order o) = caught (add_order env o)
  handle (cancels_order id) = caught (cancel_order env id)
  handle (takes_offer o units) = do take_offer env o units; pure tt

  unfoldable pub handle_all : List Event → Exec (Daemon W) (Unit {0})
  unfolding handle
  handle_all [] = pure tt
  handle_all (e ∷ es) = do handle e; handle_all es

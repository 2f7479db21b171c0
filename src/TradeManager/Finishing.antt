-- ===== src/TradeManager/Finishing.antt =====
-- The calls of the trade manager (src/trades.cpp) on the own orders, and what it does with a trade that is
-- over: none of them changes the trades that it keeps.
use democrit.Base.{refl, not, List, [], ◌∷◌, Text, ℕ, Exec, die}
use democrit.Proto.{
  Order, TradePhase, initiated, pending, success, failed, abandoned, TradeState, id_of, phase_of,
  is_maker,
}
use democrit.Env.{Env}
use democrit.MyOrders.{Validator, Node, add, remove_by_id, unlock}
use democrit.Trade.{get_role}
use democrit.TradeManager.{
  remaining, is_offerable, on_orders, remove_order, add_again, handle_success, release_order,
  release_name, release_inputs, handle_failure, finish_trade, finish_trades,
}
use democrit.TradeManager.Parties.{
  SameTrades, add-SameTrades, remove_by_id-SameTrades, unlock_found-SameTrades,
}
use democrit.TradeManager.Safety.{
  Framed, Safe, Safe-frame, Safe-pure, Safe-if, Safe-then, Safe-world,
}

module _ {W : Type 0} (env : Env W) {F : Framed} where
  pub Safe-orders :
      {A : Type 0} (f : Validator → Exec Node A)
      → ((valid : Validator) (n : Node) → SameTrades n.state (f valid n).1.state)
      → Safe F (on_orders env f)
  unfolding on_orders
  Safe-orders f same = Safe-frame (on_orders env f) λ m. same (env.validate m.world) m.node

  pub Safe-unlock : (id : ℕ) → Safe F (on_orders env λ valid. unlock valid id)
  unfolding unlock
  Safe-unlock id =
      Safe-orders (λ valid. unlock valid id) λ valid n. unlock_found-SameTrades valid id _ n

  remove_order-Safe : (id : ℕ) → Safe F (remove_order env id)
  unfolding remove_order
  remove_order-Safe id =
      Safe-orders (λ valid. remove_by_id valid id) λ valid n. remove_by_id-SameTrades valid id n

  add_again-Safe : (o : Order) → Safe F (add_again env o)
  unfolding add_again
  add_again-Safe o =
      Safe-if (is_offerable o) _ _
        (Safe-then _ _ (Safe-orders (λ valid. add valid o) λ valid n. add-SameTrades valid o n)
          (Safe-pure tt))
        (Safe-pure tt)

  handle_success-Safe : (by : Text) (t : TradeState) → Safe F (handle_success env by t)
  unfolding handle_success
  handle_success-Safe by t =
      Safe-if (not (is_maker (get_role by t))) _ _ (Safe-pure tt)
        (Safe-then _ _ (remove_order-Safe (id_of t.order)) (add_again-Safe (remaining t)))

  handle_failure-Safe : (by : Text) (t : TradeState) → Safe F (handle_failure env by t)
  unfolding handle_failure release_order
  handle_failure-Safe by t =
      Safe-then _ _
        (Safe-if (is_maker (get_role by t)) _ _ (Safe-unlock (id_of t.order)) (Safe-pure tt))
        (Safe-then _ _ (Safe-world (release_name env t)) (Safe-world (release_inputs env by t)))

  finish_trade-Safe :
      (by : Text) (t : TradeState) (p : TradePhase) → Safe F (finish_trade env by t p)
  unfolding finish_trade
  finish_trade-Safe by t initiated = Safe-frame die λ m. (refl, refl)
  finish_trade-Safe by t pending = Safe-frame die λ m. (refl, refl)
  finish_trade-Safe by t success = handle_success-Safe by t
  finish_trade-Safe by t failed = handle_failure-Safe by t
  finish_trade-Safe by t abandoned = handle_failure-Safe by t

  pub finish_trades-Safe : (by : Text) (ts : List TradeState) → Safe F (finish_trades env by ts)
  unfolding finish_trades
  finish_trades-Safe by [] = Safe-pure tt
  finish_trades-Safe by (t ∷ ts) =
      Safe-then _ _ (finish_trade-Safe by t (phase_of t)) (finish_trades-Safe by ts)

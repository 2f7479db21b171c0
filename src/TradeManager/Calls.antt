-- ===== src/TradeManager/Calls.antt =====
-- The calls of the trade manager (src/trades.cpp) in any order, up to a failed `CHECK` or an exception
-- that nothing catches.
use democrit.Base.{
  ◌≡◌, refl, sym, ◌∙◌, ◌≢◌, inl, inr, true, false, not, Bool-cases, Option, none, List, [], ◌∷◌,
  All-append, Text, str_eq, str_eq_iff, ℤ, ℕ, Exec, Outcome, ok, rpc_error, fatal, pure, ◌>>=◌,
  ◌>>◌, if◌then◌else◌, value_or, has, to_int64,
}
use mathlib.Core.Path.{subst}
use mathlib.Core.Bool.{false≢true}
use democrit.Proto.{Order, TradeState, TakingOrder, ProcessingMessage, State, account_of}
use democrit.Env.{Env}
use democrit.MyOrders.{Node, try_lock, unlock}
use democrit.Trade.Wallet.{Local}
use democrit.Trade.Life.Replying.{has_reply-Evolves}
use democrit.TradeManager.{
  Manager, Swept, check_order, new_trade, append_trade, on_orders, sweep, record_sweep,
  sweep_trades, finish_trades, update_and_archive_trades, open_after, open_with, take_new,
  take_order, open_taken, order_taken, process_known, accept_taking, process_message,
}
use democrit.TradeManager.Sweep.{Splits, sweep-Splits}
use democrit.TradeManager.Processing.{process_trades-Touched}
use democrit.TradeManager.Parties.{
  Between, IsSound, lock_found-SameTrades, Splits-Between, Touched-Between, Between-Kept,
}
use democrit.TradeManager.Finishing.{Safe-orders, Safe-unlock, finish_trades-Safe}
use democrit.TradeManager.Safety.{
  sound, Safe, Safe-total, Safe-pure, Safe-if, Safe-option, Safe-bind, Safe-then, Safe-check,
  Safe-world,
}

module _ {W : Type 0} (env : Env W) {account : Text} where
  record_sweep-IsSound :
      (r : Outcome (Unit {0})) (s : Swept) (w : W) (m m' : Manager W) (fs : List TradeState)
      → record_sweep (r, s, w) m ≡ (ok fs, m')
      → (r ≡ ok tt → Splits account m.node.state.trades s)
      → IsSound account m.node.state
      → IsSound account m'.node.state
  unfolding record_sweep
  record_sweep-IsSound (ok _) s w m m' fs e splits h =
      subst (λ p. IsSound account p.1.node.state) e (h.0, Splits-Between account (splits refl) h.1)
  record_sweep-IsSound rpc_error s w m m' fs e splits h = cc
  record_sweep-IsSound fatal s w m m' fs e splits h = cc

  sweep_trades-Safe : Safe (sound account) (sweep_trades env)
  unfolding sweep_trades
  sweep_trades-Safe = record {
    at = λ m m' fs e h.
        let p = sweep env m.node.state.account m.node.state.trades m.world in
        record_sweep-IsSound p.0 p.1 p.2 m m' fs e
          (λ done.
            subst (λ by. Splits by m.node.state.trades p.1) h.0
              (sweep-Splits env m.node.state.account m.node.state.trades m.world done))
          h;
  }

  pub update_and_archive_trades-Safe : Safe (sound account) (update_and_archive_trades env)
  unfolding update_and_archive_trades
  update_and_archive_trades-Safe = record {
    at = λ m m' a e h.
        (Safe-bind (sweep_trades env) (λ fs. finish_trades env m.node.state.account fs)
            sweep_trades-Safe λ fs. finish_trades-Safe env m.node.state.account fs).at
          m m' a e h;
  }

  append_trade-IsSound :
      (t : TradeState) (n : Node)
      → Between account t
      → IsSound account n.state
      → IsSound account (append_trade t n).state
  unfolding append_trade
  append_trade-IsSound t n b h =
      (h.0, All-append (Between account) n.state.trades (t ∷ []) h.1 (b, tt))

  open_after-IsSound :
      (r : Outcome (Option ProcessingMessage)) (l : Local W) (m : Manager W)
      → Between account l.pb
      → IsSound account m.node.state
      → IsSound account (open_after env r l m).1.node.state
  unfolding open_after open_with
  open_after-IsSound (ok reply) l m b h = append_trade-IsSound l.pb m.node b h
  open_after-IsSound rpc_error l m b h = h
  open_after-IsSound fatal l m b h = h

  not_own : (by : Text) (s : State) → str_eq by s.account ≡ false → IsSound account s → by ≢ account
  not_own by s other h e = false≢true (sym other ∙ (str_eq_iff by s.account).1 (e ∙ sym h.0))

  take_new-Safe :
      (o : Order) (units : ℤ) (now : ℕ) → Safe (sound account) (take_new env o units now)
  unfolding take_new new_trade
  take_new-Safe o units now = Safe-total (take_new env o units now) λ m h.
      let t = new_trade o units (account_of o) now in
      elim (Bool-cases (str_eq (account_of o) m.node.state.account)) [
        | inl own ↦ rw own h
        | inr other ↦ rw other (
            open_after-IsSound _ _ m
              (Between-Kept account t _
                (has_reply-Evolves env m.node.state.account (record { pb = t; world = m.world })).0
                (not_own (account_of o) m.node.state other h, inr refl))
              h)
      ]

  pub take_order-Safe : (o : Order) (units : ℤ) → Safe (sound account) (take_order env o units)
  unfolding take_order
  take_order-Safe o units =
      Safe-if (not (check_order o units)) _ _ (Safe-pure none)
        (Safe-bind _ _ (Safe-world env.current_time) λ now. take_new-Safe o units now)

  open_taken-Safe :
      (o : Order) (units : ℤ) (by : Text) (now : ℕ)
      → Safe (sound account) (open_taken env o units by now)
  unfolding open_taken new_trade
  open_taken-Safe o units by now = Safe-total (open_taken env o units by now) λ m h.
      elim (Bool-cases (str_eq (account_of o) m.node.state.account)) [
        | inr other ↦ rw other h
        | inl own ↦ elim (Bool-cases (str_eq by m.node.state.account)) [
          | inl self ↦ rw (own, self) h
          | inr else_one ↦
              rw (own, else_one)
                (append_trade-IsSound (new_trade o units by now) m.node
                  (
                    not_own by m.node.state else_one h,
                    inl ((str_eq_iff (account_of o) m.node.state.account).0 own ∙ h.0),
                  )
                  h)
        ]
      ]

  order_taken-Safe :
      (o : Order) (units : ℤ) (by : Text) → Safe (sound account) (order_taken env o units by)
  unfolding order_taken
  order_taken-Safe o units by =
      Safe-if (not (check_order o units)) _ _ (Safe-pure false)
        (Safe-bind _ _ (Safe-world env.current_time) λ now. open_taken-Safe o units by now)

  process_known-Safe : (msg : ProcessingMessage) → Safe (sound account) (process_known env msg)
  unfolding process_known
  process_known-Safe msg = Safe-total (process_known env msg) λ m h. (
    h.0,
    Touched-Between account msg m.node.state.trades _
        (process_trades-Touched env m.node.state.account msg m.node.state.trades m.world) h.1,
  )

  after_lock-Safe :
      (by : Text) (taking : TakingOrder) (o : Order)
      → Safe (sound account) (do
        taken ← order_taken env o (to_int64 taking.units) by
        if taken then pure true else do on_orders env λ valid. unlock valid taking.id; pure false)
  after_lock-Safe by taking o =
      Safe-bind _ _ (order_taken-Safe o (to_int64 taking.units) by) λ taken.
        Safe-if taken _ _ (Safe-pure true)
          (Safe-then _ _ (Safe-unlock env taking.id) (Safe-pure false))

  accept_taking-Safe :
      (by : Text) (taking : TakingOrder) → Safe (sound account) (accept_taking env by taking)
  unfolding accept_taking try_lock
  accept_taking-Safe by taking =
      Safe-bind _ _
        (Safe-orders env (λ valid. try_lock valid taking.id)
          λ valid n. lock_found-SameTrades valid taking.id _ n)
        (λ locked. Safe-option locked _ _ (Safe-pure false) (after_lock-Safe by taking))

  pub process_message-Safe :
      (msg : ProcessingMessage) → Safe (sound account) (process_message env msg)
  unfolding process_message
  process_message-Safe msg = Safe-then _ _ (Safe-check (has msg.counterparty)) (
      Safe-bind _ _
        (Safe-option msg.taking_order _ _ (Safe-pure true)
          (accept_taking-Safe (value_or [] msg.counterparty)))
        λ accepted. Safe-if accepted _ _ (process_known-Safe msg) (Safe-pure none))

-- What reaches the manager: its periodic job, the user's orders to take, and the counterparties'
-- messages.
pub data Event : Type 0 where
  updates : Event
  takes : Order → ℤ → Event
  receives : ProcessingMessage → Event

module _ {W : Type 0} (env : Env W) where
  unfoldable pub handle : Event → Exec (Manager W) (Unit {0})
  unfolding update_and_archive_trades take_order process_message
  handle updates = update_and_archive_trades env
  handle (takes o units) = do take_order env o units; pure tt
  handle (receives msg) = do process_message env msg; pure tt

  -- A failed `CHECK` or an exception that leaves a handler ends the process.
  unfoldable pub handle_all : List Event → Exec (Manager W) (Unit {0})
  unfolding handle
  handle_all [] = pure tt
  handle_all (e ∷ es) = do handle e; handle_all es

  handle-Safe : {account : Text} (e : Event) → Safe (sound account) (handle e)
  unfolding handle
  handle-Safe updates = update_and_archive_trades-Safe env
  handle-Safe (takes o units) = Safe-then _ _ (take_order-Safe env o units) (Safe-pure tt)
  handle-Safe (receives msg) = Safe-then _ _ (process_message-Safe env msg) (Safe-pure tt)

  handle_all-Safe : {account : Text} (es : List Event) → Safe (sound account) (handle_all es)
  unfolding handle_all
  handle_all-Safe [] = Safe-pure tt
  handle_all-Safe (e ∷ es) = Safe-then _ _ (handle-Safe e) (handle_all-Safe es)

  -- Whatever the world answers, and whatever the counterparties send: if the trades of a node are all
  -- with somebody else and on an order of one of the two sides, then so they are after any sequence
  -- of events that the process survives.
  pub handle_all-IsSound :
      (account : Text) (es : List Event) (m m' : Manager W)
      → handle_all es m ≡ (ok tt, m')
      → IsSound account m.node.state
      → IsSound account m'.node.state
  handle_all-IsSound account es m m' e h = (handle_all-Safe es).at m m' tt e h

-- ===== src/TradeManager.antt =====
-- src/trades.cpp and src/private/trades.hpp, `class TradeManager`, with the methods of `Trade` that it
-- calls when a trade is over. Each function takes the manager's node (the global state and the
-- messages of the own orders) and the world. The mutex of the state is held by each access, so that
-- an access is one step here.
pub mod Sweep
pub mod Processing
pub mod Parties
pub mod Safety
pub mod Finishing
pub mod Lingering
pub mod Calls
pub mod Opening
pub mod Settlement
pub mod Agreement
use democrit.Base.{
  ℕ, ◌+◌, ◌-◌, ◌%◌, ◌++◌, Bool, true, false, not, ◌&&◌, ◌||◌, Option, none, some, List, [], ◌∷◌,
  Text, ltb, leb, str_eq, ℤ, to_int64, to_uint64, ltb_ℤ, u64_mod, if◌then◌else◌, has, value_or,
  Exec, Outcome, ok, rpc_error, fatal, pure, die, check, ◌>>=◌, ◌>>◌,
}
use democrit.Proto.{
  Order, TradePhase, initiated, success, failed, abandoned, pending, TradeState, ProcessingMessage,
  TakingOrder, State, account_of, id_of, min_units_of, phase_of, seller_data_of, is_ask, is_maker,
}
use democrit.Proto
use democrit.Env.{Env}
use democrit.MyOrders.{Validator, Node, add, remove_by_id, try_lock, unlock}
use democrit.Trade.{
  get_role, get_order_type, is_finalised, get_public_info, init_processing_message,
  set_taking_order, matches, handle_message,
}
use democrit.Trade.Wallet.{Local, lock_out_point, unlock_psbt_inputs}
use democrit.Trade.Reply.{has_reply}
use democrit.Trade.Update.{update}

pub record Manager (W : Type 0) : Type 0 where
  pub node : Node
  pub world : W

-- `CheckOrder`: the amounts are compared as int64.
unfoldable pub check_order : Order → ℤ → Bool
unfolding to_int64
check_order o units =
    if ltb_ℤ (to_int64 o.max_units) units || ltb_ℤ units (to_int64 (min_units_of o))
    then false
    else has o.account && has o.id && has o.asset && has o.order_type && has o.price_sat

unfoldable pub new_trade : Order → ℤ → Text → ℕ → TradeState
unfolding to_uint64
new_trade o units counterparty now = record {
  order = o;
  units = to_uint64 units;
  counterparty = counterparty;
  start_time = now;
  phase = some initiated;
  seller_data = none;
  our_psbt = none;
  their_psbt = none;
  conflict_height = none;
}

unfoldable pub append_trade : TradeState → Node → Node
append_trade t n = record n { state = record n.state { trades = n.state.trades ++ (t ∷ []) } }

-- The part of a maker's order that a successful trade leaves, with the wrapping difference of uint64.
unfoldable pub remaining : TradeState → Order
remaining t = record t.order {
  id = none;
  max_units = (t.order.max_units + (u64_mod - t.units)) % u64_mod;
}

unfoldable pub is_offerable : Order → Bool
is_offerable o = ltb 0 o.max_units && leb (min_units_of o) o.max_units

unfoldable pub public_infos : Text → List TradeState → List Proto.Trade
unfolding get_public_info
public_infos account [] = []
public_infos account (t ∷ ts) = get_public_info account t ∷ public_infos account ts

unfoldable pub get_trades : State → List Proto.Trade
unfolding public_infos
get_trades s = public_infos s.account s.trades ++ s.trade_archive

-- A default TradeState, which a move leaves behind.
abbrev pub moved_from : TradeState
moved_from = record {
  order = record {
    account = none;
    id = none;
    asset = none;
    min_units = none;
    max_units = 0;
    order_type = none;
    price_sat = none;
    locked = false;
  };
  units = 0;
  counterparty = [];
  start_time = 0;
  phase = none;
  seller_data = none;
  our_psbt = none;
  their_psbt = none;
  conflict_height = none;
}

-- What the loop of `UpdateAndArchiveTrades` has made; `left` is what stands in the list it goes over.
pub record Swept : Type 0 where
  pub active : List TradeState
  pub finalised : List TradeState
  pub archived : List Proto.Trade
  pub left : List TradeState

abbrev pub nothing_swept : List TradeState → Swept
nothing_swept ts = record { active = []; finalised = []; archived = []; left = ts }

unfoldable pub put_swept : Text → TradeState → Swept → Swept
unfolding is_finalised get_public_info
put_swept account t s =
    if is_finalised t
    then record s {
      finalised = t ∷ s.finalised;
      archived = get_public_info account t ∷ s.archived;
      left = moved_from ∷ s.left;
    }
    else record s { active = t ∷ s.active; left = moved_from ∷ s.left }

-- `catch (const jsonrpc::JsonRpcException&)`, after which there is no reply.
unfoldable pub caught_reply : {A : Type 0} → Outcome (Option A) → Outcome (Option A)
caught_reply rpc_error = ok none
caught_reply r = r

module _ {W : Type 0} where
  unfoldable pub on_world : {A : Type 0} → Exec W A → Exec (Manager W) A
  on_world f m = let (r, w) = f m.world in (r, record m { world = w })

  -- An exception ends the loop at the trade whose update has thrown it.
  unfoldable pub sweep_on :
      Text
      → Outcome (Unit {0})
      → Local W
      → List TradeState
      → Outcome (Unit {0}) × Swept × W
      → Outcome (Unit {0}) × Swept × W
  unfolding put_swept
  sweep_on account (ok _) l ts (r, s, w) = (r, put_swept account l.pb s, w)
  sweep_on account rpc_error l ts _ = (rpc_error, nothing_swept (l.pb ∷ ts), l.world)
  sweep_on account fatal l ts _ = (fatal, nothing_swept (l.pb ∷ ts), l.world)

  abbrev pub store_trades : List TradeState → List Proto.Trade → W → Manager W → Manager W
  store_trades ts archived w m = record m {
    node = record m.node {
      state = record m.node.state {
        trades = ts;
        trade_archive = m.node.state.trade_archive ++ archived;
      };
    };
    world = w;
  }

  unfoldable pub record_sweep :
      Outcome (Unit {0}) × Swept × W → Manager W → Outcome (List TradeState) × Manager W
  record_sweep (ok _, s, w) m = (ok s.finalised, store_trades s.active s.archived w m)
  record_sweep (rpc_error, s, w) m = (rpc_error, store_trades s.left s.archived w m)
  record_sweep (fatal, s, w) m = (fatal, store_trades s.left s.archived w m)

module _ {W : Type 0} (env : Env W) where
  -- A call on the own orders, whose validations see the world as it stands; they may throw.
  unfoldable pub on_orders : {A : Type 0} → (Validator → Exec Node A) → Exec (Manager W) A
  on_orders f m = let (r, n) = f (env.validate m.world) m.node in (r, record m { node = n })

  unfoldable pub remove_order : ℕ → Exec (Manager W) (Unit {0})
  unfolding on_orders remove_by_id
  remove_order id = on_orders λ valid. remove_by_id valid id

  unfoldable pub add_again : Order → Exec (Manager W) (Unit {0})
  unfolding on_orders is_offerable add
  add_again o = if is_offerable o then (do on_orders λ valid. add valid o; pure tt) else pure tt

  unfoldable pub handle_success : Text → TradeState → Exec (Manager W) (Unit {0})
  unfolding get_role remaining remove_order add_again
  handle_success account t =
      if not (is_maker (get_role account t))
      then pure tt
      else do remove_order (id_of t.order); add_again (remaining t)

  unfoldable pub release_order : Text → TradeState → Exec (Manager W) Unit
  unfolding get_role on_orders unlock
  release_order account t =
      if is_maker (get_role account t)
      then (on_orders λ valid. unlock valid (id_of t.order))
      else pure tt

  unfoldable pub release_name : TradeState → Exec W (Unit {0})
  unfolding lock_out_point
  release_name t = elim (seller_data_of t).name_output [
    | none ↦ pure tt
    | some out ↦ (lock_out_point env false out >> pure tt)
  ]

  unfoldable pub release_inputs : Text → TradeState → Exec W (Unit {0})
  unfolding get_order_type unlock_psbt_inputs
  release_inputs account t =
      if not (is_ask (get_order_type account t)) && has t.our_psbt
      then unlock_psbt_inputs env (value_or [] t.our_psbt)
      else pure tt

  unfoldable pub handle_failure : Text → TradeState → Exec (Manager W) (Unit {0})
  unfolding release_order release_name release_inputs on_world
  handle_failure account t = do
    release_order account t
    on_world (release_name t)
    on_world (release_inputs account t)

  -- The loop over the trades, which are the state's list from the current one on.
  unfoldable pub sweep : Text → List TradeState → W → Outcome (Unit {0}) × Swept × W
  unfolding update sweep_on
  sweep account [] w = (ok tt, nothing_swept [], w)
  sweep account (t ∷ ts) w =
      let (r, l) = update env (record { pb = t; world = w }) in
      let rest = sweep account ts l.world in sweep_on account r l ts rest

  unfoldable pub finish_trade : Text → TradeState → TradePhase → Exec (Manager W) (Unit {0})
  unfolding handle_success handle_failure
  finish_trade account t abandoned = handle_failure account t
  finish_trade account t failed = handle_failure account t
  finish_trade account t success = handle_success account t
  finish_trade account t initiated = die
  finish_trade account t pending = die

  unfoldable pub finish_trades : Text → List TradeState → Exec (Manager W) (Unit {0})
  unfolding finish_trade
  finish_trades account [] = pure tt
  finish_trades account (t ∷ ts) = do finish_trade account t (phase_of t); finish_trades account ts

  unfoldable pub sweep_trades : Exec (Manager W) (List TradeState)
  unfolding sweep record_sweep
  sweep_trades m = record_sweep (sweep m.node.state.account m.node.state.trades m.world) m

  unfoldable pub update_and_archive_trades : Exec (Manager W) (Unit {0})
  unfolding sweep_trades finish_trades
  update_and_archive_trades m =
      (sweep_trades >>= λ finalised. finish_trades m.node.state.account finalised) m

  -- The start of a trade on somebody else's order, from a HasReply that has returned.
  unfoldable pub open_with :
      TradeState
      → Option ProcessingMessage
      → Manager W
      → Outcome (Option ProcessingMessage) × Manager W
  unfolding append_trade init_processing_message set_taking_order
  open_with t reply m = (
    ok (some (set_taking_order t (value_or (init_processing_message t) reply))),
    record m { node = append_trade t m.node },
  )

  unfoldable pub open_after :
      Outcome (Option ProcessingMessage)
      → Local W
      → Manager W
      → Outcome (Option ProcessingMessage) × Manager W
  unfolding open_with
  open_after (ok reply) l m = open_with l.pb reply (record m { world = l.world })
  open_after rpc_error l m = (ok none, record m { world = l.world })
  open_after fatal l m = (fatal, record m { world = l.world })

  unfoldable pub take_new : Order → ℤ → ℕ → Exec (Manager W) (Option ProcessingMessage)
  unfolding new_trade has_reply open_after str_eq
  take_new o units now m =
      let account = m.node.state.account in
      let t = new_trade o units (account_of o) now in
      if str_eq t.counterparty account
      then (ok none, m)
      else (let (r, l) = has_reply env account (record { pb = t; world = m.world }) in
          open_after r l m)

  -- The message of a true result, if there is one.
  unfoldable pub take_order : Order → ℤ → Exec (Manager W) (Option ProcessingMessage)
  unfolding check_order take_new on_world
  take_order o units =
      if not (check_order o units)
      then pure none
      else do now ← on_world env.current_time; take_new o units now

  unfoldable pub open_taken : Order → ℤ → Text → ℕ → Exec (Manager W) Bool
  unfolding new_trade append_trade str_eq
  open_taken o units counterparty now m =
      let account = m.node.state.account in
      if not (str_eq (account_of o) account)
      then (fatal, m)
      else if str_eq counterparty account
      then (ok false, m)
      else (ok true, record m { node = append_trade (new_trade o units counterparty now) m.node })

  unfoldable pub order_taken : Order → ℤ → Text → Exec (Manager W) Bool
  unfolding check_order open_taken on_world
  order_taken o units counterparty =
      if not (check_order o units)
      then pure false
      else do now ← on_world env.current_time; open_taken o units counterparty now

  unfoldable pub process_trade :
      Text → ProcessingMessage → TradeState → W → Outcome (Option ProcessingMessage) × Local W
  unfolding handle_message has_reply caught_reply
  process_trade account msg t w =
      let (r, l) =
        has_reply env account (record { pb = handle_message account msg t; world = w }) in
      (caught_reply r, l)

  -- The first trade that matches is worked on, and the loop ends.
  unfoldable pub process_trades :
      Text
      → ProcessingMessage
      → List TradeState
      → W
      → Outcome (Option ProcessingMessage) × List TradeState × W
  unfolding matches process_trade
  process_trades account msg [] w = (ok none, [], w)
  process_trades account msg (t ∷ ts) w =
      let (later, us, w') = process_trades account msg ts w in
      let (r, l) = process_trade account msg t w in
      if matches t msg then (r, l.pb ∷ ts, l.world) else (later, t ∷ us, w')

  unfoldable pub process_known : ProcessingMessage → Exec (Manager W) (Option ProcessingMessage)
  unfolding process_trades
  process_known msg m =
      let (r, ts, w) = process_trades m.node.state.account msg m.node.state.trades m.world in
      (
        r,
        record m {
          node = record m.node { state = record m.node.state { trades = ts } };
          world = w;
        },
      )

  -- The message takes one of the own orders: true if a trade has been opened for it.
  unfoldable pub accept_taking : Text → TakingOrder → Exec (Manager W) Bool
  unfolding on_orders try_lock unlock order_taken to_int64
  accept_taking counterparty taking = do
    locked ← on_orders λ valid. try_lock valid taking.id
    elim locked [
      | none ↦ pure false
      | some o ↦ do
        taken ← order_taken o (to_int64 taking.units) counterparty
        if taken then pure true else do on_orders λ valid. unlock valid taking.id; pure false
    ]

  unfoldable pub process_message : ProcessingMessage → Exec (Manager W) (Option ProcessingMessage)
  unfolding accept_taking process_known
  process_message msg = do
    check (has msg.counterparty)
    accepted ← elim msg.taking_order [
      | none ↦ pure true
      | some taking ↦ accept_taking (value_or [] msg.counterparty) taking
    ]
    if accepted then process_known msg else pure none

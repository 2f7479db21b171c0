-- ===== src/Daemon.antt =====
-- src/daemon.cpp: the handlers of the XMPP client and the calls of the user, over the state of all the
-- components. An address or a stanza comes parsed: of a stanza that is missing or not valid, `none`.
-- The order book reads the time `now`. `MyOrders` calls `UpdateOrders` within the manager's operations,
-- which the model notes in `sent`, and the calls are carried out at the end of each.
pub mod Keeping
pub mod Handlers
pub mod Broadcasts
pub mod Events
pub mod Validity
pub mod Serving
pub mod Books
pub mod OwnOrders
pub mod Starting
use democrit.Base.{
  ℕ, ◌==◌, ltb, Bool, true, false, not, ◌&&◌, ◌||◌, Option, none, some, List, [], ◌∷◌, ◌++◌, Text,
  Dict, str_eq, text_eq, value_or, has, if◌then◌else◌, ℤ, to_int64, Exec, Outcome, ok, rpc_error,
  fatal, pure, check, and_then, checked, ◌>>=◌, ◌>>◌,
}
use democrit.Proto.{
  Order, OrderType, ask, bid, OrdersOfAccount, OrderbookForAsset, OrderbookByAsset,
  ProcessingMessage, Trade, State, asset_of, min_units_of, type_of,
}
use democrit.Env.{Env}
use democrit.MyOrders.{Node, Validator, get_orders, add, remove_by_id, run_refresh}
use democrit.TradeManager.{
  Manager, on_orders, take_order, process_message, update_and_archive_trades, get_trades,
}
use democrit.Authenticator.{Jid, authenticate, lookup_jid}
use democrit.OrderBook.{OrderBook, update_orders, run_timeout}
use democrit.OrderBook.Assets.{get_for_asset, get_by_asset}

-- The manager has the global state with the own orders and the trades, and the world. The messages are
-- those given to the client, the newest first: the broadcasts in the room, and private ones.
pub record Daemon (W : Type 0) : Type 0 where
  pub manager : Manager W
  pub known_jids : Dict Text Jid
  pub all_orders : OrderBook
  pub connected : Bool
  pub published : List OrdersOfAccount
  pub outbox : List (Jid × ProcessingMessage)

-- The global state of a new node has the account alone.
abbrev pub new_state : Text → State
new_state account = record {
  account = account;
  own_orders = [];
  next_free_id = 0;
  trades = [];
  trade_archive = [];
}

-- The constructor: the own address has to speak for the account, and then is known for it.
unfoldable pub new_daemon : {W : Type 0} → List Text → Text → Jid → W → Option (Daemon W)
unfolding authenticate checked and_then
new_daemon servers account jid w =
    let (by, known) = authenticate servers jid [] in
    and_then by λ own. checked (str_eq own account) (
      some (record {
        manager = record { node = record { state = new_state account; sent = [] }; world = w };
        known_jids = known;
        all_orders = record { orders = []; updates = [] };
        connected = false;
        published = [];
        outbox = [];
      }))

-- `MyOrdersImpl::UpdateOrders`
unfoldable pub update_own_orders :
    Text → Bool → OrdersOfAccount → List OrdersOfAccount → Option (List OrdersOfAccount)
unfolding str_eq checked
update_own_orders account connected own published =
    checked (str_eq (value_or [] own.account) account)
      (some (if connected then own ∷ published else published))

-- The calls that an operation has made, the newest first.
unfoldable pub carry_out :
    Text → Bool → List OrdersOfAccount → List OrdersOfAccount → Option (List OrdersOfAccount)
unfolding update_own_orders and_then
carry_out account connected [] published = some published
carry_out account connected (own ∷ calls) published =
    and_then (carry_out account connected calls published) (update_own_orders account connected own)

module _ {W : Type 0} where
  unfoldable pub on_world : {A : Type 0} → Exec W A → Exec (Daemon W) A
  on_world m d =
      let (r, w) = m d.manager.world in (r, record d { manager = record d.manager { world = w } })

  unfoldable pub on_book : {A : Type 0} → Exec OrderBook A → Exec (Daemon W) A
  on_book m d = let (r, b) = m d.all_orders in (r, record d { all_orders = b })

  unfoldable pub after_calls :
      {A : Type 0}
      → Outcome A
      → Manager W
      → Daemon W
      → Option (List OrdersOfAccount)
      → Outcome A × Daemon W
  after_calls r m d none = (fatal, record d { manager = m })
  after_calls r m d (some published) = (
    r,
    record d { manager = record m { node = record m.node { sent = [] } }; published = published },
  )

  unfoldable pub on_manager : {A : Type 0} → Exec (Manager W) A → Exec (Daemon W) A
  unfolding carry_out after_calls
  on_manager f d =
      let (r, m) = f d.manager in
      after_calls r m d (carry_out m.node.state.account d.connected m.node.sent d.published)

  unfoldable pub authenticated : List Text → Jid → Exec (Daemon W) (Option Text)
  unfolding authenticate
  authenticated servers jid d =
      let (account, known) = authenticate servers jid d.known_jids in
      (ok account, record d { known_jids = known })

  -- `MucClient::SendMessage` checks that the client is connected.
  unfoldable pub send_message : Jid → ProcessingMessage → Exec (Daemon W) (Unit {0})
  send_message to msg d =
      if d.connected then (ok tt, record d { outbox = (to, msg) ∷ d.outbox }) else (fatal, d)

  unfoldable pub send_processing_message : ProcessingMessage → Exec (Daemon W) (Unit {0})
  unfolding lookup_jid send_message
  send_processing_message msg d = elim (lookup_jid (value_or [] msg.counterparty) d.known_jids) [
    | none ↦ (ok tt, d)
    | some receiver ↦ send_message receiver (record msg { counterparty = none }) d
  ]

-- The tests of an order before the asset spec is asked.
abbrev pub has_valid_units : Order → Bool
has_valid_units o =
    not (o.max_units == 0)
    && elim o.min_units [ none ↦ true | some n ↦ not (n == 0) && not (ltb o.max_units n) ]

module _ {W : Type 0} (env : Env W) where
  -- The amount is passed on as an int64.
  unfoldable pub can_trade : Text → Order → Exec W Bool
  unfolding to_int64
  can_trade account o = elim (type_of o) [
    | bid ↦ env.can_buy account (asset_of o) (to_int64 o.max_units)
    | ask ↦ do hash ← env.can_sell account (asset_of o) (to_int64 o.max_units); pure (has hash)
  ]

  unfoldable pub validate_order : Text → Order → Exec W Bool
  unfolding can_trade
  validate_order account o =
      if not (has_valid_units o) || not (has o.price_sat)
      then pure false
      else do known ← env.is_asset (asset_of o); if known then can_trade account o else pure false

  -- The orders of a broadcast that are inserted.
  unfoldable pub valid_orders : Text → Dict ℕ Order → Exec W (Dict ℕ Order)
  unfolding validate_order
  valid_orders account [] = pure []
  valid_orders account ((id, o) ∷ os) = do
    valid ← validate_order account o
    rest ← valid_orders account os
    pure (if valid then (id, o) ∷ rest else rest)

  -- `HandleMessage`, of a sender that has been authenticated.
  unfoldable pub receive_orders : ℕ → Text → Option OrdersOfAccount → Exec (Daemon W) (Unit {0})
  unfolding on_world on_book valid_orders update_orders
  receive_orders now account none = pure tt
  receive_orders now account (some pb) = do
    orders ← on_world (valid_orders account pb.orders)
    on_book (update_orders now (record { account = some account; orders = orders }))

  unfoldable pub handle_muc_message :
      List Text → ℕ → Jid → Option OrdersOfAccount → Exec (Daemon W) (Unit {0})
  unfolding authenticated receive_orders
  handle_muc_message servers now sender ext = do
    account ← authenticated servers sender
    elim account [ none ↦ pure tt | some by ↦ receive_orders now by ext ]

  unfoldable pub send_reply : Option ProcessingMessage → Exec (Daemon W) (Unit {0})
  unfolding send_processing_message
  send_reply none = pure tt
  send_reply (some reply) = send_processing_message reply

  unfoldable pub receive_private : Text → Option ProcessingMessage → Exec (Daemon W) (Unit {0})
  unfolding on_manager process_message send_reply
  receive_private account none = pure tt
  receive_private account (some msg) = do
    reply ← on_manager (process_message env (record msg { counterparty = some account }))
    send_reply reply

  unfoldable pub handle_private :
      List Text → Jid → Option ProcessingMessage → Exec (Daemon W) (Unit {0})
  unfolding authenticated receive_private
  handle_private servers sender ext = do
    account ← authenticated servers sender
    elim account [ none ↦ pure tt | some by ↦ receive_private by ext ]

  unfoldable pub handle_disconnect : List Text → ℕ → Jid → Exec (Daemon W) (Unit {0})
  unfolding authenticated on_book update_orders
  handle_disconnect servers now jid = do
    account ← authenticated servers jid
    elim account [
      | none ↦ pure tt
      | some by ↦ on_book (update_orders now (record { account = some by; orders = [] }))
    ]

  -- The calls of the user.
  unfoldable pub add_order : Order → Exec (Daemon W) Bool
  unfolding on_manager on_orders add
  add_order o = on_manager (on_orders env λ valid. add valid o)

  unfoldable pub cancel_order : ℕ → Exec (Daemon W) (Unit {0})
  unfolding on_manager on_orders remove_by_id
  cancel_order id = on_manager (on_orders env λ valid. remove_by_id valid id)

  unfoldable pub take_offer : Order → ℤ → Exec (Daemon W) Bool
  unfolding on_manager take_order send_processing_message
  take_offer o units = do
    msg ← on_manager (take_order env o units)
    elim msg [ none ↦ pure false | some m ↦ do send_processing_message m; pure true ]

module _ {W : Type 0} (d : Daemon W) where
  unfoldable pub get_orders_for_asset : Text → Option OrderbookForAsset
  unfolding get_for_asset
  get_orders_for_asset asset = get_for_asset asset d.all_orders

  unfoldable pub get_orders_by_asset : Option OrderbookByAsset
  unfolding get_by_asset
  get_orders_by_asset = get_by_asset d.all_orders

  unfoldable pub get_own_orders : OrdersOfAccount
  unfolding get_orders
  get_own_orders = get_orders d.manager.node.state

  unfoldable pub get_account : Text
  get_account = d.manager.node.state.account

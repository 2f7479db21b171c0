-- ===== src/Daemon/Handlers.antt =====
-- src/daemon.cpp: every handler and call keeps the components consistent, and so does any sequence.
use democrit.Base.{
  ℕ, ◌≡◌, ◌≢◌, ap, ◌∙◌, Dict, pure, refl, true, false, Option, none, some, List, [], ◌∷◌, Text, ℤ,
  Exec, ok, >>=-eq-ok, Keeps, Keeps-total, Keeps-pure, Keeps-option, Keeps-bind, Keeps-then,
}
use mathlib.Core.Path.{subst}
use democrit.Proto.{Order, OrdersOfAccount, ProcessingMessage}
use democrit.Env.{Env}
use democrit.MyOrders.{Validator, Node, add, remove_by_id, run_refresh}
use democrit.TradeManager.{on_orders}
use democrit.TradeManager.Parties.{
  SameTrades, add-SameTrades, remove_by_id-SameTrades, run_refresh-SameTrades,
}
use democrit.TradeManager.Finishing.{Safe-orders}
use democrit.TradeManager.Safety.{Safe-frame}
use democrit.TradeManager.Calls.{
  take_order-Safe, process_message-Safe, update_and_archive_trades-Safe,
}
use democrit.Authenticator.{Jid}
use democrit.Authenticator.Known.{SpeaksFor}
use democrit.OrderBook.{AccountOrders, all_complete, update_orders}
use democrit.OrderBook.Contents.{run_timeout-Each, update_orders-Each}
use democrit.Daemon.{
  Daemon, authenticated, on_world, on_book, on_manager, has_valid_units, valid_orders,
  receive_orders, handle_muc_message, send_reply, receive_private, handle_private,
  handle_disconnect, add_order, cancel_order, take_offer,
}
use democrit.Daemon.Keeping.{
  IsListable, Agrees, IsConsistent, authenticated-SpeaksFor, on_world-Keeps, on_manager-Keeps,
  caught-Keeps, authenticated-Keeps, send_processing_message-Keeps,
}
use democrit.Daemon.Validity.{validate_order-accepts, valid_orders-EachOrder}
use democrit.Daemon.Events.{
  Event, message, private_message, disconnect, times_out, connection, updates_trades, refreshes,
  adds_order, cancels_order, takes_offer, handle, handle_all, caught,
}

module _ {W : Type 0} (env : Env W) (timeout : ℕ) (servers : List Text) where
  module _ (P : Text → AccountOrders → Type 0) (account : Text) where
    abbrev Ok : Daemon W → Type 0
    Ok = Agrees P servers account

    -- The entry that a broadcast makes in the order book has the property.
    abbrev pub Granted : Event → Type 0
    Granted (message now sender (some pb)) =
        (by : Text) (kept : Dict ℕ Order) (w w' : W)
        → SpeaksFor servers by sender
        → valid_orders env by pb.orders w ≡ (ok kept, w')
        → all_complete kept ≡ true
        → kept ≢ []
        → P by (record { orders = kept; last_update = now })
    Granted _ = Unit

    update_book-Keeps :
        (now : ℕ) (by : Text) (orders : Dict ℕ Order)
        → (all_complete orders ≡ true
            → orders ≢ []
            → P by (record { orders = orders; last_update = now }))
        → Keeps Ok (on_book (update_orders now (record { account = some by; orders = orders })))
    unfolding on_book
    update_book-Keeps now by orders granted =
        Keeps-total Ok (on_book (update_orders now (record { account = some by; orders = orders })))
          λ d h. record {
            parties = h.parties;
            addresses = h.addresses;
            entries =
                update_orders-Each P now (record { account = some by; orders = orders })
                  d.all_orders
                  (λ account same complete some_orders.
                    subst (λ b. P b (record { orders = orders; last_update = now })) (cc same)
                      (granted complete some_orders))
                  h.entries;
            own = h.own;
            messages = h.messages;
          }

    receive_orders-Keeps :
        (now : ℕ) (sender : Jid) (by : Text) (ext : Option OrdersOfAccount)
        → SpeaksFor servers by sender
        → Granted (message now sender ext)
        → Keeps Ok (receive_orders env now by ext)
    unfolding receive_orders on_world
    receive_orders-Keeps now sender by none speaks granted = Keeps-pure Ok tt
    receive_orders-Keeps now sender by (some pb) speaks granted = record {
      at = λ d d' a e h.
          let (kept, d1, filtered, e1) =
            >>=-eq-ok (on_world (valid_orders env by pb.orders)) _ d e in
          let good =
            granted by kept d.manager.world
              (on_world (valid_orders env by pb.orders) d).1.manager.world speaks
              (λ i.
                ((filtered i).0, (on_world (valid_orders env by pb.orders) d).1.manager.world)) in
          (update_book-Keeps now by kept good).at d1 d' a e1 (
            (on_world-Keeps P servers account (valid_orders env by pb.orders)).at d d1 kept filtered
              h);
    }

    handle_muc_message-Keeps :
        (now : ℕ) (sender : Jid) (ext : Option OrdersOfAccount)
        → Granted (message now sender ext)
        → Keeps Ok (handle_muc_message env servers now sender ext)
    unfolding handle_muc_message
    handle_muc_message-Keeps now sender ext granted = record {
      at = λ d d' a e h.
          let (by, d1, known, e1) = >>=-eq-ok (authenticated servers sender) _ d e in
          let h1 = (authenticated-Keeps P servers account sender).at d d1 by known h in
          (by_account by (λ b same.
              authenticated-SpeaksFor servers sender b d d1 (known ∙ ap (λ o. (ok o, d1)) same))).at
            d1 d' a e1 h1;
    }
      where
        by_account :
            (by : Option Text)
            → ((b : Text) → by ≡ some b → SpeaksFor servers b sender)
            → Keeps Ok (elim by as (λ _. Exec (Daemon W) (Unit {0})) [
              | none ↦ pure tt
              | some b ↦ receive_orders env now b ext
            ])
        by_account none speaks = Keeps-pure Ok tt
        by_account (some b) speaks = receive_orders-Keeps now sender b ext (speaks b refl) granted

    send_reply-Keeps : (reply : Option ProcessingMessage) → Keeps Ok (send_reply env reply)
    unfolding send_reply
    send_reply-Keeps none = Keeps-pure Ok tt
    send_reply-Keeps (some reply) = send_processing_message-Keeps P servers account reply

    receive_private-Keeps :
        (by : Text) (ext : Option ProcessingMessage) → Keeps Ok (receive_private env by ext)
    unfolding receive_private
    receive_private-Keeps by none = Keeps-pure Ok tt
    receive_private-Keeps by (some msg) =
        Keeps-bind Ok _ _
          (on_manager-Keeps P servers account _
            (process_message-Safe env (record msg { counterparty = some by })))
          λ reply. send_reply-Keeps reply

    handle_private-Keeps :
        (sender : Jid) (ext : Option ProcessingMessage)
        → Keeps Ok (handle_private env servers sender ext)
    unfolding handle_private
    handle_private-Keeps sender ext =
        Keeps-bind Ok _ _ (authenticated-Keeps P servers account sender)
          λ by. Keeps-option Ok by _ _ (Keeps-pure Ok tt) λ b. receive_private-Keeps b ext

    handle_disconnect-Keeps :
        (now : ℕ) (jid : Jid) → Keeps Ok (handle_disconnect env servers now jid)
    unfolding handle_disconnect
    handle_disconnect-Keeps now jid =
        Keeps-bind Ok _ _ (authenticated-Keeps P servers account jid) λ by.
          Keeps-option Ok by _ _ (Keeps-pure Ok tt)
            λ b. update_book-Keeps now b [] λ complete some_orders. absurd (some_orders refl)

    orders-Keeps :
        {A : Type 0} (f : Validator → Exec Node A)
        → ((valid : Validator) (n : Node) → SameTrades n.state (f valid n).1.state)
        → Keeps Ok (on_manager (on_orders env f))
    orders-Keeps f same =
        on_manager-Keeps P servers account (on_orders env f) (Safe-orders env f same)

    caught_orders-Keeps :
        {A : Type 0} (f : Validator → Exec Node A)
        → ((valid : Validator) (n : Node) → SameTrades n.state (f valid n).1.state)
        → Keeps Ok (caught (on_manager (on_orders env f)))
    unfolding caught on_orders
    caught_orders-Keeps f same =
        caught-Keeps P servers account (on_orders env f)
          (Safe-frame (caught (on_orders env f)) λ m. same (env.validate m.world) m.node)

    take_offer-Keeps : (o : Order) (units : ℤ) → Keeps Ok (take_offer env o units)
    unfolding take_offer
    take_offer-Keeps o units =
        Keeps-bind Ok _ _ (on_manager-Keeps P servers account _ (take_order-Safe env o units))
          λ msg. Keeps-option Ok msg _ _ (Keeps-pure Ok false) λ m.
            Keeps-then Ok _ _ (send_processing_message-Keeps P servers account m)
              (Keeps-pure Ok true)

    pub handle-Keeps : (e : Event) → Granted e → Keeps Ok (handle env timeout servers e)
    unfolding handle add_order cancel_order
    handle-Keeps (message now sender ext) granted = handle_muc_message-Keeps now sender ext granted
    handle-Keeps (private_message sender ext) granted = handle_private-Keeps sender ext
    handle-Keeps (disconnect now jid) granted = handle_disconnect-Keeps now jid
    handle-Keeps (times_out now) granted =
        Keeps-total Ok (handle env timeout servers (times_out now)) λ d h. record {
          parties = h.parties;
          addresses = h.addresses;
          entries = run_timeout-Each P timeout now d.all_orders h.entries;
          own = h.own;
          messages = h.messages;
        }
    handle-Keeps (connection up) granted =
        Keeps-total Ok (handle env timeout servers (connection up)) λ d h. record {
          parties = h.parties;
          addresses = h.addresses;
          entries = h.entries;
          own = h.own;
          messages = h.messages;
        }
    handle-Keeps updates_trades granted =
        on_manager-Keeps P servers account _ (update_and_archive_trades-Safe env)
    handle-Keeps refreshes granted =
        orders-Keeps (λ valid. run_refresh valid) λ valid n. run_refresh-SameTrades valid n
    handle-Keeps (adds_order o) granted =
        caught_orders-Keeps (λ valid. add valid o) λ valid n. add-SameTrades valid o n
    handle-Keeps (cancels_order id) granted =
        caught_orders-Keeps (λ valid. remove_by_id valid id)
          λ valid n. remove_by_id-SameTrades valid id n
    handle-Keeps (takes_offer o units) granted =
        Keeps-then Ok _ _ (take_offer-Keeps o units) (Keeps-pure Ok tt)

  module _ (account : Text) where
    -- The entries that the daemon lets through can be listed.
    IsListable-Granted : (e : Event) → Granted (λ _. IsListable) account e
    IsListable-Granted (message now sender (some pb)) =
        λ by kept w w' speaks filtered complete some_orders. (
          complete,
          valid_orders-EachOrder env (λ o. has_valid_units o ≡ true) by
              (λ o v v' accepted. (validate_order-accepts env by o v v' accepted).0) pb.orders w w'
              filtered,
        )
    IsListable-Granted _ = tt

    handle_all-Keeps :
        (es : List Event) → Keeps (IsConsistent servers account) (handle_all env timeout servers es)
    unfolding handle_all
    handle_all-Keeps [] = Keeps-pure (IsConsistent servers account) tt
    handle_all-Keeps (e ∷ es) =
        Keeps-then (IsConsistent servers account) _ _
          (handle-Keeps (λ _. IsListable) account e (IsListable-Granted e)) (handle_all-Keeps es)

    -- Whatever other participants send, and whatever the world answers, over any events that the process
    -- survives a node of the account stays consistent: its trades are with somebody else, on an order of
    -- one of the two sides; each address that it knows, or has sent a message to, speaks for an account at a
    -- trusted server; the orders of others have an asset, a type, a price and sensible units; and all
    -- broadcasts of own orders are in the name of the account.
    pub handle_all-IsConsistent :
        (es : List Event) (d d' : Daemon W)
        → handle_all env timeout servers es d ≡ (ok tt, d')
        → IsConsistent servers account d
        → IsConsistent servers account d'
    handle_all-IsConsistent es d d' e h = (handle_all-Keeps es).at d d' tt e h

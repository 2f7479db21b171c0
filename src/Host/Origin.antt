-- ===== src/Host/Origin.antt =====
-- Where the orders in the order book of a node come from: the client of src/mucclient.cpp and the handlers of
-- src/daemon.cpp together.
use democrit.Base.{
  ℕ, ◌≡◌, refl, sym, ap, ◌∙◌, Bool, Option, none, some, List, [], ◌∷◌, Text, lookup, text_eq, ok,
  pure, >>-eq-ok, >>=-eq-ok,
}
use mathlib.Core.Path.{subst}
use democrit.Proto.{OrdersOfAccount}
use democrit.Env.{Env}
use democrit.Authenticator.{Jid}
use democrit.OrderBook.{AccountOrders}
use democrit.OrderBook.Contents.{EachBy, lookup-Each}
use democrit.MucClient.{
  MucClient, handle_muc_room_creation, handle_room_message, handle_muc_participant_presence,
}
use democrit.MucClient.Nicknames.{Announced, run_back, step}
use democrit.MucClient.Nicknames
use democrit.MucClient.Senders.{handle_room_message-Announced}
use democrit.Daemon.Events
use democrit.Daemon.Keeping.{Agrees, IsConsistent}
use democrit.Daemon.Handlers.{Granted}
use democrit.MucClient.Stepping.{
  handle_room_message-same, handle_muc_room_creation-same, run_back-next, presence-step,
}
use democrit.Host.Parts.{on_client-eq-ok}
use democrit.Host.{
  Host, Call, times_out, updates_trades, refreshes, adds_order, cancels_order, takes_offer,
  event_of, Happening, sees, hears, gets_private, creates_room, gets_error, closes, closed, opens,
  calls, on_client, notify_of, react, react_back, client_events,
}
use democrit.Host.Tracing.{
  Sent, just_now, IsSentBy, IsTraced, Agrees-after, notify-Agrees, notify-client, keep_client,
  client-IsTraced, notify-IsTraced,
}

module _ {W : Type 0} (env : Env W) (timeout : ℕ) (servers : List Text) where
  module _ (account : Text) where
    call-Granted :
        (call : Call) (P : Text → AccountOrders → Type 0)
        → Granted env timeout servers P account (event_of call)
    call-Granted (times_out now) P = tt
    call-Granted updates_trades P = tt
    call-Granted refreshes P = tt
    call-Granted (adds_order o) P = tt
    call-Granted (cancels_order id) P = tt
    call-Granted (takes_offer o units) P = tt

    message-Granted :
        (xs : List Happening) (now r : ℕ) (priv : Bool) (room nick : Text)
        (ext : Option OrdersOfAccount) (jid : Jid)
        → Announced nick jid (client_events xs)
        → Granted env timeout servers
            (IsSentBy env timeout servers (hears now r priv room nick ext ∷ xs))
            account
            (Events.message now jid ext)
    message-Granted xs now r priv room nick none jid announced = tt
    message-Granted xs now r priv room nick (some pb) jid announced =
        λ by kept w w' speaks filtered complete some_orders.
          just_now w w' announced speaks filtered refl

    -- The client as the events have left it, and then a call of the subclass.
    notified-IsTraced :
        (c : MucClient) (xs : List Happening) (x : Happening) (f : Jid → Events.Event)
        (found : Option Jid) (h h' : Host W)
        → run_back (client_events (x ∷ xs)) c ≡ (ok tt, h.client)
        → Agrees (IsSentBy env timeout servers xs) servers account h.daemon
        → ((jid : Jid)
            → found ≡ some jid
            → Granted env timeout servers (IsSentBy env timeout servers (x ∷ xs)) account (f jid))
        → notify_of env timeout servers f found h ≡ (ok tt, h')
        → IsTraced env timeout servers account c (x ∷ xs) h'
    unfolding notify_of
    notified-IsTraced c xs x f none h h' client agrees granted e =
        let same : h ≡ h' = ap (λ r. r.1) e in
        subst (IsTraced env timeout servers account c (x ∷ xs)) same (record {
          client = client;
          daemon = Agrees-after env timeout servers account xs x h.daemon h.daemon.connected agrees;
        })
    notified-IsTraced c xs x f (some jid) h h' client agrees granted e = record {
      client =
          keep_client env timeout servers account c (client_events (x ∷ xs)) h.client h'.client
            client (notify-client env timeout servers account (f jid) h h' e);
      daemon =
          notify-Agrees env timeout servers account xs x (f jid) h h' (granted jid refl) e agrees;
    }

    react-IsTraced :
        (c : MucClient) (xs : List Happening) (x : Happening) (h h' : Host W)
        → c.nick_to_jid ≡ []
        → react env timeout servers x h ≡ (ok tt, h')
        → IsTraced env timeout servers account c xs h
        → IsTraced env timeout servers account c (x ∷ xs) h'
    unfolding react
    react-IsTraced c xs (sees now r p unavailable) h h' new e traced =
        let (gone, h1, seen, e1) =
          >>=-eq-ok (on_client (handle_muc_participant_presence r p unavailable)) _ h e in
        let (handled, same) =
          on_client-eq-ok (handle_muc_participant_presence r p unavailable) h h1 seen in
        notified-IsTraced c xs (sees now r p unavailable) (λ jid. Events.disconnect now jid) gone h1
          h'
          (run_back-next _ (client_events xs) c h.client h1.client traced.client
            (presence-step r p unavailable h.client h1.client handled))
          (subst (Agrees (IsSentBy env timeout servers xs) servers account) same traced.daemon)
          (λ jid left. tt) e1
    react-IsTraced c xs (hears now r priv room nick ext) h h' new e traced =
        let (sender, h1, heard, e1) =
          >>=-eq-ok (on_client (handle_room_message r priv room nick)) _ h e in
        let (handled, same) = on_client-eq-ok (handle_room_message r priv room nick) h h1 heard in
        notified-IsTraced c xs (hears now r priv room nick ext) (λ jid. Events.message now jid ext)
          sender h1 h'
          (keep_client env timeout servers account c (client_events xs) h.client h1.client
            traced.client (handle_room_message-same r priv room nick h.client h1.client handled))
          (subst (Agrees (IsSentBy env timeout servers xs) servers account) same traced.daemon)
          (λ jid known. message-Granted xs now r priv room nick ext jid (
            handle_room_message-Announced (client_events xs) c h.client h1.client r priv room nick
              jid new traced.client (handled ∙ ap (λ o. (ok o, h1.client)) known)))
          e1
    react-IsTraced c xs (gets_private sender ext) h h' new e traced =
        notify-IsTraced env timeout servers account c xs _ (Events.private_message sender ext) h h'
          refl tt e traced
    react-IsTraced c xs (creates_room r) h h' new e traced =
        let (agreed, h1, asked, e1) =
          >>-eq-ok (on_client (handle_muc_room_creation r)) (pure tt) h e in
        let (handled, same) = on_client-eq-ok (handle_muc_room_creation r) h h1 asked in
        let kept = handle_muc_room_creation-same r h.client h1.client handled in
        subst (IsTraced env timeout servers account c (creates_room r ∷ xs)) (ap (λ r. r.1) e1)
          (record {
            client =
                keep_client env timeout servers account c (client_events xs) h.client h1.client
                  traced.client kept;
            daemon =
                subst (Agrees (IsSentBy env timeout servers (creates_room r ∷ xs)) servers account)
                  same
                  (Agrees-after env timeout servers account xs (creates_room r) h.daemon
                    h.daemon.connected traced.daemon);
          })
    react-IsTraced c xs (gets_error r) h h' new e traced =
        client-IsTraced env timeout servers account c xs _ (Nicknames.room_error r) h h' refl e
          traced
    react-IsTraced c xs closes h h' new e traced =
        client-IsTraced env timeout servers account c xs _ Nicknames.disconnects h h' refl e traced
    react-IsTraced c xs closed h h' new e traced =
        client-IsTraced env timeout servers account c xs _ Nicknames.finishes h h' refl e traced
    react-IsTraced c xs (opens room logged_in) h h' new e traced =
        client-IsTraced env timeout servers account c xs _ (Nicknames.connects room logged_in) h h'
          refl e traced
    react-IsTraced c xs (calls call) h h' new e traced =
        notify-IsTraced env timeout servers account c xs _ (event_of call) h h' refl
          (call-Granted call (IsSentBy env timeout servers (calls call ∷ xs))) e traced

    react_back-IsTraced :
        (xs : List Happening) (h h' : Host W)
        → h.client.nick_to_jid ≡ []
        → IsTraced env timeout servers account h.client [] h
        → react_back env timeout servers xs h ≡ (ok tt, h')
        → IsTraced env timeout servers account h.client xs h'
    unfolding react_back
    react_back-IsTraced [] h h' new start e =
        subst (IsTraced env timeout servers account h.client []) (ap (λ r. r.1) e) start
    react_back-IsTraced (x ∷ xs) h h' new start e =
        let (_, t, before, last) =
          >>-eq-ok (react_back env timeout servers xs) (react env timeout servers x) h e in
        react-IsTraced h.client xs x t h' new last (react_back-IsTraced xs h t new start before)

    -- Over anything that happens to a new node and that it survives: an account has orders in the order book
    -- only because a message in the room has brought them, whose sender was known at the time by a nick that had
    -- last been given to an address which speaks for the account at a trusted server; and they are the orders of
    -- that message that were let through.
    pub react_back-Sent :
        (xs : List Happening) (h h' : Host W) (by : Text) (a : AccountOrders)
        → h.client.nick_to_jid ≡ []
        → h.daemon.all_orders.orders ≡ []
        → IsConsistent servers account h.daemon
        → react_back env timeout servers xs h ≡ (ok tt, h')
        → lookup by h'.daemon.all_orders.orders ≡ some a
        → Sent env timeout servers by a xs
    unfolding run_back
    react_back-Sent xs h h' by a new empty good e found =
        let start : IsTraced env timeout servers account h.client [] h = record {
          client = refl;
          daemon = record {
            parties = good.parties;
            addresses = good.addresses;
            entries = subst (EachBy (IsSentBy env timeout servers [])) (sym empty) tt;
            own = good.own;
            messages = good.messages;
          };
        } in
        lookup-Each (IsSentBy env timeout servers xs) by h'.daemon.all_orders.orders found
          (react_back-IsTraced xs h h' new start e).daemon.entries

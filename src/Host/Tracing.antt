-- ===== src/Host/Tracing.antt =====
-- src/mucclient.cpp and src/daemon.cpp together: where an entry of the order book has come from, and what each
-- single call keeps of it.
use democrit.Base.{ℕ, ◌≡◌, sym, ap, ◌∙◌, Bool, some, List, ◌∷◌, All-mono, Text, text_eq, ok}
use mathlib.Core.Path.{subst}
use democrit.Proto.{OrdersOfAccount}
use democrit.Env.{Env}
use democrit.Authenticator.{Jid}
use democrit.Authenticator.Known.{SpeaksFor}
use democrit.OrderBook.{AccountOrders}
use democrit.MucClient.{MucClient, is_connected}
use democrit.MucClient.Nicknames.{Announced, run_back, step}
use democrit.MucClient.Nicknames
use democrit.Daemon.{Daemon, valid_orders}
use democrit.Daemon.Events
use democrit.Daemon.Keeping.{Agrees}
use democrit.Daemon.Handlers.{Granted, handle-Keeps}
use democrit.MucClient.Stepping.{run_back-next}
use democrit.Host.Parts.{on_client-eq-ok, on_daemon-eq-ok}
use democrit.Host.{Host, Happening, hears, on_client, notify, client_events}

module _ {W : Type 0} (env : Env W) (timeout : ℕ) (servers : List Text) where
  -- A message in the room has brought the orders of the account: over all before it, the nick of the sender was
  -- last given to an address that speaks for the account, and the orders are those of the message that were let
  -- through.
  pub data Sent (by : Text) (a : AccountOrders) : List Happening → Type 0 where
    just_now :
        {now r : ℕ} {priv : Bool} {room nick : Text} {pb : OrdersOfAccount} {jid : Jid}
        {xs : List Happening} (w w' : W)
        → Announced nick jid (client_events xs)
        → SpeaksFor servers by jid
        → valid_orders env by pb.orders w ≡ (ok a.orders, w')
        → a.last_update ≡ now
        → Sent by a (hears now r priv room nick (some pb) ∷ xs)
    earlier : {x : Happening} {xs : List Happening} → Sent by a xs → Sent by a (x ∷ xs)

  abbrev pub IsSentBy : List Happening → Text → AccountOrders → Type 0
  IsSentBy xs by a = Sent by a xs

  pub record IsTraced (account : Text) (c : MucClient) (xs : List Happening) (h : Host W)
      : Type 0 where
    pub client : run_back (client_events xs) c ≡ (ok tt, h.client)
    pub daemon : Agrees (IsSentBy xs) servers account h.daemon

  module _ (account : Text) where
    -- What holds of every entry holds of it after the connection has changed, and after more has happened.
    pub Agrees-after :
        (xs : List Happening) (x : Happening) (d : Daemon W) (up : Bool)
        → Agrees (IsSentBy xs) servers account d
        → Agrees (IsSentBy (x ∷ xs)) servers account (record d { connected = up })
    Agrees-after xs x d up h = record {
      parties = h.parties;
      addresses = h.addresses;
      entries =
          All-mono (λ e. Sent e.0 e.1 xs) (λ e. Sent e.0 e.1 (x ∷ xs)) (λ e sent. earlier sent)
            d.all_orders.orders h.entries;
      own = h.own;
      messages = h.messages;
    }

    pub notify-Agrees :
        (xs : List Happening) (x : Happening) (e : Events.Event) (h h' : Host W)
        → Granted env timeout servers (IsSentBy (x ∷ xs)) account e
        → notify env timeout servers e h ≡ (ok tt, h')
        → Agrees (IsSentBy xs) servers account h.daemon
        → Agrees (IsSentBy (x ∷ xs)) servers account h'.daemon
    unfolding notify
    notify-Agrees xs x e h h' granted told agrees =
        let (handled, _) = on_daemon-eq-ok (Events.handle env timeout servers e) h h' told in
        (handle-Keeps env timeout servers (IsSentBy (x ∷ xs)) account e granted).at _ h'.daemon tt
          handled (Agrees-after xs x h.daemon (is_connected h.client) agrees)

    pub notify-client :
        (e : Events.Event) (h h' : Host W)
        → notify env timeout servers e h ≡ (ok tt, h')
        → h.client ≡ h'.client
    unfolding notify
    notify-client e h h' told = (on_daemon-eq-ok (Events.handle env timeout servers e) h h' told).1

    pub keep_client :
        (c : MucClient) (es : List Nicknames.Event) (t t' : MucClient)
        → run_back es c ≡ (ok tt, t)
        → t ≡ t'
        → run_back es c ≡ (ok tt, t')
    keep_client c es t t' h same = h ∙ ap (λ u. (ok tt, u)) same

    -- What only concerns the client.
    pub client-IsTraced :
        (c : MucClient) (xs : List Happening) (x : Happening) (ev : Nicknames.Event) (h h' : Host W)
        → client_events (x ∷ xs) ≡ ev ∷ client_events xs
        → on_client (step ev) h ≡ (ok tt, h')
        → IsTraced account c xs h
        → IsTraced account c (x ∷ xs) h'
    client-IsTraced c xs x ev h h' events e traced =
        let (stepped, same) = on_client-eq-ok (step ev) h h' e in
        record {
          client =
              subst (λ es. run_back es c ≡ (ok tt, h'.client)) (sym events)
                (run_back-next ev (client_events xs) c h.client h'.client traced.client stepped);
          daemon =
              subst (Agrees (IsSentBy (x ∷ xs)) servers account) same
                (Agrees-after xs x h.daemon h.daemon.connected traced.daemon);
        }

    -- What only concerns the components.
    pub notify-IsTraced :
        (c : MucClient) (xs : List Happening) (x : Happening) (ev : Events.Event) (h h' : Host W)
        → client_events (x ∷ xs) ≡ client_events xs
        → Granted env timeout servers (IsSentBy (x ∷ xs)) account ev
        → notify env timeout servers ev h ≡ (ok tt, h')
        → IsTraced account c xs h
        → IsTraced account c (x ∷ xs) h'
    notify-IsTraced c xs x ev h h' events granted e traced = record {
      client =
          subst (λ es. run_back es c ≡ (ok tt, h'.client)) (sym events)
            (keep_client c (client_events xs) h.client h'.client traced.client
              (notify-client ev h h' e));
      daemon = notify-Agrees xs x ev h h' granted e traced.daemon;
    }

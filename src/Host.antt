-- ===== src/Host.antt =====
-- src/daemon.cpp, `Daemon::Impl`, as the subclass of `MucClient` of src/mucclient.cpp: the room, the private
-- messages and the calls of the user, on the state of the client and that of the components.
pub mod Origin
pub mod Parts
pub mod Tracing
use democrit.Base.{
  ℕ, Bool, Option, none, some, List, [], ◌∷◌, Text, ℤ, Exec, pure, ◌>>=◌, ◌>>◌, if◌then◌else◌, ok,
  fatal, not,
}
use democrit.Proto.{Order, OrdersOfAccount, ProcessingMessage}
use democrit.Env.{Env}
use democrit.Authenticator.{Jid}
use democrit.MucClient.{
  MucClient, Participant, is_connected, is_room, handle_muc_participant_presence,
  handle_room_message, handle_muc_room_creation,
}
use democrit.MucClient.Nicknames
use democrit.Daemon.{Daemon}
use democrit.Daemon.Events

pub record Host (W : Type 0) : Type 0 where
  pub client : MucClient
  pub daemon : Daemon W

-- The calls of the user, and those of the periodic jobs.
pub data Call : Type 0 where
  times_out : ℕ → Call
  updates_trades refreshes : Call
  adds_order : Order → Call
  cancels_order : ℕ → Call
  takes_offer : Order → ℤ → Call

abbrev pub event_of : Call → Events.Event
event_of (times_out now) = Events.times_out now
event_of updates_trades = Events.updates_trades
event_of refreshes = Events.refreshes
event_of (adds_order o) = Events.adds_order o
event_of (cancels_order id) = Events.cancels_order id
event_of (takes_offer o units) = Events.takes_offer o units

-- What comes from gloox: a presence in a room, a message in it, a private message, the question whether to
-- create the room, and an error; the steps of the connection; and the calls. Some come at a time.
pub data Happening : Type 0 where
  sees : ℕ → ℕ → Participant → Bool → Happening
  hears : ℕ → ℕ → Bool → Text → Text → Option OrdersOfAccount → Happening
  gets_private : Jid → Option ProcessingMessage → Happening
  creates_room : ℕ → Happening
  gets_error : ℕ → Happening
  closes closed : Happening
  opens : ℕ → Bool → Happening
  calls : Call → Happening

module _ {W : Type 0} where
  unfoldable pub on_client : {A : Type 0} → Exec MucClient A → Exec (Host W) A
  on_client m h = let (r, c) = m h.client in (r, record h { client = c })

  unfoldable pub on_daemon : {A : Type 0} → Exec (Daemon W) A → Exec (Host W) A
  on_daemon m h =
      let (r, d) = m (record h.daemon { connected = is_connected h.client }) in
      (r, record h { daemon = d })

module _ {W : Type 0} (env : Env W) (timeout : ℕ) (servers : List Text) where
  unfoldable pub notify : Events.Event → Exec (Host W) (Unit {0})
  unfolding on_daemon Events.handle
  notify e = on_daemon (Events.handle env timeout servers e)

  -- `HandleDisconnect`, `HandleMessage`: they are called for a participant whose address is known.
  unfoldable pub notify_of : (Jid → Events.Event) → Option Jid → Exec (Host W) (Unit {0})
  unfolding notify
  notify_of e none = pure tt
  notify_of e (some jid) = notify (e jid)

  unfoldable pub react : Happening → Exec (Host W) (Unit {0})
  unfolding on_client notify notify_of handle_muc_participant_presence handle_room_message
      handle_muc_room_creation Nicknames.step
  react (sees now r p unavailable) = do
    gone ← on_client (handle_muc_participant_presence r p unavailable)
    notify_of (λ jid. Events.disconnect now jid) gone
  react (hears now r priv from_room from_nick ext) = do
    sender ← on_client (handle_room_message r priv from_room from_nick)
    notify_of (λ jid. Events.message now jid ext) sender
  react (gets_private sender ext) = notify (Events.private_message sender ext)
  react (creates_room r) = do on_client (handle_muc_room_creation r); pure tt
  react (gets_error r) = on_client (Nicknames.step (Nicknames.room_error r))
  react closes = on_client (Nicknames.step Nicknames.disconnects)
  react closed = on_client (Nicknames.step Nicknames.finishes)
  react (opens room logged_in) = on_client (Nicknames.step (Nicknames.connects room logged_in))
  react (calls c) = notify (event_of c)

  -- All that happens, with the last first.
  unfoldable pub react_back : List Happening → Exec (Host W) (Unit {0})
  unfolding react
  react_back [] = pure tt
  react_back (x ∷ xs) = do react_back xs; react x

-- What of it changes the client.
abbrev pub client_events : List Happening → List Nicknames.Event
client_events [] = []
client_events (sees now r p unavailable ∷ xs) =
    Nicknames.presence r p unavailable ∷ client_events xs
client_events (gets_error r ∷ xs) = Nicknames.room_error r ∷ client_events xs
client_events (closes ∷ xs) = Nicknames.disconnects ∷ client_events xs
client_events (closed ∷ xs) = Nicknames.finishes ∷ client_events xs
client_events (opens room logged_in ∷ xs) = Nicknames.connects room logged_in ∷ client_events xs
client_events (_ ∷ xs) = client_events xs

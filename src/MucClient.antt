-- ===== src/MucClient.antt =====
-- src/mucclient.cpp and src/private/mucclient.hpp: the member of the room through which all messages go.
-- gloox and XmppClient are not modelled: their callbacks are the calls of the handlers here, with the room
-- object told by a number, and `online` is what `XmppClient::IsConnected` says. What a handler calls of its
-- subclass is its result. The thread that disconnects is a step of its own, `finish_disconnect`.
pub mod Nicknames
pub mod Senders
pub mod Stepping
use democrit.Base.{
  ℕ, ◌==◌, Bool, true, false, not, ◌&&◌, ◌||◌, Option, none, some, List, [], ◌∷◌, Text, Dict,
  lookup, insert, erase, text_eq, str_eq, has, if◌then◌else◌, Exec, Outcome, ok, fatal, pure, check,
  ◌>>=◌, ◌>>◌,
}
use democrit.Authenticator.{Jid}

pub record MucClient : Type 0 where
  pub room_name : Text
  pub room : Option ℕ
  pub disconnecting : Bool
  pub joining : Bool
  pub online : Bool
  pub nick_to_jid : Dict Text Jid

-- A participant of the room in a presence: the flags say that it is the own one, and that it has a new nick.
pub record Participant : Type 0 where
  pub nick : Text
  pub jid : Option Jid
  pub new_nick : Text
  pub is_self : Bool
  pub nick_changed : Bool

abbrev pub is_connected : MucClient → Bool
is_connected c = not c.disconnecting && c.online

unfoldable pub resolve_nickname : Text → MucClient → Option Jid
resolve_nickname nick c = lookup nick c.nick_to_jid

unfoldable pub disconnect_async : MucClient → MucClient
disconnect_async c =
    if c.disconnecting then c else record c { nick_to_jid = []; disconnecting = true }

-- The thread, which leaves the room and closes the connection.
unfoldable pub finish_disconnect : MucClient → MucClient
finish_disconnect c =
    if c.disconnecting then record c { room = none; online = false; disconnecting = false } else c

unfoldable pub disconnect : Exec MucClient (Unit {0})
unfolding disconnect_async finish_disconnect
disconnect c =
    let d = finish_disconnect (disconnect_async c) in
    check (not d.disconnecting && (not (has d.room) && not d.online)) d

-- `Connect` up to the wait for the own presence: the login may fail, and the room gets a new number.
unfoldable pub join_room : ℕ → Bool → MucClient → Outcome Bool × MucClient
join_room room logged_in c =
    if not logged_in
    then (ok false, c)
    else if has c.room
    then (fatal, record c { online = true; nick_to_jid = [] })
    else (ok true, record c { online = true; nick_to_jid = []; joining = true; room = some room })

unfoldable pub connect : ℕ → Bool → Exec MucClient Bool
unfolding finish_disconnect join_room
connect room logged_in c = join_room room logged_in (finish_disconnect c)

abbrev pub is_room : ℕ → MucClient → Bool
is_room r c = elim c.room [ none ↦ false | some own ↦ r == own ]

-- `handleMUCRoomCreation` agrees to it.
unfoldable pub handle_muc_room_creation : ℕ → Exec MucClient Bool
handle_muc_room_creation r c = if not (is_room r c) then (fatal, c) else (ok true, c)

-- The own presence ends the wait; an own one that is unavailable ends the connection.
unfoldable pub own_presence : Bool → MucClient → MucClient
unfolding disconnect_async
own_presence left c = let d = if left then disconnect_async c else c in record d { joining = false }

-- The presence of another participant who is there: the nick, old or new, gets the full address.
unfoldable pub enter_nick : Participant → Jid → Exec MucClient (Option Jid)
unfolding str_eq
enter_nick p jid c =
    let nick = if p.nick_changed then p.new_nick else p.nick in
    let others = if p.nick_changed then erase p.nick c.nick_to_jid else c.nick_to_jid in
    if str_eq nick []
    then (fatal, record c { nick_to_jid = others })
    else (ok none, record c { nick_to_jid = insert nick jid others })

unfoldable pub other_presence : Bool → Participant → Exec MucClient (Option Jid)
unfolding enter_nick
other_presence true p c = (ok p.jid, record c { nick_to_jid = erase p.nick c.nick_to_jid })
other_presence false p c = elim p.jid [ none ↦ (ok none, c) | some jid ↦ enter_nick p jid c ]

-- The result is the address for which `HandleDisconnect` is called. A change of the nick comes as
-- unavailable, too, and is not taken as that.
unfoldable pub handle_muc_participant_presence :
    ℕ → Participant → Bool → Exec MucClient (Option Jid)
unfolding own_presence other_presence
handle_muc_participant_presence r p unavailable c =
    let left = unavailable && not p.nick_changed in
    if not (is_room r c)
    then (fatal, c)
    else if p.is_self
    then (ok none, own_presence left c)
    else other_presence left p c

-- The result is the address with which `HandleMessage` is called.
unfoldable pub handle_room_message : ℕ → Bool → Text → Text → Exec MucClient (Option Jid)
unfolding resolve_nickname str_eq
handle_room_message r priv from_room from_nick c =
    if not (is_room r c)
    then (fatal, c)
    else if priv
    then (ok none, c)
    else if not (str_eq from_room c.room_name)
    then (fatal, c)
    else (ok (resolve_nickname from_nick c), c)

unfoldable pub handle_muc_error : ℕ → Exec MucClient (Unit {0})
unfolding disconnect_async
handle_muc_error r c =
    if not (is_room r c)
    then (fatal, c)
    else (ok tt, record (disconnect_async c) { joining = false })

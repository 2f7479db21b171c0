-- ===== src/Tests/Rooms.antt =====
-- A room of src/mucclient.cpp: Bob enters, changes his nick, and a message comes under the new one.
use democrit.Base.{
  ◌≡◌, refl, true, false, none, some, List, [], ◌∷◌, codes, ok, ◌>>◌, ◌>>=◌, str_eq,
}
use democrit.Authenticator.{Jid}
use democrit.MucClient.{MucClient, Participant, handle_room_message, resolve_nickname}
use democrit.MucClient.Nicknames.{Event, presence, connects, run_back, Announced}
use democrit.MucClient.Senders.{handle_room_message-Announced}
use democrit.Tests.World.{bob}

abbrev pub offline : MucClient
offline = record {
  room_name = codes "room";
  room = none;
  disconnecting = false;
  joining = false;
  online = false;
  nick_to_jid = [];
}

abbrev bob_jid : Jid
bob_jid = record { username = bob; server = codes "xid"; resource = codes "home" }

abbrev pub bob_enters : Participant
bob_enters = record {
  nick = codes "b";
  jid = some bob_jid;
  new_nick = [];
  is_self = false;
  nick_changed = false;
}

abbrev bob_renames : Participant
bob_renames = record bob_enters { new_nick = codes "bb"; nick_changed = true }

abbrev events : List Event
events = presence 1 bob_renames true ∷ presence 1 bob_enters false ∷ connects 1 true ∷ []

abbrev after : MucClient
after = (run_back events offline).1

room_runs : run_back events offline ≡ (ok tt, after)
unfolding run_back ◌>>◌ ◌>>=◌ str_eq
room_runs = refl

from_bob :
    handle_room_message 1 false (codes "room") (codes "bb") after ≡ (ok (some bob_jid), after)
unfolding handle_room_message run_back ◌>>◌ ◌>>=◌ str_eq resolve_nickname
from_bob = refl

handle_room_message-Announced_example : Announced (codes "bb") bob_jid events
handle_room_message-Announced_example =
    handle_room_message-Announced events offline after after 1 false (codes "room") (codes "bb")
      bob_jid refl room_runs from_bob

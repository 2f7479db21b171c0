-- ===== src/MucClient/Nicknames.antt =====
-- src/mucclient.cpp: what the events of the room say of a nick, and what they make of the map.
use democrit.Base.{
  ℕ, ◌≡◌, ◌⊎◌, refl, sym, ap, inl, inr, Bool, false, not, ◌&&◌, ◌||◌, Bool-cases, Option, some,
  List, [], ◌∷◌, Text, Dict, lookup, insert, erase, lookup-insert, lookup-erase, text_eq, str_eq,
  str_eq_iff, has, if◌then◌else◌, Exec, ok, pure, ◌>>◌,
}
use mathlib.Core.Path.{subst}
use democrit.Authenticator.{Jid}
use democrit.MucClient.{
  MucClient, Participant, disconnect_async, finish_disconnect, connect, enter_nick,
  handle_muc_participant_presence, handle_muc_error,
}

-- What changes the client: a presence, an error of the room, the thread that disconnects, and a new connection.
pub data Event : Type 0 where
  presence : ℕ → Participant → Bool → Event
  room_error : ℕ → Event
  disconnects finishes : Event
  connects : ℕ → Bool → Event

unfoldable pub step : Event → Exec MucClient (Unit {0})
unfolding handle_muc_participant_presence handle_muc_error disconnect_async finish_disconnect
    connect
step (presence r p unavailable) = do handle_muc_participant_presence r p unavailable; pure tt
step (room_error r) = handle_muc_error r
step disconnects = λ c. (ok tt, disconnect_async c)
step finishes = λ c. (ok tt, finish_disconnect c)
step (connects room logged_in) = do connect room logged_in; pure tt

-- The events with the last one first.
unfoldable pub run_back : List Event → Exec MucClient (Unit {0})
unfolding step
run_back [] = pure tt
run_back (e ∷ es) = do run_back es; step e

-- Another participant leaves, and the nick under which another one is from now on.
abbrev pub leaves : Participant → Bool → Bool
leaves p unavailable = unavailable && not p.nick_changed

abbrev pub nick_of : Participant → Text
nick_of p = if p.nick_changed then p.new_nick else p.nick

-- The presence says that the nick is that of the address.
abbrev pub Names : Text → Jid → Event → Type 0
Names nick jid (presence r p unavailable) =
    (p.is_self ≡ false) × (leaves p unavailable ≡ false) × (p.jid ≡ some jid) × (nick_of p ≡ nick)
Names nick jid _ = ⊥

-- The event is about the nick: somebody else leaves under it, takes it, or gives it up for another.
abbrev pub is_about : Text → Event → Bool
is_about nick (presence r p unavailable) =
    not p.is_self
    && (if leaves p unavailable
        then str_eq p.nick nick
        else has p.jid && (str_eq (nick_of p) nick || (p.nick_changed && str_eq p.nick nick)))
is_about nick (connects room logged_in) = logged_in
is_about nick _ = false

-- The last event about the nick is a presence that gives it to the address.
pub data Announced (nick : Text) (jid : Jid) : List Event → Type 0 where
  just_now : {e : Event} {es : List Event} → Names nick jid e → Announced nick jid (e ∷ es)
  earlier :
      {e : Event} {es : List Event}
      → is_about nick e ≡ false
      → Announced nick jid es
      → Announced nick jid (e ∷ es)

abbrev pub Found : Text → Jid → Dict Text Jid → Type 0
Found nick jid d = lookup nick d ≡ some jid

-- After an event, the nick has the address by the event, or has had it before.
abbrev pub Since : Text → Jid → Event → MucClient → Type 0
Since nick jid e c = Names nick jid e ⊎ ((is_about nick e ≡ false) × Found nick jid c.nick_to_jid)

pub erase-Found :
    (old nick : Text) (jid : Jid) (d : Dict Text Jid)
    → Found nick jid (erase old d)
    → (str_eq old nick ≡ false) × Found nick jid d
erase-Found old nick jid d h = elim (Bool-cases (str_eq old nick)) [
  | inl same ↦ cc (rw (lookup-erase old nick d, same) at h)
  | inr other ↦ (other, rw (lookup-erase old nick d, other) at h)
]

insert-Found :
    (new nick : Text) (by jid : Jid) (d : Dict Text Jid)
    → Found nick jid (insert new by d)
    → ((new ≡ nick) × (by ≡ jid)) ⊎ ((str_eq new nick ≡ false) × Found nick jid d)
insert-Found new nick by jid d h = elim (Bool-cases (str_eq new nick)) [
  | inl same ↦
      let found : ◌≡◌ {A = Option Jid} (some by) (some jid) =
        rw (lookup-insert new nick by d, same) at h in
      inl ((str_eq_iff new nick).0 same, cc found)
  | inr other ↦ inr (other, rw (lookup-insert new nick by d, other) at h)
]

pub disconnect_async-Found :
    (nick : Text) (jid : Jid) (c : MucClient)
    → Found nick jid (disconnect_async c).nick_to_jid
    → Found nick jid c.nick_to_jid
unfolding disconnect_async
disconnect_async-Found nick jid c h = elim (Bool-cases c.disconnecting) [
  | inl already ↦ rw already at h
  | inr fresh ↦ cc (rw fresh at h)
]

-- The two ways in which a participant enters the map.
enter-Found :
    (p : Participant) (by : Jid) (nick : Text) (jid : Jid) (d : Dict Text Jid)
    → Found nick jid (insert (nick_of p) by (if p.nick_changed then erase p.nick d else d))
    → ((by ≡ jid) × (nick_of p ≡ nick))
      ⊎ (((str_eq (nick_of p) nick || (p.nick_changed && str_eq p.nick nick)) ≡ false)
          × Found nick jid d)
enter-Found p by nick jid d h =
    elim (insert-Found (nick_of p) nick by jid (if p.nick_changed then erase p.nick d else d) h) [
      | inl (same, address) ↦ inl (address, same)
      | inr (other, found) ↦ elim (Bool-cases p.nick_changed) [
        | inl changed ↦
            let (not_old, before) = erase-Found p.nick nick jid d (rw changed at found) in
            inr (rw (other, changed, not_old) refl, before)
        | inr same_nick ↦ inr (rw (other, same_nick) refl, rw same_nick at found)
      ]
    ]

pub enter_nick-Found :
    (p : Participant) (by : Jid) (c c' : MucClient) (nick : Text) (jid : Jid) {out : Option Jid}
    → enter_nick p by c ≡ (ok out, c')
    → Found nick jid c'.nick_to_jid
    → ((by ≡ jid) × (nick_of p ≡ nick))
      ⊎ (((str_eq (nick_of p) nick || (p.nick_changed && str_eq p.nick nick)) ≡ false)
          × Found nick jid c.nick_to_jid)
unfolding enter_nick
enter_nick-Found p by c c' nick jid e h = elim (Bool-cases (str_eq (nick_of p) [])) [
  | inl empty ↦ cc (rw (empty, enter_nick) at e)
  | inr named ↦
      let done = rw (named, enter_nick) at e in
      enter-Found p by nick jid c.nick_to_jid
        (subst (λ x. Found nick jid x.nick_to_jid) (sym (ap (λ r. r.1) done)) h)
]

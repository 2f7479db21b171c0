-- ===== src/MucClient/Senders.antt =====
-- src/mucclient.cpp: the events of the client keep to what the presences announce.
use democrit.Base.{
  ℕ, ◌≡◌, ◌⊎◌, refl, sym, ap, ◌∙◌, inl, inr, Bool, true, false, not, Bool-cases, Option-cases,
  Option, none, some, List, [], ◌∷◌, Text, lookup, text_eq, str_eq, has, if◌then◌else◌, Outcome, ok,
  fatal, pure, >>-eq-ok, ok-eq-ok,
}
use mathlib.Core.Path.{subst}
use democrit.Authenticator.{Jid}
use democrit.MucClient.{
  MucClient, Participant, resolve_nickname, finish_disconnect, connect, join_room, is_room,
  own_presence, other_presence, handle_muc_participant_presence, handle_room_message,
  handle_muc_error,
}
use democrit.MucClient.Nicknames.{
  Event, presence, room_error, disconnects, finishes, connects, step, run_back, leaves, Announced,
  just_now, earlier, Found, Since, erase-Found, disconnect_async-Found, enter_nick-Found,
}

own_presence-Found :
    (left : Bool) (nick : Text) (jid : Jid) (c : MucClient)
    → Found nick jid (own_presence left c).nick_to_jid
    → Found nick jid c.nick_to_jid
unfolding own_presence
own_presence-Found true nick jid c h = disconnect_async-Found nick jid c h
own_presence-Found false nick jid c h = h

other_presence-Since :
    (r : ℕ) (p : Participant) (unavailable : Bool) (c c' : MucClient) (nick : Text) (jid : Jid)
    {out : Option Jid}
    → p.is_self ≡ false
    → other_presence (leaves p unavailable) p c ≡ (ok out, c')
    → Found nick jid c'.nick_to_jid
    → Since nick jid (presence r p unavailable) c
unfolding other_presence
other_presence-Since r p unavailable c c' nick jid other e h =
    elim (Bool-cases (leaves p unavailable)) [
      | inl left ↦
          let gone = rw left at e in
          let (not_nick, before) =
            erase-Found p.nick nick jid c.nick_to_jid
              (subst (λ x. Found nick jid x.nick_to_jid) (sym (ap (λ r. r.1) gone)) h) in
          inr (rw (other, left, not_nick) refl, before)
      | inr stays ↦ elim (Option-cases p.jid) [
        | inl unknown ↦
            let same = rw (stays, unknown) at e in
            inr (
              rw (other, stays, unknown) refl,
              subst (λ x. Found nick jid x.nick_to_jid) (sym (ap (λ r. r.1) same)) h,
            )
        | inr (by, known) ↦ elim (enter_nick-Found p by c c' nick jid (rw (stays, known) at e) h) [
          | inl (address, same) ↦ inl (other, stays, known ∙ ap some address, same)
          | inr (not_nick, before) ↦ inr (rw (other, stays, known, not_nick) refl, before)
        ]
      ]
    ]

-- Which part of the handler of a presence has returned.
dispatched :
    (here self : Bool) (c c' : MucClient) (own other : Outcome (Option Jid) × MucClient)
    {out : Option Jid}
    → (if not here then (fatal, c) else if self then own else other) ≡ (ok out, c')
    → ((self ≡ true) × (own ≡ (ok out, c'))) ⊎ ((self ≡ false) × (other ≡ (ok out, c')))
dispatched false self c c' own other e = cc e
dispatched true true c c' own other e = inl (refl, e)
dispatched true false c c' own other e = inr (refl, e)

presence-Since :
    (r : ℕ) (p : Participant) (unavailable : Bool) (c c' : MucClient) (nick : Text) (jid : Jid)
    {out : Option Jid}
    → handle_muc_participant_presence r p unavailable c ≡ (ok out, c')
    → Found nick jid c'.nick_to_jid
    → Since nick jid (presence r p unavailable) c
unfolding handle_muc_participant_presence
presence-Since r p unavailable c c' nick jid e h =
    elim (dispatched (is_room r c) p.is_self c c' (ok none, own_presence (leaves p unavailable) c)
      (other_presence (leaves p unavailable) p c) e) [
        | inl (self, own) ↦ inr (
          rw self refl,
          own_presence-Found (leaves p unavailable) nick jid c
              (subst (λ x. Found nick jid x.nick_to_jid) (sym (ap (λ r. r.1) own)) h),
        )
        | inr (other, rest) ↦ other_presence-Since r p unavailable c c' nick jid other rest h
      ]

finish_disconnect-Found :
    (nick : Text) (jid : Jid) (c : MucClient)
    → Found nick jid (finish_disconnect c).nick_to_jid
    → Found nick jid c.nick_to_jid
unfolding finish_disconnect
finish_disconnect-Found nick jid c h = elim (Bool-cases c.disconnecting) [
  | inl going ↦ rw going at h
  | inr idle ↦ rw idle at h
]

join_room-Found :
    (room : ℕ) (logged_in : Bool) (c c' : MucClient) (nick : Text) (jid : Jid) {joined : Bool}
    → join_room room logged_in c ≡ (ok joined, c')
    → Found nick jid c'.nick_to_jid
    → (logged_in ≡ false) × Found nick jid c.nick_to_jid
unfolding join_room
join_room-Found room false c c' nick jid e h =
    (refl, subst (λ x. Found nick jid x.nick_to_jid) (sym (ap (λ r. r.1) e)) h)
join_room-Found room true c c' nick jid e h = elim (Bool-cases (has c.room)) [
  | inl taken ↦ cc (rw taken at e)
  | inr free ↦
      let joined = rw free at e in
      cc (subst (λ x. Found nick jid x.nick_to_jid) (sym (ap (λ r. r.1) joined)) h)
]

error-Found :
    (r : ℕ) (c c' : MucClient) (nick : Text) (jid : Jid)
    → handle_muc_error r c ≡ (ok tt, c')
    → Found nick jid c'.nick_to_jid
    → Found nick jid c.nick_to_jid
unfolding handle_muc_error
error-Found r c c' nick jid e h = elim (Bool-cases (is_room r c)) [
  | inr elsewhere ↦ cc (rw (elsewhere, handle_muc_error) at e)
  | inl room ↦
      let closed = rw (room, handle_muc_error) at e in
      disconnect_async-Found nick jid c
        (subst (λ x. Found nick jid x.nick_to_jid) (sym (ap (λ r. r.1) closed)) h)
]

step-Since :
    (e : Event) (c c' : MucClient) (nick : Text) (jid : Jid)
    → step e c ≡ (ok tt, c')
    → Found nick jid c'.nick_to_jid
    → Since nick jid e c
unfolding step connect
step-Since (presence r p unavailable) c c' nick jid e h =
    let (out, t, handled, last) =
      >>-eq-ok (handle_muc_participant_presence r p unavailable) (pure tt) c e in
    presence-Since r p unavailable c t nick jid handled
      (subst (λ x. Found nick jid x.nick_to_jid) (sym (ap (λ r. r.1) last)) h)
step-Since (room_error r) c c' nick jid e h = inr (refl, error-Found r c c' nick jid e h)
step-Since disconnects c c' nick jid e h = inr (
  refl,
  disconnect_async-Found nick jid c
      (subst (λ x. Found nick jid x.nick_to_jid) (sym (ap (λ r. r.1) e)) h),
)
step-Since finishes c c' nick jid e h = inr (
  refl,
  finish_disconnect-Found nick jid c
      (subst (λ x. Found nick jid x.nick_to_jid) (sym (ap (λ r. r.1) e)) h),
)
step-Since (connects room logged_in) c c' nick jid e h =
    let (joined, t, tried, last) = >>-eq-ok (connect room logged_in) (pure tt) c e in
    let (failed, before) =
      join_room-Found room logged_in (finish_disconnect c) t nick jid tried
        (subst (λ x. Found nick jid x.nick_to_jid) (sym (ap (λ r. r.1) last)) h) in
    inr (failed, finish_disconnect-Found nick jid c before)

found-Announced :
    (es : List Event) (c c' : MucClient) (nick : Text) (jid : Jid)
    → c.nick_to_jid ≡ []
    → run_back es c ≡ (ok tt, c')
    → Found nick jid c'.nick_to_jid
    → Announced nick jid es
unfolding run_back
found-Announced [] c c' nick jid new e h = cc (
    subst (λ d. Found nick jid d) new
      (subst (λ x. Found nick jid x.nick_to_jid) (sym (ap (λ r. r.1) e)) h))
found-Announced (e ∷ es) c c' nick jid new run h =
    let (_, t, before, last) = >>-eq-ok (run_back es) (step e) c run in
    elim (step-Since e t c' nick jid last h) [
      | inl named ↦ just_now named
      | inr (silent, found) ↦ earlier silent (found-Announced es c t nick jid new before found)
    ]

handed_on :
    (here priv known : Bool) (c c' : MucClient) (found : Option Jid) {jid : Jid}
    → ◌≡◌ {A = Outcome (Option Jid) × MucClient}
        (if not here
          then (fatal, c)
          else if priv
          then (ok none, c)
          else if not known
          then (fatal, c)
          else (ok found, c))
        (ok (some jid), c')
    → found ≡ some jid
handed_on false priv known c c' found e = cc e
handed_on true true known c c' found e = cc e
handed_on true false false c c' found e = cc e
handed_on true false true c c' found e = ok-eq-ok found (some _) c c' e

-- A message in the room is handed on as one of an address only if, over all that has happened to a new client,
-- the last event about the nick of the sender is a presence that gives this nick to the address. A presence
-- without an address counts as no event about a nick: one who takes a nick that way, after a renaming without
-- an address has left it, is still taken for its former owner.
pub handle_room_message-Announced :
    (es : List Event) (c c' c'' : MucClient) (r : ℕ) (priv : Bool) (room nick : Text) (jid : Jid)
    → c.nick_to_jid ≡ []
    → run_back es c ≡ (ok tt, c')
    → handle_room_message r priv room nick c' ≡ (ok (some jid), c'')
    → Announced nick jid es
unfolding handle_room_message resolve_nickname
handle_room_message-Announced es c c' c'' r priv room nick jid new run e =
    found-Announced es c c' nick jid new run (
      handed_on (is_room r c') priv (str_eq room c'.room_name) c' c'' (lookup nick c'.nick_to_jid)
        e)

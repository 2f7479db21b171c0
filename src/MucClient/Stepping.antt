-- ===== src/MucClient/Stepping.antt =====
-- src/mucclient.cpp: single handlers of the client, and the steps of it that they are.
use democrit.Base.{
  ℕ, ◌≡◌, refl, ap, inl, inr, Bool, true, false, not, Bool-cases, if◌then◌else◌, str_eq, Option,
  none, List, ◌∷◌, Text, lookup, text_eq, Exec, Outcome, ok, fatal, pure, ◌>>◌, ◌>>=◌,
}
use democrit.Authenticator.{Jid}
use democrit.MucClient.{
  MucClient, Participant, is_room, resolve_nickname, handle_muc_room_creation, handle_room_message,
  handle_muc_participant_presence,
}
use democrit.MucClient.Nicknames.{Announced, run_back, step}
use democrit.MucClient.Nicknames

>>-ok :
    {S A B : Type 0} (m : Exec S A) (k : Exec S B) (s t : S) (a : A) {r : Outcome B × S}
    → m s ≡ (ok a, t)
    → k t ≡ r
    → (m >> k) s ≡ r
unfolding ◌>>◌ ◌>>=◌
>>-ok m k s t a first rest = rw first rest

-- Two handlers of the client change nothing.
pub handle_room_message-same :
    (r : ℕ) (priv : Bool) (room nick : Text) (c c' : MucClient) {sender : Option Jid}
    → handle_room_message r priv room nick c ≡ (ok sender, c')
    → c ≡ c'
unfolding handle_room_message resolve_nickname
handle_room_message-same r priv room nick c c' e =
    passed (is_room r c) priv (str_eq room c.room_name) (lookup nick c.nick_to_jid) e
  where
    passed :
        (here priv known : Bool) (found : Option Jid) {sender : Option Jid}
        → ◌≡◌ {A = Outcome (Option Jid) × MucClient}
            (if not here
              then (fatal, c)
              else if priv
              then (ok none, c)
              else if not known
              then (fatal, c)
              else (ok found, c))
            (ok sender, c')
        → c ≡ c'
    passed false priv known found e = cc e
    passed true true known found e = cc e
    passed true false false found e = cc e
    passed true false true found e = ap (λ r. r.1) e

pub handle_muc_room_creation-same :
    (r : ℕ) (c c' : MucClient) {agreed : Bool}
    → handle_muc_room_creation r c ≡ (ok agreed, c')
    → c ≡ c'
unfolding handle_muc_room_creation
handle_muc_room_creation-same r c c' e = elim (Bool-cases (is_room r c)) [
  | inl here ↦ ap (λ r. r.1) (rw here at e)
  | inr elsewhere ↦ cc (rw elsewhere at e)
]

-- One more event of the client.
pub run_back-next :
    (e : Nicknames.Event) (es : List Nicknames.Event) (c t t' : MucClient)
    → run_back es c ≡ (ok tt, t)
    → step e t ≡ (ok tt, t')
    → run_back (e ∷ es) c ≡ (ok tt, t')
unfolding run_back
run_back-next e es c t t' before next = >>-ok (run_back es) (step e) c t tt before next

pub presence-step :
    (r : ℕ) (p : Participant) (unavailable : Bool) (c c' : MucClient) {gone : Option Jid}
    → handle_muc_participant_presence r p unavailable c ≡ (ok gone, c')
    → step (Nicknames.presence r p unavailable) c ≡ (ok tt, c')
unfolding step
presence-step r p unavailable c c' e =
    >>-ok (handle_muc_participant_presence r p unavailable) (pure tt) c c' _ e refl

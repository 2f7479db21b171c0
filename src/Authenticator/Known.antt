-- ===== src/Authenticator/Known.antt =====
-- The addresses that the authenticator of src/authenticator.cpp remembers.
use democrit.Base.{
  ◌≡◌, ◌∙◌, inl, inr, true, Bool-cases, Option, some, List, [], ◌∷◌, Text, Dict, insert, text_eq,
  str_eq, str_eq_iff, lookup-insert, Option-cases,
}
use mathlib.Core.Path.{subst}
use democrit.Authenticator.{Jid, is_trusted, decode_name, authenticate, lookup_jid}

-- The user name of the address speaks for the account, at a server that is trusted.
abbrev pub SpeaksFor : List Text → Text → Jid → Type 0
SpeaksFor servers account jid =
    (is_trusted servers jid.server ≡ true) × (decode_name jid.username ≡ some account)

abbrev pub AllSpeak : List Text → Dict Text Jid → Type 0
AllSpeak servers known =
    (account : Text) (jid : Jid)
    → lookup_jid account known ≡ some jid
    → SpeaksFor servers account jid

insert-AllSpeak :
    (servers : List Text) (by : Text) (new : Jid) (known : Dict Text Jid)
    → SpeaksFor servers by new
    → AllSpeak servers known
    → AllSpeak servers (insert by new known)
unfolding lookup_jid
insert-AllSpeak servers by new known good h account jid e = elim (Bool-cases (str_eq by account)) [
  | inl same ↦
      let found : ◌≡◌ {A = Option Jid} (some new) (some jid) =
        rw (lookup-insert by account new known, same) at e in
      let the_jid : new ≡ jid = cc found in
      let the_account : by ≡ account = (str_eq_iff by account).0 same in
      subst (λ j. SpeaksFor servers account j) the_jid
        (subst (λ b. SpeaksFor servers b new) the_account good)
  | inr other ↦ h account jid (rw (lookup-insert by account new known, other) at e)
]

pub authenticate-AllSpeak :
    (servers : List Text) (jid : Jid) (known : Dict Text Jid)
    → AllSpeak servers known
    → AllSpeak servers (authenticate servers jid known).1
unfolding authenticate
authenticate-AllSpeak servers jid known h = elim (Bool-cases (is_trusted servers jid.server)) [
  | inr other ↦ rw other h
  | inl trusted ↦ elim (Option-cases (decode_name jid.username)) [
    | inl refused ↦ rw (trusted, refused) h
    | inr (account, decoded) ↦
        rw (trusted, decoded) (insert-AllSpeak servers account jid known (trusted, decoded) h)
  ]
]

pub authenticate-SpeaksFor :
    (servers : List Text) (jid : Jid) (known : Dict Text Jid) (by : Text)
    → (authenticate servers jid known).0 ≡ some by
    → SpeaksFor servers by jid
unfolding authenticate
authenticate-SpeaksFor servers jid known by e = elim (Bool-cases (is_trusted servers jid.server)) [
  | inr other ↦ cc (rw other at e)
  | inl trusted ↦ elim (Option-cases (decode_name jid.username)) [
    | inl refused ↦ cc (rw (trusted, refused) at e)
    | inr (account, decoded) ↦
        let found : ◌≡◌ {A = Option Text} (some account) (some by) = rw (trusted, decoded) at e in
        (trusted, decoded ∙ found)
  ]
]

-- The addresses known after some have been presented, in their order.
unfoldable pub authenticate_all : List Text → List Jid → Dict Text Jid → Dict Text Jid
unfolding authenticate
authenticate_all servers [] known = known
authenticate_all servers (jid ∷ jids) known =
    authenticate_all servers jids (authenticate servers jid known).1

all-AllSpeak :
    (servers : List Text) (jids : List Jid) (known : Dict Text Jid)
    → AllSpeak servers known
    → AllSpeak servers (authenticate_all servers jids known)
unfolding authenticate_all
all-AllSpeak servers [] known h = h
all-AllSpeak servers (jid ∷ jids) known h =
    all-AllSpeak servers jids (authenticate servers jid known).1
      (authenticate-AllSpeak servers jid known h)

-- Whatever addresses have been presented to a new authenticator: an address that it gives out for an
-- account is at a trusted server, and its user name decodes to that account.
pub lookup_jid-SpeaksFor :
    (servers : List Text) (jids : List Jid) (account : Text) (jid : Jid)
    → lookup_jid account (authenticate_all servers jids []) ≡ some jid
    → SpeaksFor servers account jid
unfolding lookup_jid
lookup_jid-SpeaksFor servers jids = all-AllSpeak servers jids [] (λ account jid e. cc e)

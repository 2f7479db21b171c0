-- ===== src/Daemon/Keeping.antt =====
-- src/daemon.cpp: what is consistent about the state of all components, and the steps that keep it.
use democrit.Base.{
  ◌≡◌, ◌∙◌, refl, sym, ap, inl, inr, Bool, true, false, Option, none, some, List, [], ◌∷◌, All,
  Text, str_eq, str_eq_iff, value_or, if◌then◌else◌, Exec, Outcome, ok, rpc_error, fatal,
  and_then-eq-some, checked-eq-some, Option-cases, Keeps, Keeps-total,
}
use mathlib.Core.Path.{subst}
use democrit.Proto.{OrdersOfAccount, ProcessingMessage}
use democrit.TradeManager.{Manager}
use democrit.TradeManager.Parties.{IsSound}
use democrit.TradeManager.Safety.{sound, Safe}
use democrit.Authenticator.{Jid, lookup_jid}
use democrit.Authenticator.Known.{
  SpeaksFor, AllSpeak, authenticate-AllSpeak, authenticate-SpeaksFor,
}
use democrit.Daemon.Events.{answered, caught}
use democrit.OrderBook.{AccountOrders, all_complete}
use democrit.OrderBook.Contents.{EachBy}
use democrit.Daemon.{
  Daemon, update_own_orders, carry_out, on_world, after_calls, on_manager, authenticated,
  send_message, send_processing_message, has_valid_units,
}

-- The orders of an account in the order book can be listed and printed.
abbrev pub IsListable : AccountOrders → Type 0
IsListable a = (all_complete a.orders ≡ true) × All (λ e. has_valid_units e.1 ≡ true) a.orders

-- A private message goes to an address that speaks for some account at a trusted server.
abbrev pub IsAddressed : List Text → Jid × ProcessingMessage → Type 0
IsAddressed servers (to, msg) = (by : Text) × SpeaksFor servers by to

abbrev pub IsBy : Text → OrdersOfAccount → Type 0
IsBy account own = value_or [] own.account ≡ account

-- The components of the node of one account agree, and each entry of the order book has a property.
pub record Agrees {W : Type 0} (P : Text → AccountOrders → Type 0) (servers : List Text)
    (account : Text) (d : Daemon W) : Type 0 where
  pub parties : IsSound account d.manager.node.state
  pub addresses : AllSpeak servers d.known_jids
  pub entries : EachBy P d.all_orders.orders
  pub own : All (IsBy account) d.published
  pub messages : All (IsAddressed servers) d.outbox

-- The components agree, and the orders of others can be listed and printed.
abbrev pub IsConsistent : {W : Type 0} → List Text → Text → Daemon W → Type 0
IsConsistent servers account d = Agrees (λ _. IsListable) servers account d

update_own_orders-IsBy :
    (account : Text) (connected : Bool) (own : OrdersOfAccount) (published : List OrdersOfAccount)
    {after : List OrdersOfAccount}
    → update_own_orders account connected own published ≡ some after
    → All (IsBy account) published
    → All (IsBy account) after
unfolding update_own_orders
update_own_orders-IsBy account true own published {after} e h =
    let (same, result) =
      checked-eq-some (str_eq (value_or [] own.account) account) (some (own ∷ published)) e in
    let list : own ∷ published ≡ after = cc result in
    subst (All (IsBy account)) list ((str_eq_iff (value_or [] own.account) account).0 same, h)
update_own_orders-IsBy account false own published {after} e h =
    let (same, result) =
      checked-eq-some (str_eq (value_or [] own.account) account) (some published) e in
    let list : published ≡ after = cc result in subst (All (IsBy account)) list h

carry_out-IsBy :
    (account : Text) (connected : Bool) (calls published : List OrdersOfAccount)
    {after : List OrdersOfAccount}
    → carry_out account connected calls published ≡ some after
    → All (IsBy account) published
    → All (IsBy account) after
unfolding carry_out
carry_out-IsBy account connected [] published {after} e h =
    let same : published ≡ after = cc e in subst (All (IsBy account)) same h
carry_out-IsBy account connected (own ∷ calls) published e h =
    let (middle, before, last) = and_then-eq-some _ _ e in
    update_own_orders-IsBy account connected own middle last
      (carry_out-IsBy account connected calls published before h)

pub authenticated-SpeaksFor :
    {W : Type 0} (servers : List Text) (jid : Jid) (by : Text) (d d' : Daemon W)
    → authenticated servers jid d ≡ (ok (some by), d')
    → SpeaksFor servers by jid
unfolding authenticated
authenticated-SpeaksFor servers jid by d d' e =
    authenticate-SpeaksFor servers jid d.known_jids by (cc e)

module _ {W : Type 0} (P : Text → AccountOrders → Type 0) (servers : List Text)
    (account : Text) where
  pub on_world-Keeps :
      {A : Type 0} (f : Exec W A) → Keeps (Agrees {W = W} P servers account) (on_world f)
  unfolding on_world
  on_world-Keeps f = Keeps-total (Agrees P servers account) (on_world f) λ d h. record {
    parties = h.parties;
    addresses = h.addresses;
    entries = h.entries;
    own = h.own;
    messages = h.messages;
  }

  after_calls-Agrees :
      {A : Type 0} (r : Outcome A) (m : Manager W) (d d' : Daemon W)
      (calls : Option (List OrdersOfAccount)) {a : A}
      → after_calls r m d calls ≡ (ok a, d')
      → (r ≡ ok a → IsSound account m.node.state)
      → ((after : List OrdersOfAccount)
          → calls ≡ some after
          → IsSound account m.node.state
          → All (IsBy account) after)
      → Agrees P servers account d
      → Agrees P servers account d'
  unfolding after_calls
  after_calls-Agrees r m d d' none e sound own h = cc e
  after_calls-Agrees (ok b) m d d' (some after) e sound own h =
      let same : ok b ≡ ok _ = ap (λ p. p.0) e in
      let parties = sound same in
      subst (λ p. Agrees P servers account p.1) e
        (record {
          parties = parties;
          addresses = h.addresses;
          entries = h.entries;
          own = own after refl parties;
          messages = h.messages;
        })
  after_calls-Agrees rpc_error m d d' (some after) e sound own h = cc e
  after_calls-Agrees fatal m d d' (some after) e sound own h = cc e

  pub on_manager-Keeps :
      {A : Type 0} (f : Exec (Manager W) A)
      → Safe (sound account) f
      → Keeps (Agrees P servers account) (on_manager f)
  unfolding on_manager
  on_manager-Keeps f safe = record {
    at = λ d d' a e h.
        let r = f d.manager in
        after_calls-Agrees r.0 r.1 d d' _ e
          (λ done. safe.at d.manager r.1 a (λ i. (done i, r.1)) h.parties)
          (λ after calls sound.
            subst (λ by. All (IsBy by) after) sound.0
              (carry_out-IsBy r.1.node.state.account d.connected r.1.node.sent d.published calls
                (subst (λ by. All (IsBy by) d.published) (sym sound.0) h.own)))
          h;
  }

  caught-after_calls :
      {A : Type 0} (r : Outcome A) (m : Manager W) (d : Daemon W)
      (calls : Option (List OrdersOfAccount))
      → caught (λ e. after_calls r m e calls) d ≡ after_calls (answered r) m d calls
  unfolding caught after_calls
  caught-after_calls r m d none = refl
  caught-after_calls r m d (some after) = refl

  caught-on_manager :
      {A : Type 0} (f : Exec (Manager W) A) (d : Daemon W)
      → caught (on_manager f) d ≡ on_manager (caught f) d
  unfolding caught on_manager
  caught-on_manager f d = caught-after_calls (f d.manager).0 _ d _

  -- The same where the exception is caught.
  pub caught-Keeps :
      {A : Type 0} (f : Exec (Manager W) A)
      → Safe (sound account) (caught f)
      → Keeps (Agrees P servers account) (caught (on_manager f))
  caught-Keeps f safe = record {
    at = λ d d' a e h.
        (on_manager-Keeps (caught f) safe).at d d' a (sym (caught-on_manager f d) ∙ e) h;
  }

  pub authenticated-Keeps :
      (jid : Jid) → Keeps (Agrees {W = W} P servers account) (authenticated servers jid)
  unfolding authenticated
  authenticated-Keeps jid =
      Keeps-total (Agrees P servers account) (authenticated servers jid) λ d h. record {
        parties = h.parties;
        addresses = authenticate-AllSpeak servers jid d.known_jids h.addresses;
        entries = h.entries;
        own = h.own;
        messages = h.messages;
      }

  send_message-Agrees :
      (to : Jid) (msg : ProcessingMessage) (d : Daemon W)
      → IsAddressed servers (to, msg)
      → Agrees P servers account d
      → Agrees P servers account (send_message to msg d).1
  unfolding send_message
  send_message-Agrees to msg d by h = by_connection d.connected
    where
      by_connection :
          (up : Bool)
          → Agrees P servers account
              (if◌then◌else◌ {A = Outcome (Unit {0}) × Daemon W} up
                (ok tt, record d { outbox = (to, msg) ∷ d.outbox })
                (fatal, d)).1
      by_connection true = record {
        parties = h.parties;
        addresses = h.addresses;
        entries = h.entries;
        own = h.own;
        messages = (by, h.messages);
      }
      by_connection false = h

  pub send_processing_message-Keeps :
      (msg : ProcessingMessage)
      → Keeps (Agrees {W = W} P servers account) (send_processing_message msg)
  unfolding send_processing_message
  send_processing_message-Keeps msg =
      Keeps-total (Agrees P servers account) (send_processing_message msg) λ d h.
        elim (Option-cases (lookup_jid (value_or [] msg.counterparty) d.known_jids)) [
          | inl unknown ↦ rw (unknown, send_processing_message) h
          | inr (to, found) ↦
              rw (found, send_processing_message)
                (send_message-Agrees to (record msg { counterparty = none }) d
                  (
                    value_or [] msg.counterparty,
                    h.addresses (value_or [] msg.counterparty) to found,
                  )
                  h)
        ]

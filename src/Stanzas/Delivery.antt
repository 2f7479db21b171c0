-- ===== src/Stanzas/Delivery.antt =====
-- From the own orders of one node to the order book of another: the refresh of src/myorders.cpp, the stanza
-- of src/stanzas.tpp and the handler of src/daemon.cpp.
use democrit.Base.{
  ℕ, ◌≡◌, refl, sym, ap, ◌∙◌, inl, inr, Bool, true, false, not, Bool-cases, Option, none, some,
  List, [], ◌∷◌, Text, Dict, lookup, nat_eq, text_eq, str_eq_iff, ok, ◌>>=◌, and_then-eq-some,
  checked-eq-some,
}
use mathlib.Core.Path.{subst}
use democrit.Proto.{Order, OrdersOfAccount}
use democrit.Env.{Env}
use democrit.MyOrders.{Validator, Node, keep, run_refresh, internal_get_orders}
use democrit.MyOrders.Refresh.{accepts, refreshed, run_refresh-refreshed}
use democrit.MyOrders.Invariant.{IsValid, Below, keep-Below}
use democrit.MyOrders.Holding.{passing, lookup-passing, offered}
use democrit.Authenticator.{Jid, authenticate}
use democrit.OrderBook.{AccountOrders}
use democrit.Daemon.{Daemon, validate_order, valid_orders, handle_muc_message}
use democrit.Daemon.Validity.{EachOrder}
use democrit.Daemon.Broadcasts.{HasKind, listed_as, handle_muc_message-lists}
use democrit.Stanzas.{
  Codec, Kind, account_orders, stanza_of, tag_of, xmlns, new_instance, tag, data_of,
}

-- What serialised data parses to, and what a payload in a tag decodes to.
pub record Faithful {P X : Type 0} (codec : Codec P X) : Type 0 where
  pub parses :
      (p : P) (bytes : Text) → codec.serialize p ≡ some bytes → codec.parse bytes ≡ (true, p)
  pub decodes :
      (ns name payload : Text)
      → codec.decode_payload (codec.set_xmlns ns (codec.encode_payload name payload)) ≡ some payload

new_instance-parsed :
    {P X : Type 0} (codec : Codec P X) (p : P) (payload : Text) (x : X)
    → codec.decode_payload x ≡ some payload
    → codec.parse payload ≡ (true, p)
    → new_instance codec x ≡ stanza_of p
unfolding new_instance
new_instance-parsed codec p payload x decoded parsed = rw (new_instance, decoded, parsed) refl

-- A stanza that has been sent is valid where it arrives, and has the data that went into it.
data_of-tag :
    {P X : Type 0} (codec : Codec P X)
    → Faithful codec
    → (k : Kind) (p : P) (x : X) → tag codec k (stanza_of p) ≡ some x
    → data_of codec (some (new_instance codec x)) ≡ some p
unfolding tag data_of
data_of-tag codec faithful k p x sent =
    let (_, made) = checked-eq-some true _ sent in
    let (payload, serialised, done) = and_then-eq-some (codec.serialize p) _ made in
    let same : codec.set_xmlns xmlns (codec.encode_payload (tag_of k) payload) ≡ x = cc done in
    ap (λ s. data_of codec (some s))
      (new_instance-parsed codec p payload x
        (ap codec.decode_payload (sym same) ∙ faithful.decodes xmlns (tag_of k) payload)
        (faithful.parses p payload serialised))

keep-EachOrder :
    (P : Order → Type 0) (p : Order → Bool) (os : Dict ℕ Order)
    → EachOrder P os
    → EachOrder P (keep p os)
unfolding keep
keep-EachOrder P p [] h = tt
keep-EachOrder P p ((id, o) ∷ os) h = elim (Bool-cases (p o)) [
  | inl passes ↦ rw passes (h.0, keep-EachOrder P p os h.1)
  | inr fails ↦ rw fails (keep-EachOrder P p os h.1)
]

-- The orders of an account in the order book.
abbrev pub listed : Option AccountOrders → Dict ℕ Order
listed none = []
listed (some a) = a.orders

listed-listed_as : (now : ℕ) (os : Dict ℕ Order) → listed (listed_as now os) ≡ os
listed-listed_as now [] = refl
listed-listed_as now (e ∷ os) = refl

module _ {W : Type 0} (env : Env W) (seen : Text → Order → Bool) where
  -- The asset spec of the game answers as the validity says, always.
  abbrev pub Answers : Type 0
  Answers =
      (account : Text) (o : Order) (w : W)
      → validate_order env account o w ≡ (ok (seen account o), w)

  valid_orders-keep :
      Answers
      → (account : Text) (os : Dict ℕ Order) (w : W)
      → valid_orders env account os w ≡ (ok (keep (seen account) os), w)
  unfolding valid_orders keep ◌>>=◌
  valid_orders-keep answers account [] w = refl
  valid_orders-keep answers account ((id, o) ∷ os) w =
      rw (answers account o w, valid_orders-keep answers account os w) refl

  kept_both :
      (account : Text) (valid : Validator) (bound : ℕ) (own sent : Dict ℕ Order)
      → Below bound own
      → keep (λ o. not o.locked) (keep (accepts valid account) own) ≡ sent
      → (id : ℕ)
      → lookup id (keep (seen account) sent)
        ≡ passing (seen account) (offered (passing (accepts valid account) (lookup id own)))
  kept_both account valid bound own sent h these id =
      let valid_below = keep-Below (accepts valid account) bound own h in
      let offered_below = keep-Below (λ o. not o.locked) bound _ valid_below in
      rw
        (
          sym these,
          lookup-passing (seen account) id bound _ offered_below,
          lookup-passing (λ o. not o.locked) id bound _ valid_below,
          lookup-passing (accepts valid account) id bound own h,
        )
        refl

  -- A refresh of one node that returns comes to the order book of another: if the tag that it sends arrives from an address
  -- that is authentic for its account, the receiver goes through, and then has under each id of that account the
  -- own order of the sender, where it is valid for the sender and not locked, and valid for the receiver; and
  -- no other order of that account. This needs own orders with asset and type, an asset spec of the receiver
  -- that answers always the same, and serialised data that can be parsed.
  pub run_refresh-arrives :
      {X : Type 0} (codec : Codec OrdersOfAccount X) (valid : Validator) (n n' : Node)
      (own : OrdersOfAccount) (x : X) (servers : List Text) (now : ℕ) (sender : Jid) (d : Daemon W)
      (known : Dict Text Jid)
      → Faithful codec
      → Answers
      → IsValid n.state
      → EachOrder HasKind n.state.own_orders
      → authenticate servers sender d.known_jids ≡ (some n.state.account, known)
      → run_refresh valid n ≡ (ok tt, n')
      → n'.sent ≡ own ∷ n.sent
      → tag codec account_orders (stanza_of own) ≡ some x
      → let ext = data_of codec (some (new_instance codec x)) in
        let r = handle_muc_message env servers now sender ext d in
        (r.0 ≡ ok tt)
        × ((id : ℕ)
            → lookup id (listed (lookup n.state.account r.1.all_orders.orders))
              ≡ passing (seen n.state.account) (
                  offered (passing (accepts valid n.state.account) (lookup id n.state.own_orders))))
  unfolding keep internal_get_orders
  run_refresh-arrives codec valid n n' own x servers now sender d known faithful answers h kinds by
        returned made sent =
      let after = ap (λ m. m.sent) (run_refresh-refreshed valid n n' returned) in
      let same : internal_get_orders false (refreshed valid n).state ≡ own =
        cc (sym after ∙ made) in
      let orders =
        keep (λ o. not o.locked) (keep (accepts valid n.state.account) n.state.own_orders) in
      let these : orders ≡ own.orders = ap (λ m. m.orders) same in
      let arrived = data_of-tag codec faithful account_orders own x sent in
      let (goes, _, lists) =
        handle_muc_message-lists env servers now sender own d n.state.account known
          (keep (seen n.state.account) own.orders) d.manager.world by
          (valid_orders-keep answers n.state.account own.orders d.manager.world) in
      let kinds_kept = keep-EachOrder HasKind (seen n.state.account) own.orders (
        subst (EachOrder HasKind) these
          (keep-EachOrder HasKind _ _ (keep-EachOrder HasKind _ n.state.own_orders kinds))) in
      let done = goes.1 kinds_kept in
      let own_listed = (str_eq_iff n.state.account n.state.account).1 refl in
      rw arrived (
        done,
        λ id.
            rw
              (
                lists done n.state.account,
                own_listed,
                listed-listed_as now (keep (seen n.state.account) own.orders),
              )
              (kept_both n.state.account valid n.state.next_free_id n.state.own_orders own.orders h
                these id),
      )

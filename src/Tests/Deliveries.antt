-- ===== src/Tests/Deliveries.antt =====
-- A refresh of Bob's node that comes to Alice's node, with a codec that keeps the data as it is.
use democrit.Base.{
  ℕ, ◌≡◌, ◌∙◌, ◌++◌, inl, inr, Bool-cases, and_then-eq-some, refl, sym, ap, Bool, true, false, ◌&&◌,
  Option, none, some, [], ◌∷◌, Text, Dict, codes, lookup, nat_eq, text_eq, ok, has, arith, ◌>>=◌,
  and_then, checked,
}
use democrit.Proto.{Order, OrderType, ask, bid, type_of, OrdersOfAccount}
use democrit.MyOrders.{Validator, Node, run_refresh}
use democrit.MyOrders.Holding.{passing, offered}
use democrit.Daemon.{has_valid_units, can_trade, validate_order, handle_muc_message}
use democrit.Stanzas.{Codec, stanza_of, new_instance, account_orders, tag, data_of}
use democrit.Stanzas.Delivery.{Faithful, Answers, listed, run_refresh-arrives}
use democrit.Tests.World.{env0, bob, node_of}
use democrit.Tests.Nodes.{servers, bob_jid, bob_known, new_node, bob-authentic}

-- A codec for messages of an account of three letters with one offer to sell, the tag being the payload.
abbrev offer_bytes :
    ℕ
    → Option Text
    → Option ℕ
    → Option Text
    → Option ℕ
    → ℕ
    → Option OrderType
    → Option ℕ
    → Bool
    → Option Text
offer_bytes i none none (some t) (some m) n (some ask) (some p) false = some (i ∷ m ∷ n ∷ p ∷ t)
offer_bytes _ _ _ _ _ _ _ _ _ = none

abbrev bytes_of : Option Text → Dict ℕ Order → Option Text
bytes_of (some (a ∷ b ∷ c ∷ [])) ((i, o) ∷ []) =
    and_then
      (offer_bytes i o.account o.id o.asset o.min_units o.max_units o.order_type o.price_sat
        o.locked)
      λ bytes. some (a ∷ b ∷ c ∷ bytes)
bytes_of _ _ = none

abbrev offer_of : Text → ℕ → ℕ → ℕ → ℕ → Text → OrdersOfAccount
offer_of by i m n p t = record {
  account = some by;
  orders =
      (
        i,
        record {
          account = none;
          id = none;
          asset = some t;
          min_units = some m;
          max_units = n;
          order_type = some ask;
          price_sat = some p;
          locked = false;
        },
      )
      ∷ [];
}

abbrev parsed : Text → Bool × OrdersOfAccount
parsed (a ∷ b ∷ c ∷ i ∷ m ∷ n ∷ p ∷ t) = (true, offer_of (a ∷ b ∷ c ∷ []) i m n p t)
parsed _ = (false, record { account = none; orders = [] })

abbrev codec0 : Codec OrdersOfAccount Text
codec0 = record {
  initial = record { account = none; orders = [] };
  serialize = λ p. bytes_of p.account p.orders;
  parse = parsed;
  encode_payload = λ name payload. payload;
  decode_payload = λ payload. some payload;
  set_xmlns = λ ns payload. payload;
}

offer_parsed :
    (a b c i n : ℕ) (account : Option Text) (id : Option ℕ) (asset : Option Text) (m : Option ℕ)
    (type : Option OrderType) (p : Option ℕ) (locked : Bool) (bytes : Text)
    → offer_bytes i account id asset m n type p locked ≡ some bytes
    → parsed (a ∷ b ∷ c ∷ bytes) ≡ (
      true,
      record {
        account = some (a ∷ b ∷ c ∷ []);
        orders =
            (
              i,
              record {
                account = account;
                id = id;
                asset = asset;
                min_units = m;
                max_units = n;
                order_type = type;
                price_sat = p;
                locked = locked;
              },
            )
            ∷ [];
      },
    )
offer_parsed a b c i n none none (some t) (some m) (some ask) (some p) false bytes e =
    let same : i ∷ m ∷ n ∷ p ∷ t ≡ bytes = cc e in ap (λ x. parsed (a ∷ b ∷ c ∷ x)) (sym same)
offer_parsed a b c i n _ _ _ _ _ _ _ bytes e = cc e

bytes_parsed :
    (account : Option Text) (orders : Dict ℕ Order) (bytes : Text)
    → bytes_of account orders ≡ some bytes
    → parsed bytes ≡ (true, record { account = account; orders = orders })
bytes_parsed (some (a ∷ b ∷ c ∷ [])) ((i, o) ∷ []) bytes e =
    let (offer, made, done) =
      and_then-eq-some
        (offer_bytes i o.account o.id o.asset o.min_units o.max_units o.order_type o.price_sat
          o.locked)
        _ e in
    let same : a ∷ b ∷ c ∷ offer ≡ bytes = cc done in
    ap parsed (sym same)
    ∙ offer_parsed a b c i o.max_units o.account o.id o.asset o.min_units o.order_type o.price_sat
        o.locked offer made
bytes_parsed _ _ bytes e = cc e

codec0-Faithful : Faithful codec0
codec0-Faithful = record {
  parses = λ p bytes e. bytes_parsed p.account p.orders bytes e;
  decodes = λ ns name payload. refl;
}

abbrev seen : Text → Order → Bool
seen account o = has_valid_units o && has o.price_sat

abbrev sees : Validator
sees = record { answer = λ account o. ok (seen account o); moved_from = λ o. o }

covered :
    (account : Text) (o : Order) (w : ℕ) (k : OrderType)
    → type_of o ≡ k
    → can_trade env0 account o w ≡ (ok true, w)
unfolding can_trade ◌>>=◌
covered account o w ask e = rw (can_trade, e) refl
covered account o w bid e = rw (can_trade, e) refl

answers : Answers env0 seen
unfolding validate_order ◌>>=◌
answers account o w = elim (Bool-cases (has_valid_units o)) [
  | inr bad ↦ rw bad refl
  | inl good ↦ elim (Bool-cases (has o.price_sat)) [
    | inr free ↦ rw (good, free) refl
    | inl priced ↦ rw (good, priced) (covered account o w (type_of o) refl)
  ]
]

abbrev bobs_node : Node
bobs_node = (node_of bob []).node

abbrev offer : OrdersOfAccount
offer = offer_of bob 7 1 5 10 (codes "gold")

abbrev fresh_node : Node
fresh_node = (run_refresh sees bobs_node).1

refreshed : run_refresh sees bobs_node ≡ (ok tt, fresh_node)
unfolding run_refresh
refreshed = refl

published : fresh_node.sent ≡ offer ∷ bobs_node.sent
unfolding run_refresh
published = refl

offer_sent :
    tag codec0 account_orders (stanza_of offer) ≡ some (bob ++ (7 ∷ 1 ∷ 5 ∷ 10 ∷ codes "gold"))
unfolding tag checked and_then
offer_sent = refl

run_refresh-arrives_example :
    let ext =
      data_of codec0 (some (new_instance codec0 (bob ++ (7 ∷ 1 ∷ 5 ∷ 10 ∷ codes "gold")))) in
    let r = handle_muc_message env0 servers 10 bob_jid ext new_node in
    (r.0 ≡ ok tt)
    × ((id : ℕ)
        → lookup id (listed (lookup bob r.1.all_orders.orders))
          ≡ passing
              (seen bob)
              (offered (passing (seen bob) (lookup id bobs_node.state.own_orders))))
run_refresh-arrives_example =
    run_refresh-arrives env0 seen codec0 sees bobs_node fresh_node offer
      (bob ++ (7 ∷ 1 ∷ 5 ∷ 10 ∷ codes "gold")) servers 10 bob_jid new_node bob_known codec0-Faithful
      answers (omega arith, refl, tt) ((refl, refl), tt) bob-authentic refreshed published
      offer_sent

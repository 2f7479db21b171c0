-- ===== src/Tests/Prints.antt =====
-- The own orders of Alice, printed after she has added one and it has been locked.
use democrit.Base.{
  ◌>>◌, ◌≡◌, ◌⊎◌, refl, inl, inr, true, ◌&&◌, some, List, [], ◌∷◌, Text, has, and_true, ok, ◌>>=◌,
}
use democrit.Json.{Json}
use democrit.Proto.{Order, OrderType, ask, bid, type_of}
use democrit.MyOrders.{Validator, Node, get_orders, Call, adds, locks, run, attempt}
use democrit.MyOrders.Holding.{AllReturn}
use democrit.ProtoJson.{orders_of_account_to_json}
use democrit.Daemon.{has_valid_units, can_trade, validate_order}
use democrit.Daemon.OwnOrders.{IsOfDaemon, run-prints}
use democrit.Tests.World.{env0, alice, alice_order}

abbrev sensible : Validator
sensible = record {
  answer = λ account o. ok (has_valid_units o && has o.price_sat);
  moved_from = λ o. o;
}

ask_or_bid : (t : OrderType) → (t ≡ ask) ⊎ (t ≡ bid)
ask_or_bid ask = inl refl
ask_or_bid bid = inr refl

validated :
    (account : Text) (o : Order)
    → (has_valid_units o && has o.price_sat) ≡ true
    → validate_order env0 account o 0 ≡ (ok true, 0)
unfolding validate_order can_trade ◌>>=◌
validated account o e =
    let (units, price) = and_true (has_valid_units o) (has o.price_sat) e in
    elim (ask_or_bid (type_of o)) [
      | inl asks ↦ rw (units, price, asks, can_trade) refl
      | inr bids ↦ rw (units, price, bids, can_trade) refl
    ]

sensible-IsOfDaemon : IsOfDaemon env0 sensible
sensible-IsOfDaemon = λ account o e. (0, 0, validated account o (cc e))

abbrev new_orders : Node
new_orders = record {
  state = record {
    account = alice;
    own_orders = [];
    next_free_id = 1;
    trades = [];
    trade_archive = [];
  };
  sent = [];
}

abbrev calls : List Call
calls = adds sensible alice_order ∷ locks sensible 1 ∷ []

calls_return : AllReturn calls new_orders
unfolding attempt ◌>>◌
calls_return = (refl, (refl, tt))

run-prints_example :
    (j : Json) × (orders_of_account_to_json (get_orders (run calls new_orders).state) ≡ some j)
run-prints_example =
    run-prints env0 calls new_orders refl (sensible-IsOfDaemon, (sensible-IsOfDaemon, tt))
      calls_return

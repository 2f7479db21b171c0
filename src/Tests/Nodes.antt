-- ===== src/Tests/Nodes.antt =====
-- A node of src/daemon.cpp with all its components: Bob offers, Alice takes the offer, Bob leaves.
use democrit.Base.{
  ℕ, ◌≡◌, ◌≢◌, ◌↔◌, refl, true, none, some, List, [], ◌∷◌, Text, Dict, codes, lookup, text_eq,
  str_eq, pos, ok, fatal, if◌then◌else◌, and_then, checked, check, ◌>>=◌, ◌>>◌, or_die, arith,
}
use democrit.Json.{Json}
use democrit.Proto.{Order, OrdersOfAccount, OrderbookByAsset}
use democrit.Authenticator.{Jid, lookup_jid, authenticate}
use democrit.OrderBook.Validity.{empty_book}
use democrit.ProtoJson.{has_units, order_to_json, order_from_json, orderbook_by_asset_to_json}
use democrit.ProtoJson.RoundTrip.{canonical, is_exact, order_from_json-order_to_json}
use democrit.Trade.Wallet.{get_pb, set_pb, lift}
use democrit.Daemon.{Daemon, get_orders_by_asset, valid_orders, handle_muc_message}
use democrit.Daemon.Events.{Event, message, takes_offer, handle_all}
use democrit.Daemon.Keeping.{IsConsistent}
use democrit.Daemon.Handlers.{handle_all-IsConsistent}
use democrit.Daemon.Serving.{handle_all-serves}
use democrit.Daemon.Validity.{EachOrder}
use democrit.Daemon.Broadcasts.{HasKind, listed_as, handle_muc_message-lists}
use democrit.Tests.World.{env0, alice, bob, stored_order, alice_order, node_of}

alice_units : has_units alice_order ≡ true
unfolding has_units
alice_units = refl

order_from_json-order_to_json_example :
    and_then (order_to_json alice_order) order_from_json
    ≡ (if is_exact alice_order then some (canonical alice_order) else none)
order_from_json-order_to_json_example =
    order_from_json-order_to_json alice_order (omega arith, omega arith, omega arith, omega arith)
      alice_units

abbrev pub servers : List Text
servers = codes "xid" ∷ []

abbrev pub bob_jid : Jid
bob_jid = record { username = bob; server = codes "xid"; resource = codes "home" }

abbrev pub new_node : Daemon ℕ
new_node = record {
  manager = node_of alice [];
  known_jids = [];
  all_orders = empty_book;
  connected = true;
  published = [];
  outbox = [];
}

abbrev pub bobs_orders : OrdersOfAccount
bobs_orders = record { account = none; orders = (3, stored_order) ∷ [] }

abbrev bobs_offer : Order
bobs_offer = record stored_order { account = some bob; id = some 3 }

abbrev events : List Event
events =
    message 10 bob_jid (some bobs_orders)
    ∷ takes_offer bobs_offer (pos 2)
    ∷ message 20 bob_jid (some bobs_orders)
    ∷ []

abbrev after : Daemon ℕ
after = (handle_all env0 15 servers events new_node).1

survives : handle_all env0 15 servers events new_node ≡ (ok tt, after)
unfolding handle_all ◌>>◌ ◌>>=◌ check get_pb lift or_die checked set_pb and_then str_eq lookup_jid
survives = refl

pub new-IsConsistent : IsConsistent servers alice new_node
unfolding lookup_jid
new-IsConsistent = record {
  parties = (refl, tt);
  addresses = λ account jid e. cc e;
  entries = tt;
  own = tt;
  messages = tt;
}

handle_all-IsConsistent_example : IsConsistent servers alice after
handle_all-IsConsistent_example =
    handle_all-IsConsistent env0 15 servers alice events new_node after survives new-IsConsistent

handle_all-serves_example :
    (books : OrderbookByAsset) × (get_orders_by_asset after ≡ some books)
    × (j : Json) × (orderbook_by_asset_to_json books ≡ some j)
handle_all-serves_example =
    handle_all-serves env0 15 servers alice events new_node after survives new-IsConsistent

abbrev pub bob_known : Dict Text Jid
bob_known = (bob, bob_jid) ∷ []

pub bob-authentic : authenticate servers bob_jid [] ≡ (some bob, bob_known)
unfolding authenticate and_then str_eq
bob-authentic = refl

bobs_orders_valid : valid_orders env0 bob bobs_orders.orders 0 ≡ (ok bobs_orders.orders, 0)
unfolding valid_orders ◌>>=◌
bobs_orders_valid = refl

handle_muc_message-lists_example :
    let r = handle_muc_message env0 servers 10 bob_jid (some bobs_orders) new_node in
    ((r.0 ≡ ok tt) ↔ EachOrder HasKind bobs_orders.orders)
    × ((r.0 ≢ ok tt) → r.0 ≡ fatal)
    × ((r.0 ≡ ok tt)
        → (account : Text)
        → lookup account r.1.all_orders.orders ≡ (
            if str_eq bob account
            then listed_as 10 bobs_orders.orders
            else lookup account new_node.all_orders.orders))
handle_muc_message-lists_example =
    handle_muc_message-lists env0 servers 10 bob_jid bobs_orders new_node bob bob_known
      bobs_orders.orders 0 bob-authentic bobs_orders_valid

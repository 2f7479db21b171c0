-- ===== src/Tests/Hosts.antt =====
-- A node whose client enters the room, where Bob comes in and then offers.
use democrit.Base.{
  ℕ, ◌≡◌, refl, false, true, some, List, [], ◌∷◌, codes, lookup, text_eq, str_eq, ok, ◌>>◌, ◌>>=◌,
  check, and_then, checked, or_die,
}
use democrit.OrderBook.{AccountOrders}
use democrit.Host.{Host, Happening, opens, sees, hears, react_back}
use democrit.Host.Origin.{react_back-Sent}
use democrit.Host.Tracing.{Sent}
use democrit.Tests.World.{env0, alice, bob}
use democrit.Tests.Rooms.{offline, bob_enters}
use democrit.Tests.Nodes.{servers, new_node, bobs_orders, new-IsConsistent}

abbrev new_host : Host ℕ
new_host = record { client = offline; daemon = new_node }

abbrev happenings : List Happening
happenings =
    hears 10 1 false (codes "room") (codes "b") (some bobs_orders)
    ∷ sees 5 1 bob_enters false
    ∷ opens 1 true
    ∷ []

abbrev host_after : Host ℕ
host_after = (react_back env0 15 servers happenings new_host).1

host_survives : react_back env0 15 servers happenings new_host ≡ (ok tt, host_after)
unfolding react_back ◌>>◌ ◌>>=◌ check or_die checked and_then str_eq
host_survives = refl

abbrev bobs_entry : AccountOrders
bobs_entry = record { orders = bobs_orders.orders; last_update = 10 }

bob_listed : lookup bob host_after.daemon.all_orders.orders ≡ some bobs_entry
unfolding react_back ◌>>◌ ◌>>=◌ check or_die checked and_then str_eq
bob_listed = refl

react_back-Sent_example : Sent env0 15 servers bob bobs_entry happenings
react_back-Sent_example =
    react_back-Sent env0 15 servers alice happenings new_host host_after bob bobs_entry refl refl
      new-IsConsistent host_survives bob_listed

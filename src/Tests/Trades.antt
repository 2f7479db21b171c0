-- ===== src/Tests/Trades.antt =====
-- Trades of src/trades.cpp: Alice sells to Bob.
use democrit.Base.{
  ◌≡◌, ◌≢◌, refl, inl, some, List, [], ◌∷◌, codes, arith, ok, pos, nat_eq, ◌>>=◌, ◌>>◌, or_die,
  check, checked, ◌≤◌, All, ℕ, ok-eq-ok, and_then,
}
use democrit.Proto.{TradeState, pending, account_of, id_of}
use democrit.Trade.{get_identifier, build_trade_checker, get_role, get_order_type, handle_message}
use democrit.Trade.Wallet.{Local, get_pb, set_pb, lift}
use democrit.Trade.Reply.{has_reply}
use democrit.Trade.Update.{update}
use democrit.Trade.Identifier.{get_identifier-injective}
use democrit.Trade.Life.{Evolves, Works, handle_message-Works}
use democrit.Trade.Life.Replying.{has_reply-Evolves}
use democrit.Trade.Life.Turns.{Talk, silent, asked, turns, Talk-turns}
use democrit.Trade.Life.Updating.{update-Evolves}
use democrit.TradeManager.{sweep, take_order, process_trades, update_and_archive_trades}
use democrit.TradeManager.Lingering.{IsClock, IsWaiting, update_and_archive_trades-IsWaiting}
use democrit.TradeManager.Sweep.{Splits, sweep-Splits}
use democrit.TradeManager.Processing.{Touched, process_trades-Touched}
use democrit.TradeManager.Parties.{IsSound}
use democrit.TradeManager.Calls.{Event, updates, receives, handle_all, handle_all-IsSound}
use democrit.TradeManager.Opening.{Taken, take_order-Taken}
use democrit.TradeManager.Agreement.{build_trade_checker-agree}
use democrit.Tests.World.{env0, alice, bob, alice_order, trade_of, sale, node_of, takes_two}

abbrev late : TradeState
late = record (trade_of bob) { start_time = 0 }

abbrev waiting : TradeState
waiting = record (trade_of bob) { phase = some pending; our_psbt = some (codes "unsigned") }

bob-not-alice : bob ≢ alice
bob-not-alice = λ e. absurd (cc e)

alice-not-bob : alice ≢ bob
alice-not-bob = λ e. absurd (cc e)

has_reply-Evolves_example :
    Evolves (trade_of bob) (has_reply env0 alice (record { pb = trade_of bob; world = 0 })).1.pb
has_reply-Evolves_example = has_reply-Evolves env0 alice (record { pb = trade_of bob; world = 0 })

update-Evolves_example : Evolves waiting (update env0 (record { pb = waiting; world = 0 })).1.pb
update-Evolves_example = update-Evolves env0 (record { pb = waiting; world = 0 })

handle_message-Works_example :
    Works
      (trade_of alice)
      (handle_message bob (record takes_two { seller_data = some sale }) (trade_of alice))
handle_message-Works_example =
    handle_message-Works bob (record takes_two { seller_data = some sale }) (trade_of alice)

get_identifier-injective_example :
    (account_of (trade_of bob).order ≡ account_of waiting.order)
    × (id_of (trade_of bob).order ≡ id_of waiting.order)
unfolding get_identifier
get_identifier-injective_example = get_identifier-injective (trade_of bob) waiting refl

sweep_both : (sweep env0 alice (late ∷ waiting ∷ []) 0).0 ≡ ok tt
unfolding sweep ◌>>=◌ get_pb lift set_pb or_die ◌>>◌ check
sweep_both = refl

sweep-Splits_example :
    Splits alice (late ∷ waiting ∷ []) (sweep env0 alice (late ∷ waiting ∷ []) 0).1
sweep-Splits_example = sweep-Splits env0 alice (late ∷ waiting ∷ []) 0 sweep_both

process_trades-Touched_example :
    Touched takes_two
      (waiting ∷ trade_of bob ∷ [])
      (process_trades env0 alice takes_two (waiting ∷ trade_of bob ∷ []) 0).1
process_trades-Touched_example =
    process_trades-Touched env0 alice takes_two (waiting ∷ trade_of bob ∷ []) 0

take_order-Taken_example :
    Taken alice_order
      (pos 2)
      (node_of bob []).node
      (take_order env0 alice_order (pos 2) (node_of bob [])).0
      (take_order env0 alice_order (pos 2) (node_of bob [])).1
take_order-Taken_example = take_order-Taken env0 alice_order (pos 2) (node_of bob [])

build_trade_checker-agree_example :
    (build_trade_checker bob (trade_of alice) ≡ build_trade_checker alice (trade_of bob))
    × (get_identifier (trade_of alice) ≡ get_identifier (trade_of bob))
build_trade_checker-agree_example =
    build_trade_checker-agree alice bob (trade_of bob) (trade_of alice)
      (record { theirs = refl; ours = refl; order = refl; units = refl }) (bob-not-alice, inl refl)

abbrev events : List Event
events = receives takes_two ∷ updates ∷ []

events_survived :
    handle_all env0 events (node_of alice [])
    ≡ (ok tt, (handle_all env0 events (node_of alice [])).1)
unfolding handle_all ◌>>◌ check get_pb lift or_die checked set_pb
events_survived = refl

handle_all-IsSound_example : IsSound alice (handle_all env0 events (node_of alice [])).1.node.state
handle_all-IsSound_example =
    handle_all-IsSound env0 alice events (node_of alice [])
      (handle_all env0 events (node_of alice [])).1 events_survived (refl, tt)

clock0 : IsClock env0 1000
clock0 w w' now told = let same = ok-eq-ok 1000 now w w' told in omega (arith, same)

all_updated :
    update_and_archive_trades env0 (node_of alice (waiting ∷ trade_of bob ∷ []))
    ≡ (ok tt, (update_and_archive_trades env0 (node_of alice (waiting ∷ trade_of bob ∷ []))).1)
unfolding update_and_archive_trades ◌>>=◌ get_pb lift set_pb or_die ◌>>◌ check
all_updated = refl

update_and_archive_trades-IsWaiting_example :
    All
      (IsWaiting env0 1000)
      (update_and_archive_trades env0
        (node_of alice (waiting ∷ trade_of bob ∷ []))).1.node.state.trades
update_and_archive_trades-IsWaiting_example =
    update_and_archive_trades-IsWaiting env0 1000 (node_of alice (waiting ∷ trade_of bob ∷ []))
      (update_and_archive_trades env0 (node_of alice (waiting ∷ trade_of bob ∷ []))).1 clock0
      all_updated

abbrev sold : Local ℕ
sold = record { pb = trade_of bob; world = 0 }

-- Alice is asked twice, and has one thing to say.
sold-Talk : Talk env0 alice 1 sold (has_reply env0 alice (has_reply env0 alice sold).1).1
unfolding has_reply ◌>>=◌ get_pb lift set_pb or_die ◌>>◌ check checked and_then
sold-Talk = asked sold _ 0 (asked _ _ 0 (silent _))

Talk-turns_example : 1 ≤ turns env0 alice (get_order_type alice sold.pb) (get_role alice sold.pb)
Talk-turns_example =
    Talk-turns env0 alice 1 sold (has_reply env0 alice (has_reply env0 alice sold).1).1 sold-Talk

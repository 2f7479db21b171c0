-- ===== src/Tests/Queries.antt =====
-- What Alice's node answers about its own orders.
use democrit.Base.{◌≡◌, refl, Outcome, ok, rpc_error, fatal, or_die, and_then, checked, str_eq}
use democrit.Json.{Json, null}
use democrit.RpcServer.{getownorders}
use democrit.RpcServer.Answers.{own_orders, answer, IsAnswer, answer-IsAnswer}
use democrit.Tests.World.{env0}
use democrit.Tests.Nodes.{new_node}

abbrev value_of : Outcome Json → Json
value_of (ok j) = j
value_of rpc_error = null
value_of fatal = null

abbrev own_json : Json
own_json = value_of (answer env0 own_orders new_node).0

own_answered : answer env0 own_orders new_node ≡ (ok own_json, new_node)
unfolding getownorders or_die and_then checked str_eq
own_answered = refl

answer-IsAnswer_example : IsAnswer own_orders own_json × (new_node ≡ new_node)
answer-IsAnswer_example = answer-IsAnswer env0 own_orders new_node new_node own_json own_answered

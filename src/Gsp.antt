-- ===== src/Gsp.antt =====
-- gsp: the game state processor that keeps the height at which each trade was confirmed, by
-- its btxid (gsp/game.cpp, gsp/pending.cpp, gsp/rpcserver.cpp). The table of the database is a list of
-- rows. The game of libxayagame, and what jsoncpp makes of a double as an unsigned int, are
-- parameters.
pub mod Rows
pub mod Statuses
pub mod Confirming
pub mod Answers
use democrit.Base.{
  ℕ, ◌^◌, Bool, true, false, not, ◌&&◌, ◌||◌, Option, none, some, List, [], ◌∷◌, ◌++◌, Text, codes,
  str_eq, ltb, if◌then◌else◌, ℤ, pos, negsuc, to_int32, Exec, Outcome, ok, rpc_error, fatal, pure,
  or_die, check, and_then, ◌>>=◌, ◌>>◌, has,
}
use democrit.Json.{
  Json, null, bool_val, int_val, real_val, str, arr, obj, Fields, end, field, elements,
  lookup_field, member, as_string, put, is_object, is_null, empty_object, as_uint,
}
use democrit.ProtoJson.{remove_field}

pub data Chain : Type 0 where
  main test regtest : Chain

-- The block with which the game starts on each chain.
unfoldable pub get_initial_state_block : Chain → ℕ × Text
get_initial_state_block main =
    (2_350_000, codes "c66f30db579e0aad429648f4cb7dd67648d007ae4313f265a406b88f043b3d93")
get_initial_state_block test =
    (109_000, codes "ebc9c179a6a9700777851d2b5452fa1c4b14aaa194a646e2a37cec8ca410e62a")
get_initial_state_block regtest =
    (0, codes "6f750b36d22f1dc3d0a6e483af45301022646dfc3b3ba2187865f5a7d6d83ab1")

-- The table `trades`: btxid and height.
abbrev pub Table : Type 0
Table = List (Text × ℕ)

-- The heights that `SELECT ... WHERE btxid = ?` gives.
unfoldable pub heights_of : Text → Table → List ℕ
unfolding str_eq
heights_of btxid [] = []
heights_of btxid ((b, height) ∷ rows) =
    let rest = heights_of btxid rows in if str_eq b btxid then height ∷ rest else rest

-- `INSERT`, which fails on a second row for the primary key.
unfoldable pub insert_trade : Text → ℕ → Exec Table (Unit {0})
unfolding heights_of
insert_trade btxid height table = elim (heights_of btxid table) [
  | [] ↦ (ok tt, table ++ ((btxid, height) ∷ []))
  | _ ∷ _ ↦ (fatal, table)
]

unfoldable pub parse_move : Json → Option Text
unfolding member as_string and_then
parse_move mv = and_then (member (codes "btxid") mv) as_string

abbrev pub field_values : Fields → List Json
field_values end = []
field_values (field k v fs) = v ∷ field_values fs

-- What a loop over a JSON value visits.
abbrev pub entries_of : Json → List Json
entries_of (arr xs) = elements xs
entries_of (obj fs) = field_values fs
entries_of _ = []

module _ (real_uint : Text → Option ℕ) where
  -- `asUInt ()`, which throws out of range and on strings and containers.
  unfoldable pub to_uint : Json → Option ℕ
  to_uint null = some 0
  to_uint (bool_val b) = some (if b then 1 else 0)
  to_uint (int_val (pos n)) = if ltb n (2 ^ 32) then some n else none
  to_uint (real_val t) = real_uint t
  to_uint _ = none

  unfoldable pub insert_moves : ℕ → List Json → Exec Table (Unit {0})
  unfolding parse_move insert_trade
  insert_moves height [] = pure tt
  insert_moves height (mv ∷ mvs) = do
    btxid ← or_die (parse_move mv)
    insert_trade btxid height
    insert_moves height mvs

  unfoldable pub update_state : Json → Exec Table (Unit {0})
  unfolding to_uint insert_moves member and_then
  update_state block_data = do
    block ← or_die (member (codes "block") block_data)
    height ← or_die (and_then (member (codes "height") block) to_uint)
    moves ← or_die (member (codes "moves") block_data)
    insert_moves height (entries_of moves)

  -- The blocks that have been attached since the empty state.
  unfoldable pub attach_all : List Json → Exec Table (Unit {0})
  unfolding update_state
  attach_all [] = pure tt
  attach_all (block ∷ blocks) = do update_state block; attach_all blocks

-- The rows come in the order of their keys, in which an object has its members anyway.
unfoldable pub get_state_as_json : Table → Json
unfolding put to_int32
get_state_as_json [] = empty_object
get_state_as_json ((btxid, height) ∷ rows) =
    put btxid (int_val (to_int32 height)) (get_state_as_json rows)

-- `PendingMoves`: its member `pending` is the state.
abbrev pub clear : Json
clear = empty_object

unfoldable pub add_pending_move : Json → Json → Option Json
unfolding parse_move put and_then
add_pending_move mv pending =
    and_then (parse_move mv) λ btxid. some (put btxid empty_object pending)

-- The game of libxayagame. The second call hands the database to a callback, and gives its result in the
-- field that is named, among the data on the state of the GSP; the callback may fail a `CHECK`.
pub record Game (W : Type 0) : Type 0 where
  pub get_pending_json_state : Exec W Json
  pub get_custom_state_data : Text → (Table → Option Json) → Exec W Json

-- The result of the query: no row, or the height of the only one.
abbrev pub only_height : List ℕ → Option Json
only_height [] = some null
only_height (height ∷ []) = some (int_val (to_int32 height))
only_height (height ∷ i ∷ rows) = none

-- The callback of `CheckTrade`.
unfoldable pub confirmed_height : Text → Table → Option Json
unfolding heights_of to_int32
confirmed_height btxid table = only_height (heights_of btxid table)

pub data TradeStatus : Type 0 where
  unknown pending : TradeStatus
  confirmed : ℕ → TradeStatus

pub record TradeData : Type 0 where
  pub gsp_state : Json
  pub status : TradeStatus

-- `removeMember (key, &value)`, which is false where there is no such member.
unfoldable pub taken_member : Text → Json → Option (Json × Json)
unfolding remove_field
taken_member key (obj fs) = elim (lookup_field key fs) [
  | none ↦ none
  | some v ↦ some (v, obj (remove_field key fs))
]
taken_member key _ = none

abbrev pub is_uint : Json → Bool
is_uint v = has (as_uint v)

abbrev pub is_int : Json → Bool
is_int (int_val (pos n)) = ltb n (2 ^ 31)
is_int (int_val (negsuc n)) = ltb n (2 ^ 31)
is_int _ = false

abbrev pub is_member : Text → Json → Bool
is_member key (obj fs) = has (lookup_field key fs)
is_member key _ = false

unfoldable pub status_of : Text → Json → Json → Option TradeStatus
unfolding and_then
status_of btxid pending_moves height =
    if is_int height
    then (and_then (as_uint height) λ h. some (confirmed h))
    else if is_member btxid pending_moves
    then some pending
    else some unknown

abbrev pub status_json : TradeStatus → Json
status_json unknown = put (codes "state") (str (codes "unknown")) empty_object
status_json pending = put (codes "state") (str (codes "pending")) empty_object
status_json (confirmed h) =
    put (codes "height") (int_val (to_int32 h))
      (put (codes "state") (str (codes "confirmed")) empty_object)

module _ {W : Type 0} (game : Game W) where
  unfoldable pub check_trade : Text → Exec W TradeData
  unfolding confirmed_height taken_member status_of member
  check_trade btxid = do
    pending_state ← game.get_pending_json_state
    pending_moves ← or_die (member (codes "pending") pending_state)
    state ← game.get_custom_state_data (codes "data") (confirmed_height btxid)
    check (is_object pending_moves)
    check (is_object state)
    (height, rest) ← or_die (taken_member (codes "data") state)
    check (is_null height || is_uint height)
    status ← or_die (status_of btxid pending_moves height)
    pure (record { gsp_state = rest; status = status })

  unfoldable pub checktrade : Text → Exec W Json
  unfolding check_trade put to_int32
  checktrade btxid = do
    found ← check_trade btxid
    pure (put (codes "data") (status_json found.status) found.gsp_state)

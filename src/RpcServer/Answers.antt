-- ===== src/RpcServer/Answers.antt =====
-- src/rpcserver.cpp: what the methods that read the node answer.
use democrit.Base.{
  ◌≡◌, refl, sym, ap, ◌∙◌, Bool, none, some, List, [], ◌∷◌, map, All, Text, codes, str_eq,
  str_eq_iff, lookup, text_eq, Dict, and_then, Exec, ok, or_die-eq-ok, ok-eq-ok, and_then-eq-some,
  checked-eq-some,
}
use mathlib.Core.Path.{subst}
use democrit.Json.{Json, bool_val, str}
use democrit.Proto.{OrderbookForAsset, Trade}
use democrit.Env.{Env}
use democrit.TradeManager.{get_trades}
use democrit.OrderBook.Assets.{only_book, get_for_asset, internal_get_by_asset}
use democrit.Daemon.{Daemon, get_orders_for_asset, get_orders_by_asset, get_own_orders, get_account}
use democrit.ProtoJson.{
  orders_of_account_to_json, orderbook_for_asset_to_json, orderbook_by_asset_to_json, trade_to_json,
}
use democrit.ProtoJson.Types.{
  IsString, is_str, IsArrayOf, is_arr, IsObject, IsBookFor, IsBooks, IsOwnOrders, IsTrade,
}
use democrit.ProtoJson.Typing.{
  assign-IsObject, items-EachItem, orders_of_account_to_json-IsOwnOrders,
}
use democrit.ProtoJson.Typing.Books.{
  orderbook_for_asset_to_json-IsBook, orderbook_by_asset_to_json-IsBooks, trade_to_json-IsTrade,
}
use democrit.RpcServer.{getstatus, getordersforasset, getordersbyasset, getownorders, gettrades}

-- A call of a method that reads.
pub data Query : Type 0 where
  status : Query
  orders_for_asset : Text → Query
  orders_by_asset own_orders trades : Query

pub data IsBool : Json → Type 0 where
  is_bool : (b : Bool) → IsBool (bool_val b)

-- The members of the status.
pub data StatusMember : Text → Json → Type 0 where
  is_connected : {v : Json} → IsBool v → StatusMember (codes "connected") v
  is_for_game : {v : Json} → IsString v → StatusMember (codes "gameid") v
  is_by : {v : Json} → IsString v → StatusMember (codes "account") v

abbrev pub IsStatus : Json → Type 0
IsStatus = IsObject StatusMember (codes "connected" ∷ codes "gameid" ∷ codes "account" ∷ [])

-- The type of the answer to a query.
abbrev pub IsAnswer : Query → Json → Type 0
IsAnswer status = IsStatus
IsAnswer (orders_for_asset asset) = IsBookFor asset
IsAnswer orders_by_asset = IsBooks
IsAnswer own_orders = IsOwnOrders
IsAnswer trades = IsArrayOf IsTrade

module _ {W : Type 0} (env : Env W) where
  abbrev pub answer : Query → Exec (Daemon W) Json
  answer status = getstatus env
  answer (orders_for_asset asset) = getordersforasset asset
  answer orders_by_asset = getordersbyasset
  answer own_orders = getownorders
  answer trades = gettrades

  only_book-asset :
      (asset : Text) (books : Dict Text OrderbookForAsset) (b : OrderbookForAsset)
      → only_book asset books ≡ some b
      → b.asset ≡ asset
  unfolding only_book
  only_book-asset asset [] b e = sym (ap (λ o. elim o [ none ↦ asset | some x ↦ x.asset ]) e)
  only_book-asset asset (book ∷ books) b e =
      let (_, found) = checked-eq-some _ _ e in
      let (c, _, named) = and_then-eq-some (lookup asset (book ∷ books)) _ found in
      let (same, this) = checked-eq-some (str_eq c.asset asset) (some c) named in
      sym (ap (λ o. elim o [ none ↦ c.asset | some x ↦ x.asset ]) this)
      ∙ (str_eq_iff c.asset asset).0 same

  get_for_asset-asset :
      (asset : Text) (d : Daemon W) (b : OrderbookForAsset)
      → get_orders_for_asset d asset ≡ some b
      → b.asset ≡ asset
  unfolding get_orders_for_asset get_for_asset
  get_for_asset-asset asset d b e =
      let (books, _, only) =
        and_then-eq-some (internal_get_by_asset (some asset) d.all_orders) _ e in
      only_book-asset asset books b only

  trades-IsTrade : (ts : List Trade) → All IsTrade (map trade_to_json ts)
  trades-IsTrade [] = tt
  trades-IsTrade (t ∷ ts) = (trade_to_json-IsTrade t, trades-IsTrade ts)

  -- An answer is of the type of its query, whatever the state of the node, and to read changes nothing. An order
  -- has its units and price as integers, an order book is under the asset that it names, and all that is known of
  -- a trade is there.
  pub answer-IsAnswer :
      (q : Query) (d d' : Daemon W) (j : Json) → answer q d ≡ (ok j, d') → IsAnswer q j × (d ≡ d')
  unfolding getstatus getordersforasset getordersbyasset getownorders gettrades str_eq
  answer-IsAnswer status d d' j e = (
    subst IsStatus (ok-eq-ok _ j d d' e) (
        assign-IsObject StatusMember (codes "connected" ∷ codes "gameid" ∷ codes "account" ∷ [])
          ((codes "connected", some (bool_val d.connected))
            ∷ (codes "gameid", some (str env.game_id))
            ∷ (codes "account", some (str (get_account d)))
            ∷ [])
          (is_connected (is_bool _), (is_for_game (is_str _), (is_by (is_str _), tt)))
          (refl, (refl, (refl, tt)))),
    ap (λ r. r.1) e,
  )
  answer-IsAnswer (orders_for_asset asset) d d' j e =
      let (printed, same) =
        or_die-eq-ok (and_then (get_orders_for_asset d asset) orderbook_for_asset_to_json) d e in
      let (b, found, shown) =
        and_then-eq-some (get_orders_for_asset d asset) orderbook_for_asset_to_json printed in
      (
        subst (λ a. IsBookFor a j) (get_for_asset-asset asset d b found)
            (orderbook_for_asset_to_json-IsBook b j shown),
        same,
      )
  answer-IsAnswer orders_by_asset d d' j e =
      let (printed, same) =
        or_die-eq-ok (and_then (get_orders_by_asset d) orderbook_by_asset_to_json) d e in
      let (books, _, shown) =
        and_then-eq-some (get_orders_by_asset d) orderbook_by_asset_to_json printed in
      (orderbook_by_asset_to_json-IsBooks books j shown, same)
  answer-IsAnswer own_orders d d' j e =
      let (printed, same) = or_die-eq-ok (orders_of_account_to_json (get_own_orders d)) d e in
      (orders_of_account_to_json-IsOwnOrders (get_own_orders d) j printed, same)
  answer-IsAnswer trades d d' j e = (
    subst (IsArrayOf IsTrade) (ok-eq-ok _ j d d' e)
        (is_arr (items-EachItem IsTrade _ (trades-IsTrade (get_trades d.manager.node.state)))),
    ap (λ r. r.1) e,
  )

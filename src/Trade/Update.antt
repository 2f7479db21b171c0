-- ===== src/Trade/Update.antt =====
-- src/trades.cpp, `Trade::Update`: the periodic check of one trade against the clock and the chain.
use democrit.Base.{
  ℕ, ◌+◌, ◌*◌, Bool, true, false, not, Option, none, some, List, [], ◌∷◌, Text, codes, str_eq, ltb,
  leb, if◌then◌else◌, Exec, pure, or_die, check, and_then, ◌>>=◌, ◌>>◌,
}
use democrit.Json.{Json, member, is_object, is_null, as_object, as_str, as_uint, as_array}
use democrit.Proto.{TradeState, success, failed, abandoned, phase_of, is_initiated, is_pending}
use democrit.Env.{Env}
use democrit.Trade.Wallet.{Local, lift, get_pb, set_pb}

-- `CHECK (val[key].isObject ())` and the like.
abbrev pub object_at : Text → Json → Option Json
object_at key val = and_then (member key val) as_object

abbrev pub uint_at : Text → Json → Option ℕ
uint_at key val = and_then (member key val) as_uint

abbrev pub str_at : Text → Json → Option Text
str_at key val = and_then (member key val) as_str

-- What the g/dem GSP says of the trade.
pub record TradeCheck : Type 0 where
  pub height : ℕ
  pub info : Json
  pub gsp_state : Text

unfoldable pub read_check : Json → Option TradeCheck
unfolding member and_then
read_check check = and_then (as_object check) λ c. and_then (uint_at (codes "height") c) λ height.
    and_then (object_at (codes "data") c) λ info.
      and_then (str_at (codes "state") info)
        λ gsp_state. some (record { height = height; info = info; gsp_state = gsp_state })

-- (cur - start), in seconds, against the timeout in milliseconds.
abbrev pub timed_out : ℕ → ℕ → ℕ → Bool
timed_out now start timeout_ms = ltb (start * 1000 + timeout_ms) (now * 1000)

module _ {W : Type 0} (env : Env W) where
  open env use {current_time, decode_psbt, check_trade, get_tx_out, confirmations, trade_timeout_ms}

  -- Whether some input of the transaction is spent; the search ends at the first.
  unfoldable pub is_conflicted : List Json → Exec W Bool
  unfolding member
  is_conflicted [] = pure false
  is_conflicted (input ∷ rest) = do
    check (is_object input)
    hash ← or_die (str_at (codes "txid") input)
    n ← or_die (uint_at (codes "vout") input)
    utxo ← get_tx_out hash n
    if is_null utxo then pure true else is_conflicted rest

  -- The height of the first conflict is remembered, and the trade fails when that is deep enough.
  unfoldable pub still_conflicted : TradeState → ℕ → Option ℕ → TradeState
  still_conflicted t height none = record t { conflict_height = some height }
  still_conflicted t height (some since) =
      if leb (since + confirmations) (height + 1) then record t { phase = some failed } else t

  unfoldable pub note_conflict : TradeState → ℕ → Bool → TradeState
  unfolding still_conflicted
  note_conflict t height conflicted =
      if not conflicted
      then record t { conflict_height = none }
      else still_conflicted t height t.conflict_height

  -- Whether the trade has been confirmed for long enough.
  unfoldable pub is_deep : TradeCheck → Option Bool
  unfolding member str_eq
  is_deep c =
      if str_eq c.gsp_state (codes "confirmed")
      then (and_then (uint_at (codes "height") c.info) λ confirmed_at.
          if leb confirmed_at c.height
          then some (leb (confirmed_at + confirmations) (c.height + 1))
          else none)
      else some false

  unfoldable pub update_pending : TradeState → Exec (Local W) (Unit {0})
  unfolding read_check is_deep is_conflicted note_conflict member
  update_pending t = do
    psbt ← or_die t.our_psbt
    decoded ← lift (decode_psbt psbt)
    tx ← or_die (and_then (as_object decoded) (object_at (codes "tx")))
    btxid ← or_die (str_at (codes "btxid") tx)
    answer ← lift (check_trade btxid)
    c ← or_die (read_check answer)
    deep ← or_die (is_deep c)
    if deep
        then set_pb (record t { phase = some success })
        else if not (str_eq c.gsp_state (codes "unknown"))
        then set_pb (record t { conflict_height = none })
        else do
          vin ← or_die (and_then (member (codes "vin") tx) as_array)
          conflicted ← lift (is_conflicted vin)
          set_pb (note_conflict t c.height conflicted)

  unfoldable pub update : Exec (Local W) (Unit {0})
  unfolding update_pending
  update = do
    t ← get_pb
    if is_initiated (phase_of t)
        then (do
          now ← lift current_time
          if timed_out now t.start_time trade_timeout_ms
              then set_pb (record t { phase = some abandoned })
              else pure tt)
        else if is_pending (phase_of t)
        then update_pending t
        else pure tt

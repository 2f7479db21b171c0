-- ===== src/Gsp/Answers.antt =====
-- `checktrade` of gsp/rpcserver.cpp, and what `Trade::Update` of src/trades.cpp reads of its answer.
use democrit.Base.{
  ℕ, ◌^◌, ◌<◌, ◌≤◌, ◌≡◌, ◌↔◌, refl, ap, ◌∙◌, Bool, true, false, Option, none, some, List, [], Text,
  codes, str_eq, str_lt, leb, ◌+◌, lookup, text_eq, if◌then◌else◌, pos, ok, and_then, arith, has,
  ltb,
}
use democrit.Json.{
  Json, int_val, obj, str, Fields, lookup_field, put_field, put, member, empty_object,
}
use democrit.ProtoJson.Members.{lookup_field-put_field, lookup_field-remove_field}
use democrit.Env.{Env}
use democrit.Trade.Update.{TradeCheck, read_check, is_deep}
use democrit.Gsp.{
  Table, attach_all, Game, TradeStatus, unknown, pending, confirmed, status_json, checktrade,
}
use democrit.Gsp.Confirming.{Confirmed, attach_all-Confirmed}
use democrit.Gsp.Rows.{attach_all-IsKeyed}
use democrit.Gsp.Statuses.{
  IsAnswering, expected_status, height_json, to_int32_small, gsp_fields, checktrade-status,
}

abbrev pub status_name : TradeStatus → Text
status_name unknown = codes "unknown"
status_name pending = codes "pending"
status_name (confirmed height) = codes "confirmed"

-- What `Trade::Update` reads of an answer.
read_answer :
    (s : TradeStatus) (fs : Fields) (current : ℕ)
    → lookup_field (codes "height") fs ≡ some (int_val (pos current))
    → ltb current (2 ^ 32) ≡ true
    → read_check (put (codes "data") (status_json s) (obj fs))
      ≡ some (record { height = current; info = status_json s; gsp_state = status_name s })
unfolding read_check member and_then put str_eq str_lt
read_answer unknown fs current e low =
    rw
      (
        lookup_field-put_field (codes "height") (codes "data") (status_json unknown) fs,
        e,
        low,
        lookup_field-put_field (codes "data") (codes "data") (status_json unknown) fs,
      )
      refl
read_answer pending fs current e low =
    rw
      (
        lookup_field-put_field (codes "height") (codes "data") (status_json pending) fs,
        e,
        low,
        lookup_field-put_field (codes "data") (codes "data") (status_json pending) fs,
      )
      refl
read_answer (confirmed height) fs current e low =
    rw
      (
        lookup_field-put_field (codes "height") (codes "data") (status_json (confirmed height)) fs,
        e,
        low,
        lookup_field-put_field (codes "data") (codes "data") (status_json (confirmed height)) fs,
      )
      refl

module _ {V : Type 0} (env : Env V) where
  -- Whether a trade that was found at a height is confirmed by enough blocks.
  abbrev pub deep_at : ℕ → Option ℕ → Bool
  deep_at current none = false
  deep_at current (some height) = leb (height + env.confirmations) (current + 1)

  is_deep-confirmed :
      (height current : ℕ)
      → ltb height (2 ^ 32) ≡ true
      → leb height current ≡ true
      → is_deep env (record {
        height = current;
        info =
            put
              (codes "height")
              (int_val (pos height))
              (put (codes "state") (str (codes "confirmed")) empty_object);
        gsp_state = codes "confirmed";
      })
        ≡ some (deep_at current (some height))
  unfolding is_deep member and_then str_eq str_lt put
  is_deep-confirmed height current low past = rw (low, past) refl

  is_deep-expected :
      (found : Option ℕ) (is_pending : Bool) (current : ℕ)
      → ((height : ℕ) → found ≡ some height → height < 2 ^ 31)
      → ((height : ℕ) → found ≡ some height → height ≤ current)
      → let s = elim found as (λ _. TradeStatus) [
        | none ↦ if is_pending then pending else unknown
        | some height ↦ confirmed height
      ] in
        is_deep env (record { height = current; info = status_json s; gsp_state = status_name s })
        ≡ some (deep_at current found)
  unfolding is_deep str_eq
  is_deep-expected none true current low past = refl
  is_deep-expected none false current low past = refl
  is_deep-expected (some height) is_pending current low past =
      rw (to_int32_small height (low height refl)) (
        is_deep-confirmed height current (ground (arith, low height refl))
          (ground (arith, past height refl)))

-- The table comes from any blocks, in which the trade is at heights below 2 ^ 31 that are at most the current
-- one. A lookup in it finds exactly the height of a block with a move for the btxid. Of the answer to
-- `checktrade`, the node reads that the trade is confirmed if there is one, that it is pending if not but the
-- pending moves have it, and that it is unknown otherwise. It takes the trade for confirmed deeply enough if and
-- only if that block is at a height from which the current one gives the confirmations asked for. No `CHECK`
-- fails on either side.
pub checktrade-is_deep :
    {W V : Type 0} (game : Game W) (env : Env V) (real_uint : Text → Option ℕ) (blocks : List Json)
    (table : Table) (btxid : Text) (moves base : Fields) (current : ℕ) (w : W)
    → attach_all real_uint blocks [] ≡ (ok tt, table)
    → IsAnswering game table moves base w
    → lookup_field (codes "height") base ≡ some (int_val (pos current))
    → current < 2 ^ 32
    → ((height : ℕ) → Confirmed real_uint btxid height blocks → height < 2 ^ 31)
    → ((height : ℕ) → Confirmed real_uint btxid height blocks → height ≤ current)
    → ((height : ℕ) → (lookup btxid table ≡ some height) ↔ Confirmed real_uint btxid height blocks)
      × (answer : Json) × ((checktrade game btxid w).0 ≡ ok answer)
      × (c : TradeCheck) × (read_check answer ≡ some c)
      × (c.gsp_state ≡ status_name (expected_status btxid table moves))
      × (is_deep env c ≡ some (deep_at env current (lookup btxid table)))
unfolding str_eq
checktrade-is_deep game env real_uint blocks table btxid moves base current w attached answering
      height low_current confirmed_low confirmed_past =
    let found = attach_all-Confirmed real_uint blocks table attached btxid in
    let low : (h : ℕ) → lookup btxid table ≡ some h → h < 2 ^ 31 =
      λ h e. confirmed_low h ((found h).0 e) in
    let past : (h : ℕ) → lookup btxid table ≡ some h → h ≤ current =
      λ h e. confirmed_past h ((found h).0 e) in
    let s = expected_status btxid table moves in
    let v = height_json (lookup btxid table) in
    let in_rest : lookup_field (codes "height") (gsp_fields v base) ≡ some (int_val (pos current)) =
      lookup_field-remove_field (codes "height") (codes "data") (put_field (codes "data") v base)
        refl
      ∙ (lookup_field-put_field (codes "height") (codes "data") v base ∙ height) in
    (
      found,
      put (codes "data") (status_json s) (obj (gsp_fields v base)),
      ap (λ r. r.0)
          (checktrade-status game btxid table moves base w
            (attach_all-IsKeyed real_uint blocks table attached) low answering),
      record { height = current; info = status_json s; gsp_state = status_name s },
      read_answer s (gsp_fields v base) current in_rest (ground (arith, low_current)),
      refl,
      is_deep-expected env (lookup btxid table) (has (lookup_field btxid moves)) current low past,
    )

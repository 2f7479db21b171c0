-- ===== src/Gsp/Statuses.antt =====
-- `CheckTrade` of gsp/game.cpp and `checktrade` of gsp/rpcserver.cpp: the status that they give.
use democrit.Base.{
  ℕ, ◌^◌, ◌<◌, ◌≤◌, ◌≡◌, refl, ap, ◌∙◌, inl, inr, true, Bool-cases, Option, none, some, List, [],
  ◌∷◌, Text, codes, str_eq, length, lookup, text_eq, if◌then◌else◌, pos, to_int32, ok, or_die,
  check, and_then, ◌>>=◌, ◌>>◌, arith, has, ◌||◌,
}
use democrit.Json.{
  Json, null, int_val, obj, Fields, lookup_field, put_field, put, member, as_uint, is_null,
}
use democrit.ProtoJson.{remove_field}
use democrit.ProtoJson.Members.{lookup_field-put_field}
use democrit.Gsp.{
  Table, heights_of, Game, confirmed_height, TradeStatus, only_height, unknown, pending, confirmed,
  taken_member, status_of, check_trade, status_json, checktrade,
}
use democrit.Gsp.Rows.{IsKeyed, heights_of-lookup}

-- The game answers, in some state, with the pending moves and then with the callback's result for the table,
-- in the field `data` beside other data on the GSP, its block height among them.
pub record IsAnswering {W : Type 0} (game : Game W) (table : Table) (moves base : Fields) (w : W)
    : Type 0 where
  pub state : Json
  pub w1 : W
  pub w2 : W
  pub pending_state : game.get_pending_json_state w ≡ (ok state, w1)
  pub pending_moves : member (codes "pending") state ≡ some (obj moves)
  pub custom_state :
      (f : Table → Option Json) (v : Json)
      → f table ≡ some v
      → game.get_custom_state_data (codes "data") f w1
        ≡ (ok (obj (put_field (codes "data") v base)), w2)

-- The status of a trade: confirmed by a block, or only pending, or neither.
abbrev pub expected_status : Text → Table → Fields → TradeStatus
expected_status btxid table moves = elim (lookup btxid table) [
  | none ↦ if has (lookup_field btxid moves) then pending else unknown
  | some height ↦ confirmed height
]

abbrev pub IsLow : ℕ → Text → Table → Type 0
IsLow limit btxid table = (height : ℕ) → lookup btxid table ≡ some height → height < limit

abbrev pub height_json : Option ℕ → Json
height_json none = null
height_json (some height) = int_val (to_int32 height)

only_height-first :
    (rows : List ℕ) (found : Option ℕ)
    → elim rows as (λ _. Option ℕ) [ [] ↦ none | height ∷ _ ↦ some height ] ≡ found
    → length rows ≤ 1
    → only_height rows ≡ some (height_json found)
only_height-first [] found e h = ap (λ r. some (height_json r)) e
only_height-first (i ∷ []) found e h = ap (λ r. some (height_json r)) e
only_height-first (i ∷ j ∷ rows) found e h = absurd (omega (arith, h))

confirmed_height-lookup :
    (btxid : Text) (table : Table)
    → IsKeyed table
    → confirmed_height btxid table ≡ some (height_json (lookup btxid table))
unfolding confirmed_height
confirmed_height-lookup btxid table keyed =
    only_height-first (heights_of btxid table) (lookup btxid table) (heights_of-lookup btxid table)
      (keyed btxid)

pub to_int32_small : (n : ℕ) → n < 2 ^ 31 → to_int32 n ≡ pos n
unfolding to_int32
to_int32_small n h = ground arith

pos_status :
    (btxid : Text) (moves : Fields) (n : ℕ)
    → n < 2 ^ 31
    → status_of btxid (obj moves) (int_val (pos n)) ≡ some (confirmed n)
unfolding status_of and_then
pos_status btxid moves n h = ground arith

status_of-expected :
    (btxid : Text) (found : Option ℕ) (moves : Fields)
    → ((height : ℕ) → found ≡ some height → height < 2 ^ 31)
    → status_of btxid (obj moves) (height_json found)
      ≡ some (elim found [
        | none ↦ if has (lookup_field btxid moves) then pending else unknown
        | some height ↦ confirmed height
      ])
unfolding status_of
status_of-expected btxid none moves low = elim (Bool-cases (has (lookup_field btxid moves))) [
  | inl e ↦ rw e refl
  | inr e ↦ rw e refl
]
status_of-expected btxid (some height) moves low =
    ap (λ z. status_of btxid (obj moves) (int_val z)) (to_int32_small height (low height refl))
    ∙ pos_status btxid moves height (low height refl)

is_height :
    (found : Option ℕ)
    → ((height : ℕ) → found ≡ some height → height < 2 ^ 31)
    → (is_null (height_json found) || has (as_uint (height_json found))) ≡ true
is_height none low = refl
is_height (some height) low =
    ap (λ z. is_null (int_val z) || has (as_uint (int_val z)))
      (to_int32_small height (low height refl))
    ∙ pos_height height (low height refl)
  where
    pos_height :
        (n : ℕ) → n < 2 ^ 31 → (is_null (int_val (pos n)) || has (as_uint (int_val (pos n)))) ≡ true
    pos_height n h = ground arith

-- The state of the GSP in the answer, without the field for the result of the callback.
abbrev pub gsp_fields : Json → Fields → Fields
gsp_fields v base = remove_field (codes "data") (put_field (codes "data") v base)

taken :
    (v : Json) (base : Fields)
    → taken_member (codes "data") (obj (put_field (codes "data") v base))
      ≡ some (v, obj (gsp_fields v base))
unfolding taken_member str_eq
taken v base = rw (lookup_field-put_field (codes "data") (codes "data") v base, taken_member) refl

module _ {W : Type 0} (game : Game W) where
  pub checktrade-status :
      (btxid : Text) (table : Table) (moves base : Fields) (w : W)
      → IsKeyed table
      → IsLow (2 ^ 31) btxid table
      → (h : IsAnswering game table moves base w)
      → checktrade game btxid w ≡ (
        ok (
            put
              (codes "data")
              (status_json (expected_status btxid table moves))
              (obj (gsp_fields (height_json (lookup btxid table)) base))),
        h.w2,
      )
  unfolding checktrade check_trade ◌>>=◌ ◌>>◌ or_die check
  checktrade-status btxid table moves base w keyed low h =
      rw
        (
          h.pending_state,
          h.pending_moves,
          h.custom_state (confirmed_height btxid) (height_json (lookup btxid table))
              (confirmed_height-lookup btxid table keyed),
          taken (height_json (lookup btxid table)) base,
          is_height (lookup btxid table) low,
          status_of-expected btxid (lookup btxid table) moves low,
        )
        refl

-- ===== src/Tests/Confirmations.antt =====
-- The game state processor of gsp/ after one block, asked for the trade of the block.
use democrit.Base.{
  ◌↔◌, ℕ, ◌≡◌, refl, ap, Option, none, some, [], ◌∷◌, Text, codes, lookup, text_eq, str_eq, pos,
  Outcome, ok, fatal, or_die, and_then, ◌>>=◌, ◌>>◌, arith,
}
use democrit.Json.{
  Json, int_val, str, arr, obj, Fields, field, end, of_list, lookup_field, put_field, member,
  as_string, empty_object,
}
use democrit.Trade.Update.{TradeCheck, read_check, is_deep}
use democrit.Gsp.{Table, Game, attach_all, checktrade}
use democrit.Gsp.Statuses.{IsAnswering, expected_status}
use democrit.Gsp.Confirming.{Confirmed, attach_all-Confirmed}
use democrit.Gsp.Answers.{status_name, deep_at, checktrade-is_deep}
use democrit.Tests.World.{env0}

abbrev block : Json
block = obj (
    field (codes "block") (obj (field (codes "height") (int_val (pos 5)) end)) (
      field (codes "moves")
        (arr (of_list (obj (field (codes "btxid") (str (codes "btx")) end) ∷ []))) end))

abbrev no_double : Text → Option ℕ
no_double t = none

abbrev rows : Table
rows = (codes "btx", 5) ∷ []

block_attached : attach_all no_double (block ∷ []) [] ≡ (ok tt, rows)
unfolding attach_all or_die and_then ◌>>=◌ ◌>>◌ member str_eq as_string
block_attached = refl

abbrev base : Fields
base = field (codes "height") (int_val (pos 20)) end

abbrev called_back : Text → Option Json → ℕ → Outcome Json × ℕ
called_back name none w = (fatal, w)
called_back name (some v) w = (ok (obj (put_field name v base)), w)

abbrev game0 : Game ℕ
game0 = record {
  get_pending_json_state = λ w. (ok (obj (field (codes "pending") empty_object end)), w);
  get_custom_state_data = λ name f w. called_back name (f rows) w;
}

game0-IsAnswering : IsAnswering game0 rows end base 0
unfolding member str_eq
game0-IsAnswering = record {
  state = obj (field (codes "pending") empty_object end);
  w1 = 0;
  w2 = 0;
  pending_state = refl;
  pending_moves = refl;
  custom_state = λ f v e. ap (λ r. called_back (codes "data") r 0) e;
}

base_height : lookup_field (codes "height") base ≡ some (int_val (pos 20))
unfolding str_eq
base_height = refl

height_five : (height : ℕ) → Confirmed no_double (codes "btx") height (block ∷ []) → 5 ≡ height
unfolding str_eq
height_five height confirms = cc (
    (attach_all-Confirmed no_double (block ∷ []) rows block_attached (codes "btx") height).1
      confirms)

checktrade-is_deep_example :
    ((height : ℕ)
      → (lookup (codes "btx") rows ≡ some height)
        ↔ Confirmed no_double (codes "btx") height (block ∷ []))
    × (answer : Json) × ((checktrade game0 (codes "btx") 0).0 ≡ ok answer)
    × (c : TradeCheck) × (read_check answer ≡ some c)
    × (c.gsp_state ≡ status_name (expected_status (codes "btx") rows end))
    × (is_deep env0 c ≡ some (deep_at env0 20 (lookup (codes "btx") rows)))
checktrade-is_deep_example =
    checktrade-is_deep game0 env0 no_double (block ∷ []) rows (codes "btx") end base 20 0
      block_attached game0-IsAnswering base_height (omega arith)
      (λ height e. omega (arith, height_five height e))
      (λ height e. omega (arith, height_five height e))

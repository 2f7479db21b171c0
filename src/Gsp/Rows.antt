-- ===== src/Gsp/Rows.antt =====
-- The table of gsp/game.cpp after any blocks: a btxid stands in one row at most.
use democrit.Base.{
  ℕ, ◌+◌, ◌≤◌, ◌≡◌, refl, ap, inl, inr, Bool-cases, Option, none, some, List, [], ◌∷◌, ◌++◌, Text,
  str_eq, str_eq_iff, length, lookup, text_eq, if◌then◌else◌, Outcome, ok, fatal, or_die, arith,
  Keeps, Keeps-total, Keeps-pure, Keeps-bind, Keeps-then,
}
use mathlib.Core.Path.{subst}
use democrit.Json.{Json}
use democrit.Gsp.{
  Table, heights_of, insert_trade, parse_move, insert_moves, update_state, attach_all, entries_of,
}

abbrev pub IsKeyed : Table → Type 0
IsKeyed table = (btxid : Text) → length (heights_of btxid table) ≤ 1

heights_of-append :
    (btxid b : Text) (height : ℕ) (table : Table)
    → length (heights_of btxid (table ++ ((b, height) ∷ [])))
      ≡ length (heights_of btxid table) + (if str_eq b btxid then 1 else 0)
unfolding heights_of
heights_of-append btxid b height [] = ground arith
heights_of-append btxid b height ((j, i) ∷ rows) = elim (Bool-cases (str_eq j btxid)) [
  | inl same ↦ rw same (omega (arith, heights_of-append btxid b height rows))
  | inr other ↦ rw other (heights_of-append btxid b height rows)
]

insert_trade-IsKeyed :
    (b : Text) (height : ℕ) (table : Table)
    → IsKeyed table
    → IsKeyed (insert_trade b height table).1
unfolding insert_trade
insert_trade-IsKeyed b height table h = by_rows (heights_of b table) refl
  where
    by_rows :
        (rows : List ℕ)
        → heights_of b table ≡ rows
        → IsKeyed
            (elim rows as (λ _. Outcome (Unit {0}) × Table) [
              | [] ↦ (ok tt, table ++ ((b, height) ∷ []))
              | _ ∷ _ ↦ (fatal, table)
            ]).1
    by_rows [] e btxid = elim (Bool-cases (str_eq b btxid)) [
      | inl same ↦
          let key : b ≡ btxid = (str_eq_iff b btxid).0 same in
          let free : length (heights_of btxid table) ≡ 0 =
            subst (λ k. length (heights_of k table) ≡ 0) key (ap length e) in
          let grown = rw same at (heights_of-append btxid b height table) in
          omega (arith, free, grown)
      | inr other ↦
          let kept = rw other at (heights_of-append btxid b height table) in
          omega (arith, kept, h btxid)
    ]
    by_rows (i ∷ rest) e btxid = h btxid

or_die-Keeps : {A : Type 0} (o : Option A) → Keeps IsKeyed (or_die o)
unfolding or_die
or_die-Keeps none = Keeps-total IsKeyed (or_die none) λ t h. h
or_die-Keeps (some a) = Keeps-total IsKeyed (or_die (some a)) λ t h. h

module _ (real_uint : Text → Option ℕ) where
  insert_moves-Keeps :
      (height : ℕ) (mvs : List Json) → Keeps IsKeyed (insert_moves real_uint height mvs)
  unfolding insert_moves
  insert_moves-Keeps height [] = Keeps-pure IsKeyed tt
  insert_moves-Keeps height (mv ∷ mvs) =
      Keeps-bind IsKeyed _ _ (or_die-Keeps (parse_move mv)) λ btxid.
        Keeps-then IsKeyed _ _
          (Keeps-total IsKeyed (insert_trade btxid height)
            λ t h. insert_trade-IsKeyed btxid height t h)
          (insert_moves-Keeps height mvs)

  update_state-Keeps : (block : Json) → Keeps IsKeyed (update_state real_uint block)
  unfolding update_state
  update_state-Keeps block_data = Keeps-bind IsKeyed _ _ (or_die-Keeps _) λ block.
      Keeps-bind IsKeyed _ _ (or_die-Keeps _) λ height.
        Keeps-bind IsKeyed _ _ (or_die-Keeps _)
          λ moves. insert_moves-Keeps height (entries_of moves)

  attach_all-Keeps : (blocks : List Json) → Keeps IsKeyed (attach_all real_uint blocks)
  unfolding attach_all
  attach_all-Keeps [] = Keeps-pure IsKeyed tt
  attach_all-Keeps (block ∷ blocks) =
      Keeps-then IsKeyed _ _ (update_state-Keeps block) (attach_all-Keeps blocks)

  pub attach_all-IsKeyed :
      (blocks : List Json) (table : Table)
      → attach_all real_uint blocks [] ≡ (ok tt, table)
      → IsKeyed table
  unfolding heights_of
  attach_all-IsKeyed blocks table e =
      (attach_all-Keeps blocks).at [] table tt e λ btxid. omega arith

-- The only row of a btxid is the one that a lookup finds.
pub heights_of-lookup :
    (btxid : Text) (table : Table)
    → elim (heights_of btxid table) [ [] ↦ none | height ∷ _ ↦ some height ] ≡ lookup btxid table
unfolding heights_of
heights_of-lookup btxid [] = refl
heights_of-lookup btxid ((j, i) ∷ rows) = elim (Bool-cases (str_eq j btxid)) [
  | inl same ↦ rw same refl
  | inr other ↦ rw other (heights_of-lookup btxid rows)
]

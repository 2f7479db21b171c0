-- ===== src/Gsp/Confirming.antt =====
-- What the table of gsp/game.cpp has of the blocks: a btxid has the height of the block with its move.
use democrit.Base.{
  ℕ, ◌≡◌, ◌↔◌, ◌⊎◌, refl, sym, ap, ◌∙◌, inl, inr, Bool-cases, true, false, Option, none, some, List,
  [], ◌∷◌, ◌++◌, Text, codes, str_eq, str_eq_iff, lookup, text_eq, Outcome, ok, fatal, or_die,
  and_then, some-injective, >>=-eq-ok, >>-eq-ok, or_die-eq-ok,
}
use mathlib.Core.Path.{subst}
use democrit.Json.{Json, member}
use democrit.Gsp.{
  Table, heights_of, insert_trade, parse_move, to_uint, insert_moves, update_state, attach_all,
  entries_of,
}
use democrit.Gsp.Rows.{heights_of-lookup}

-- One of the moves is for the btxid.
abbrev pub HasMove : Text → List Json → Type 0
HasMove btxid [] = ⊥
HasMove btxid (mv ∷ mvs) = (parse_move mv ≡ some btxid) ⊎ HasMove btxid mvs

-- The block has this height and a move for the btxid.
abbrev pub Confirms : (Text → Option ℕ) → Text → ℕ → Json → Type 0
Confirms real_uint btxid height block_data =
    (block : Json) × (moves : Json) × (member (codes "block") block_data ≡ some block)
    × (and_then (member (codes "height") block) (to_uint real_uint) ≡ some height)
    × (member (codes "moves") block_data ≡ some moves)
    × HasMove btxid (entries_of moves)

-- So does one of the blocks.
abbrev pub Confirmed : (Text → Option ℕ) → Text → ℕ → List Json → Type 0
Confirmed real_uint btxid height [] = ⊥
Confirmed real_uint btxid height (block ∷ blocks) =
    Confirms real_uint btxid height block ⊎ Confirmed real_uint btxid height blocks

-- The second table has the rows of the first, and those that the predicate says.
abbrev Grows : (Text → ℕ → Type 0) → Table → Table → Type 0
Grows P t u = (b : Text) (h : ℕ) → (lookup b u ≡ some h) ↔ ((lookup b t ≡ some h) ⊎ P b h)

Grows-then :
    (P Q R : Text → ℕ → Type 0) (t u v : Table)
    → ((b : Text) (h : ℕ) → R b h ↔ (P b h ⊎ Q b h))
    → Grows P t u
    → Grows Q u v
    → Grows R t v
Grows-then P Q R t u v splits first rest b h = (
  (λ e. elim ((rest b h).0 e) [
    | inr q ↦ inr ((splits b h).1 (inr q))
    | inl e' ↦ elim ((first b h).0 e') [ inl old ↦ inl old | inr p ↦ inr ((splits b h).1 (inl p)) ]
  ]),
  (λ c. elim c [
    | inl old ↦ (rest b h).1 (inl ((first b h).1 (inl old)))
    | inr r ↦ elim ((splits b h).0 r) [
      | inl p ↦ (rest b h).1 (inl ((first b h).1 (inr p)))
      | inr q ↦ (rest b h).1 (inr q)
    ]
  ]),
)

lookup_rest :
    (k j : Text) (x : ℕ) (rows : Table)
    → lookup k ((j, x) ∷ rows) ≡ none
    → (str_eq j k ≡ false) × (lookup k rows ≡ none)
lookup_rest k j x rows free = elim (Bool-cases (str_eq j k)) [
  | inl same ↦ cc (rw same at free)
  | inr other ↦ (other, rw other at free)
]

lookup-append :
    (k : Text) (i : ℕ) (t : Table)
    → lookup k t ≡ none
    → Grows (λ b h. (k ≡ b) × (i ≡ h)) t (t ++ ((k, i) ∷ []))
lookup-append k i [] free b h = (
  (λ e. elim (Bool-cases (str_eq k b)) [
    | inl same ↦ inr ((str_eq_iff k b).0 same, cc (rw same at e))
    | inr other ↦ cc (rw other at e)
  ]),
  (λ c. elim c [ inl e ↦ cc e | inr (key, height) ↦ rw ((str_eq_iff k b).1 key) (ap some height) ]),
)
lookup-append k i ((j, x) ∷ rows) free b h =
    let (differs, free_rest) = lookup_rest k j x rows free in
    elim (Bool-cases (str_eq j b)) [
      | inr other ↦ rw other (lookup-append k i rows free_rest b h)
      | inl same ↦ rw same (
        (λ e. inl e),
        (λ c. elim c [
          | inl e ↦ e
          | inr (key, height) ↦
              let again = subst (λ a. str_eq j a ≡ true) (sym key) same in cc (again, differs)
        ]),
      )
    ]

insert_trade-Grows :
    (k : Text) (i : ℕ) (t u : Table)
    → insert_trade k i t ≡ (ok tt, u)
    → Grows (λ b h. (k ≡ b) × (i ≡ h)) t u
unfolding insert_trade
insert_trade-Grows k i t u = by_rows (heights_of k t) refl
  where
    by_rows :
        (rows : List ℕ)
        → heights_of k t ≡ rows
        → elim rows as (λ _. Outcome (Unit {0}) × Table) [
          | [] ↦ (ok tt, t ++ ((k, i) ∷ []))
          | _ ∷ _ ↦ (fatal, t)
        ]
          ≡ (ok tt, u)
        → Grows (λ b h. (k ≡ b) × (i ≡ h)) t u
    by_rows [] e done =
        subst (Grows (λ b h. (k ≡ b) × (i ≡ h)) t) (ap (λ r. r.1) done)
          (lookup-append k i t (sym (heights_of-lookup k t) ∙ rw e refl))
    by_rows (x ∷ rows) e done = cc done

module _ (real_uint : Text → Option ℕ) where
  insert_moves-Grows :
      (i : ℕ) (mvs : List Json) (t u : Table)
      → insert_moves real_uint i mvs t ≡ (ok tt, u)
      → Grows (λ b h. (i ≡ h) × HasMove b mvs) t u
  unfolding insert_moves
  insert_moves-Grows i [] t u done =
      subst (Grows (λ b h. (i ≡ h) × ⊥) t) (ap (λ r. r.1) done)
        λ b h. ((λ e. inl e), (λ c. elim c [ inl e ↦ e | inr (_, never) ↦ absurd never ]))
  insert_moves-Grows i (mv ∷ mvs) t u done =
      let (k, v, first, rest) = >>=-eq-ok (or_die (parse_move mv)) _ t done in
      let (read, same) = or_die-eq-ok (parse_move mv) t first in
      let (_, w, inserted, more) =
        >>-eq-ok (insert_trade k i) (insert_moves real_uint i mvs) v rest in
      subst (λ s. Grows (λ b h. (i ≡ h) × HasMove b (mv ∷ mvs)) s u) (sym same)
        (Grows-then (λ b h. (k ≡ b) × (i ≡ h)) (λ b h. (i ≡ h) × HasMove b mvs) _ v w u
          (λ b h. (
            (λ r. elim r.1 [
              | inl e ↦ inl (some-injective (sym read ∙ e), r.0)
              | inr m ↦ inr (r.0, m)
            ]),
            (λ c. elim c [
              | inl (key, height) ↦ (height, inl (read ∙ ap some key))
              | inr (height, m) ↦ (height, inr m)
            ]),
          ))
          (insert_trade-Grows k i v w inserted) (insert_moves-Grows i mvs w u more))

  update_state-Grows :
      (block_data : Json) (t u : Table)
      → update_state real_uint block_data t ≡ (ok tt, u)
      → Grows (λ b h. Confirms real_uint b h block_data) t u
  unfolding update_state
  update_state-Grows block_data t u done b h =
      let (block, t1, e1, done1) =
        >>=-eq-ok (or_die (member (codes "block") block_data)) _ t done in
      let (has_block, same1) = or_die-eq-ok _ t e1 in
      let (i, t2, e2, done2) =
        >>=-eq-ok (or_die (and_then (member (codes "height") block) (to_uint real_uint))) _ t1
          done1 in
      let (has_height, same2) = or_die-eq-ok _ t1 e2 in
      let (moves, t3, e3, done3) =
        >>=-eq-ok (or_die (member (codes "moves") block_data)) _ t2 done2 in
      let (has_moves, same3) = or_die-eq-ok _ t2 e3 in
      let grows = insert_moves-Grows i (entries_of moves) t3 u done3 b h in
      let start = same1 ∙ (same2 ∙ same3) in
      (
        (λ e. elim (grows.0 e) [
          | inl old ↦ inl (subst (λ s. lookup b s ≡ some h) (sym start) old)
          | inr (height, m) ↦
              inr (block, moves, has_block, has_height ∙ ap some height, has_moves, m)
        ]),
        (λ c. elim c [
          | inl old ↦ grows.1 (inl (subst (λ s. lookup b s ≡ some h) start old))
          | inr (block', moves', is_block, is_height, are_moves, m) ↦
              let same_block : block' ≡ block = some-injective (sym is_block ∙ has_block) in
              let height =
                subst (λ s. and_then (member (codes "height") s) (to_uint real_uint) ≡ some h)
                  same_block is_height in
              grows.1 (
                inr (
                  some-injective (sym has_height ∙ height),
                  subst (λ s. HasMove b (entries_of s)) (some-injective (sym are_moves ∙ has_moves))
                      m,
                ))
        ]),
      )

  attach_all-Grows :
      (blocks : List Json) (t u : Table)
      → attach_all real_uint blocks t ≡ (ok tt, u)
      → Grows (λ b h. Confirmed real_uint b h blocks) t u
  unfolding attach_all
  attach_all-Grows [] t u done =
      subst (Grows (λ b h. ⊥) t) (ap (λ r. r.1) done)
        λ b h. ((λ e. inl e), (λ c. elim c [ inl e ↦ e | inr never ↦ absurd never ]))
  attach_all-Grows (block ∷ blocks) t u done =
      let (_, v, first, rest) =
        >>-eq-ok (update_state real_uint block) (attach_all real_uint blocks) t done in
      Grows-then (λ b h. Confirms real_uint b h block) (λ b h. Confirmed real_uint b h blocks) _ t v
        u (λ b h. ((λ c. c), (λ c. c))) (update_state-Grows block t v first)
        (attach_all-Grows blocks v u rest)

  -- From the empty table, a lookup finds the height of the block that has confirmed the trade.
  pub attach_all-Confirmed :
      (blocks : List Json) (table : Table)
      → attach_all real_uint blocks [] ≡ (ok tt, table)
      → (btxid : Text) (height : ℕ)
      → (lookup btxid table ≡ some height) ↔ Confirmed real_uint btxid height blocks
  attach_all-Confirmed blocks table done btxid height =
      let grows = attach_all-Grows blocks [] table done btxid height in
      ((λ e. elim (grows.0 e) [ inl old ↦ cc old | inr c ↦ c ]), (λ c. grows.1 (inr c)))

-- ===== src/Nonfungible/Pairs.antt =====
-- nonfungible/main.cpp: which strings are the asset of a minter.
use democrit.Base.{
  ◌≡◌, ◌↔◌, refl, ap, ◌∙◌, inl, inr, false, Bool-cases, Option, none, some, [], ◌∷◌, ◌++◌, All,
  Text, codes, str_eq, str_lt, ◌==◌, ==_iff,
}
use mathlib.Core.Path.{subst}
use democrit.Json.{Json, null, str, obj, end, field, put}
use democrit.Nonfungible.{put_first, split_line, get_nf_asset}

abbrev pub HasNoLine : Text → Type 0
HasNoLine s = All (λ c. (c == b'\n') ≡ false) s

-- The asset as JSON, with its members in order.
abbrev pub pair_json : Text → Text → Json
pair_json minter name = obj (field (codes "a") (str name) (field (codes "m") (str minter) end))

split_line-join :
    (minter name : Text)
    → HasNoLine minter
    → split_line (minter ++ (b'\n' ∷ name)) ≡ some (minter, name)
unfolding split_line
split_line-join [] name h = refl
split_line-join (c ∷ minter) name h = rw (h.0, split_line-join minter name h.1) refl

split_line-parts :
    (asset minter name : Text)
    → split_line asset ≡ some (minter, name)
    → (asset ≡ minter ++ (b'\n' ∷ name)) × HasNoLine minter
unfolding split_line
split_line-parts [] minter name e = cc e
split_line-parts (c ∷ rest) minter name e = elim (Bool-cases (c == b'\n')) [
  | inl line ↦
      let found : ◌≡◌ {A = Option (Text × Text)} (some ([], rest)) (some (minter, name)) =
        rw line at e in
      let no_minter : ◌≡◌ {A = Text} [] minter = cc found in
      let all : rest ≡ name = cc found in
      subst (λ m. (c ∷ rest ≡ m ++ (b'\n' ∷ name)) × HasNoLine m) no_minter
        ((λ i. (==_iff c b'\n').0 line i ∷ all i), tt)
  | inr other ↦
      after_first (split_line rest) (λ before after f. split_line-parts rest before after f) refl
        other (rw other at e)
]
  where
    after_first :
        (found : Option (Text × Text))
        → ((before after : Text)
            → split_line rest ≡ some (before, after)
            → (rest ≡ before ++ (b'\n' ∷ after)) × HasNoLine before)
        → split_line rest ≡ found
        → (c == b'\n') ≡ false
        → put_first c found ≡ some (minter, name)
        → (c ∷ rest ≡ minter ++ (b'\n' ∷ name)) × HasNoLine minter
    after_first none deeper f other k = cc k
    after_first (some (before, after)) deeper f other k =
        let longer : c ∷ before ≡ minter = cc k in
        let same : after ≡ name = cc k in
        let (parts, none_before) = deeper before after f in
        subst (λ m. (c ∷ rest ≡ m ++ (b'\n' ∷ name)) × HasNoLine m) longer
          (ap (λ r. c ∷ r) (parts ∙ ap (λ n. before ++ (b'\n' ∷ n)) same), (other, none_before))

abbrev pair_of : Json → Option (Text × Text)
pair_of (obj (field a (str name) (field m (str minter) end))) = some (minter, name)
pair_of _ = none

-- A string is converted to the JSON of a minter and a name if and only if it is the two with a line break
-- between them, and the minter has none itself. So each such pair has one string, and no string two pairs.
pub get_nf_asset-pairs :
    (asset minter name : Text)
    → (get_nf_asset asset ≡ pair_json minter name)
      ↔ ((asset ≡ minter ++ (b'\n' ∷ name)) × HasNoLine minter)
unfolding get_nf_asset str_eq str_lt put
get_nf_asset-pairs asset minter name = (
  (λ e. from_json (split_line asset) refl e),
  (λ (parts, single). rw (parts, split_line-join minter name single, get_nf_asset) refl),
)
  where
    from_json :
        (found : Option (Text × Text))
        → split_line asset ≡ found
        → (elim found as (λ _. Json) [ none ↦ null | some (m, n) ↦ pair_json m n ])
          ≡ pair_json minter name
        → (asset ≡ minter ++ (b'\n' ∷ name)) × HasNoLine minter
    from_json none f e = cc e
    from_json (some (m, n)) f e =
        let same : ◌≡◌ {A = Option (Text × Text)} (some (m, n)) (some (minter, name)) =
          ap pair_of e in
        split_line-parts asset minter name (f ∙ same)

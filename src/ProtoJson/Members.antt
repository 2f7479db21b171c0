-- ===== src/ProtoJson/Members.antt =====
-- The members of an object of src/json.cpp after a sequence of assignments.
use democrit.Base.{
  false, ◌≡◌, refl, ap, ◌∙◌, inl, inr, Bool-cases, Option, none, some, List, [], ◌∷◌, Text, str_eq,
  str_eq_iff, if◌then◌else◌, and_then, arith,
}
use democrit.Json.{Json, obj, Fields, end, field, lookup_field, put_field}
use democrit.ProtoJson.{remove_field, assign, opt, optional_at}

pub lookup_field-put_field :
    (key j : Text) (v : Json) (fs : Fields)
    → lookup_field key (put_field j v fs) ≡ (if str_eq j key then some v else lookup_field key fs)
unfolding put_field
lookup_field-put_field key j v end = refl
lookup_field-put_field key j v (field i w fs) =
    ground
      (arith, str_eq_iff j key, str_eq_iff i j, str_eq_iff i key, lookup_field-put_field key j v fs)

abbrev pub or_else : Option Json → Option Json → Option Json
or_else none r = r
or_else (some v) r = some v

-- What a key holds after the assignments.
abbrev pub assigned : Text → List (Text × Option Json) → Option Json → Option Json
assigned key [] r = r
assigned key ((j, v) ∷ entries) r = assigned key entries (if str_eq j key then or_else v r else r)

pub lookup_field-assign :
    (key : Text) (entries : List (Text × Option Json)) (fs : Fields)
    → lookup_field key (assign entries fs) ≡ assigned key entries (lookup_field key fs)
unfolding assign
lookup_field-assign key [] fs = refl
lookup_field-assign key ((j, none) ∷ entries) fs = elim (Bool-cases (str_eq j key)) [
  | inl same ↦ rw same (lookup_field-assign key entries fs)
  | inr other ↦ rw other (lookup_field-assign key entries fs)
]
lookup_field-assign key ((j, some v) ∷ entries) fs =
    lookup_field-assign key entries (put_field j v fs)
    ∙ ap (assigned key entries) (lookup_field-put_field key j v fs)

pub or_else-none : (r : Option Json) → or_else r none ≡ r
or_else-none none = refl
or_else-none (some v) = refl

-- What is read of a member that was assigned an optional value.
pub optional_at-opt :
    {A : Type 0} (read : Json → Option A) (write : A → Json) (key : Text) (fs : Fields)
    (a : Option A)
    → lookup_field key fs ≡ opt write a
    → optional_at read key (obj fs)
      ≡ elim a [ none ↦ some none | some b ↦ and_then (read (write b)) λ c. some (some c) ]
unfolding optional_at
optional_at-opt read write key fs none e = rw (e, optional_at) refl
optional_at-opt read write key fs (some b) e = rw (e, optional_at) refl

-- Another member that goes leaves this one.
pub lookup_field-remove_field :
    (key j : Text) (fs : Fields)
    → str_eq j key ≡ false
    → lookup_field key (remove_field j fs) ≡ lookup_field key fs
unfolding remove_field
lookup_field-remove_field key j end other = refl
lookup_field-remove_field key j (field i w fs) other = ground (
  arith,
  str_eq_iff j key,
  str_eq_iff i j,
  str_eq_iff i key,
  lookup_field-remove_field key j fs other,
)

-- ===== src/Json.antt =====
-- `Json::Value` of jsoncpp, as far as the program uses it: the value types, member access, the type
-- tests and conversions, and equality. The members of an object stand in the order of their keys,
-- as in the library's map, so equal values are equal terms.
pub mod Equality
use democrit.Base.{
  ℕ, ◌^◌, ◌≡◌, Bool, true, false, ◌&&◌, Option, none, some, List, [], ◌∷◌, Text, codes, str_eq,
  str_lt, decimal, ◌+◌, ◌++◌, ℤ, pos, negsuc, ltb, if◌then◌else◌,
}

mutual
  -- A double is given by its printed form, and is not integral.
  pub data Json : Type 0 where
    null : Json
    bool_val : Bool → Json
    int_val : ℤ → Json
    real_val : Text → Json
    str : Text → Json
    arr : Items → Json
    obj : Fields → Json

  pub data Items : Type 0 where
    nil : Items
    cons : Json → Items → Items

  pub data Fields : Type 0 where
    end : Fields
    field : Text → Json → Fields → Fields

abbrev pub elements : Items → List Json
elements nil = []
elements (cons x xs) = x ∷ elements xs

abbrev pub of_list : List Json → Items
of_list [] = nil
of_list (x ∷ xs) = cons x (of_list xs)

abbrev pub lookup_field : Text → Fields → Option Json
lookup_field k end = none
lookup_field k (field j v fs) = if str_eq j k then some v else lookup_field k fs

-- A new key goes to its place in the order.
unfoldable pub put_field : Text → Json → Fields → Fields
put_field k v end = field k v end
put_field k v (field j w fs) =
    if str_eq j k
    then field j v fs
    else if str_lt k j
    then field k v (field j w fs)
    else field j w (put_field k v fs)

abbrev or_null : Option Json → Json
or_null none = null
or_null (some v) = v

-- `val[key]` on a constant value: null for a missing key, and an exception that nobody catches on
-- a value that is neither an object nor null.
unfoldable pub member : Text → Json → Option Json
member k (obj fs) = some (or_null (lookup_field k fs))
member k null = some null
member k _ = none

-- `val[key] = v` on an object.
unfoldable pub put : Text → Json → Json → Json
unfolding put_field
put k v (obj fs) = obj (put_field k v fs)
put k v j = j

abbrev pub empty_object : Json
empty_object = obj end

abbrev pub is_object : Json → Bool
is_object (obj fs) = true
is_object _ = false

abbrev pub is_null : Json → Bool
is_null null = true
is_null _ = false

-- `CHECK (v.isArray ())` and the loop over the elements.
abbrev pub as_array : Json → Option (List Json)
as_array (arr xs) = some (elements xs)
as_array _ = none

-- `CHECK (v.isString ())` and `v.asString ()`
abbrev pub as_str : Json → Option Text
as_str (str s) = some s
as_str _ = none

-- `CHECK (v.isUInt ())` and `v.asUInt ()`
abbrev pub as_uint : Json → Option ℕ
as_uint (int_val (pos n)) = if ltb n (2 ^ 32) then some n else none
as_uint _ = none

-- `v.isUInt64 ()` and `v.asUInt64 ()`
abbrev pub as_uint64 : Json → Option ℕ
as_uint64 (int_val (pos n)) = if ltb n (2 ^ 64) then some n else none
as_uint64 _ = none

-- `CHECK (v.isBool ())` and `v.asBool ()`
abbrev pub as_bool : Json → Option Bool
as_bool (bool_val b) = some b
as_bool _ = none

-- `CHECK (v.isObject ())`, for a value that is used as an object from there on.
abbrev pub as_object : Json → Option Json
as_object (obj fs) = some (obj fs)
as_object _ = none

-- `v.asString ()` on any value.
unfoldable pub as_string : Json → Option Text
as_string null = some []
as_string (bool_val true) = some (codes "true")
as_string (bool_val false) = some (codes "false")
as_string (int_val (pos n)) = some (decimal n)
as_string (int_val (negsuc n)) = some (codes "-" ++ decimal (n + 1))
as_string (real_val t) = some t
as_string (str s) = some s
as_string _ = none

-- The test `v.asString () == s`, which throws on an array or an object.
abbrev pub string_is : Json → Text → Option Bool
string_is j s = elim (as_string j) [ none ↦ none | some t ↦ some (str_eq t s) ]

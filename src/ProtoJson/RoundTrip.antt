-- ===== src/ProtoJson/RoundTrip.antt =====
-- src/json.cpp: what becomes of an order that is converted to JSON and back.
use democrit.Base.{
  ℕ, ◌<◌, ◌≡◌, refl, ◌∙◌, Bool, true, false, ◌&&◌, Option, none, some, Text, codes, str_eq, ltb,
  value_or, if◌then◌else◌, and_then, checked, arith, u64_mod, i64_max, to_int64,
}
use democrit.Json.{obj, str, Fields, end, lookup_field, member, as_str, as_uint64}
use democrit.Proto.{Order, OrderType, ask, bid, price_of}
use democrit.ProtoJson.{
  int_to_json, order_type_to_json, assign, opt, order_entries, has_units, order_to_json,
  as_order_type, order_from_json,
}
use democrit.ProtoJson.Members.{lookup_field-assign, or_else-none, optional_at-opt}

abbrev written : Order → Fields
written o = assign (order_entries o) end

written-account : (o : Order) → lookup_field (codes "account") (written o) ≡ opt str o.account
unfolding str_eq
written-account o =
    lookup_field-assign (codes "account") (order_entries o) end ∙ or_else-none (opt str o.account)

written-id : (o : Order) → lookup_field (codes "id") (written o) ≡ opt int_to_json o.id
unfolding str_eq
written-id o =
    lookup_field-assign (codes "id") (order_entries o) end ∙ or_else-none (opt int_to_json o.id)

as_uint64-int_to_json :
    (n : ℕ) → n < u64_mod → as_uint64 (int_to_json n) ≡ (if ltb n i64_max then some n else none)
unfolding int_to_json to_int64
as_uint64-int_to_json n h = ground arith

written-asset : (o : Order) → lookup_field (codes "asset") (written o) ≡ opt str o.asset
unfolding str_eq
written-asset o =
    lookup_field-assign (codes "asset") (order_entries o) end ∙ or_else-none (opt str o.asset)

written-min_units :
    (o : Order)
    → lookup_field (codes "min_units") (written o) ≡ some (int_to_json (value_or 1 o.min_units))
unfolding str_eq
written-min_units o = lookup_field-assign (codes "min_units") (order_entries o) end

written-max_units :
    (o : Order) → lookup_field (codes "max_units") (written o) ≡ some (int_to_json o.max_units)
unfolding str_eq
written-max_units o = lookup_field-assign (codes "max_units") (order_entries o) end

written-price :
    (o : Order) → lookup_field (codes "price_sat") (written o) ≡ some (int_to_json (price_of o))
unfolding str_eq
written-price o = lookup_field-assign (codes "price_sat") (order_entries o) end

written-type :
    (o : Order) → lookup_field (codes "type") (written o) ≡ opt order_type_to_json o.order_type
unfolding str_eq
written-type o =
    lookup_field-assign (codes "type") (order_entries o) end
    ∙ or_else-none (opt order_type_to_json o.order_type)

as_order_type-order_type_to_json : (t : OrderType) → as_order_type (order_type_to_json t) ≡ some t
unfolding as_order_type str_eq and_then
as_order_type-order_type_to_json ask = refl
as_order_type-order_type_to_json bid = refl

-- The numbers of an order as the format keeps them, and those that JSON shows as they are.
abbrev pub IsUint64 : Option ℕ → Type 0
IsUint64 none = Unit
IsUint64 (some n) = n < u64_mod

abbrev pub HasUint64 : Order → Type 0
HasUint64 o = IsUint64 o.id × IsUint64 o.min_units × o.max_units < u64_mod × IsUint64 o.price_sat

abbrev is_shown : Option ℕ → Bool
is_shown none = true
is_shown (some n) = ltb n i64_max

abbrev pub is_exact : Order → Bool
is_exact o =
    is_shown o.id && (is_shown o.min_units && (ltb o.max_units i64_max && is_shown o.price_sat))

-- The order with the values that its JSON spells out, and not locked.
abbrev pub canonical : Order → Order
canonical o = record o {
  min_units = some (value_or 1 o.min_units);
  price_sat = some (price_of o);
  locked = false;
}

read_text :
    (a : Option Text)
    → elim a as (λ _. Option (Option Text)) [
      | none ↦ some none
      | some b ↦ and_then (as_str (str b)) λ c. some (some c)
    ]
      ≡ some a
unfolding and_then
read_text none = refl
read_text (some b) = refl

read_type :
    (a : Option OrderType)
    → elim a as (λ _. Option (Option OrderType)) [
      | none ↦ some none
      | some b ↦ and_then (as_order_type (order_type_to_json b)) λ c. some (some c)
    ]
      ≡ some a
unfolding and_then
read_type none = refl
read_type (some b) = rw (as_order_type-order_type_to_json b) refl

read_number :
    (a : Option ℕ)
    → IsUint64 a
    → elim a as (λ _. Option (Option ℕ)) [
      | none ↦ some none
      | some b ↦ and_then (as_uint64 (int_to_json b)) λ c. some (some c)
    ]
      ≡ (if is_shown a then some a else none)
unfolding and_then
read_number none h = refl
read_number (some b) h = rw (as_uint64-int_to_json b h) (by_size (ltb b i64_max))
  where
    by_size :
        (small : Bool)
        → and_then (if small then some b else none) (λ c. some (some c))
          ≡ (if small then some (some b) else none)
    by_size true = refl
    by_size false = refl

read_price :
    (p : Option ℕ)
    → IsUint64 p
    → as_uint64 (int_to_json (value_or 0 p)) ≡ (if is_shown p then some (value_or 0 p) else none)
read_price none h = as_uint64-int_to_json 0 (omega arith)
read_price (some n) h = as_uint64-int_to_json n h

read_min :
    (m : Option ℕ)
    → IsUint64 m
    → and_then (as_uint64 (int_to_json (value_or 1 m))) (λ c. some (some c))
      ≡ (if is_shown m then some (some (value_or 1 m)) else none)
read_min none h = read_number (some 1) (omega arith)
read_min (some n) h = read_number (some n) h

max_read :
    (o : Order)
    → o.max_units < u64_mod
    → and_then (member (codes "max_units") (obj (written o))) as_uint64
      ≡ (if ltb o.max_units i64_max then some o.max_units else none)
unfolding member and_then
max_read o h = rw (written-max_units o) (as_uint64-int_to_json o.max_units h)

price_read :
    (o : Order)
    → IsUint64 o.price_sat
    → and_then (member (codes "price_sat") (obj (written o))) as_uint64
      ≡ (if is_shown o.price_sat then some (price_of o) else none)
unfolding member and_then
price_read o h = rw (written-price o) (read_price o.price_sat h)

-- All that is read of the members, when each number is read as it is or not at all.
read_all :
    (o : Order) (a b c d : Bool)
    → (and_then (if a then some o.id else none) λ id. and_then (some o.asset) λ asset.
        and_then (if b then some (some (value_or 1 o.min_units)) else none) λ min_units.
          and_then (if c then some o.max_units else none) λ max_units.
            and_then (if d then some (price_of o) else none) λ price_sat.
              and_then (some o.order_type) λ order_type. some (record {
                account = o.account;
                id = id;
                asset = asset;
                min_units = min_units;
                max_units = max_units;
                order_type = order_type;
                price_sat = some price_sat;
                locked = false;
              }))
      ≡ (if a && (b && (c && d)) then some (canonical o) else none)
unfolding and_then
read_all o false b c d = refl
read_all o true false c d = refl
read_all o true true false d = refl
read_all o true true true false = refl
read_all o true true true true = refl

-- An order whose units pass the check is converted to JSON. Converted back, it is the same order, with the
-- minimum of 1 and the price of 0 spelled out where they were missing and without its lock, if each of
-- its numbers is below 2 ^ 63. Otherwise the conversion back refuses it.
pub order_from_json-order_to_json :
    (o : Order)
    → HasUint64 o
    → has_units o ≡ true
    → and_then (order_to_json o) order_from_json ≡ (if is_exact o then some (canonical o) else none)
unfolding order_to_json order_from_json and_then checked
order_from_json-order_to_json o (small_id, small_min, small_max, small_price) units =
    rw
      (
        units,
        optional_at-opt as_str str (codes "account") (written o) o.account (written-account o)
            ∙ read_text o.account,
        optional_at-opt as_uint64 int_to_json (codes "id") (written o) o.id (written-id o)
            ∙ read_number o.id small_id,
        optional_at-opt as_str str (codes "asset") (written o) o.asset (written-asset o)
            ∙ read_text o.asset,
        optional_at-opt as_uint64 int_to_json (codes "min_units") (written o)
              (some (value_or 1 o.min_units)) (written-min_units o)
            ∙ read_min o.min_units small_min,
        max_read o small_max,
        price_read o small_price,
        optional_at-opt as_order_type order_type_to_json (codes "type") (written o) o.order_type
              (written-type o)
            ∙ read_type o.order_type,
      )
      (read_all o (is_shown o.id) (is_shown o.min_units) (ltb o.max_units i64_max)
        (is_shown o.price_sat))

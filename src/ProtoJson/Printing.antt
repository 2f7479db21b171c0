-- ===== src/ProtoJson/Printing.antt =====
-- src/json.cpp: when the conversions to JSON go through.
use democrit.Base.{
  ℕ, ◌%◌, ◌≡◌, inl, inr, true, not, ◌&&◌, Bool-cases, Option, none, some, leb, ltb, ◌==◌, value_or,
  if◌then◌else◌, arith, u64_mod, i64_max, ltb_ℤ, pos, to_int64, to_uint64,
}
use democrit.Proto.{Order}
use democrit.ProtoJson.{has_units}
use democrit.Daemon.{has_valid_units}

lower_bound :
    (m : Option ℕ) (max : ℕ)
    → (not (max == 0) && elim m [ none ↦ true | some n ↦ not (n == 0) && not (ltb max n) ]) ≡ true
    → leb
        (to_uint64
          (if ltb_ℤ (pos 1) (to_int64 (value_or 0 m)) then to_int64 (value_or 0 m) else pos 1))
        max
      ≡ true
unfolding to_int64 to_uint64
lower_bound none max h = ground arith
lower_bound (some n) max h = elim (Bool-cases (ltb (n % u64_mod) i64_max)) [
  | inl small ↦ rw small (ground arith)
  | inr large ↦ rw large (ground arith)
]

-- The units that the daemon accepts in an order pass the check of the conversion.
pub has_units-has_valid_units : (o : Order) → has_valid_units o ≡ true → has_units o ≡ true
unfolding has_units
has_units-has_valid_units o h = lower_bound o.min_units o.max_units h

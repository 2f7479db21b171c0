-- ===== src/Base/Int.antt =====
-- `int64_t` and `uint64_t`. A uint64 is a number below 2 ^ 64; an int64 is an integer, and the casts
-- between the two, as well as the product, wrap around in two's complement.
use Prim.Native.Nat.{ℕ, zero, suc, ◌-◌, ◌*◌, ◌/◌, ◌%◌, ◌^◌, ◌<◌}
use mathlib.Core.Path.{◌≡◌}
use mathlib.Core.Bool.{Bool, true, false}
use native.Mathlib.Omega.{arith}
use democrit.Base.Tests.{◌==◌, ltb, if◌then◌else◌}

-- `negsuc n` is -(n + 1).
pub data ℤ : Type 0 where
  pos : ℕ → ℤ
  negsuc : ℕ → ℤ

abbrev pub u64_mod : ℕ
u64_mod = 2 ^ 64

abbrev pub i64_max : ℕ
i64_max = 2 ^ 63

-- `static_cast<int64_t> (x)` and `static_cast<uint64_t> (x)`
unfoldable pub to_int64 : ℕ → ℤ
to_int64 n =
    if ltb (n % u64_mod) i64_max then pos (n % u64_mod) else negsuc (u64_mod - n % u64_mod - 1)

unfoldable pub to_uint64 : ℤ → ℕ
to_uint64 (pos n) = n % u64_mod
to_uint64 (negsuc n) = (u64_mod - 1) - n % u64_mod

-- `static_cast<Json::Int> (x)` of a uint32_t.
unfoldable pub to_int32 : ℕ → ℤ
to_int32 n =
    if ltb (n % 2 ^ 32) (2 ^ 31) then pos (n % 2 ^ 32) else negsuc (2 ^ 32 - n % 2 ^ 32 - 1)

abbrev pub ltb_ℤ : ℤ → ℤ → Bool
ltb_ℤ (pos a) (pos b) = ltb a b
ltb_ℤ (pos a) (negsuc b) = false
ltb_ℤ (negsuc a) (pos b) = true
ltb_ℤ (negsuc a) (negsuc b) = ltb b a

abbrev pub eqb_ℤ : ℤ → ℤ → Bool
eqb_ℤ (pos a) (pos b) = a == b
eqb_ℤ (negsuc a) (negsuc b) = a == b
eqb_ℤ (pos a) (negsuc b) = false
eqb_ℤ (negsuc a) (pos b) = false

abbrev pub neg : ℕ → ℤ
neg zero = pos 0
neg (suc n) = negsuc n

-- The product of two int64, wrapped.
unfoldable pub mul_int64 : ℤ → ℤ → ℤ
unfolding to_int64 to_uint64
mul_int64 a b = to_int64 (to_uint64 a * to_uint64 b)

-- C++ division by a positive number, which rounds towards zero.
unfoldable pub div_int64 : ℤ → ℕ → ℤ
div_int64 (pos a) u = pos (a / u)
div_int64 (negsuc a) u = neg (suc a / u)

pub to_int64_small : (n : ℕ) → n < i64_max → to_int64 n ≡ pos n
unfolding to_int64
to_int64_small n h = ground arith

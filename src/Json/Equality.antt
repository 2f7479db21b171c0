-- ===== src/Json/Equality.antt =====
-- `==` of Json values decides equality.
use democrit.Base.{◌≡◌, ◌↔◌, refl, Bool, true, false, ◌&&◌, arith, Text, str_eq, str_eq_iff, eqb_ℤ}
use democrit.Json.{
  Json, Items, Fields, null, bool_val, int_val, real_val, str, arr, obj, nil, cons, end, field,
}

abbrev bool_eq : Bool → Bool → Bool
bool_eq true b = b
bool_eq false true = false
bool_eq false false = true

unfoldable mutual
  pub json_eq : Json → Json → Bool
  json_eq null null = true
  json_eq (bool_val a) (bool_val b) = bool_eq a b
  json_eq (int_val a) (int_val b) = eqb_ℤ a b
  json_eq (real_val a) (real_val b) = str_eq a b
  json_eq (str a) (str b) = str_eq a b
  json_eq (arr a) (arr b) = items_eq a b
  json_eq (obj a) (obj b) = fields_eq a b
  json_eq _ _ = false

  pub items_eq : Items → Items → Bool
  items_eq nil nil = true
  items_eq (cons x xs) (cons y ys) = json_eq x y && items_eq xs ys
  items_eq _ _ = false

  pub fields_eq : Fields → Fields → Bool
  fields_eq end end = true
  fields_eq (field j v fs) (field k w gs) = str_eq j k && (json_eq v w && fields_eq fs gs)
  fields_eq _ _ = false

field_cong :
    {j k : Text} {v w : Json} {fs gs : Fields} (a b c : Bool)
    → (a && (b && c)) ≡ true
    → (a ≡ true → j ≡ k)
    → (b ≡ true → v ≡ w)
    → (c ≡ true → fs ≡ gs)
    → field j v fs ≡ field k w gs
field_cong true true true h p q r = cc (p refl, q refl, r refl)
field_cong false b c h p q r = cc
field_cong true false c h p q r = cc
field_cong true true false h p q r = cc

mutual
  unfolding json_eq items_eq fields_eq

  json_eq_sound : (a b : Json) → json_eq a b ≡ true → a ≡ b
  json_eq_sound null null h = refl
  json_eq_sound (bool_val a) (bool_val b) h = ground arith
  json_eq_sound (int_val a) (int_val b) h = ground arith
  json_eq_sound (real_val a) (real_val b) h = ground (arith, str_eq_iff a b)
  json_eq_sound (str a) (str b) h = ground (arith, str_eq_iff a b)
  json_eq_sound (arr a) (arr b) h = ground (arith, items_eq_sound a b)
  json_eq_sound (obj a) (obj b) h = ground (arith, fields_eq_sound a b)
  json_eq_sound _ _ h = cc

  items_eq_sound : (a b : Items) → items_eq a b ≡ true → a ≡ b
  items_eq_sound nil nil h = refl
  items_eq_sound (cons x xs) (cons y ys) h = ground (arith, json_eq_sound x y, items_eq_sound xs ys)
  items_eq_sound _ _ h = cc

  fields_eq_sound : (a b : Fields) → fields_eq a b ≡ true → a ≡ b
  fields_eq_sound end end h = refl
  fields_eq_sound (field j v fs) (field k w gs) h =
      field_cong _ _ _ h (str_eq_iff j k).0 (json_eq_sound v w) (fields_eq_sound fs gs)
  fields_eq_sound _ _ h = cc

mutual
  unfolding json_eq items_eq fields_eq

  json_eq_refl : (a : Json) → json_eq a a ≡ true
  json_eq_refl null = refl
  json_eq_refl (bool_val a) = ground arith
  json_eq_refl (int_val a) = ground arith
  json_eq_refl (real_val a) = (str_eq_iff a a).1 refl
  json_eq_refl (str a) = (str_eq_iff a a).1 refl
  json_eq_refl (arr a) = items_eq_refl a
  json_eq_refl (obj a) = fields_eq_refl a

  items_eq_refl : (a : Items) → items_eq a a ≡ true
  items_eq_refl nil = refl
  items_eq_refl (cons x xs) = ground (arith, json_eq_refl x, items_eq_refl xs)

  fields_eq_refl : (a : Fields) → fields_eq a a ≡ true
  fields_eq_refl end = refl
  fields_eq_refl (field j v fs) = ground (arith, str_eq_iff j j, json_eq_refl v, fields_eq_refl fs)

pub json_eq_iff : (a b : Json) → (json_eq a b ≡ true) ↔ (a ≡ b)
json_eq_iff a b = (json_eq_sound a b, λ e. rw e (json_eq_refl b))

-- ===== src/Authenticator/Encoding.antt =====
-- The encoding of names as user names, against `DecodeName` of src/authenticator.cpp.
use democrit.Base.{
  ℕ, ◌+◌, ◌*◌, ◌/◌, ◌%◌, ◌<◌, ◌≡◌, ◌↔◌, refl, ap, ◌∙◌, inl, inr, true, false, Bool-cases, Option,
  none, some, [], ◌∷◌, All, Text, length, arith, if◌then◌else◌, ltb, and_then, and_then-eq-some,
  and_true, Option-cases, ◌==◌,
}
use mathlib.Core.Path.{subst}
use democrit.Authenticator.{
  is_simple_char, hex_char_value, all_simple, hex_part, hex_bytes, decode_hex, decode_plain,
  decode_name,
}

abbrev pub IsByte : ℕ → Type 0
IsByte c = c < 256

abbrev hex_digit : ℕ → ℕ
hex_digit v = if ltb v 10 then b'0' + v else b'W' + v

abbrev pub hex_text : Text → Text
hex_text [] = []
hex_text (c ∷ n) = hex_digit (c / 16) ∷ hex_digit (c % 16) ∷ hex_text n

-- A name of simple characters stands for itself; any other is written in hex digits.
abbrev pub encode_name : Text → Text
encode_name [] = b'x' ∷ b'-' ∷ []
encode_name (c ∷ n) = if all_simple (c ∷ n) then c ∷ n else b'x' ∷ b'-' ∷ hex_text (c ∷ n)

hex_char_value-hex_digit : (v : ℕ) → v < 16 → hex_char_value (hex_digit v) ≡ some v
unfolding hex_char_value
hex_char_value-hex_digit v h = ground arith

hex_char_value-eq-some : (c v : ℕ) → hex_char_value c ≡ some v → (v < 16) × (c ≡ hex_digit v)
unfolding hex_char_value
hex_char_value-eq-some c v h = ground arith

hex_bytes-hex_text : (n : Text) → All IsByte n → hex_bytes (hex_text n) ≡ some n
unfolding hex_bytes and_then
hex_bytes-hex_text [] h = refl
hex_bytes-hex_text (c ∷ n) h =
    rw
      (
        hex_char_value-hex_digit (c / 16) (omega (arith, h.0)),
        hex_char_value-hex_digit (c % 16) (omega arith),
        hex_bytes-hex_text n h.1,
      )
      (λ i. some (join i ∷ n))
  where
    join : c / 16 * 16 + c % 16 ≡ c
    join = omega arith

length-hex_text : (n : Text) → length (hex_text n) ≡ 2 * length n
length-hex_text [] = omega arith
length-hex_text (c ∷ n) = omega (arith, length-hex_text n)

hex_bytes-eq-some : (a n : Text) → hex_bytes a ≡ some n → All IsByte n × (a ≡ hex_text n)
unfolding hex_bytes
hex_bytes-eq-some [] [] h = (tt, refl)
hex_bytes-eq-some [] (c ∷ n) h = cc
hex_bytes-eq-some (h ∷ []) n e = cc
hex_bytes-eq-some (h ∷ l ∷ rest) n e =
    let (high, e1, r1) = and_then-eq-some _ _ e in
    let (low, e2, r2) = and_then-eq-some _ _ r1 in
    let (bytes, e3, r3) = and_then-eq-some _ _ r2 in
    let first = hex_char_value-eq-some h high e1 in
    let second = hex_char_value-eq-some l low e2 in
    let later = hex_bytes-eq-some rest bytes e3 in
    joined h l high low rest bytes n first second later r3
  where
    joined :
        (h l high low : ℕ) (rest bytes n : Text)
        → (high < 16) × (h ≡ hex_digit high)
        → (low < 16) × (l ≡ hex_digit low)
        → All IsByte bytes × (rest ≡ hex_text bytes)
        → ◌≡◌ {A = Option Text} (some ((high * 16 + low) ∷ bytes)) (some n)
        → All IsByte n × (h ∷ l ∷ rest ≡ hex_text n)
    joined h l high low rest bytes [] first second later e = cc
    joined h l high low rest bytes (c ∷ n) first second later e =
        let byte : high * 16 + low ≡ c = cc e in
        let same : bytes ≡ n = cc e in
        let upper : c / 16 ≡ high = omega arith in
        let lower : c % 16 ≡ low = omega arith in
        (
          (omega arith, subst (All IsByte) same later.0),
          rw (upper, lower) (rw (first.1, second.1, later.1, same) refl),
        )

decode_hex-hex_text :
    (n : Text) → All IsByte n → all_simple n ≡ false → decode_hex (hex_text n) ≡ some n
unfolding decode_hex and_then
decode_hex-hex_text [] h s = refl
decode_hex-hex_text (c ∷ n) h s =
    let even : length (hex_text (c ∷ n)) % 2 ≡ 0 = omega (arith, length-hex_text (c ∷ n)) in
    rw (even, hex_bytes-hex_text (c ∷ n) h, s) refl

all_simple-IsByte : (n : Text) → all_simple n ≡ true → All IsByte n
unfolding all_simple is_simple_char
all_simple-IsByte [] h = tt
all_simple-IsByte (c ∷ n) h =
    let both = and_true (is_simple_char c) (all_simple n) h in
    (ground arith, all_simple-IsByte n both.1)

hex_part-simple : (n : Text) → all_simple n ≡ true → hex_part n ≡ none
unfolding hex_part all_simple is_simple_char
hex_part-simple [] h = refl
hex_part-simple (c ∷ []) h = refl
hex_part-simple (c ∷ d ∷ n) h = ground arith

hex_part-eq-some : (a h : Text) → hex_part a ≡ some h → a ≡ b'x' ∷ b'-' ∷ h
unfolding hex_part
hex_part-eq-some [] h e = cc
hex_part-eq-some (c ∷ []) h e = cc
hex_part-eq-some (c ∷ d ∷ rest) h e = ground arith

decode_hex-eq-some :
    (a n : Text) → decode_hex a ≡ some n → All IsByte n × (b'x' ∷ b'-' ∷ a ≡ encode_name n)
unfolding decode_hex
decode_hex-eq-some [] [] e = (tt, refl)
decode_hex-eq-some [] (c ∷ n) e = cc
decode_hex-eq-some (d ∷ a) n e = elim (Bool-cases (length (d ∷ a) % 2 == 0)) [
  | inr odd ↦ absurd (cc (rw odd at e))
  | inl even ↦
      let (bytes, e1, r1) = and_then-eq-some _ _ (rw even at e) in
      hex_case d a n bytes (hex_bytes-eq-some (d ∷ a) bytes e1) r1
]
  where
    hex_case :
        (d : ℕ) (a n bytes : Text)
        → All IsByte bytes × (d ∷ a ≡ hex_text bytes)
        → ◌≡◌ {A = Option Text} (if all_simple bytes then none else some bytes) (some n)
        → All IsByte n × (b'x' ∷ b'-' ∷ d ∷ a ≡ encode_name n)
    hex_case d a n [] h e = cc (h.1)
    hex_case d a n (c ∷ bytes) h e = elim (Bool-cases (all_simple (c ∷ bytes))) [
      | inl simple ↦ absurd (cc (rw simple at e))
      | inr other ↦
          let same : ◌≡◌ {A = Option Text} (some (c ∷ bytes)) (some n) = rw other at e in
          let unwrapped : c ∷ bytes ≡ n = cc same in
          subst (λ k. All IsByte k × (b'x' ∷ b'-' ∷ d ∷ a ≡ encode_name k)) unwrapped
            (h.0, rw (other, h.1) refl)
    ]

decode_plain-eq-some : (a n : Text) → decode_plain a ≡ some n → All IsByte n × (a ≡ encode_name n)
unfolding decode_plain
decode_plain-eq-some [] n e = cc
decode_plain-eq-some (c ∷ a) n e = elim (Bool-cases (all_simple (c ∷ a))) [
  | inr other ↦ absurd (cc (rw other at e))
  | inl simple ↦
      let same : ◌≡◌ {A = Option Text} (some (c ∷ a)) (some n) = rw simple at e in
      let unwrapped : c ∷ a ≡ n = cc same in
      subst (λ k. All IsByte k × (c ∷ a ≡ encode_name k)) unwrapped
        (all_simple-IsByte (c ∷ a) simple, rw simple refl)
]

decode_name-encode_name : (n : Text) → All IsByte n → decode_name (encode_name n) ≡ some n
unfolding decode_name hex_part
decode_name-encode_name [] h = refl
decode_name-encode_name (c ∷ n) h = elim (Bool-cases (all_simple (c ∷ n))) [
  | inl simple ↦ rw (simple, hex_part-simple (c ∷ n) simple) (unfold decode_plain in rw simple refl)
  | inr other ↦ rw other (decode_hex-hex_text (c ∷ n) h other)
]

-- A user name decodes to a name exactly if the name consists of bytes and the user name is the
-- encoding of that name.
pub decode_name-decodes :
    (a n : Text) → (decode_name a ≡ some n) ↔ (All IsByte n × (a ≡ encode_name n))
unfolding decode_name
decode_name-decodes a n = (
  λ e. elim (Option-cases (hex_part a)) [
    | inl plain ↦ decode_plain-eq-some a n (rw (plain, decode_name) at e)
    | inr (h, hex) ↦
        let found = decode_hex-eq-some h n (rw (hex, decode_name) at e) in
        (found.0, hex_part-eq-some a h hex ∙ found.1)
  ],
  λ p. ap decode_name p.1 ∙ decode_name-encode_name n p.0,
)

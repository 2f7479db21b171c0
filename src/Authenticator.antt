-- ===== src/Authenticator.antt =====
-- src/authenticator.cpp and src/private/authenticator.hpp: which account an XMPP address speaks for.
-- An XID server gives each name one encoding as a user name; `none` is an address that is refused.
pub mod Encoding
pub mod Known
use democrit.Base.{
  ℕ, ◌+◌, ◌-◌, ◌*◌, ◌%◌, ◌==◌, leb, ltb, Bool, true, false, not, ◌&&◌, ◌||◌, Option, none, some,
  List, [], ◌∷◌, Text, Dict, lookup, insert, length, codes, str_eq, text_eq, and_then,
  if◌then◌else◌,
}

-- `std::getline` with the comma as the end of a line; the set of the pieces is a list here.
unfoldable pub split_comma : Text → List Text
split_comma [] = [] ∷ []
split_comma (c ∷ rest) =
    let pieces = split_comma rest in if c == b',' then [] ∷ pieces else to_first c pieces
  where
    to_first : ℕ → List Text → List Text
    to_first c [] = (c ∷ []) ∷ []
    to_first c (p ∷ ps) = (c ∷ p) ∷ ps

unfoldable pub parse_comma_separated : Text → List Text
unfolding split_comma
parse_comma_separated [] = []
parse_comma_separated (c ∷ rest) = split_comma (c ∷ rest)

unfoldable pub is_simple_char : ℕ → Bool
is_simple_char c = (leb b'0' c && leb c b'9') || (leb b'a' c && leb c b'z')

unfoldable pub hex_char_value : ℕ → Option ℕ
hex_char_value c =
    if leb b'0' c && leb c b'9'
    then some (c - b'0')
    else if leb b'a' c && leb c b'f'
    then some (10 + c - b'a')
    else none

unfoldable pub all_simple : Text → Bool
unfolding is_simple_char
all_simple [] = true
all_simple (c ∷ rest) = is_simple_char c && all_simple rest

-- What follows the prefix "x-" of a hex encoded name.
unfoldable pub hex_part : Text → Option Text
hex_part (c ∷ d ∷ rest) = if c == b'x' && d == b'-' then some rest else none
hex_part _ = none

-- The loop over the digits; two of them make a byte.
unfoldable pub hex_bytes : Text → Option Text
unfolding hex_char_value
hex_bytes [] = some []
hex_bytes (h ∷ []) = none
hex_bytes (h ∷ l ∷ rest) =
    let later = hex_bytes rest in
    and_then (hex_char_value h) λ high.
      and_then (hex_char_value l) λ low. and_then later λ bytes. some ((high * 16 + low) ∷ bytes)

unfoldable pub decode_hex : Text → Option Text
unfolding hex_bytes all_simple
decode_hex [] = some []
decode_hex (c ∷ rest) =
    if length (c ∷ rest) % 2 == 0
    then (and_then (hex_bytes (c ∷ rest)) λ bytes. if all_simple bytes then none else some bytes)
    else none

unfoldable pub decode_plain : Text → Option Text
unfolding all_simple
decode_plain [] = none
decode_plain (c ∷ rest) = if all_simple (c ∷ rest) then some (c ∷ rest) else none

unfoldable pub decode_name : Text → Option Text
unfolding hex_part decode_hex decode_plain
decode_name name = elim (hex_part name) [ none ↦ decode_plain name | some hex ↦ decode_hex hex ]

pub record Jid : Type 0 where
  pub username : Text
  pub server : Text
  pub resource : Text

unfoldable pub is_trusted : List Text → Text → Bool
unfolding str_eq
is_trusted [] server = false
is_trusted (s ∷ servers) server = str_eq s server || is_trusted servers server

-- The account, if the address is authentic, which is then the known one of the account.
unfoldable pub authenticate : List Text → Jid → Dict Text Jid → Option Text × Dict Text Jid
unfolding is_trusted decode_name
authenticate servers jid known =
    if is_trusted servers jid.server
    then (elim (decode_name jid.username) [
      | none ↦ (none, known)
      | some account ↦ (some account, insert account jid known)
    ])
    else (none, known)

unfoldable pub lookup_jid : Text → Dict Text Jid → Option Jid
lookup_jid account known = lookup account known

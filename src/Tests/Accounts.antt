-- ===== src/Tests/Accounts.antt =====
-- Addresses and accounts of src/authenticator.cpp.
use democrit.Base.{◌≡◌, ◌↔◌, refl, some, List, [], ◌∷◌, Text, codes, All, and_then, str_eq}
use democrit.Authenticator.{Jid, decode_name, lookup_jid, parse_comma_separated}
use democrit.Authenticator.Encoding.{IsByte, encode_name, decode_name-decodes}
use democrit.Authenticator.Known.{SpeaksFor, authenticate_all, lookup_jid-SpeaksFor}

-- "x-416c" is "Al" in hex digits.
decode_name-decodes_example :
    (decode_name (codes "x-416c") ≡ some (codes "Al"))
    ↔ (All IsByte (codes "Al") × (codes "x-416c" ≡ encode_name (codes "Al")))
decode_name-decodes_example = decode_name-decodes (codes "x-416c") (codes "Al")

hex_name : decode_name (codes "x-416c") ≡ some (codes "Al")
unfolding decode_name and_then
hex_name = refl

abbrev servers : List Text
servers = codes "xid" ∷ []

abbrev al : Jid
al = record { username = codes "x-416c"; server = codes "xid"; resource = [] }

abbrev stranger : Jid
stranger = record { username = codes "x-416c"; server = codes "elsewhere"; resource = [] }

al_known : lookup_jid (codes "Al") (authenticate_all servers (al ∷ stranger ∷ []) []) ≡ some al
unfolding lookup_jid authenticate_all and_then str_eq
al_known = refl

lookup_jid-SpeaksFor_example : SpeaksFor servers (codes "Al") al
lookup_jid-SpeaksFor_example =
    lookup_jid-SpeaksFor servers (al ∷ stranger ∷ []) (codes "Al") al al_known

split_servers : parse_comma_separated (codes "a,b,") ≡ codes "a" ∷ codes "b" ∷ [] ∷ []
unfolding parse_comma_separated
split_servers = refl

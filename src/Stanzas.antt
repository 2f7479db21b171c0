-- ===== src/Stanzas.antt =====
-- src/stanzas.tpp and src/private/stanzas.hpp: protocol data as an extension of an XMPP stanza. The tags of
-- gloox, the XML payloads of charon and the bytes of the protocol buffers are parameters.
pub mod Delivery
use democrit.Base.{
  ℕ, ◌+◌, Bool, true, false, Option, none, some, List, [], ◌∷◌, ◌++◌, Text, codes, and_then,
  checked, if◌then◌else◌,
}

-- `SerializeToString`, which fails with none, `ParseFromString`, with the data that it leaves, the payload in a
-- tag with a name, and the name space of a tag.
pub record Codec (P X : Type 0) : Type 0 where
  pub initial : P
  pub serialize : P → Option Text
  pub parse : Text → Bool × P
  pub encode_payload : Text → Text → X
  pub decode_payload : X → Option Text
  pub set_xmlns : Text → X → X

pub record ProtoStanza (P : Type 0) : Type 0 where
  pub contents : P
  pub valid : Bool

-- The two kinds of stanza: the name of the tag, and the number after `gloox::ExtUser`.
pub data Kind : Type 0 where
  account_orders processing_message : Kind

abbrev pub tag_of : Kind → Text
tag_of account_orders = codes "orders"
tag_of processing_message = codes "procmsg"

abbrev pub number_of : Kind → ℕ
number_of account_orders = 1
number_of processing_message = 2

abbrev pub ext_type : ℕ → Kind → ℕ
ext_type ext_user k = ext_user + number_of k

abbrev pub xmlns : Text
xmlns = codes "https://xaya.io/democrit/"

unfoldable pub filter_string : Kind → Text
filter_string k = codes "/*/" ++ (tag_of k ++ (codes "[@xmlns='" ++ (xmlns ++ codes "']")))

abbrev pub stanza_of : {P : Type 0} → P → ProtoStanza P
stanza_of d = record { contents = d; valid = true }

abbrev pub clone : {P : Type 0} → ProtoStanza P → ProtoStanza P
clone s = record { contents = s.contents; valid = s.valid }

module _ {P X : Type 0} (codec : Codec P X) where
  open codec use {initial, serialize, parse, encode_payload, decode_payload, set_xmlns}

  abbrev pub factory : ProtoStanza P
  factory = record { contents = initial; valid = false }

  -- The stanza of a tag that has come, which is valid if all of it can be parsed.
  unfoldable pub new_instance : X → ProtoStanza P
  new_instance t = elim (decode_payload t) [
    | none ↦ factory
    | some payload ↦
        let (good, parsed) = parse payload in record { contents = parsed; valid = good }
  ]

  -- The tag of a stanza to send; `none` is a failed `CHECK`.
  unfoldable pub tag : Kind → ProtoStanza P → Option X
  unfolding checked and_then
  tag k s = checked s.valid (
      and_then (serialize s.contents)
        λ payload. some (set_xmlns xmlns (encode_payload (tag_of k) payload)))

  -- What the daemon takes of the extension that gloox finds in a message.
  unfoldable pub data_of : Option (ProtoStanza P) → Option P
  data_of none = none
  data_of (some s) = if s.valid then some s.contents else none

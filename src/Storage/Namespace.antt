-- ===== src/Storage/Namespace.antt =====
-- src/storage/namespace.ts. The conversion of a text to its UTF-8 bytes and back is the platform's:
-- `encode_key`, `key_of_text` and `parse_text` take it as an argument, and stand over functions on
-- bytes. The other files give the keys of a session by their bytes.
pub mod ParseInt
pub mod Codec
pub mod Isolation
use whats_multi.Errors.{Result, ok, err, storage_error, bare_error}
use whats_multi.Storage.Namespace.ParseInt.{parse_int_byte}
use whats_multi.Prelude.{
  ℕ, ◌+◌, ◌-◌, ◌/◌, ◌%◌, Bool, ◌||◌, Option, none, some, [], ◌∷◌, ◌++◌, ltb, ◌==◌, if◌then◌else◌,
  is_empty, Text, codes, text_eq, split_first,
}

unfoldable pub namespace : Text
namespace = codes "whatsmulti"

abbrev pub separator : ℕ
separator = b':'

-- RESERVED
unfoldable pub is_reserved : ℕ → Bool
is_reserved c = c == b'%' || c == b':' || c == b'/'

abbrev upper_digit : ℕ → ℕ
upper_digit n = if ltb n 10 then b'0' + n else b'A' + (n - 10)

-- `%` and the byte in two upper-case hexadecimal digits.
unfoldable pub hex : ℕ → Text
hex byte = b'%' ∷ upper_digit (byte / 16) ∷ upper_digit (byte % 16) ∷ []

-- The loop of `encodeKey` over the bytes.
unfoldable pub encode_bytes : Text → Text
unfolding is_reserved hex
encode_bytes [] = []
encode_bytes (c ∷ s) = (if is_reserved c then hex c else c ∷ []) ++ encode_bytes s

-- The bytes that `decodeKey` collects; they are code units, which `Buffer.from` takes modulo 256.
unfoldable pub decode_bytes : Text → Text
unfolding parse_int_byte
decode_bytes [] = []
decode_bytes (c ∷ []) = (c % 256) ∷ []
decode_bytes (c ∷ d ∷ []) = (c % 256) ∷ decode_bytes (d ∷ [])
decode_bytes (c ∷ d ∷ e ∷ s) =
    let behind = decode_bytes s in
    let plain = (c % 256) ∷ decode_bytes (d ∷ e ∷ s) in
    if c == b'%'
    then (elim (parse_int_byte (d ∷ e ∷ [])) [ some byte ↦ byte ∷ behind | none ↦ plain ])
    else plain

unfoldable pub session_prefix : Text → Text
unfolding namespace
session_prefix session_id = namespace ++ (separator ∷ (session_id ++ separator ∷ []))

unfoldable pub namespace_prefix : Text
unfolding namespace
namespace_prefix = namespace ++ separator ∷ []

unfoldable pub storage_key : Text → Text → Text
unfolding session_prefix encode_bytes
storage_key session_id key = session_prefix session_id ++ encode_bytes key

pub record ParsedStorageKey : Type 0 where
  pub session_id : Text
  pub key : Text

-- The checks behind the two `indexOf`.
abbrev parsed : Text → Text → Option ParsedStorageKey
parsed session_id encoded =
    if is_empty session_id
    then none
    else some (record { session_id = session_id; key = decode_bytes encoded })

unfoldable pub parse_storage_key : Text → Option ParsedStorageKey
unfolding namespace decode_bytes
parse_storage_key full = elim (split_first separator full) [
  | none ↦ none
  | some (head, tail) ↦
      if text_eq head namespace
      then (elim (split_first separator tail) [
        | none ↦ none
        | some (session_id, encoded) ↦ parsed session_id encoded
      ])
      else none
]

unfoldable pub require_storage_key : Text → Result ParsedStorageKey
unfolding parse_storage_key
require_storage_key full = elim (parse_storage_key full) [
  | none ↦ err (bare_error storage_error)
  | some p ↦ ok p
]

module _ (utf8 : Text → Text) where
  -- `encodeKey`
  unfoldable pub encode_key : Text → Text
  unfolding encode_bytes
  encode_key key = encode_bytes (utf8 key)

  -- `storageKey`
  unfoldable pub key_of_text : Text → Text → Text
  unfolding session_prefix encode_key
  key_of_text session_id key = session_prefix session_id ++ encode_key key

module _ (from_utf8 : Text → Text) where
  -- `decodeKey`
  unfoldable pub decode_key : Text → Text
  unfolding decode_bytes
  decode_key encoded = from_utf8 (decode_bytes encoded)

  -- `parseStorageKey`
  unfoldable pub parse_text : Text → Option ParsedStorageKey
  unfolding parse_storage_key
  parse_text full = elim (parse_storage_key full) [
    | none ↦ none
    | some p ↦ some (record p { key = from_utf8 p.key })
  ]

-- ===== src/Storage/Namespace/Codec.antt =====
-- Percent-encoding is exactly invertible.
use mathlib.Core.Path.{ap₂}
use mathlib.Core.List.{append_assoc}
use whats_multi.Config.{is_valid_session_id, all_id_chars}
use whats_multi.Storage.Namespace.{
  is_reserved, hex, encode_bytes, decode_bytes, separator, session_prefix, storage_key,
  parse_storage_key, ParsedStorageKey, encode_key, key_of_text, parse_text,
}
use whats_multi.Prelude.{
  ℕ, ◌%◌, ◌<◌, ◌≡◌, refl, ap, ◌∙◌, ◌≢◌, ◌⊎◌, inl, inr, true, false, Option, none, some, [], ◌∷◌,
  ◌++◌, arith, ◌==◌, Bool-cases, is_empty, All, Text, split_first,
}

abbrev pub IsBytes : Text → Type 0
IsBytes s = All (λ c. c < 256) s

decode_plain :
    (c : ℕ) (s : Text) → (c == b'%') ≡ false → decode_bytes (c ∷ s) ≡ (c % 256) ∷ decode_bytes s
unfolding decode_bytes
decode_plain c [] h = refl
decode_plain c (d ∷ []) h = refl
decode_plain c (d ∷ e ∷ s) h = rw h

reserved_cases : (c : ℕ) → is_reserved c ≡ true → (c ≡ b'%') ⊎ ((c ≡ b':') ⊎ (c ≡ b'/'))
unfolding is_reserved
reserved_cases c h = ground arith

module _ (s : Text) where
  decode_percent : decode_bytes (hex b'%' ++ s) ≡ b'%' ∷ decode_bytes s
  unfolding hex decode_bytes
  decode_percent = refl

  decode_colon : decode_bytes (hex b':' ++ s) ≡ b':' ∷ decode_bytes s
  unfolding hex decode_bytes
  decode_colon = refl

  decode_slash : decode_bytes (hex b'/' ++ s) ≡ b'/' ∷ decode_bytes s
  unfolding hex decode_bytes
  decode_slash = refl

decode_hex :
    (c : ℕ) (s : Text) → is_reserved c ≡ true → decode_bytes (hex c ++ s) ≡ c ∷ decode_bytes s
decode_hex c s h = elim (reserved_cases c h) [
  | inl e ↦ rw e (decode_percent s)
  | inr (inl e) ↦ rw e (decode_colon s)
  | inr (inr e) ↦ rw e (decode_slash s)
]

not_percent : (c : ℕ) → is_reserved c ≡ false → (c == b'%') ≡ false
unfolding is_reserved
not_percent c h = ground arith

-- Decoding what was encoded gives the key back, for every key of bytes.
decode_bytes-encode_bytes : (key : Text) → IsBytes key → decode_bytes (encode_bytes key) ≡ key
unfolding encode_bytes
decode_bytes-encode_bytes [] b = unfold decode_bytes in refl
decode_bytes-encode_bytes (c ∷ s) (lt, b) = elim (Bool-cases (is_reserved c)) [
  | inl e ↦ rw e (decode_hex c (encode_bytes s) e ∙ ap (λ t. c ∷ t) (decode_bytes-encode_bytes s b))
  | inr e ↦ rw e (
      decode_plain c (encode_bytes s) (not_percent c e)
      ∙ ap₂ ◌∷◌ (omega arith) (decode_bytes-encode_bytes s b))
]

-- The text has no `:`.
abbrev pub NoSeparator : Text → Type 0
NoSeparator s = All (λ c. c ≢ separator) s

pub split_first-append :
    (s t : Text) → NoSeparator s → split_first separator (s ++ (separator ∷ t)) ≡ some (s, t)
split_first-append [] t h = refl
split_first-append (c ∷ s) t (ne, h) = ground (arith, split_first-append s t h)

all_id_chars-NoSeparator : (s : Text) → all_id_chars s ≡ true → NoSeparator s
unfolding all_id_chars
all_id_chars-NoSeparator [] h = tt
all_id_chars-NoSeparator (c ∷ s) h = ground (arith, all_id_chars-NoSeparator s)

pub valid-NoSeparator :
    (id : Text) → is_valid_session_id id ≡ true → NoSeparator id × (is_empty id ≡ false)
unfolding is_valid_session_id
valid-NoSeparator [] h = cc
valid-NoSeparator (c ∷ id) h = (all_id_chars-NoSeparator (c ∷ id) (ground arith), refl)

-- A key that is given by its bytes is parsed back from its storage key.
pub parse_storage_key-storage_key :
    (id key : Text)
    → is_valid_session_id id ≡ true
    → IsBytes key
    → parse_storage_key (storage_key id key) ≡ some (record { session_id = id; key = key })
unfolding parse_storage_key storage_key session_prefix
parse_storage_key-storage_key id key v b =
    let (clean, filled) = valid-NoSeparator id v in
    rw append_assoc (
      rw (split_first-append id (encode_bytes key) clean)
        (rw (filled, decode_bytes-encode_bytes key b)))

-- The storage key of a valid session id and a text is parsed back into that id and that text, if the
-- text comes back from its UTF-8 bytes, as every well-formed one does; so no two different pairs of
-- them share a storage key.
pub parse_text-key_of_text :
    (utf8 from_utf8 : Text → Text) (id key : Text)
    → is_valid_session_id id ≡ true
    → IsBytes (utf8 key)
    → from_utf8 (utf8 key) ≡ key
    → parse_text from_utf8 (key_of_text utf8 id key) ≡ some (record { session_id = id; key = key })
unfolding parse_text key_of_text storage_key encode_key
parse_text-key_of_text utf8 from_utf8 id key valid bytes back =
    ap (read_as from_utf8) (parse_storage_key-storage_key id (utf8 key) valid bytes)
    ∙ ap (λ k. some (record { session_id = id; key = k })) back
  where
    read_as : (Text → Text) → Option ParsedStorageKey → Option ParsedStorageKey
    read_as from none = none
    read_as from (some p) = some (record p { key = from p.key })

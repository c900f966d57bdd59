-- ===== src/Webhook/Signature/Tests.antt =====
-- The verifier with a checksum for the MAC: two hexadecimal digits, of the key and of the text.
use whats_multi.Prelude.Decimal.{all_digits, read}
use whats_multi.Webhook.Signature.{
  split_comma, read_fields, read_field, trim, trim_start, trim_end, ParsedSignature, sign_payload,
  signed_payload, parse_signature_header, from_hex, is_skewed, verify_signature,
}
use whats_multi.Webhook.Signature.Laws.{IsHex, verify_sound, verify-sign_payload}
use whats_multi.Prelude.{
  ℕ, ◌+◌, ◌-◌, ◌*◌, ◌%◌, ◌≤◌, ◌<◌, ◌≡◌, refl, true, false, none, some, [], ◌∷◌, arith, ltb,
  if◌then◌else◌, All, Text, codes,
}

abbrev total : Text → ℕ
total [] = 0
total (c ∷ s) = c + total s

abbrev nibble : ℕ → ℕ
nibble n = if ltb (n % 16) 10 then b'0' + n % 16 else b'a' + (n % 16 - 10)

abbrev pub checksum : Text → Text → Text
checksum key text = nibble (total key) ∷ nibble (total text) ∷ []

nibble-IsHex : (n : ℕ) → IsHex (nibble n)
nibble-IsHex n = ground arith

checksum-IsHex : (key text : Text) → All IsHex (checksum key text)
checksum-IsHex key text = (nibble-IsHex (total key), (nibble-IsHex (total text), tt))

abbrev secret : Text
secret = codes "hush"

abbrev body : Text
body = codes "{}"

parse_spaces :
    parse_signature_header (codes "v1=ab, t=17") ≡ some (record { t = 17; v1 = codes "ab" })
unfolding parse_signature_header split_comma read_fields read_field trim trim_start trim_end
    all_digits read
parse_spaces = refl

parse_no_time : parse_signature_header (codes "v1=ab") ≡ none
unfolding parse_signature_header split_comma read_fields read_field trim trim_start trim_end
parse_no_time = refl

-- An odd digit at the end is dropped.
from_hex_odd : from_hex (codes "0aFf1") ≡ 10 ∷ 255 ∷ []
unfolding from_hex
from_hex_odd = refl

-- 300 s are inside a tolerance of 300 s, and a millisecond more is not.
skew : (is_skewed 300 1300000 1000 ≡ false) × (is_skewed 300 1300001 1000 ≡ true)
unfolding is_skewed
skew = (refl, refl)

verify-sign_payload_example :
    verify_signature checksum body
      (sign_payload checksum secret body 1000).header
      secret
      300
      1200000
    ≡ true
verify-sign_payload_example =
    verify-sign_payload checksum secret body 1000 300 1200000 checksum-IsHex
      (λ asked. (omega arith, omega arith))

verify_sound_example :
    (found : ParsedSignature) × (parse_signature_header
        (sign_payload checksum secret body 1000).header
      ≡ some found)
    × (from_hex found.v1 ≡ from_hex (checksum secret (signed_payload found.t body)))
    × (0 < 300 → (1200000 ≤ (found.t + 300) * 1000) × (found.t * 1000 ≤ 1200000 + 300 * 1000))
verify_sound_example =
    verify_sound checksum body (sign_payload checksum secret body 1000).header secret 300 1200000
      verify-sign_payload_example

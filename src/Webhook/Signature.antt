-- ===== src/Webhook/Signature.antt =====
-- src/webhook/signature.ts. `hmac` is `createHmac('sha256', secret).update(text).digest('hex')` of
-- node:crypto; what the laws rely on is that it prints lowercase hexadecimal bytes.
pub mod Laws
pub mod Tests
use whats_multi.Prelude.Decimal.{print, read, all_digits}
use whats_multi.Prelude.{
  ℕ, ◌+◌, ◌-◌, ◌*◌, Bool, false, not, ◌&&◌, ◌||◌, Option, none, some, List, [], ◌∷◌, ◌++◌, ltb, leb,
  ◌==◌, if◌then◌else◌, is_empty, Text, codes, text_eq, split_first,
}

pub record Signature : Type 0 where
  pub t : ℕ
  pub v1 : Text
  pub header : Text

pub record ParsedSignature : Type 0 where
  pub t : ℕ
  pub v1 : Text

unfoldable pub signed_payload : ℕ → Text → Text
signed_payload t body = print t ++ (b'.' ∷ body)

unfoldable pub sign_payload : (Text → Text → Text) → (secret body : Text) → ℕ → Signature
unfolding signed_payload
sign_payload hmac secret body t =
    let v1 = hmac secret (signed_payload t body) in
    record { t = t; v1 = v1; header = codes "t=" ++ (print t ++ (codes ",v1=" ++ v1)) }

-- `s.split(',')`
unfoldable pub split_comma : Text → List Text
split_comma [] = [] ∷ []
split_comma (c ∷ s) = elim (split_comma s) [
  | [] ↦ []
  | part ∷ parts ↦ if c == b',' then [] ∷ part ∷ parts else (c ∷ part) ∷ parts
]

-- The white space that `trim` takes off, as far as a header value can hold it.
abbrev pub is_blank : ℕ → Bool
is_blank c = (leb 9 c && leb c 13) || c == 32 || c == 160

unfoldable pub trim_start : Text → Text
trim_start [] = []
trim_start (c ∷ s) = let rest = trim_start s in if is_blank c then rest else c ∷ s

unfoldable pub trim_end : Text → Text
trim_end [] = []
trim_end (c ∷ s) = let rest = trim_end s in if is_blank c && is_empty rest then [] else c ∷ rest

unfoldable pub trim : Text → Text
unfolding trim_start trim_end
trim s = trim_end (trim_start s)

pub record Fields : Type 0 where
  pub t : Option ℕ
  pub v1 : Option Text

-- One round of the loop, on `part`.
unfoldable pub read_field : Text → Fields → Fields
read_field part found = elim (split_first b'=' part) [
  | none ↦ found
  | some (before, behind) ↦
      let key = trim before in
      let value = trim behind in
      if text_eq key (codes "t") && (not (is_empty value) && all_digits value)
      then record found { t = some (read value) }
      else if text_eq key (codes "v1")
      then record found { v1 = some value }
      else found
]

unfoldable pub read_fields : List Text → Fields → Fields
read_fields [] found = found
read_fields (part ∷ parts) found = read_fields parts (read_field part found)

abbrev complete : Option ℕ → Option Text → Option ParsedSignature
complete (some t) (some v1) = some (record { t = t; v1 = v1 })
complete _ _ = none

unfoldable pub parse_signature_header : Text → Option ParsedSignature
parse_signature_header header =
    let found = read_fields (split_comma header) (record { t = none; v1 = none }) in
    complete found.t found.v1

abbrev hex_value : ℕ → Option ℕ
hex_value c =
    if leb b'0' c && leb c b'9'
    then some (c - b'0')
    else if leb b'a' c && leb c b'f'
    then some (c - b'a' + 10)
    else if leb b'A' c && leb c b'F'
    then some (c - b'A' + 10)
    else none

abbrev byte_of : Option ℕ → Option ℕ → Option ℕ
byte_of (some h) (some l) = some (h * 16 + l)
byte_of _ _ = none

-- `Buffer.from(s, 'hex')`, which ends at the first pair that is not hexadecimal.
unfoldable pub from_hex : Text → List ℕ
from_hex (c ∷ d ∷ s) =
    let rest = from_hex s in
    elim (byte_of (hex_value c) (hex_value d)) [ none ↦ [] | some byte ↦ byte ∷ rest ]
from_hex s = []

-- |now / 1000 - t| > tolerance, over the milliseconds.
unfoldable pub is_skewed : (tolerance now_ms t : ℕ) → Bool
is_skewed tolerance now_ms t =
    ltb (t * 1000 + tolerance * 1000) now_ms || ltb (now_ms + tolerance * 1000) (t * 1000)

-- What `verifySignature` does with the parsed header. The lengths are compared before the
-- constant-time comparison, which is equality.
unfoldable pub accepts :
    (Text → Text → Text)
    → (body secret : Text) → (tolerance now_ms : ℕ) → Option ParsedSignature
    → Bool
unfolding is_skewed
accepts hmac body secret tolerance now_ms none = false
accepts hmac body secret tolerance now_ms (some found) =
    if ltb 0 tolerance && is_skewed tolerance now_ms found.t
    then false
    else text_eq (from_hex (sign_payload hmac secret body found.t).v1) (from_hex found.v1)

unfoldable pub verify_signature :
    (Text → Text → Text) → (body header secret : Text) → (tolerance now_ms : ℕ) → Bool
unfolding accepts
verify_signature hmac body header secret tolerance now_ms =
    accepts hmac body secret tolerance now_ms (parse_signature_header header)

-- ===== src/Webhook/Signature/Laws.antt =====
-- What the verifier accepts.
use whats_multi.Prelude.Decimal.{
  print, IsDigit, read-print, print-digits, all_digits_of, is_empty-print,
}
use whats_multi.Webhook.Signature.{
  sign_payload, signed_payload, accepts, verify_signature, parse_signature_header, split_comma,
  trim_start, trim_end, trim, read_field, read_fields, Fields, from_hex, ParsedSignature,
}
use whats_multi.Prelude.{
  ℕ, ◌+◌, ◌*◌, ◌≤◌, ◌<◌, ◌≡◌, refl, ap, ◌∙◌, ◌⊎◌, inl, inr, true, Option, none, some, List, [], ◌∷◌,
  ◌++◌, arith, ◌==◌, Bool-cases, All, Text, codes, text_eq_refl, text_eq_iff,
}

accepts_sound :
    (hmac : Text → Text → Text) (body secret : Text) (tolerance now : ℕ)
    (parsed : Option ParsedSignature)
    → accepts hmac body secret tolerance now parsed ≡ true
    → (found : ParsedSignature) × (parsed ≡ some found)
      × (from_hex found.v1 ≡ from_hex (hmac secret (signed_payload found.t body)))
      × (0 < tolerance
          → (now ≤ (found.t + tolerance) * 1000) × (found.t * 1000 ≤ now + tolerance * 1000))
unfolding accepts sign_payload
accepts_sound hmac body secret tolerance now none h = cc
accepts_sound hmac body secret tolerance now (some found) h = (
  found,
  refl,
  ground (
    arith,
    text_eq_iff (from_hex (hmac secret (signed_payload found.t body))) (from_hex found.v1),
  ),
  λ p. ground arith,
)

-- A request is accepted only if its header carries a timestamp inside the window, when a window is
-- asked for, and a MAC with the bytes of the secret's own over that timestamp and this body.
pub verify_sound :
    (hmac : Text → Text → Text) (body header secret : Text) (tolerance now : ℕ)
    → verify_signature hmac body header secret tolerance now ≡ true
    → (found : ParsedSignature) × (parse_signature_header header ≡ some found)
      × (from_hex found.v1 ≡ from_hex (hmac secret (signed_payload found.t body)))
      × (0 < tolerance
          → (now ≤ (found.t + tolerance) * 1000) × (found.t * 1000 ≤ now + tolerance * 1000))
unfolding verify_signature
verify_sound hmac body header secret tolerance now h =
    accepts_sound hmac body secret tolerance now (parse_signature_header header) h

-- From `0` on, and ASCII: no comma, no white space.
abbrev IsPlain : ℕ → Type 0
IsPlain c = (b'0' ≤ c) × (c ≤ b'z')

split_comma-plain : (s : Text) → All IsPlain s → split_comma s ≡ s ∷ []
unfolding split_comma
split_comma-plain [] h = refl
split_comma-plain (c ∷ s) (p, h) = ground (arith, split_comma-plain s h)

split_comma-cons : (t : Text) → (part : Text) × (parts : List Text) × (split_comma t ≡ part ∷ parts)
unfolding split_comma
split_comma-cons [] = ([], [], refl)
split_comma-cons (c ∷ s) =
    let (part, parts, e) = split_comma-cons s in
    elim (Bool-cases (c == b',')) [
      | inl comma ↦ ([], part ∷ parts, ground arith)
      | inr other ↦ (c ∷ part, parts, ground arith)
    ]

split_comma-append :
    (s t : Text) → All IsPlain s → split_comma (s ++ (b',' ∷ t)) ≡ s ∷ split_comma t
unfolding split_comma
split_comma-append [] t h = let (part, parts, e) = split_comma-cons t in rw (e, split_comma) refl
split_comma-append (c ∷ s) t (p, h) = ground (arith, split_comma-append s t h)

trim_end-plain : (s : Text) → All IsPlain s → trim_end s ≡ s
unfolding trim_end
trim_end-plain [] h = refl
trim_end-plain (c ∷ s) (p, h) = ground (arith, trim_end-plain s h)

trim-plain : (s : Text) → All IsPlain s → trim s ≡ s
unfolding trim trim_start
trim-plain [] h = unfold trim_end in refl
trim-plain (c ∷ s) (p, h) = ground (arith, trim_end-plain (c ∷ s) (p, h))

-- Lowercase hexadecimal.
abbrev pub IsHex : ℕ → Type 0
IsHex c = IsDigit c ⊎ ((b'a' ≤ c) × (c ≤ b'f'))

IsPlain-of_hex : (s : Text) → All IsHex s → All IsPlain s
IsPlain-of_hex [] h = tt
IsPlain-of_hex (c ∷ s) (p, h) = (omega arith, IsPlain-of_hex s h)

IsPlain-of_digits : (s : Text) → All IsDigit s → All IsPlain s
IsPlain-of_digits [] h = tt
IsPlain-of_digits (c ∷ s) (p, h) = (omega arith, IsPlain-of_digits s h)

read_field_t :
    (t : ℕ) (found : Fields)
    → read_field (b't' ∷ b'=' ∷ print t) found ≡ record found { t = some t }
unfolding read_field trim_start trim_end trim
read_field_t t found =
    rw
      (
        trim-plain (print t) (IsPlain-of_digits (print t) (print-digits t)),
        is_empty-print t,
        all_digits_of (print t) (print-digits t),
        read-print t,
      )
      refl

read_field_v1 :
    (v1 : Text) (found : Fields)
    → All IsHex v1
    → read_field (codes "v1=" ++ v1) found ≡ record found { v1 = some v1 }
unfolding read_field trim_start trim_end trim
read_field_v1 v1 found h = rw (trim-plain v1 (IsPlain-of_hex v1 h)) refl

split_header :
    (t : ℕ) (v1 : Text)
    → All IsHex v1
    → split_comma (b't' ∷ b'=' ∷ (print t ++ (b',' ∷ (codes "v1=" ++ v1))))
      ≡ (b't' ∷ b'=' ∷ print t) ∷ (codes "v1=" ++ v1) ∷ []
split_header t v1 h =
    split_comma-append (b't' ∷ b'=' ∷ print t) (codes "v1=" ++ v1)
      (omega arith, (omega arith, IsPlain-of_digits (print t) (print-digits t)))
    ∙ ap (λ parts. (b't' ∷ b'=' ∷ print t) ∷ parts)
        (split_comma-plain (codes "v1=" ++ v1)
          (omega arith, (omega arith, (omega arith, IsPlain-of_hex v1 h))))

-- The parser gives back the timestamp and the MAC of any header that the signer writes.
parse-sign_payload :
    (hmac : Text → Text → Text) (secret body : Text) (t : ℕ)
    → ((key text : Text) → All IsHex (hmac key text))
    → let signed = sign_payload hmac secret body t in
      parse_signature_header signed.header ≡ some (record { t = t; v1 = signed.v1 })
unfolding parse_signature_header sign_payload read_fields
parse-sign_payload hmac secret body t hex =
    let v1 = hmac secret (signed_payload t body) in
    rw (split_header t v1 (hex secret (signed_payload t body)))
      (rw (read_field_t t, read_field_v1 v1 _ (hex secret (signed_payload t body))) refl)

accepts_signed :
    (hmac : Text → Text → Text) (body secret : Text) (tolerance now t : ℕ)
    → (0 < tolerance → (now ≤ (t + tolerance) * 1000) × (t * 1000 ≤ now + tolerance * 1000))
    → accepts hmac body secret tolerance now
        (some (record { t = t; v1 = (sign_payload hmac secret body t).v1 }))
      ≡ true
unfolding accepts
accepts_signed hmac body secret tolerance now t window =
    ground (arith, text_eq_refl (from_hex (sign_payload hmac secret body t).v1))

-- What a holder of the secret signs is accepted for as long as the receiver's clock is inside the
-- window around the signing time, and always when the window is 0.
pub verify-sign_payload :
    (hmac : Text → Text → Text) (secret body : Text) (t tolerance now : ℕ)
    → ((key text : Text) → All IsHex (hmac key text))
    → (0 < tolerance → (now ≤ (t + tolerance) * 1000) × (t * 1000 ≤ now + tolerance * 1000))
    → verify_signature hmac body (sign_payload hmac secret body t).header secret tolerance now
      ≡ true
unfolding verify_signature
verify-sign_payload hmac secret body t tolerance now hex window =
    rw (parse-sign_payload hmac secret body t hex)
      (accepts_signed hmac body secret tolerance now t window)

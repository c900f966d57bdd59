-- ===== src/Auth/Codec/RoundTrip.antt =====
-- Decoding gives back what was encoded.
use mathlib.Core.Path.{ap₂}
use whats_multi.Auth.Codec.{
  Value, Values, Members, null, undefined, bool, num, str, buffer, bytes, arr, obj, nil, cons, end,
  field, type_field, data_field, member, json_member, tagged, json_tagged, encode_buffer,
  encode_value, encode_values, encode_members, decode_value, decode_items, decode_fields,
}
use whats_multi.Auth.Codec.Laws.{encoded, present, json_member-encode_members, replace-obj}
use whats_multi.Storage.Namespace.Codec.{IsBytes}
use whats_multi.Prelude.{◌≡◌, refl, ap, ◌∙◌, false, ◌&&◌, arith, Text, text_eq}

-- What JSON leaves of a value: an absent element is null, an absent member is left out, and binary
-- data is a Buffer.
unfoldable mutual
  pub settled : Value → Value
  settled undefined = null
  settled (bytes s) = buffer s
  settled (arr xs) = arr (settled_values xs)
  settled (obj ms) = obj (settled_members ms)
  settled v = v

  settled_values : Values → Values
  settled_values nil = nil
  settled_values (cons v vs) = cons (settled v) (settled_values vs)

  settled_members : Members → Members
  settled_members end = end
  settled_members (field k undefined ms) = settled_members ms
  settled_members (field k v ms) = field k (settled v) (settled_members ms)

-- Binary data consists of bytes, and no object has the member `type: 'Buffer'`.
unfoldable mutual
  pub IsPlain : Value → Type 0
  IsPlain (buffer s) = IsBytes s
  IsPlain (bytes s) = IsBytes s
  IsPlain (arr xs) = ArePlain xs
  IsPlain (obj ms) = HasPlain ms
  IsPlain v = Unit

  ArePlain : Values → Type 0
  ArePlain nil = Unit
  ArePlain (cons v vs) = IsPlain v × ArePlain vs

  HasPlain : Members → Type 0
  HasPlain end = Unit
  HasPlain (field k v ms) = ((text_eq k type_field && tagged v) ≡ false) × IsPlain v × HasPlain ms

not_tagged : (ms : Members) → HasPlain ms → tagged (member type_field ms) ≡ false
unfolding IsPlain member
not_tagged end h = refl
not_tagged (field k undefined ms) h = not_tagged ms h.2
not_tagged (field k v ms) h = ground (arith, not_tagged ms h.2)

module _ (to_base64 from_base64 : Text → Text) (array_bytes : Values → Text) where
  json_tagged-present : (v : Value) → json_tagged (present to_base64 array_bytes v) ≡ tagged v
  unfolding encode_value encode_buffer
  json_tagged-present (obj ms) =
      let (gs, e) =
        replace-obj to_base64 array_bytes (tagged (member type_field ms)) (member data_field ms)
          (encode_members to_base64 array_bytes ms) in
      rw e refl
  json_tagged-present v = refl

  decode_object :
      (ms : Members)
      → HasPlain ms
      → decode_value from_base64 (encoded to_base64 array_bytes (obj ms))
        ≡ obj (decode_fields from_base64 (encode_members to_base64 array_bytes ms))
  unfolding encode_value decode_value
  decode_object ms h =
      let plain = not_tagged ms h in
      rw
        (
          plain,
          json_member-encode_members to_base64 array_bytes type_field ms,
          json_tagged-present (member type_field ms),
          plain,
        )
        refl

  module _ (decodes : (s : Text) → IsBytes s → from_base64 (to_base64 s) ≡ s) where
    decode_buffer :
        (s : Text)
        → IsBytes s
        → decode_value from_base64 (encode_buffer to_base64 array_bytes s) ≡ buffer s
    unfolding decode_value encode_buffer json_member
    decode_buffer s h = ap buffer (decodes s h)

    mutual
      unfolding encode_value decode_value settled IsPlain

      restored :
          (v : Value)
          → IsPlain v
          → decode_value from_base64 (encoded to_base64 array_bytes v) ≡ settled v
      restored null h = refl
      restored undefined h = refl
      restored (bool b) h = refl
      restored (num n) h = refl
      restored (str s) h = refl
      restored (buffer s) h = decode_buffer s h
      restored (bytes s) h = decode_buffer s h
      restored (arr xs) h = ap Value.arr (restored_values xs h)
      restored (obj ms) h = decode_object ms h ∙ ap Value.obj (restored_members ms h)

      restored_values :
          (vs : Values)
          → ArePlain vs
          → decode_items from_base64 (encode_values to_base64 array_bytes vs) ≡ settled_values vs
      restored_values nil h = refl
      restored_values (cons v vs) h = ap₂ Values.cons (restored v h.0) (restored_values vs h.1)

      restored_members :
          (ms : Members)
          → HasPlain ms
          → decode_fields from_base64 (encode_members to_base64 array_bytes ms) ≡ settled_members ms
      restored_members end h = refl
      restored_members (field k undefined ms) h = restored_members ms h.2
      restored_members (field k v ms) h =
          ap₂ (Members.field k) (restored v h.1) (restored_members ms h.2)

    -- A value whose objects do not pose as encoded Buffers comes back from its stored form as JSON
    -- leaves it, with its binary data whole, if decoding base64 undoes encoding it on bytes.
    pub decode_value-encode_value :
        (v : Value)
        → IsPlain v
        → decode_value from_base64 (encode_value to_base64 array_bytes v) ≡ settled v
    decode_value-encode_value v h = restored v h

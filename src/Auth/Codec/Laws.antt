-- ===== src/Auth/Codec/Laws.antt =====
-- What survives the codec.
use mathlib.Core.Path.{ap₂}
use whats_multi.Auth.Codec.{
  Json, Items, Fields, Value, Values, Members, null, undefined, bool, num, str, buffer, bytes, arr,
  obj, nil, cons, end, field, type_field, data_field, member, json_member, tagged, encoded_buffer,
  encode_buffer, replace, encode_value, encode_values, encode_members, is_absent, unless_null,
}
use whats_multi.Prelude.{
  ◌≡◌, refl, ap, ◌∙◌, inl, inr, Bool, true, false, Option, none, some, arith, Bool-cases, Text,
}

-- JSON as a value of the program.
mutual
  embed : Json → Value
  embed null = null
  embed (bool b) = bool b
  embed (num n) = num n
  embed (str s) = str s
  embed (arr xs) = arr (embed_items xs)
  embed (obj fs) = obj (embed_fields fs)

  embed_items : Items → Values
  embed_items nil = nil
  embed_items (cons v vs) = cons (embed v) (embed_items vs)

  embed_fields : Fields → Members
  embed_fields end = end
  embed_fields (field k v fs) = field k (embed v) (embed_fields fs)

abbrev embed_found : Option Json → Value
embed_found none = undefined
embed_found (some v) = embed v

member-embed_fields :
    (k : Text) (fs : Fields) → member k (embed_fields fs) ≡ embed_found (json_member k fs)
unfolding member json_member embed
member-embed_fields k end = refl
member-embed_fields k (field j null fs) = ground (arith, member-embed_fields k fs)
member-embed_fields k (field j v fs) = ground (arith, member-embed_fields k fs)

module _ (to_base64 : Text → Text) (array_bytes : Values → Text) where
  abbrev pub encoded : Value → Json
  encoded v = encode_value to_base64 array_bytes v

  abbrev pub present : Value → Option Json
  present undefined = none
  present v = some (encoded v)

  pub json_member-encode_members :
      (k : Text) (ms : Members)
      → json_member k (encode_members to_base64 array_bytes ms) ≡ present (member k ms)
  unfolding member json_member encode_value
  json_member-encode_members k end = refl
  json_member-encode_members k (field j undefined ms) = json_member-encode_members k ms
  json_member-encode_members k (field j v ms) = ground (arith, json_member-encode_members k ms)

  -- What is found in an object that went through the codec once.
  abbrev again : Value → Value
  again v = embed_found (present v)

  -- An array under `data` of a tagged object, which is taken for binary.
  abbrev is_binary : Bool → Value → Bool
  is_binary true (arr xs) = true
  is_binary _ _ = false

  pub replace-obj :
      (t : Bool) (d : Value) (fs : Fields)
      → (gs : Fields) × (replace to_base64 array_bytes t d fs ≡ obj gs)
  unfolding encode_buffer
  replace-obj false d fs = (fs, refl)
  replace-obj true (arr xs) fs = (_, refl)
  replace-obj true null fs = (fs, refl)
  replace-obj true d fs = (fs, refl)

  replace_walks :
      (t : Bool) (d : Value) (fs : Fields)
      → is_binary t d ≡ false
      → replace to_base64 array_bytes t d fs ≡ obj fs
  replace_walks false d fs h = refl
  replace_walks true (arr xs) fs h = cc
  replace_walks true d fs h = refl

  again-is_binary : (t : Bool) (d : Value) → is_binary t (again d) ≡ is_binary t d
  unfolding embed encode_value encode_buffer
  again-is_binary false d = refl
  again-is_binary true (obj ms) =
      let (gs, e) =
        replace-obj (tagged (member type_field ms)) (member data_field ms)
          (encode_members to_base64 array_bytes ms) in
      rw e refl
  again-is_binary true d = refl

  again-tagged : (d : Value) → tagged (again d) ≡ tagged d
  unfolding embed encode_value encode_buffer
  again-tagged (obj ms) =
      let (gs, e) =
        replace-obj (tagged (member type_field ms)) (member data_field ms)
          (encode_members to_base64 array_bytes ms) in
      rw e refl
  again-tagged d = refl

  binary_settles :
      (t : Bool) (d : Value) (fs : Fields)
      → is_binary t d ≡ true
      → (text : Text) × (replace to_base64 array_bytes t d fs ≡ encoded_buffer text)
  unfolding encode_buffer
  binary_settles false d fs h = cc
  binary_settles true (arr xs) fs h = (_, refl)
  binary_settles true d fs h = cc

  encoded-encoded_buffer :
      (text : Text) → encoded (embed (encoded_buffer text)) ≡ encoded_buffer text
  unfolding embed encode_value member
  encoded-encoded_buffer text = refl

  module _ (ms : Members) where
    abbrev once : Fields
    once = encode_members to_base64 array_bytes ms

    recalled : (k : Text) → member k (embed_fields once) ≡ again (member k ms)
    recalled k = member-embed_fields k once ∙ ap embed_found (json_member-encode_members k ms)

    idempotent_object :
        encode_members to_base64 array_bytes (embed_fields once) ≡ once
        → encoded (embed (encoded (obj ms))) ≡ encoded (obj ms)
    unfolding embed encode_value
    idempotent_object ih =
        let t = tagged (member type_field ms) in
        let d = member data_field ms in
        elim (Bool-cases (is_binary t d)) [
          | inl is ↦
              let (text, e) = binary_settles t d once is in rw e (encoded-encoded_buffer text)
          | inr plain ↦
              rw
                (
                  replace_walks t d once plain,
                  recalled type_field,
                  recalled data_field,
                  ih,
                  again-tagged (member type_field ms),
                )
                (replace_walks t (again d) once (again-is_binary t d ∙ plain))
        ]

  encode_members-field :
      (k : Text) (j : Json) (ms : Members)
      → encode_members to_base64 array_bytes (field k (embed j) ms)
        ≡ field k (encoded (embed j)) (encode_members to_base64 array_bytes ms)
  unfolding embed encode_value
  encode_members-field k null ms = refl
  encode_members-field k j ms = refl

  mutual
    unfolding embed encode_value encode_buffer

    idempotent : (v : Value) → encoded (embed (encoded v)) ≡ encoded v
    idempotent null = refl
    idempotent undefined = refl
    idempotent (bool b) = refl
    idempotent (num n) = refl
    idempotent (str s) = refl
    idempotent (buffer s) = encoded-encoded_buffer (to_base64 s)
    idempotent (bytes s) = encoded-encoded_buffer (to_base64 s)
    idempotent (arr xs) = ap Json.arr (idempotent_values xs)
    idempotent (obj ms) = idempotent_object ms (idempotent_members ms)

    idempotent_values :
        (vs : Values)
        → encode_values to_base64 array_bytes (embed_items (encode_values to_base64 array_bytes vs))
          ≡ encode_values to_base64 array_bytes vs
    idempotent_values nil = refl
    idempotent_values (cons v vs) = ap₂ Items.cons (idempotent v) (idempotent_values vs)

    idempotent_members :
        (ms : Members)
        → encode_members to_base64 array_bytes
            (embed_fields (encode_members to_base64 array_bytes ms))
          ≡ encode_members to_base64 array_bytes ms
    idempotent_members end = refl
    idempotent_members (field k undefined ms) = idempotent_members ms
    idempotent_members (field k v ms) =
        encode_members-field k (encoded v) (embed_fields (encode_members to_base64 array_bytes ms))
        ∙ ap₂ (Fields.field k) (idempotent v) (idempotent_members ms)

  -- A value that went through the codec goes through it again unchanged: binary data is not encoded
  -- twice, whatever the value, an object that looks like an encoded Buffer included.
  encode_value-idempotent :
      (v : Value)
      → encode_value to_base64 array_bytes (embed (encode_value to_base64 array_bytes v))
        ≡ encode_value to_base64 array_bytes v
  encode_value-idempotent v = idempotent v

-- What is encoded of a filled value is no null.
module _ (to_base64 : Text → Text) (array_bytes : Values → Text) where
  replaced :
      (b : Bool) (v : Value) (walked : Fields)
      → unless_null (some (replace to_base64 array_bytes b v walked))
        ≡ some (replace to_base64 array_bytes b v walked)
  unfolding encode_buffer
  replaced false v walked = refl
  replaced true (arr xs) walked = refl
  replaced true null walked = refl
  replaced true undefined walked = refl
  replaced true (bool b) walked = refl
  replaced true (num n) walked = refl
  replaced true (str s) walked = refl
  replaced true (buffer s) walked = refl
  replaced true (bytes s) walked = refl
  replaced true (obj ms) walked = refl

  pub unless_null-encode_value :
      (v : Value)
      → is_absent v ≡ false
      → unless_null (some (encode_value to_base64 array_bytes v))
        ≡ some (encode_value to_base64 array_bytes v)
  unfolding encode_value encode_buffer
  unless_null-encode_value null h = cc
  unless_null-encode_value undefined h = cc
  unless_null-encode_value (bool b) h = refl
  unless_null-encode_value (num n) h = refl
  unless_null-encode_value (str s) h = refl
  unless_null-encode_value (buffer s) h = refl
  unless_null-encode_value (bytes s) h = refl
  unless_null-encode_value (arr xs) h = refl
  unless_null-encode_value (obj ms) h =
      replaced (tagged (member type_field ms)) (member data_field ms)
        (encode_members to_base64 array_bytes ms)

-- ===== src/Auth/Codec.antt =====
-- src/auth/codec.ts. A stored value is JSON; what enters the codec may hold binary data too. Base64
-- and `Buffer.from` of an array of anything are the platform's, and enter as parameters.
pub mod Laws
pub mod RoundTrip
use whats_multi.Prelude.{
  ℕ, Bool, true, false, Option, none, some, if◌then◌else◌, Text, codes, text_eq,
}

-- What a StorageAdapter holds. A number stands for a finite one, which the codec never looks at.
mutual
  pub data Json : Type 0 where
    null : Json
    bool : Bool → Json
    num : ℕ → Json
    str : Text → Json
    arr : Items → Json
    obj : Fields → Json

  pub data Items : Type 0 where
    nil : Items
    cons : Json → Items → Items

  pub data Fields : Type 0 where
    end : Fields
    field : Text → Json → Fields → Fields

-- A value of the program. `buffer` is a Buffer, which has a `toJSON`, and `bytes` a bare Uint8Array;
-- `undefined` stands for all that has no JSON.
mutual
  pub data Value : Type 0 where
    null undefined : Value
    bool : Bool → Value
    num : ℕ → Value
    str : Text → Value
    buffer bytes : Text → Value
    arr : Values → Value
    obj : Members → Value

  pub data Values : Type 0 where
    nil : Values
    cons : Value → Values → Values

  pub data Members : Type 0 where
    end : Members
    field : Text → Value → Members → Members

abbrev pub buffer_tag : Text
buffer_tag = codes "Buffer"

abbrev pub type_field : Text
type_field = codes "type"

abbrev pub data_field : Text
data_field = codes "data"

-- `value[name]`. An object has a name once at most, so a member that is undefined can be passed over.
unfoldable pub member : Text → Members → Value
member name end = undefined
member name (field k undefined ms) = member name ms
member name (field k v ms) = let rest = member name ms in if text_eq k name then v else rest

unfoldable pub json_member : Text → Fields → Option Json
json_member name end = none
json_member name (field k v fs) =
    let rest = json_member name fs in if text_eq k name then some v else rest

abbrev pub tagged : Value → Bool
tagged (str s) = text_eq s buffer_tag
tagged _ = false

abbrev pub json_tagged : Option Json → Bool
json_tagged (some (str s)) = text_eq s buffer_tag
json_tagged _ = false

-- EncodedBuffer
abbrev pub encoded_buffer : Text → Json
encoded_buffer base64 = obj (field type_field (str buffer_tag) (field data_field (str base64) end))

module _ (to_base64 : Text → Text) (array_bytes : Values → Text) where
  -- encodeBuffer
  unfoldable pub encode_buffer : Text → Json
  encode_buffer s = encoded_buffer (to_base64 s)

  -- The replacer on an object: an array under `data` of a tagged object becomes binary, and any
  -- other object is walked through.
  abbrev pub replace : Bool → Value → Fields → Json
  replace true (arr xs) walked = encode_buffer (array_bytes xs)
  replace _ _ walked = obj walked

  -- An element without JSON is written as null, a member without JSON is left out.
  unfoldable mutual
    pub encode_value : Value → Json
    encode_value null = null
    encode_value undefined = null
    encode_value (bool b) = bool b
    encode_value (num n) = num n
    encode_value (str s) = str s
    encode_value (buffer s) = encode_buffer s
    encode_value (bytes s) = encode_buffer s
    encode_value (arr xs) = arr (encode_values xs)
    encode_value (obj ms) =
        replace (tagged (member type_field ms)) (member data_field ms) (encode_members ms)

    pub encode_values : Values → Items
    encode_values nil = nil
    encode_values (cons v vs) = cons (encode_value v) (encode_values vs)

    pub encode_members : Members → Fields
    encode_members end = end
    encode_members (field k undefined ms) = encode_members ms
    encode_members (field k v ms) = field k (encode_value v) (encode_members ms)

-- `value === null || value === undefined`
abbrev pub is_absent : Value → Bool
is_absent null = true
is_absent undefined = true
is_absent _ = false

-- `raw === null`: a stored null reads like a missing key.
abbrev pub unless_null : Option Json → Option Json
unless_null (some null) = none
unless_null o = o

module _ (from_base64 : Text → Text) where
  -- A tagged object with a text under `data` is binary.
  abbrev pub revive : Bool → Option Json → Members → Value
  revive true (some (str s)) walked = buffer (from_base64 s)
  revive _ _ walked = obj walked

  unfoldable mutual
    pub decode_value : Json → Value
    decode_value null = null
    decode_value (bool b) = bool b
    decode_value (num n) = num n
    decode_value (str s) = str s
    decode_value (arr xs) = arr (decode_items xs)
    decode_value (obj fs) =
        revive (json_tagged (json_member type_field fs)) (json_member data_field fs)
          (decode_fields fs)

    pub decode_items : Items → Values
    decode_items nil = nil
    decode_items (cons v vs) = cons (decode_value v) (decode_items vs)

    pub decode_fields : Fields → Members
    decode_fields end = end
    decode_fields (field k v fs) = field k (decode_value v) (decode_fields fs)

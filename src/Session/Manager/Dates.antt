-- ===== src/Session/Manager/Dates.antt =====
-- The date of creation that `create` of src/session/manager.ts writes.
use whats_multi.Auth.Codec.{
  Json, Value, Values, null, undefined, bool, num, str, buffer, bytes, arr, obj, member,
  decode_value,
}
use whats_multi.Session.Manager.{created_at, or_now}
use whats_multi.Session.Registry.{decoded}
use whats_multi.Storage.Adapter.{StorageAdapter}
use whats_multi.Prelude.{ℕ, ◌≡◌, refl, Option, none, some, Text, codes}

-- A value that is neither null nor undefined.
abbrev filled : Value → Option Value
filled null = none
filled undefined = none
filled v = some v

-- The date that stored metadata hold, if they are an object with one that is filled.
abbrev date_in : Value → Option Value
date_in (obj ms) = filled (member (codes "createdAt") ms)
date_in _ = none

abbrev or_else : ℕ → Option Value → Value
or_else now none = num now
or_else now (some date) = date

or_now-filled : (now : ℕ) (v : Value) → or_now now v ≡ or_else now (filled v)
or_now-filled now null = refl
or_now-filled now undefined = refl
or_now-filled now (bool b) = refl
or_now-filled now (num n) = refl
or_now-filled now (str s) = refl
or_now-filled now (buffer s) = refl
or_now-filled now (bytes s) = refl
or_now-filled now (arr xs) = refl
or_now-filled now (obj ms) = refl

of_value : (now : ℕ) (v : Value) → created_at now (some v) ≡ or_else now (date_in v)
unfolding created_at
of_value now null = refl
of_value now undefined = refl
of_value now (bool b) = refl
of_value now (num n) = refl
of_value now (str s) = refl
of_value now (buffer s) = refl
of_value now (bytes s) = refl
of_value now (arr xs) = refl
of_value now (obj ms) = or_now-filled now (member (codes "createdAt") ms)

-- The date of creation after a `create` at `now`: the one that was stored, else `now`.
abbrev pub kept_date : (Text → Text) → ℕ → Option Json → Value
kept_date from_base64 now none = num now
kept_date from_base64 now (some raw) = or_else now (date_in (decode_value from_base64 raw))

module _ (to_base64 from_base64 : Text → Text) (array_bytes : Values → Text)
    (a : StorageAdapter Json) where
  pub created_at-kept_date :
      (now : ℕ) (o : Option Json)
      → created_at now (decoded to_base64 from_base64 array_bytes a o) ≡ kept_date from_base64 now o
  unfolding created_at decode_value
  created_at-kept_date now none = refl
  created_at-kept_date now (some null) = refl
  created_at-kept_date now (some (bool b)) = refl
  created_at-kept_date now (some (num n)) = refl
  created_at-kept_date now (some (str s)) = refl
  created_at-kept_date now (some (arr xs)) = refl
  created_at-kept_date now (some (obj fs)) = of_value now (decode_value from_base64 (obj fs))

-- ===== src/Session/Registry.antt =====
-- src/session/registry.ts over any backend. Metadata is an object of the program, which the codec of
-- src/auth/codec.ts writes; what is read back is that object.
pub mod Laws
use whats_multi.Auth.Codec.{
  Json, Value, Values, num, str, obj, end, field, encode_value, decode_value, unless_null,
}
use whats_multi.Auth.Keys.{meta_key}
use whats_multi.Storage.Adapter.{Attempt, returned, threw, StorageAdapter}
use whats_multi.Storage.Memory.Laws.{contains}
use whats_multi.Storage.Namespace.{
  storage_key, namespace_prefix, parse_storage_key, ParsedStorageKey,
}
use whats_multi.Prelude.{
  ℕ, Bool, true, false, ◌&&◌, ◌||◌, Option, none, some, List, [], ◌∷◌, ltb, ◌==◌, if◌then◌else◌,
  Text, codes,
}

pub record SessionMeta : Type 0 where
  pub session_id : Text
  pub storage : Text
  pub created_at : Value
  pub updated_at : ℕ

unfoldable pub meta_value : SessionMeta → Value
meta_value meta = obj (
    field (codes "sessionId") (str meta.session_id) (
      field (codes "storage") (str meta.storage) (
        field (codes "createdAt") meta.created_at
          (field (codes "updatedAt") (num meta.updated_at) end))))

-- The ids of the keys that can be parsed, each once.
unfoldable pub ids_of : List Text → List Text
ids_of [] = []
ids_of (full ∷ rest) =
    let ids = ids_of rest in
    elim (parse_storage_key full) [
      | none ↦ ids
      | some p ↦ if contains p.session_id ids then ids else p.session_id ∷ ids
    ]

-- `a < b` on texts, by code units.
unfoldable pub text_lt : Text → Text → Bool
text_lt s [] = false
text_lt [] (b ∷ t) = true
text_lt (a ∷ s) (b ∷ t) = ltb a b || (a == b && text_lt s t)

unfoldable pub place : Text → List Text → List Text
unfolding text_lt
place id [] = id ∷ []
place id (j ∷ ids) = let behind = place id ids in if text_lt id j then id ∷ j ∷ ids else j ∷ behind

-- `sort()`
unfoldable pub sort : List Text → List Text
unfolding place
sort [] = []
sort (id ∷ ids) = place id (sort ids)

module _ (to_base64 from_base64 : Text → Text) (array_bytes : Values → Text)
    (a : StorageAdapter Json) where
  abbrev pub decoded : Option Json → Option Value
  decoded raw = elim (unless_null raw) [ none ↦ none | some j ↦ some (decode_value from_base64 j) ]

  abbrev pub then_decoded : Attempt (Option Json) × a.Store → Attempt (Option Value) × a.Store
  then_decoded (returned raw, s) = (returned (decoded raw), s)
  then_decoded (threw t, s) = (threw t, s)

  unfoldable pub read : Text → a.Store → Attempt (Option Value) × a.Store
  read id s = then_decoded (a.get (storage_key id meta_key) s)

  unfoldable pub write : SessionMeta → a.Store → Attempt (Unit {0}) × a.Store
  unfolding meta_value
  write meta s =
      a.set (storage_key meta.session_id meta_key)
        (encode_value to_base64 array_bytes (meta_value meta)) s

  unfoldable pub remove : Text → a.Store → Attempt (Unit {0}) × a.Store
  remove id s = a.del (storage_key id meta_key ∷ []) s

  abbrev pub then_sorted : Attempt (List Text) × a.Store → Attempt (List Text) × a.Store
  then_sorted (returned full, s) = (returned (sort (ids_of full)), s)
  then_sorted (threw t, s) = (threw t, s)

  unfoldable pub list : a.Store → Attempt (List Text) × a.Store
  unfolding ids_of sort
  list s = then_sorted (a.keys namespace_prefix s)

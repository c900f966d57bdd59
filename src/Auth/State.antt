-- ===== src/Auth/State.antt =====
-- src/auth/auth-state.ts over any backend. The driver's `initAuthCreds` and `AppStateSyncKeyData`
-- enter as `init_creds` and `from_object`; base64 as in Auth/Codec. Log lines are left out.
pub mod Laws
pub mod KeyStore
use whats_multi.Auth.Codec.{Json, Value, Values, encode_value, decode_value, is_absent, unless_null}
use whats_multi.Auth.Keys.{
  SignalKeyType, app_state_sync_key, creds_key, signal_key, parse_signal_key,
}
use whats_multi.Config.{assert_valid_session_id}
use whats_multi.Errors.{Result, ok, err, Thrown, storage_error, wrap_error}
use whats_multi.Storage.Adapter.{Attempt, returned, threw, StorageAdapter}
use whats_multi.Storage.Namespace.{storage_key, session_prefix, parse_storage_key, ParsedStorageKey}
use whats_multi.Prelude.{
  Bool, true, false, Option, none, some, List, [], ◌∷◌, ◌++◌, map, if◌then◌else◌, keep, Text, Dict,
  insert,
}

-- Whatever a backend throws is wrapped with the session's id.
unfoldable pub guard : {A S : Type 0} → Text → Attempt A × S → Result A × S
guard id (returned a, s) = (ok a, s)
guard id (threw thrown, s) = (err (wrap_error storage_error (some id) thrown), s)

-- The next call, on the store that the last one left; an error ends the method.
abbrev pub and_then : {A B S : Type 0} → Result A × S → (A → S → Result B × S) → Result B × S
and_then (ok a, s) f = f a s
and_then (err e, s) f = (err e, s)

-- The filter of `clearKeys`.
unfoldable pub is_signal_entry : Text → Bool
is_signal_entry full = elim (parse_storage_key full) [
  | none ↦ false
  | some p ↦ elim (parse_signal_key p.key) [ none ↦ false | some q ↦ true ]
]

abbrev pub app_state : SignalKeyType → Bool
app_state app_state_sync_key = true
app_state _ = false

abbrev pub Records : Type 0
Records = List (Text × Value)

module _ (to_base64 from_base64 : Text → Text) (array_bytes : Values → Text) (init_creds : Value)
    (from_object : Value → Value) (a : StorageAdapter Json) (session_id : Text) where
  key : Text → Text
  key name = storage_key session_id name

  -- What `useAuthState` keeps in `creds`.
  abbrev creds_of : Option Json → Value
  creds_of none = init_creds
  creds_of (some raw) = decode_value from_base64 raw

  unfoldable pub use_auth_state : a.Store → Result Value × a.Store
  unfolding guard key
  use_auth_state s = elim (assert_valid_session_id session_id) [
    | err e ↦ (err e, s)
    | ok _ ↦ and_then (guard session_id (a.init s)) λ _ s'.
        and_then (guard session_id (a.get (key creds_key) s'))
          λ stored s''. (ok (creds_of (unless_null stored)), s'')
  ]

  abbrev pub revived : SignalKeyType → Json → Value
  revived t raw =
      if app_state t
      then from_object (decode_value from_base64 raw)
      else decode_value from_base64 raw

  abbrev pub put : SignalKeyType → Text → Option Json → Dict Value → Dict Value
  put t id none out = out
  put t id (some raw) out = insert id (revived t raw) out

  -- `out`, an id that is asked for twice being written twice.
  collect : SignalKeyType → List Text → List (Option Json) → Dict Value → Dict Value
  collect t (id ∷ ids) (row ∷ rows) out = collect t ids rows (put t id (unless_null row) out)
  collect t _ _ out = out

  unfoldable pub keys_get : SignalKeyType → List Text → a.Store → Result (Dict Value) × a.Store
  unfolding guard key collect
  keys_get t ids s =
      and_then (guard session_id (a.mget (map (λ id. key (signal_key t id)) ids) s))
        λ rows s'. (ok (collect t ids rows []), s')

  writes_of : SignalKeyType → Records → List (Text × Json)
  unfolding key
  writes_of t [] = []
  writes_of t ((id, v) ∷ rest) =
      let more = writes_of t rest in
      if is_absent v
      then more
      else (key (signal_key t id), encode_value to_base64 array_bytes v) ∷ more

  deletes_of : SignalKeyType → Records → List Text
  unfolding key
  deletes_of t [] = []
  deletes_of t ((id, v) ∷ rest) =
      let more = deletes_of t rest in if is_absent v then key (signal_key t id) ∷ more else more

  -- Over the types, those without records passed over.
  all_writes : List (SignalKeyType × Option Records) → List (Text × Json)
  unfolding writes_of
  all_writes [] = []
  all_writes ((t, none) ∷ rest) = all_writes rest
  all_writes ((t, some records) ∷ rest) = writes_of t records ++ all_writes rest

  all_deletes : List (SignalKeyType × Option Records) → List Text
  unfolding deletes_of
  all_deletes [] = []
  all_deletes ((t, none) ∷ rest) = all_deletes rest
  all_deletes ((t, some records) ∷ rest) = deletes_of t records ++ all_deletes rest

  mset_some : List (Text × Json) → a.Store → Result (Unit {0}) × a.Store
  unfolding guard
  mset_some [] s = (ok tt, s)
  mset_some (w ∷ ws) s = guard session_id (a.mset (w ∷ ws) s)

  pub del_some : List Text → a.Store → Result (Unit {0}) × a.Store
  unfolding guard
  del_some [] s = (ok tt, s)
  del_some (k ∷ ks) s = guard session_id (a.del (k ∷ ks) s)

  unfoldable pub keys_set :
      List (SignalKeyType × Option Records) → a.Store → Result (Unit {0}) × a.Store
  unfolding all_writes all_deletes mset_some del_some
  keys_set entries s =
      and_then (mset_some (all_writes entries) s) λ _ s'. del_some (all_deletes entries) s'

  unfoldable pub clear_keys : a.Store → Result (Unit {0}) × a.Store
  unfolding guard del_some is_signal_entry
  clear_keys s =
      and_then (guard session_id (a.keys (session_prefix session_id) s))
        λ all s'. del_some (keep is_signal_entry all) s'

  unfoldable pub save_creds : Value → a.Store → Result (Unit {0}) × a.Store
  unfolding guard key
  save_creds creds s =
      guard session_id (a.set (key creds_key) (encode_value to_base64 array_bytes creds) s)

  unfoldable pub purge : a.Store → Result (Unit {0}) × a.Store
  unfolding guard
  purge s = guard session_id (a.clear (session_prefix session_id) s)

-- ===== src/Auth/Tests.antt =====
-- The auth state of the session `desk` on the in-memory adapter. The backend's JSON is cut down to
-- texts, and base64 to the identity.
use whats_multi.Auth.Codec.{
  Json, Value, Values, str, obj, arr, buffer, undefined, end, field, nil, encode_value,
  decode_value, member,
}
use whats_multi.Auth.Codec.RoundTrip.{settled, IsPlain, decode_value-encode_value}
use whats_multi.Auth.Keys.{
  pre_key, sender_key, sender_key_memory, types_by_length, signal_key, parse_signal_key, creds_key,
}
use whats_multi.Auth.Keys.Laws.{parse_signal_key-signal_key}
use whats_multi.Auth.State.{use_auth_state, keys_get, keys_set, clear_keys, save_creds, purge}
use whats_multi.Auth.State.Laws.{clear_keys_exact}
use whats_multi.Auth.State.KeyStore.{keys_get-keys_set}
use whats_multi.Config.{is_valid_session_id, all_id_chars, assert_valid_session_id}
use whats_multi.Errors.{ok, ours, storage_error, bare_error}
use whats_multi.Storage.Adapter.{StorageAdapter, IsStorage, threw}
use whats_multi.Storage.Memory.Laws.{is_some}
use whats_multi.Storage.Memory
use whats_multi.Storage.Memory.{Store}
use whats_multi.Storage.Memory.Contract.{memory_storage, peek, memory_storage-IsStorage}
use whats_multi.Storage.Namespace.{storage_key, session_prefix, parse_storage_key}
use whats_multi.Prelude.{
  ◌≡◌, refl, true, false, ◌&&◌, Option, none, some, [], ◌∷◌, arith, if◌then◌else◌, Text, codes,
  text_eq, Dict, lookup, insert, delete,
}

abbrev desk : Text
desk = codes "desk"

desk_valid : is_valid_session_id desk ≡ true
unfolding is_valid_session_id all_id_chars
desk_valid = refl

abbrev stringify : Json → Option Text
stringify (str s) = some s
stringify _ = none

abbrev parse : Text → Json
parse s = str s

parses : (v : Json) (json : Text) → stringify v ≡ some json → parse json ≡ v
parses (str s) json h = cc
parses v json h = cc

abbrev plain_base64 : Text → Text
plain_base64 s = s

abbrev no_bytes : Values → Text
no_bytes vs = []

abbrev same : Value → Value
same v = v

abbrev adapter : StorageAdapter Json
adapter = memory_storage stringify parse

pre_key_read :
    parse_signal_key (codes "pre-key-42") ≡ some (record { type = pre_key; id = codes "42" })
unfolding parse_signal_key types_by_length
pre_key_read = refl

parse_signal_key-signal_key_example :
    parse_signal_key (signal_key sender_key (codes "memory-7"))
    ≡ some (record { type = sender_key_memory; id = codes "7" })
parse_signal_key-signal_key_example = parse_signal_key-signal_key sender_key b'm' (codes "emory-7")

-- An object that poses as a Buffer without binary data.
abbrev posing : Value
posing = obj (field (codes "type") (str (codes "Buffer")) (field (codes "data") (arr nil) end))

abbrev pair : Value
pair = obj (field (codes "public") (buffer (codes "k")) (field (codes "none") undefined end))

pair-IsPlain : IsPlain pair
unfolding IsPlain
pair-IsPlain = (refl, (omega arith, tt), (refl, tt, tt))

decode_value-encode_value_example :
    decode_value plain_base64 (encode_value plain_base64 no_bytes pair) ≡ settled pair
decode_value-encode_value_example =
    decode_value-encode_value plain_base64 plain_base64 no_bytes (λ s h. refl) pair pair-IsPlain

-- Creds, a pre-key, and the creds of another session.
abbrev filled : Store
filled =
    (codes "whatsmulti:desk:creds", codes "c")
    ∷ (codes "whatsmulti:desk:pre-key-42", codes "p")
    ∷ (codes "whatsmulti:desk2:creds", codes "d")
    ∷ []

abbrev cleared : Store
cleared =
    (codes "whatsmulti:desk:creds", codes "c") ∷ (codes "whatsmulti:desk2:creds", codes "d") ∷ []

clears :
    clear_keys plain_base64 plain_base64 no_bytes pair same adapter desk filled ≡ (ok tt, cleared)
unfolding clear_keys Memory.keys session_prefix parse_storage_key parse_signal_key Memory.del delete
clears = refl

memory_storage-IsStorage_example : IsStorage adapter (peek stringify parse)
memory_storage-IsStorage_example = memory_storage-IsStorage stringify parse parses

clear_keys_exact_example : peek stringify parse (storage_key desk (codes "pre-key-42")) cleared ≡ (
    if text_eq desk desk && is_some (parse_signal_key (codes "pre-key-42"))
    then none
    else peek stringify parse (storage_key desk (codes "pre-key-42")) filled)
clear_keys_exact_example =
    clear_keys_exact plain_base64 plain_base64 no_bytes pair same adapter desk
      (peek stringify parse) (memory_storage-IsStorage stringify parse parses) filled cleared desk
      (codes "pre-key-42") desk_valid desk_valid (omega arith) clears

abbrev purged : Store
purged = (codes "whatsmulti:desk2:creds", codes "d") ∷ []

purges : purge plain_base64 plain_base64 no_bytes pair same adapter desk filled ≡ (ok tt, purged)
unfolding purge Memory.clear session_prefix delete
purges = refl

starts_fresh :
    use_auth_state plain_base64 plain_base64 no_bytes pair same adapter desk purged
    ≡ (ok pair, purged)
unfolding use_auth_state Memory.get assert_valid_session_id storage_key lookup
starts_fresh = refl

abbrev saved : Store
saved = (codes "whatsmulti:desk:creds", codes "n") ∷ []

saves :
    save_creds plain_base64 plain_base64 no_bytes pair same adapter desk (str (codes "n")) []
    ≡ (ok tt, saved)
unfolding save_creds Memory.set storage_key insert encode_value
saves = refl

restores :
    use_auth_state plain_base64 plain_base64 no_bytes pair same adapter desk saved
    ≡ (ok (str (codes "n")), saved)
unfolding use_auth_state Memory.get assert_valid_session_id storage_key lookup decode_value
restores = refl

str-IsPlain : IsPlain (str (codes "n"))
unfolding IsPlain
str-IsPlain = tt

refused :
    adapter.set (storage_key desk creds_key) (encode_value plain_base64 no_bytes pair) []
    ≡ (threw (ours (bare_error storage_error)), [])
unfolding Memory.set encode_value member
refused = refl

abbrev held : Store
held = (codes "whatsmulti:desk:pre-key-1", codes "n") ∷ []

sets :
    keys_set plain_base64 plain_base64 no_bytes pair same adapter desk
      ((pre_key, some ((codes "1", str (codes "n")) ∷ [])) ∷ [])
      []
    ≡ (ok tt, held)
unfolding keys_set Memory.mset storage_key insert encode_value signal_key
sets = refl

abbrev read_back : Dict Value
read_back = (codes "1", str (codes "n")) ∷ []

gets :
    keys_get plain_base64 plain_base64 no_bytes pair same adapter desk pre_key (codes "1" ∷ []) held
    ≡ (ok read_back, held)
unfolding keys_get Memory.mget storage_key lookup insert decode_value signal_key
gets = refl

keys_get-keys_set_example :
    (read_back ≡ ((codes "1", settled (str (codes "n"))) ∷ []))
    × (text_eq (storage_key desk (signal_key pre_key (codes "1"))) (codes "x") ≡ false
        → peek stringify parse (codes "x") held ≡ peek stringify parse (codes "x") [])
keys_get-keys_set_example =
    keys_get-keys_set plain_base64 plain_base64 no_bytes pair same adapter desk
      (peek stringify parse) (memory_storage-IsStorage stringify parse parses) (λ s h. refl) pre_key
      (codes "1") (str (codes "n")) [] held held read_back (codes "x") str-IsPlain sets gets

-- ===== src/Auth/Keys.antt =====
-- src/auth/keys.ts, with SIGNAL_KEY_TYPES and RESERVED_KEYS of src/compat/baileys.ts.
pub mod Laws
use whats_multi.Prelude.{
  Bool, false, ◌||◌, Option, none, some, List, [], ◌∷◌, ◌++◌, leb, ◌==◌, if◌then◌else◌, length,
  Text, codes, text_eq,
}

pub data SignalKeyType : Type 0 where
  pre_key session sender_key sender_key_memory app_state_sync_key : SignalKeyType
  app_state_sync_version lid_mapping device_list tctoken identity_key : SignalKeyType

abbrev pub type_name : SignalKeyType → Text
type_name pre_key = codes "pre-key"
type_name session = codes "session"
type_name sender_key = codes "sender-key"
type_name sender_key_memory = codes "sender-key-memory"
type_name app_state_sync_key = codes "app-state-sync-key"
type_name app_state_sync_version = codes "app-state-sync-version"
type_name lid_mapping = codes "lid-mapping"
type_name device_list = codes "device-list"
type_name tctoken = codes "tctoken"
type_name identity_key = codes "identity-key"

-- SIGNAL_KEY_TYPES
abbrev pub signal_key_types : List SignalKeyType
signal_key_types =
    pre_key ∷ session ∷ sender_key ∷ sender_key_memory ∷ app_state_sync_key ∷ app_state_sync_version
    ∷ lid_mapping ∷ device_list ∷ tctoken ∷ identity_key ∷ []

-- `sort((a, b) => b.length - a.length)`, which is stable.
place : SignalKeyType → List SignalKeyType → List SignalKeyType
place t [] = t ∷ []
place t (u ∷ ts) =
    let behind = place t ts in
    if leb (length (type_name u)) (length (type_name t)) then t ∷ u ∷ ts else u ∷ behind

longest_first : List SignalKeyType → List SignalKeyType
unfolding place
longest_first [] = []
longest_first (t ∷ ts) = place t (longest_first ts)

-- TYPES_BY_LENGTH
unfoldable pub types_by_length : List SignalKeyType
unfolding longest_first
types_by_length = longest_first signal_key_types

abbrev pub creds_key : Text
creds_key = codes "creds"

abbrev pub meta_key : Text
meta_key = codes "meta"

unfoldable pub is_reserved_key : Text → Bool
is_reserved_key value = text_eq creds_key value || text_eq meta_key value

unfoldable pub is_signal_key_type : Text → Bool
is_signal_key_type value = found value signal_key_types
  where
    found : Text → List SignalKeyType → Bool
    found value [] = false
    found value (t ∷ ts) = text_eq (type_name t) value || found value ts

unfoldable pub signal_key : SignalKeyType → Text → Text
signal_key type id = type_name type ++ (b'-' ∷ id)

pub record ParsedSignalKey : Type 0 where
  pub type : SignalKeyType
  pub id : Text

-- The rest behind a prefix that `key` starts with and is longer than.
abbrev pub behind : Text → Text → Option Text
behind [] [] = none
behind [] (c ∷ s) = some (c ∷ s)
behind (p ∷ ps) [] = none
behind (p ∷ ps) (c ∷ s) = if p == c then behind ps s else none

unfoldable pub first_type : List SignalKeyType → Text → Option ParsedSignalKey
first_type [] key = none
first_type (t ∷ ts) key =
    let rest = first_type ts key in
    elim (behind (type_name t ++ b'-' ∷ []) key) [
      | some id ↦ some (record { type = t; id = id })
      | none ↦ rest
    ]

unfoldable pub parse_signal_key : Text → Option ParsedSignalKey
unfolding is_reserved_key first_type types_by_length
parse_signal_key key = if is_reserved_key key then none else first_type types_by_length key

-- ===== src/Storage/Memory.antt =====
-- src/storage/memory.ts. A value enters as what `JSON.stringify` makes of it: its text, or none for
-- a value that has no JSON. A value leaves as its text; parsing it back is the platform's.
pub mod Laws
pub mod Contract
use whats_multi.Errors.{Result, ok, err, storage_error, bare_error}
use whats_multi.Prelude.{
  Option, none, some, List, [], ◌∷◌, if◌then◌else◌, keep, Text, starts_with, Dict, lookup, insert,
  delete,
}

abbrev pub Store : Type 0
Store = Dict Text

encode : Option Text → Result Text
encode none = err (bare_error storage_error)
encode (some json) = ok json

unfoldable pub get : Text → Store → Option Text
get key store = lookup key store

unfoldable pub mget : List Text → Store → List (Option Text)
mget [] store = []
mget (key ∷ keys) store = lookup key store ∷ mget keys store

unfoldable pub set : Text → Option Text → Store → Result Store
unfolding encode
set key value store = elim (encode value) [ ok json ↦ ok (insert key json store) | err e ↦ err e ]

-- All values are encoded before any is written.
unfoldable pub encode_all : List (Text × Option Text) → Result (List (Text × Text))
unfolding encode
encode_all [] = ok []
encode_all ((key, value) ∷ rest) = elim (encode value) [
  | err e ↦ err e
  | ok json ↦ elim (encode_all rest) [ err e ↦ err e | ok more ↦ ok ((key, json) ∷ more) ]
]

unfoldable pub write_all : List (Text × Text) → Store → Store
write_all [] store = store
write_all ((key, json) ∷ rest) store = write_all rest (insert key json store)

unfoldable pub mset : List (Text × Option Text) → Store → Result Store
unfolding encode_all write_all
mset entries store = elim (encode_all entries) [
  | err e ↦ err e
  | ok encoded ↦ ok (write_all encoded store)
]

unfoldable pub del : List Text → Store → Store
del [] store = store
del (key ∷ rest) store = del rest (delete key store)

abbrev pub all_keys : Store → List Text
all_keys [] = []
all_keys ((key, json) ∷ rest) = key ∷ all_keys rest

unfoldable pub keys : Text → Store → List Text
keys prefix store = keep (starts_with prefix) (all_keys store)

-- The loop runs over a copy of the keys.
unfoldable pub clear_from : Text → List Text → Store → Store
clear_from prefix [] store = store
clear_from prefix (key ∷ rest) store =
    clear_from prefix rest (if starts_with prefix key then delete key store else store)

unfoldable pub clear : Text → Store → Store
unfolding clear_from
clear prefix store = clear_from prefix (all_keys store) store

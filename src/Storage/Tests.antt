-- ===== src/Storage/Tests.antt =====
-- Two sessions, `desk` and `desk2`, in one store.
use whats_multi.Errors.{ok, err, storage_error, bare_error}
use whats_multi.Config.{is_valid_session_id, all_id_chars}
use whats_multi.Storage.Namespace.{
  namespace, is_reserved, hex, encode_bytes, session_prefix, storage_key, parse_storage_key,
  key_of_text, parse_text,
}
use whats_multi.Storage.Namespace.Codec.{parse_text-key_of_text}
use whats_multi.Storage.Memory.{Store, get, set, mset, encode_all, clear}
use whats_multi.Storage.Memory.Laws.{clear_session}
use whats_multi.Prelude.{
  ◌+◌, ◌-◌, ◌*◌, ◌/◌, ◌%◌, ◌≡◌, refl, true, none, some, [], ◌∷◌, ◌++◌, arith, ltb, if◌then◌else◌,
  Text, codes, insert,
}

abbrev desk : Text
desk = codes "desk"

abbrev desk2 : Text
desk2 = codes "desk2"

-- A group id with a device, which holds each reserved character.
abbrev key : Text
key = codes "sender-key:1/5%"

encoded : encode_bytes key ≡ codes "sender-key%3A1%2F5%25"
unfolding encode_bytes is_reserved hex
encoded = refl

stored : storage_key desk key ≡ codes "whatsmulti:desk:sender-key%3A1%2F5%25"
unfolding storage_key session_prefix namespace encode_bytes is_reserved hex
stored = refl

foreign : parse_storage_key (codes "other:desk:creds") ≡ none
unfolding parse_storage_key namespace
foreign = refl

valid_desk : is_valid_session_id desk ≡ true
unfolding is_valid_session_id all_id_chars
valid_desk = refl

valid_desk2 : is_valid_session_id desk2 ≡ true
unfolding is_valid_session_id all_id_chars
valid_desk2 = refl

-- UTF-8 of the code units below 2048, and back.
abbrev two_bytes : Text → Text
two_bytes [] = []
two_bytes (c ∷ s) =
    (if ltb c 128 then c ∷ [] else (192 + c / 64) ∷ (128 + c % 64) ∷ []) ++ two_bytes s

abbrev from_two_bytes : Text → Text
from_two_bytes [] = []
from_two_bytes (b ∷ []) = b ∷ []
from_two_bytes (b ∷ c ∷ s) =
    let plain = b ∷ from_two_bytes (c ∷ s) in
    let joined = ((b - 192) * 64 + (c - 128)) ∷ from_two_bytes s in
    if ltb b 128 then plain else joined

-- `é:%`
abbrev accented : Text
accented = 233 ∷ codes ":%"

parse_text-key_of_text_example :
    parse_text from_two_bytes (key_of_text two_bytes desk accented)
    ≡ some (record { session_id = desk; key = accented })
parse_text-key_of_text_example =
    parse_text-key_of_text two_bytes from_two_bytes desk accented valid_desk
      (omega arith, (omega arith, (omega arith, (omega arith, tt)))) refl

abbrev both : Store
both = (storage_key desk key, codes "1") ∷ (storage_key desk2 key, codes "2") ∷ []

clear_session_example :
    get (storage_key desk2 key) (clear (session_prefix desk) both)
    ≡ get (storage_key desk2 key) both
clear_session_example = clear_session desk desk2 key both valid_desk valid_desk2

abbrev small : Store
small = (codes "a:1", codes "x") ∷ (codes "b:1", codes "y") ∷ []

abbrev grown : Store
grown = insert (codes "a:2") (codes "z") small

set_adds : set (codes "a:2") (some (codes "z")) small ≡ ok grown
unfolding set
set_adds = refl

mset_fails :
    mset ((codes "k", some (codes "v")) ∷ (codes "l", none) ∷ []) small
    ≡ err (bare_error storage_error)
unfolding mset encode_all
mset_fails = refl

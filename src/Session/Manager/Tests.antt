-- ===== src/Session/Manager/Tests.antt =====
-- A manager with one session, `desk`, on the in-memory adapter. The backend's JSON is cut down to a
-- fixed text, which reads back as null.
use whats_multi.Auth.Codec.{
  Json, Values, null, num, str, obj, end, field, encode_value, decode_value, member, json_member,
}
use whats_multi.Auth.Keys.{meta_key}
use whats_multi.Config.{is_valid_session_id, assert_valid_session_id}
use whats_multi.Errors.{ok, WhatsMultiError}
use whats_multi.Session.Manager.{
  Handle, deleted, session_created, SessionManager, new_manager, find, has, create_begin,
  create_end, create, take_away,
}
use whats_multi.Session.Manager.Invariant.{Inv, Reach, here, after, creates, new_manager-Reach}
use whats_multi.Session.Manager.Laws.{meta_after, create_registers}
use whats_multi.Session.Manager.Races.{Orphans, overlapping_creates}
use whats_multi.Session.Manager.Removal.{Removed, Reached, take_away-Removed, destroy_reaches_all}
use whats_multi.Session.Manager.Shutdown.{destroy}
use whats_multi.Session.Registry.{list, read, write}
use whats_multi.Session.Registry.Laws.{Ascending, list_exact}
use whats_multi.Storage.Adapter.{StorageAdapter, returned}
use whats_multi.Storage.Memory
use whats_multi.Storage.Memory.{Store}
use whats_multi.Storage.Memory.Contract.{memory_storage, peek, memory_storage-IsStorage}
use whats_multi.Storage.Memory.Laws.{contains, is_some}
use whats_multi.Storage.Namespace.{
  storage_key, parse_storage_key, ParsedStorageKey, namespace_prefix,
}
use whats_multi.Storage.Namespace.Codec.{IsBytes}
use whats_multi.Prelude.{
  ℕ, ◌≡◌, refl, Bool, true, false, ◌&&◌, Option, none, some, [], ◌∷◌, arith, if◌then◌else◌, Text,
  codes, text_eq, text_eq→eq, lookup, insert,
}

abbrev desk : Text
desk = codes "desk"

abbrev first_manager : SessionManager
first_manager = new_manager 0

abbrev begun : SessionManager
begun = first_manager

begins_first : create_begin 0 desk first_manager ≡ ok first_manager
unfolding create_begin assert_valid_session_id new_manager lookup
begins_first = refl

abbrev opened : SessionManager
opened = (create_end 0 (codes "memory") desk first_manager).1

opened-Reach : Reach first_manager opened
opened-Reach = after here (creates 0 (codes "memory") desk begins_first)

new_manager-Reach_example : Inv opened
new_manager-Reach_example = new_manager-Reach 0 opened-Reach

first-Inv : Inv first_manager
first-Inv = new_manager-Reach 0 here

overlapping_creates_example : Orphans 0 (codes "memory") desk first_manager
overlapping_creates_example =
    overlapping_creates 0 (codes "memory") desk first_manager first_manager first-Inv begins_first

abbrev never : ℕ → Bool
never n = false

abbrev session : Handle
session = record { ref = 0; session_id = desk; storage = 0 }

finds : find opened desk ≡ some session
unfolding find create_end new_manager lookup insert
finds = refl

destroy_reaches_all_example : Reached true never never session (destroy true never never opened)
destroy_reaches_all_example =
    destroy_reaches_all true never never opened desk session (new_manager-Reach 0 opened-Reach)
      finds

-- `JSON.stringify` on the metadata of `desk` alone, by its two dates.
abbrev desk_meta : Text → Text → Text → Text → Text → Text → Bool
desk_meta a b c d id name =
    text_eq a (codes "sessionId")
    && text_eq b (codes "storage")
    && text_eq c (codes "createdAt")
    && text_eq d (codes "updatedAt")
    && text_eq id desk
    && text_eq name (codes "memory")

abbrev stringify : Json → Option Text
stringify (obj (field a (str id) (field b (str name) (field c (num t) (field d (num u) end))))) =
    if desk_meta a b c d id name then some (t ∷ u ∷ []) else none
stringify _ = none

abbrev stored : ℕ → ℕ → Json
stored t u = obj (
    field (codes "sessionId") (str desk) (
      field (codes "storage") (str (codes "memory"))
        (field (codes "createdAt") (num t) (field (codes "updatedAt") (num u) end))))

abbrev parse : Text → Json
parse (t ∷ u ∷ []) = stored t u
parse _ = null

parses : (v : Json) (json : Text) → stringify v ≡ some json → parse json ≡ v
parses (obj (field a (str id) (field b (str name) (field c (num t) (field d (num u) end))))) json
      h =
    ground (
      arith,
      text_eq→eq a (codes "sessionId"),
      text_eq→eq b (codes "storage"),
      text_eq→eq c (codes "createdAt"),
      text_eq→eq d (codes "updatedAt"),
      text_eq→eq id desk,
      text_eq→eq name (codes "memory"),
    )
parses v json h = cc

abbrev adapter : StorageAdapter Json
adapter = memory_storage stringify parse

abbrev plain_base64 : Text → Text
plain_base64 s = s

abbrev no_bytes : Values → Text
no_bytes vs = []

abbrev no_error : Handle → Option WhatsMultiError
no_error h = none

-- The metadata says 5 from an earlier life of the session.
abbrev before : Store
before = (codes "whatsmulti:desk:meta", 5 ∷ 6 ∷ []) ∷ []

abbrev behind : Store
behind = (codes "whatsmulti:desk:meta", 5 ∷ 9 ∷ []) ∷ []

recreated :
    create plain_base64 plain_base64 no_bytes adapter 0
      (codes "memory")
      desk
      9
      no_error
      first_manager
      before
    ≡ (returned session, opened, behind)
unfolding create new_manager assert_valid_session_id lookup read write Memory.set encode_value
    member Memory.get storage_key decode_value json_member insert
recreated = refl

listed : list plain_base64 plain_base64 no_bytes adapter behind ≡ (returned (desk ∷ []), behind)
unfolding list Memory.keys namespace_prefix parse_storage_key
listed = refl

create_registers_example :
    (has first_manager desk ≡ false)
    × (find opened desk ≡ (if text_eq desk desk then some session else find first_manager desk))
    × (opened.events ≡ session_created desk (codes "memory") ∷ first_manager.events)
    × (peek stringify parse (storage_key desk meta_key) behind
        ≡ some (
            meta_after plain_base64 plain_base64 no_bytes adapter
              (peek stringify parse)
              (memory_storage-IsStorage stringify parse parses)
              (codes "memory")
              desk
              9
              before))
    × (contains desk (desk ∷ []) ≡ true)
create_registers_example =
    create_registers plain_base64 plain_base64 no_bytes adapter (peek stringify parse)
      (memory_storage-IsStorage stringify parse parses) 0 9 (codes "memory") desk desk no_error
      first_manager opened before behind behind session (desk ∷ []) recreated listed

list_exact_example :
    Ascending (desk ∷ [])
    × ((id name : Text)
        → is_valid_session_id id ≡ true
        → IsBytes name
        → is_some (peek stringify parse (storage_key id name) behind) ≡ true
        → contains id (desk ∷ []) ≡ true)
    × ((id : Text)
        → contains id (desk ∷ []) ≡ true
        → (full : Text) × (p : ParsedStorageKey) × (is_some (peek stringify parse full behind)
            ≡ true)
          × (parse_storage_key full ≡ some p)
          × (p.session_id ≡ id))
list_exact_example =
    list_exact plain_base64 plain_base64 no_bytes adapter (peek stringify parse)
      (memory_storage-IsStorage stringify parse parses) behind behind (desk ∷ []) listed

take_away-Removed_example :
    Removed plain_base64 plain_base64 no_bytes adapter
      (peek stringify parse)
      (memory_storage-IsStorage stringify parse parses)
      desk
      deleted
      opened
      (take_away plain_base64 plain_base64 no_bytes adapter desk deleted none opened behind)
take_away-Removed_example =
    take_away-Removed plain_base64 plain_base64 no_bytes adapter (peek stringify parse)
      (memory_storage-IsStorage stringify parse parses) desk deleted none opened behind

-- ===== src/Session/Manager.antt =====
-- src/session/manager.ts. A session is the object that the map holds: its identity, its id and the
-- backend it was made with; what it does is in Session/Runtime. A method is one turn between its
-- awaits, and the whole of it when nothing comes between.
pub mod Shutdown
pub mod Identities
pub mod Dates
pub mod Laws
pub mod Invariant
pub mod Removal
pub mod Races
mod Tests
use whats_multi.Auth.Codec.{Json, Value, Values, Members, num, obj, null, undefined, member}
use whats_multi.Config.{assert_valid_session_id}
use whats_multi.Errors.{
  Result, ok, err, WhatsMultiError, ours, session_exists, session_not_found, client_destroyed,
  error_of, bare_error,
}
use whats_multi.Session.Registry
use whats_multi.Session.Registry.{SessionMeta}
use whats_multi.Storage.Adapter.{Attempt, returned, threw, StorageAdapter}
use whats_multi.Prelude.{
  ℕ, ◌+◌, Bool, true, false, ◌||◌, Option, none, some, List, [], ◌∷◌, ◌++◌, ◌==◌, if◌then◌else◌,
  Text, codes, Dict, lookup, insert, delete,
}

pub record Handle : Type 0 where
  pub ref : ℕ
  pub session_id : Text
  pub storage : ℕ

pub data RemovalReason : Type 0 where
  deleted logged_out : RemovalReason

pub data ManagerEvent : Type 0 where
  session_created : Text → Text → ManagerEvent
  session_removed : Text → RemovalReason → ManagerEvent

-- `events` has the latest first; `next_ref` is the identity of the next `new Session`.
pub record SessionManager : Type 0 where
  pub sessions : Dict Handle
  pub adapters : List ℕ
  pub destroyed : Bool
  pub events : List ManagerEvent
  pub next_ref : ℕ

abbrev pub member_of : ℕ → List ℕ → Bool
member_of n [] = false
member_of n (x ∷ xs) = x == n || member_of n xs

-- `Set.prototype.add`
unfoldable pub add_adapter : ℕ → List ℕ → List ℕ
add_adapter n xs = if member_of n xs then xs else xs ++ n ∷ []

unfoldable pub new_manager : ℕ → SessionManager
new_manager storage = record {
  sessions = [];
  adapters = storage ∷ [];
  destroyed = false;
  events = [];
  next_ref = 0;
}

unfoldable pub find : SessionManager → Text → Option Handle
find m id = lookup id m.sessions

abbrev pub values : Dict Handle → List Handle
values [] = []
values ((id, h) ∷ rest) = h ∷ values rest

unfoldable pub all : SessionManager → List Handle
all m = values m.sessions

unfoldable pub has : SessionManager → Text → Bool
has m id = elim (lookup id m.sessions) [ none ↦ false | some h ↦ true ]

unfoldable pub get : SessionManager → Text → Result Handle
get m id = elim (lookup id m.sessions) [
  | none ↦ err (error_of session_not_found id)
  | some h ↦ ok h
]

-- `#assertAlive`
unfoldable pub assert_alive : SessionManager → Result (Unit {0})
assert_alive m = if m.destroyed then err (bare_error client_destroyed) else ok tt

-- `create` as far as its first await.
unfoldable pub create_begin : ℕ → Text → SessionManager → Result SessionManager
unfolding has add_adapter assert_alive
create_begin storage id m = elim (assert_alive m) [
  | err e ↦ err e
  | ok _ ↦ elim (assert_valid_session_id id) [
    | err e ↦ err e
    | ok _ ↦
        if has m id
        then err (error_of session_exists id)
        else ok (record m { adapters = add_adapter storage m.adapters })
  ]
]

-- `create` behind its awaits.
unfoldable pub create_end : ℕ → Text → Text → SessionManager → Handle × SessionManager
create_end storage name id m =
    let session : Handle = record { ref = m.next_ref; session_id = id; storage = storage } in
    (
      session,
      record m {
        sessions = insert id session m.sessions;
        events = session_created id name ∷ m.events;
        next_ref = m.next_ref + 1;
      },
    )

-- `existing?.createdAt ?? now`
abbrev pub or_now : ℕ → Value → Value
or_now now null = num now
or_now now undefined = num now
or_now now v = v

unfoldable pub created_at : ℕ → Option Value → Value
created_at now (some (obj ms)) = or_now now (member (codes "createdAt") ms)
created_at now _ = num now

-- What comes behind an await, if it did not throw.
abbrev pub and_then : {A B S : Type 0} → Attempt A × S → (A → S → Attempt B × S) → Attempt B × S
and_then (returned a, s) f = f a s
and_then (threw t, s) f = (threw t, s)

module _ (to_base64 from_base64 : Text → Text) (array_bytes : Values → Text)
    (a : StorageAdapter Json) where
  -- The awaits of `create` on the session's backend.
  unfoldable pub register : Text → Text → ℕ → a.Store → Attempt (Unit {0}) × a.Store
  unfolding created_at
  register name id now s = and_then (a.init s) λ _ s1.
      and_then (Registry.read to_base64 from_base64 array_bytes a id s1) λ existing s2.
        Registry.write to_base64 from_base64 array_bytes a
          (record {
            session_id = id;
            storage = name;
            created_at = created_at now existing;
            updated_at = now;
          })
          s2

  abbrev pub answered : Handle → Option WhatsMultiError → Attempt Handle
  answered h none = returned h
  answered h (some e) = threw (ours e)

  -- `started` is what `session.start()` ends with when `autoStart` asks for it, none for a success.
  abbrev pub created :
      ℕ
      → Text
      → Text
      → (Handle → Option WhatsMultiError)
      → SessionManager
      → Attempt (Unit {0}) × a.Store
      → Attempt Handle × SessionManager × a.Store
  created storage name id started m (threw t, s) = (threw t, m, s)
  created storage name id started m (returned _, s) =
      let made = create_end storage name id m in (answered made.0 (started made.0), made.1, s)

  unfoldable pub create :
      ℕ
      → Text
      → Text
      → ℕ
      → (Handle → Option WhatsMultiError)
      → SessionManager
      → a.Store
      → Attempt Handle × SessionManager × a.Store
  unfolding create_begin create_end register
  create storage name id now started m s = elim (create_begin storage id m) [
    | err e ↦ (threw (ours e), m, s)
    | ok m' ↦ created storage name id started m' (register name id now s)
  ]

  unfoldable pub ensure :
      ℕ
      → Text
      → Text
      → ℕ
      → (Handle → Option WhatsMultiError)
      → SessionManager
      → a.Store
      → Attempt Handle × SessionManager × a.Store
  unfolding create
  ensure storage name id now started m s = elim (lookup id m.sessions) [
    | some h ↦ (returned h, m, s)
    | none ↦ create storage name id now started m s
  ]

  -- `#deregister`, from what the registry's `remove` ends with.
  abbrev pub deregister :
      Text
      → RemovalReason
      → SessionManager
      → Attempt (Unit {0}) × a.Store
      → Attempt (Unit {0}) × SessionManager × a.Store
  deregister id reason m (threw t, s) = (threw t, m, s)
  deregister id reason m (returned _, s) = (
    returned tt,
    record m { sessions = delete id m.sessions; events = session_removed id reason ∷ m.events },
    s,
  )

  -- `logout` and `remove`; `ended` is what the session's own method ends with, none for a success.
  unfoldable pub take_away :
      Text
      → RemovalReason
      → Option WhatsMultiError
      → SessionManager
      → a.Store
      → Attempt (Unit {0}) × SessionManager × a.Store
  unfolding get
  take_away id reason ended m s = elim (get m id) [
    | err e ↦ (threw (ours e), m, s)
    | ok h ↦ elim ended [
      | some e ↦ (threw (ours e), m, s)
      | none ↦ deregister id reason m (Registry.remove to_base64 from_base64 array_bytes a id s)
    ]
  ]

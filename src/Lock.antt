-- ===== src/Lock.antt =====
-- src/lock.ts: the in-memory lock provider. The clock and the minted token are arguments of each
-- call: `seen` is the reading in `live`, `stamped` the reading that the new expiry counts from.
pub mod Laws
pub mod Fencing
mod Tests
use whats_multi.Prelude.{
  ℕ, ◌+◌, Bool, false, Option, none, some, ◌++◌, leb, if◌then◌else◌, Text, codes, text_eq, Dict,
  lookup, insert, delete,
}

pub record LockToken : Type 0 where
  pub key : Text
  pub token : Text
  pub owner : Text
  pub expires_at : ℕ

abbrev pub Locks : Type 0
Locks = Dict LockToken

unfoldable pub session_lock_key : Text → Text
session_lock_key session_id = codes "session:" ++ session_id

-- The holder of a key, if its lease has not lapsed; a lapsed one is swept.
unfoldable pub live : Text → ℕ → Locks → Option LockToken × Locks
live key seen locks = elim (lookup key locks) [
  | none ↦ (none, locks)
  | some held ↦ if leb seen held.expires_at then (some held, locks) else (none, delete key locks)
]

abbrev pub holds : Option LockToken → Text → Bool
holds none token = false
holds (some held) token = text_eq held.token token

unfoldable pub acquire :
    Text → ℕ → Text → (minted : Text) → (seen stamped : ℕ) → Locks → Option LockToken × Locks
acquire key ttl_ms owner minted seen stamped locks =
    let (holder, swept) = live key seen locks in
    let held : LockToken = record {
      key = key;
      token = minted;
      owner = owner;
      expires_at = stamped + ttl_ms;
    } in
    elim holder [ some other ↦ (none, swept) | none ↦ (some held, insert key held swept) ]

unfoldable pub renew : LockToken → ℕ → (seen stamped : ℕ) → Locks → Option LockToken × Locks
renew token ttl_ms seen stamped locks =
    let (holder, swept) = live token.key seen locks in
    let renewed : LockToken = record token { expires_at = stamped + ttl_ms } in
    if holds holder token.token
    then (some renewed, insert token.key renewed swept)
    else (none, swept)

-- Without a look at the expiry: a lapsed entry of ours is deleted too.
unfoldable pub release : LockToken → Locks → Locks
release token locks =
    if holds (lookup token.key locks) token.token then delete token.key locks else locks

unfoldable pub inspect : Text → ℕ → Locks → Option LockToken × Locks
inspect key seen locks = live key seen locks

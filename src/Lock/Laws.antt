-- ===== src/Lock/Laws.antt =====
-- What a holder may rely on while its lease runs.
use whats_multi.Lock.{LockToken, Locks, live, acquire, renew, inspect}
use whats_multi.Prelude.{
  ℕ, ◌+◌, ◌≤◌, ◌<◌, ◌≡◌, ◌≢◌, ◌⊎◌, none, some, arith, Text, text_eq_refl, text_eq_iff, lookup,
  lookup-insert, lookup-delete,
}

live_of_lookup :
    (key : Text) (seen : ℕ) (locks : Locks) {held : LockToken}
    → lookup key locks ≡ some held
    → seen ≤ held.expires_at
    → live key seen locks ≡ (some held, locks)
unfolding live
live_of_lookup key seen locks e h = ground arith

pub lookup-acquire :
    (key : Text) (ttl : ℕ) (owner minted : Text) (seen stamped : ℕ) (locks : Locks)
    {held : LockToken}
    → (acquire key ttl owner minted seen stamped locks).0 ≡ some held
    → (lookup key (acquire key ttl owner minted seen stamped locks).1 ≡ some held)
      × (held.token ≡ minted)
      × (held.expires_at ≡ stamped + ttl)
unfolding acquire
lookup-acquire key ttl owner minted seen stamped locks h = ground (
  arith,
  text_eq_refl key,
  lookup-insert key key
      (record { key = key; token = minted; owner = owner; expires_at = stamped + ttl })
      (live key seen locks).1,
)

acquire_held :
    (key : Text) (ttl : ℕ) (owner minted : Text) (seen stamped : ℕ) (locks : Locks)
    {held : LockToken}
    → live key seen locks ≡ (some held, locks)
    → acquire key ttl owner minted seen stamped locks ≡ (none, locks)
unfolding acquire
acquire_held key ttl owner minted seen stamped locks e = ground arith

-- A lease acquired excludes: until its expiry, that millisecond included, no call of `acquire` for
-- the key succeeds, `inspect` names the holder, and neither changes the table.
pub acquire_excludes :
    (key : Text) (ttl : ℕ) (owner minted : Text) (seen stamped : ℕ) (locks : Locks) (ttl' : ℕ)
    (owner' minted' : Text) (later stamped' : ℕ) {held : LockToken}
    → (acquire key ttl owner minted seen stamped locks).0 ≡ some held
    → later ≤ stamped + ttl
    → let locks' = (acquire key ttl owner minted seen stamped locks).1 in
      (acquire key ttl' owner' minted' later stamped' locks' ≡ (none, locks'))
      × (inspect key later locks' ≡ (some held, locks'))
acquire_excludes key ttl owner minted seen stamped locks ttl' owner' minted' later stamped' {held} h
      t =
    let (found, _, expiry) = lookup-acquire key ttl owner minted seen stamped locks h in
    let alive = live_of_lookup key later _ found (omega (arith, expiry)) in
    (acquire_held key ttl' owner' minted' later stamped' _ alive, unfold inspect in alive)

-- While a lease runs its holder, and only its token, can extend it: `renew` succeeds exactly for
-- that token, and then the entry carries the new expiry.
renew_while_live :
    (token : LockToken) (ttl seen stamped : ℕ) (locks : Locks) {held : LockToken}
    → lookup token.key locks ≡ some held
    → seen ≤ held.expires_at
    → let (result, locks') = renew token ttl seen stamped locks in
      ((held.token ≡ token.token)
        × (result ≡ some (record token { expires_at = stamped + ttl }))
        × (lookup token.key locks' ≡ result))
      ⊎ ((held.token ≢ token.token) × (result ≡ none) × (locks' ≡ locks))
unfolding renew
renew_while_live token ttl seen stamped locks {held} e h = ground (
  arith,
  live_of_lookup token.key seen locks e h,
  text_eq_iff held.token token.token,
  text_eq_refl token.key,
  lookup-insert token.key token.key (record token { expires_at = stamped + ttl }) locks,
)

-- A lease that lapsed is lost even if nobody has taken the key: past its expiry `renew` fails and
-- sweeps the entry, and any caller can acquire the key.
lapsed_is_lost :
    (token : LockToken) (ttl seen stamped : ℕ) (locks : Locks) {held : LockToken}
    → lookup token.key locks ≡ some held
    → held.expires_at < seen
    → ((renew token ttl seen stamped locks).0 ≡ none)
      × (lookup token.key (renew token ttl seen stamped locks).1 ≡ none)
      × ((owner minted : Text)
          → (acquire token.key ttl owner minted seen stamped locks).0
            ≡ some (record {
              key = token.key;
              token = minted;
              owner = owner;
              expires_at = stamped + ttl;
            }))
unfolding renew acquire live
lapsed_is_lost token ttl seen stamped locks e h = (
  ground arith,
  ground (arith, lookup-delete token.key token.key locks, text_eq_refl token.key),
  λ owner minted. ground arith,
)

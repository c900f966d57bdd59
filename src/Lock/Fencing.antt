-- ===== src/Lock/Fencing.antt =====
-- Fencing over whole histories of the lock table.
use whats_multi.Lock.Laws.{lookup-acquire}
use whats_multi.Lock.{LockToken, Locks, holds, live, acquire, renew, release, inspect}
use whats_multi.Prelude.{
  ℕ, ◌+◌, ◌≡◌, ◌≢◌, inl, inr, false, none, some, List, [], ◌∷◌, arith, Option-cases, All, Text,
  text_eq_iff, lookup, lookup-insert, lookup-delete,
}

-- One call of the provider with the clock readings and the token that it mints.
pub data Op : Type 0 where
  acquires : (key : Text) (ttl : ℕ) (owner minted : Text) (seen stamped : ℕ) → Op
  renews : LockToken → (ttl seen stamped : ℕ) → Op
  releases : LockToken → Op
  inspects : (key : Text) (seen : ℕ) → Op

unfoldable pub step : Locks → Op → Locks
step locks (acquires key ttl owner minted seen stamped) =
    (acquire key ttl owner minted seen stamped locks).1
step locks (renews token ttl seen stamped) = (renew token ttl seen stamped locks).1
step locks (releases token) = release token locks
step locks (inspects key seen) = (inspect key seen locks).1

unfoldable pub run : Locks → List Op → Locks
run locks [] = locks
run locks (op ∷ ops) = run (step locks op) ops

-- The call does not mint this token again.
abbrev pub MintsOther : Text → Op → Type 0
MintsOther token (acquires key ttl owner minted seen stamped) = minted ≢ token
MintsOther token _ = Unit

-- The table has another holder for the key of `a`, or none.
abbrev pub IsFenced : LockToken → Locks → Type 0
IsFenced a locks = holds (lookup a.key locks) a.token ≡ false

live-IsFenced :
    (a : LockToken) (key : Text) (seen : ℕ) (locks : Locks)
    → IsFenced a locks
    → IsFenced a (live key seen locks).1
unfolding live
live-IsFenced a key seen locks h = ground (arith, lookup-delete key a.key locks)

live-lookup :
    (key : Text) (seen : ℕ) (locks : Locks) {held : LockToken}
    → (live key seen locks).0 ≡ some held
    → lookup key locks ≡ some held
unfolding live
live-lookup key seen locks h = ground arith

renew-IsFenced :
    (a b : LockToken) (ttl seen stamped : ℕ) (locks : Locks)
    → IsFenced a locks
    → IsFenced a (renew b ttl seen stamped locks).1
unfolding renew
renew-IsFenced a b ttl seen stamped locks h = elim (Option-cases (live b.key seen locks).0) [
  | inl gone ↦ rw (gone, renew) (live-IsFenced a b.key seen locks h)
  | inr (held, found) ↦ ground (
    arith,
    live-IsFenced a b.key seen locks h,
    live-lookup b.key seen locks found,
    lookup-insert b.key a.key (record b { expires_at = stamped + ttl }) (live b.key seen locks).1,
    text_eq_iff b.key a.key,
    text_eq_iff held.token b.token,
    text_eq_iff held.token a.token,
    text_eq_iff b.token a.token,
  )
]

step-IsFenced :
    (a : LockToken) (locks : Locks) (op : Op)
    → MintsOther a.token op
    → IsFenced a locks
    → IsFenced a (step locks op)
unfolding step acquire release inspect
step-IsFenced a locks (acquires key ttl owner minted seen stamped) m h = ground (
  arith,
  live-IsFenced a key seen locks h,
  text_eq_iff minted a.token,
  lookup-insert key a.key
      (record { key = key; token = minted; owner = owner; expires_at = stamped + ttl })
      (live key seen locks).1,
)
step-IsFenced a locks (renews b ttl seen stamped) m h = renew-IsFenced a b ttl seen stamped locks h
step-IsFenced a locks (releases b) m h = ground (arith, lookup-delete b.key a.key locks)
step-IsFenced a locks (inspects key seen) m h = live-IsFenced a key seen locks h

run-IsFenced :
    (a : LockToken) (locks : Locks) (ops : List Op)
    → All (MintsOther a.token) ops
    → IsFenced a locks
    → IsFenced a (run locks ops)
unfolding run
run-IsFenced a locks [] m h = h
run-IsFenced a locks (op ∷ ops) (m, ms) h =
    run-IsFenced a (step locks op) ops ms (step-IsFenced a locks op m h)

renew_fenced :
    (a : LockToken) (ttl seen stamped : ℕ) (locks : Locks)
    → IsFenced a locks
    → (renew a ttl seen stamped locks).0 ≡ none
unfolding renew live
renew_fenced a ttl seen stamped locks h = ground arith

-- Once another token takes the key of `a`, the holder of `a` is out for good: after any further
-- calls, by anyone and in any order, that do not mint the token of `a` once more, `renew` of `a`
-- fails and `release` of `a` changes nothing.
pub takeover_fences :
    (a : LockToken) (ttl : ℕ) (owner minted : Text) (seen stamped : ℕ) (locks : Locks)
    (ops : List Op) {b : LockToken}
    → (acquire a.key ttl owner minted seen stamped locks).0 ≡ some b
    → minted ≢ a.token
    → All (MintsOther a.token) ops
    → (ttl' seen' stamped' : ℕ)
    → let locks' = run (acquire a.key ttl owner minted seen stamped locks).1 ops in
      ((renew a ttl' seen' stamped' locks').0 ≡ none) × (release a locks' ≡ locks')
unfolding release
takeover_fences a ttl owner minted seen stamped locks ops {b} got fresh ms ttl' seen' stamped' =
    let (found, same, _) = lookup-acquire a.key ttl owner minted seen stamped locks got in
    let start : IsFenced a (acquire a.key ttl owner minted seen stamped locks).1 =
      ground (arith, text_eq_iff b.token a.token) in
    let fenced = run-IsFenced a _ ops ms start in
    (renew_fenced a ttl' seen' stamped' _ fenced, rw fenced)

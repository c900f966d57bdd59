-- ===== src/Lock/Tests.antt =====
-- The lock provider on a small table: `a1` holds the key `s` until 1500.
use whats_multi.Lock.{LockToken, Locks, live, acquire, renew, release, inspect, session_lock_key}
use whats_multi.Lock.Laws.{acquire_excludes}
use whats_multi.Lock.Fencing.{Op, renews, releases, inspects, run, takeover_fences}
use whats_multi.Prelude.{
  ◌≡◌, refl, ap, ◌≢◌, none, some, List, [], ◌∷◌, arith, Text, codes, lookup, insert,
}

abbrev key_s : Text
key_s = codes "s"

abbrev alice : LockToken
alice = record { key = key_s; token = codes "t1"; owner = codes "a1"; expires_at = 1500 }

abbrev bob : LockToken
bob = record { key = key_s; token = codes "t2"; owner = codes "b1"; expires_at = 2600 }

abbrev table : Locks
table = (key_s, alice) ∷ []

lock_key : session_lock_key key_s ≡ codes "session:s"
unfolding session_lock_key
lock_key = refl

acquire_free : acquire key_s 1000 (codes "a1") (codes "t1") 500 500 [] ≡ (some alice, table)
unfolding acquire live lookup insert
acquire_free = refl

-- The token of `b1` does not release the lock of `a1`.
release_other : release bob table ≡ table
unfolding release lookup
release_other = refl

acquire_lapsed : (acquire key_s 1000 (codes "b1") (codes "t2") 1600 1600 table).0 ≡ some bob
unfolding acquire live lookup
acquire_lapsed = refl

acquire_excludes_example :
    let locks' = (acquire key_s 1000 (codes "a1") (codes "t1") 500 500 []).1 in
    (acquire key_s 1000 (codes "b1") (codes "t2") 1500 1500 locks' ≡ (none, locks'))
    × (inspect key_s 1500 locks' ≡ (some alice, locks'))
unfolding acquire
acquire_excludes_example =
    acquire_excludes key_s 1000 (codes "a1") (codes "t1") 500 500 [] 1000 (codes "b1") (codes "t2")
      1500 1500 (ap (λ r. r.0) acquire_free) (omega arith)

-- `b1` has taken the key over, renews, and then releases it: `a1` is still out.
abbrev calls : List Op
calls = renews bob 1000 2000 2000 ∷ releases bob ∷ inspects key_s 2100 ∷ []

tokens_differ : codes "t2" ≢ codes "t1"
tokens_differ = ground arith

takeover_fences_example :
    let locks' = run (acquire key_s 1000 (codes "b1") (codes "t2") 1600 1600 table).1 calls in
    ((renew alice 1000 2200 2200 locks').0 ≡ none) × (release alice locks' ≡ locks')
takeover_fences_example =
    takeover_fences alice 1000 (codes "b1") (codes "t2") 1600 1600 table calls acquire_lapsed
      tokens_differ (tt, (tt, (tt, tt))) 1000 2200 2200

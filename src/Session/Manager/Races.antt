-- ===== src/Session/Manager/Races.antt =====
-- What happens between the awaits of `create`.
use whats_multi.Config.{assert_valid_session_id}
use whats_multi.Errors.{Result, ok, err, WhatsMultiError, session_exists, error_of}
use whats_multi.Session.Manager.{
  Handle, SessionManager, find, values, all, has, create_begin, create_end, add_adapter,
  assert_alive,
}
use whats_multi.Session.Manager.Invariant.{Inv, create_begin-ok}
use whats_multi.Session.Manager.Identities.{All-weaken}
use whats_multi.Session.Manager.Shutdown.{nothing, destroy}
use whats_multi.Prelude.{
  ℕ, ◌+◌, ◌<◌, ◌≡◌, refl, sym, subst, ◌≢◌, inl, inr, Bool, true, false, some, [], ◌∷◌, arith,
  if◌then◌else◌, Bool-cases, All, Text, text_eq, text_eq_refl, Dict, lookup, insert, lookup-insert,
}

passes :
    {A : Type 0} (alive valid : Result (Unit {0})) (taken : Bool) (e : WhatsMultiError) (x : A)
    → alive ≡ ok tt
    → valid ≡ ok tt
    → taken ≡ false
    → (elim alive [
      | err e' ↦ err e'
      | ok _ ↦ elim valid [ err e' ↦ err e' | ok _ ↦ if taken then err e else ok x ]
    ])
      ≡ ok x
passes (err e') valid taken e x a v t = cc
passes (ok _) (err e') taken e x a v t = cc
passes (ok _) (ok _) true e x a v t = cc
passes (ok _) (ok _) false e x a v t = refl

begins :
    (storage : ℕ) (id : Text) (m : SessionManager)
    → m.destroyed ≡ false
    → has m id ≡ false
    → assert_valid_session_id id ≡ ok tt
    → create_begin storage id m ≡ ok (record m { adapters = add_adapter storage m.adapters })
unfolding create_begin
begins storage id m living new valid =
    passes (assert_alive m) (assert_valid_session_id id) (has m id) (error_of session_exists id)
      (record m { adapters = add_adapter storage m.adapters }) (alive_of m living) valid new
  where
    alive_of : (m : SessionManager) → m.destroyed ≡ false → assert_alive m ≡ ok tt
    alive_of m living = unfold assert_alive in ground arith

-- A write under a key that was just written leaves nothing of the first.
All-insert_over :
    (P : Handle → Type 0) (id : Text) (first second : Handle) (d : Dict Handle)
    → P second
    → All P (values d)
    → All P (values (insert id second (insert id first d)))
unfolding insert
All-insert_over P id first second [] p q = rw (text_eq_refl id) (p, tt)
All-insert_over P id first second ((j, k) ∷ d) p (q, r) = elim (Bool-cases (text_eq j id)) [
  | inl e ↦ rw (e, text_eq_refl id) (p, r)
  | inr e ↦ rw (e, e) (q, All-insert_over P id first second d p r)
]

-- A second create of the id is let through; of the two sessions that then come, the manager holds
-- the second under the id and the first nowhere.
abbrev pub Orphans : ℕ → Text → Text → SessionManager → Type 0
Orphans storage name id m =
    let again = record m { adapters = add_adapter storage m.adapters } in
    let (first, m1) = create_end storage name id again in
    let (second, m2) = create_end storage name id m1 in
    (create_begin storage id m ≡ ok again)
    × (find m2 id ≡ some second)
    × (first.ref ≢ second.ref)
    × All (λ (h : Handle). h.ref ≢ first.ref) (all m2)

-- If a second create of an id begins while the first one still waits, both succeed with different
-- sessions; the manager then holds the second one under the id and the first one nowhere, so that
-- neither a removal nor the shutdown can reach it.
pub overlapping_creates :
    (storage : ℕ) (name id : Text) (m m' : SessionManager)
    → Inv m
    → create_begin storage id m ≡ ok m'
    → Orphans storage name id m'
unfolding create_end find all has
overlapping_creates storage name id m m' v h =
    let (same, living, new, valid) = create_begin-ok storage id m m' h in
    let m0 : SessionManager = record m { adapters = add_adapter storage m.adapters } in
    let first : Handle = record { ref = m.next_ref; session_id = id; storage = storage } in
    let second : Handle = record { ref = m.next_ref + 1; session_id = id; storage = storage } in
    subst (Orphans storage name id) (sym same) (
      begins storage id m0 living new valid,
      rw (lookup-insert id id second (insert id first m.sessions), text_eq_refl id) refl,
      λ e. omega arith,
      All-insert_over (λ g. g.ref ≢ m.next_ref) id first second m.sessions (λ e. omega arith)
          (All-weaken (λ g. g.ref < m.next_ref) (λ g. g.ref ≢ m.next_ref) (λ g l e. omega arith)
            (values m.sessions) v.old),
    )

abbrev pub Stranded : ℕ → Text → Text → Bool → (ℕ → Bool) → (ℕ → Bool) → SessionManager → Type 0
Stranded storage name id lock sf af m =
    let gone = destroy lock sf af m in
    let (session, late) = create_end storage name id gone.1 in
    (gone.1.destroyed ≡ true)
    × (find late id ≡ some session)
    × (destroy lock sf af late ≡ (nothing, late))

-- A create that still waits when the manager is destroyed registers its session on the destroyed
-- manager, where a further shutdown does nothing.
create_outlives_destroy :
    (storage : ℕ) (name id : Text) (lock : Bool) (sf af : ℕ → Bool) (m m' : SessionManager)
    → create_begin storage id m ≡ ok m'
    → Stranded storage name id lock sf af m'
unfolding create_end find destroy lookup insert
create_outlives_destroy storage name id lock sf af m m' h =
    let (same, living, new, valid) = create_begin-ok storage id m m' h in
    subst (Stranded storage name id lock sf af) (sym same)
      (rw living (refl, rw (lookup, text_eq_refl id) refl, refl))

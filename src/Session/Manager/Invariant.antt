-- ===== src/Session/Manager/Invariant.antt =====
-- What holds of a manager after any sequence of whole calls.
use whats_multi.Session.Manager.{
  Handle, RemovalReason, session_removed, SessionManager, member_of, add_adapter, new_manager,
  values, has, create_begin, create_end, assert_alive,
}
use whats_multi.Session.Manager.Identities.{
  Apart, Once, All-insert, All-delete, All-weaken, Apart-insert, Apart-delete, add_adapter-Once,
  add_adapter-keeps, add_adapter-adds,
}
use whats_multi.Session.Manager.Shutdown.{Shutdown, destroy}
use whats_multi.Config.{assert_valid_session_id}
use whats_multi.Errors.{Result, ok, err, WhatsMultiError, session_exists, error_of}
use whats_multi.Prelude.{
  ℕ, ◌+◌, ◌<◌, ◌≡◌, refl, sym, ap, subst, Bool, true, false, [], ◌∷◌, arith, if◌then◌else◌, All,
  Text, delete,
}

-- Every object has its own identity, every backend of a session is known, once, and a manager that
-- was destroyed holds no session.
pub record Inv (m : SessionManager) : Type 0 where
  pub old : All (λ (h : Handle). h.ref < m.next_ref) (values m.sessions)
  pub apart : Apart (values m.sessions)
  pub known : All (λ (h : Handle). member_of h.storage m.adapters ≡ true) (values m.sessions)
  pub once : Once m.adapters
  pub ended : m.destroyed ≡ true → m.sessions ≡ []

-- A whole call: a create that its awaits let finish, one that they end, a removal, or the shutdown.
pub data Move (m : SessionManager) : SessionManager → Type 0 where
  creates :
      (storage : ℕ) (name id : Text) {m' : SessionManager}
      → create_begin storage id m ≡ ok m'
      → Move m (create_end storage name id m').1
  create_fails :
      (storage : ℕ) (id : Text) {m' : SessionManager}
      → create_begin storage id m ≡ ok m'
      → Move m m'
  takes_away :
      (id : Text) (reason : RemovalReason)
      → Move m (record m {
        sessions = delete id m.sessions;
        events = session_removed id reason ∷ m.events;
      })
  destroys :
      (lock : Bool) (session_fails adapter_fails : ℕ → Bool)
      → Move m (destroy lock session_fails adapter_fails m).1

pub data Reach (m : SessionManager) : SessionManager → Type 0 where
  here : Reach m m
  after : {m' m'' : SessionManager} → Reach m m' → Move m' m'' → Reach m m''

abbrev Checks :
    Result (Unit {0}) → Result (Unit {0}) → Bool → SessionManager → SessionManager → Type 0
Checks alive valid taken m m' = (m' ≡ m) × (alive ≡ ok tt) × (taken ≡ false) × (valid ≡ ok tt)

checked :
    (alive valid : Result (Unit {0})) (taken : Bool) (e : WhatsMultiError) (m m' : SessionManager)
    → (elim alive [
      | err e' ↦ err e'
      | ok _ ↦ elim valid [ err e' ↦ err e' | ok _ ↦ if taken then err e else ok m ]
    ])
      ≡ ok m'
    → Checks alive valid taken m m'
checked (err e') valid taken e m m' h = cc
checked (ok _) (err e') taken e m m' h = cc
checked (ok _) (ok _) true e m m' h = cc
checked (ok _) (ok _) false e m m' h = (cc, refl, refl, refl)

alive : (m : SessionManager) → assert_alive m ≡ ok tt → m.destroyed ≡ false
unfolding assert_alive
alive m h = ground arith

-- What the first turn of `create` checks and changes.
pub create_begin-ok :
    (storage : ℕ) (id : Text) (m m' : SessionManager)
    → create_begin storage id m ≡ ok m'
    → (m' ≡ record m { adapters = add_adapter storage m.adapters })
      × (m.destroyed ≡ false)
      × (has m id ≡ false)
      × (assert_valid_session_id id ≡ ok tt)
unfolding create_begin
create_begin-ok storage id m m' h =
    let (same, living, new, valid) =
      checked (assert_alive m) (assert_valid_session_id id) (has m id) (error_of session_exists id)
        (record m { adapters = add_adapter storage m.adapters }) m' h in
    (same, alive m living, new, valid)

new_manager-Inv : (storage : ℕ) → Inv (new_manager storage)
unfolding new_manager
new_manager-Inv storage = record {
  old = tt;
  apart = tt;
  known = tt;
  once = (refl, tt);
  ended = λ h. refl;
}

begun :
    (storage : ℕ) (m : SessionManager)
    → Inv m
    → Inv (record m { adapters = add_adapter storage m.adapters })
begun storage m v = record {
  old = v.old;
  apart = v.apart;
  known =
      All-weaken (λ h. member_of h.storage m.adapters ≡ true)
        (λ h. member_of h.storage (add_adapter storage m.adapters) ≡ true)
        (λ h. add_adapter-keeps h.storage storage m.adapters) (values m.sessions) v.known;
  once = add_adapter-Once storage m.adapters v.once;
  ended = v.ended;
}

made :
    (storage : ℕ) (name id : Text) (m : SessionManager)
    → Inv m
    → m.destroyed ≡ false
    → member_of storage m.adapters ≡ true
    → Inv (create_end storage name id m).1
unfolding create_end
made storage name id m v living there =
    let h : Handle = record { ref = m.next_ref; session_id = id; storage = storage } in
    record {
      old =
          All-insert (λ k. k.ref < m.next_ref + 1) id h m.sessions (omega arith)
            (All-weaken (λ k. k.ref < m.next_ref) (λ k. k.ref < m.next_ref + 1) (λ k l. omega arith)
              (values m.sessions) v.old);
      apart = Apart-insert id h m.sessions v.old v.apart;
      known = All-insert (λ k. member_of k.storage m.adapters ≡ true) id h m.sessions there v.known;
      once = v.once;
      ended = λ e. absurd (cc);
    }

if-Inv :
    (b : Bool) (s t : Shutdown) (m m' : SessionManager)
    → Inv m
    → Inv m'
    → Inv (let p : Shutdown × SessionManager = if b then (s, m) else (t, m') in p.1)
if-Inv true s t m m' v w = v
if-Inv false s t m m' v w = w

pub Move-Inv : {m m' : SessionManager} → Inv m → Move m m' → Inv m'
unfolding destroy delete
Move-Inv {m} v (creates storage name id {m'} h) =
    let (same, living, _, _) = create_begin-ok storage id m m' h in
    subst (λ x. Inv (create_end storage name id x).1) (sym same)
      (made storage name id (record m { adapters = add_adapter storage m.adapters })
        (begun storage m v) living (add_adapter-adds storage m.adapters))
Move-Inv {m} v (create_fails storage id {m'} h) =
    subst Inv (sym (create_begin-ok storage id m m' h).0) (begun storage m v)
Move-Inv {m} v (takes_away id reason) = record {
  old = All-delete (λ h. h.ref < m.next_ref) id m.sessions v.old;
  apart = Apart-delete id m.sessions v.apart;
  known = All-delete (λ h. member_of h.storage m.adapters ≡ true) id m.sessions v.known;
  once = v.once;
  ended = λ h. ap (delete id) (v.ended h);
}
Move-Inv {m} v (destroys lock sf af) =
    if-Inv m.destroyed _ _ _ _ v
      (record { old = tt; apart = tt; known = tt; once = tt; ended = λ h. refl })

-- After any sequence of whole calls on a new manager the identities of its sessions are apart, their
-- backends are all known and noted once, and nothing is left once it was destroyed.
pub new_manager-Reach : (storage : ℕ) {m : SessionManager} → Reach (new_manager storage) m → Inv m
new_manager-Reach storage here = new_manager-Inv storage
new_manager-Reach storage (after r mv) = Move-Inv (new_manager-Reach storage r) mv

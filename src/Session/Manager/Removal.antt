-- ===== src/Session/Manager/Removal.antt =====
-- How sessions leave the manager, one by one and all at once.
use whats_multi.Auth.Codec.{Json, Values}
use whats_multi.Auth.Keys.{meta_key}
use whats_multi.Errors.{Result, ok, err, WhatsMultiError, ours}
use whats_multi.Session.Manager.{
  Handle, RemovalReason, session_removed, SessionManager, member_of, values, find, get, deregister,
  take_away,
}
use whats_multi.Session.Manager.Identities.{times, Apart, Once}
use whats_multi.Session.Manager.Invariant.{Inv}
use whats_multi.Session.Manager.Shutdown.{Shutdown, ref_of, nothing, destroy}
use whats_multi.Session.Registry.{remove}
use whats_multi.Storage.Adapter.{Attempt, returned, threw, StorageAdapter, IsStorage}
use whats_multi.Storage.Namespace.{storage_key}
use whats_multi.Prelude.{
  ℕ, ◌≡◌, refl, subst, ◌∙◌, ◌≢◌, inl, inr, Bool, true, false, Option, none, some, List, [], ◌∷◌,
  map, arith, if◌then◌else◌, if-false, Bool-cases, All, Text, text_eq, text_eq_refl, Dict, lookup,
  lookup-delete,
}

module _ (to_base64 from_base64 : Text → Text) (array_bytes : Values → Text)
    (a : StorageAdapter Json) (peek : Text → a.Store → Option Json) (law : IsStorage a peek) where
  -- What a removal that ends with `r` may leave.
  abbrev pub Removed :
      Text → RemovalReason → SessionManager → Attempt (Unit {0}) × SessionManager × a.Store → Type 0
  Removed id reason m (threw t, m', s') = m' ≡ m
  Removed id reason m (returned _, m', s') =
      ((j : Text) → find m' j ≡ (if text_eq id j then none else find m j))
      × (m'.events ≡ session_removed id reason ∷ m.events)
      × (peek (storage_key id meta_key) s' ≡ none)

  deregister-Removed :
      (id : Text) (reason : RemovalReason) (m : SessionManager) (s : a.Store)
      → Removed id reason m (
          deregister to_base64 from_base64 array_bytes a id reason m
            (remove to_base64 from_base64 array_bytes a id s))
  deregister-Removed id reason m s =
      of_remove (remove to_base64 from_base64 array_bytes a id s) refl
    where
      of_remove :
          (r : Attempt (Unit {0}) × a.Store)
          → remove to_base64 from_base64 array_bytes a id s ≡ r
          → Removed id reason m (deregister to_base64 from_base64 array_bytes a id reason m r)
      of_remove (threw t, s') e = refl
      of_remove (returned _, s') e = (
        λ j. unfold find in lookup-delete id j m.sessions,
        refl,
        unfold remove in
            law.del_removes (storage_key id meta_key) (storage_key id meta_key ∷ []) s s' e
            ∙ rw (text_eq_refl (storage_key id meta_key)) refl,
      )

  -- A logout or a removal that succeeds takes the session, and no other, out of the map, tells of it
  -- once and drops its metadata; one that fails, in the session or in its backend, leaves the manager
  -- as it was.
  pub take_away-Removed :
      (id : Text) (reason : RemovalReason) (ended : Option WhatsMultiError) (m : SessionManager)
      (s : a.Store)
      → Removed id reason m (take_away to_base64 from_base64 array_bytes a id reason ended m s)
  unfolding take_away
  take_away-Removed id reason ended m s = of_get (get m id) ended
    where
      of_get :
          (r : Result Handle) (ended : Option WhatsMultiError)
          → Removed id reason m (elim r [
            | err e ↦ (threw (ours e), m, s)
            | ok h ↦ elim ended [
              | some e ↦ (threw (ours e), m, s)
              | none ↦
                  deregister to_base64 from_base64 array_bytes a id reason m
                    (remove to_base64 from_base64 array_bytes a id s)
            ]
          ])
      of_get (err e) ended = refl
      of_get (ok h) (some e) = refl
      of_get (ok h) none = deregister-Removed id reason m s

times-absent : (n : ℕ) (xs : List ℕ) → member_of n xs ≡ false → times n xs ≡ 0
times-absent n [] h = refl
times-absent n (x ∷ xs) h = ground (arith, times-absent n xs)

times-once : (n : ℕ) (xs : List ℕ) → Once xs → member_of n xs ≡ true → times n xs ≡ 1
times-once n [] o h = cc
times-once n (x ∷ xs) (new, o) h = ground (arith, times-absent n xs, times-once n xs o)

lookup-All :
    (P : Handle → Type 0) (id : Text) (h : Handle) (d : Dict Handle)
    → All P (values d)
    → lookup id d ≡ some h
    → P h
unfolding lookup
lookup-All P id h [] q e = cc
lookup-All P id h ((j, k) ∷ d) (p, q) e = elim (Bool-cases (text_eq j id)) [
  | inl same ↦ let k_is_h : some k ≡ some h = rw (same, lookup) at e in subst P (cc) p
  | inr other ↦ lookup-All P id h d q (rw (other, lookup) at e)
]

times-foreign :
    (r : ℕ) (hs : List Handle) → All (λ (k : Handle). k.ref ≢ r) hs → times r (map ref_of hs) ≡ 0
times-foreign r [] q = refl
times-foreign r (h ∷ hs) (ne, q) = ground (arith, times-foreign r hs q)

times_of_others :
    (id : Text) (h : Handle) (d : Dict Handle)
    → Apart (values d)
    → lookup id d ≡ some h
    → times h.ref (map ref_of (values d)) ≡ 1
unfolding lookup
times_of_others id h [] p e = cc
times_of_others id h ((j, k) ∷ d) (q, p) e = elim (Bool-cases (text_eq j id)) [
  | inl same ↦
      let k_is_h : some k ≡ some h = rw (same, lookup) at e in
      let k_h : k ≡ h = cc in
      subst (λ (g : Handle). times g.ref (map ref_of (k ∷ values d)) ≡ 1) k_h
        (ground (arith, times-foreign k.ref (values d) q))
  | inr other ↦
      let later = rw (other, lookup) at e in
      let ne = lookup-All (λ g. g.ref ≢ k.ref) id h d q later in
      ground (arith, times_of_others id h d p later)
]

-- What a first shutdown owes to the session `h`.
abbrev pub Reached : Bool → (ℕ → Bool) → (ℕ → Bool) → Handle → Shutdown × SessionManager → Type 0
Reached lock sf af h (s, m) =
    (times h.ref s.sessions ≡ 1)
    × (times h.storage s.adapters ≡ 1)
    × (s.lock ≡ lock)
    × ((j : Text) → find m j ≡ none)
    × (destroy lock sf af m ≡ (nothing, m))

living :
    (m : SessionManager) (id : Text) (h : Handle) → Inv m → find m id ≡ some h → m.destroyed ≡ false
unfolding find lookup
living m id h v e = elim (Bool-cases m.destroyed) [
  | inl gone ↦ absurd (cc (rw (v.ended gone) at e))
  | inr alive ↦ alive
]

-- The shutdown of a manager that is in order calls each registered session once and each session's
-- backend once, whichever of the calls fail, and leaves no session; a second shutdown calls nothing.
pub destroy_reaches_all :
    (lock : Bool) (sf af : ℕ → Bool) (m : SessionManager) (id : Text) (h : Handle)
    → Inv m
    → find m id ≡ some h
    → Reached lock sf af h (destroy lock sf af m)
unfolding destroy
destroy_reaches_all lock sf af m id h v e =
    let at_dict : lookup id m.sessions ≡ some h = unfold find in e in
    subst (Reached lock sf af h) (if-false m.destroyed _ _ (living m id h v e)) (
      times_of_others id h m.sessions v.apart at_dict,
      times-once h.storage m.adapters v.once
          (lookup-All (λ k. member_of k.storage m.adapters ≡ true) id h m.sessions v.known at_dict),
      refl,
      λ j. unfold find lookup in refl,
      refl,
    )

-- ===== src/Session/Manager/Identities.antt =====
-- Lists of sessions and of backends in which nothing stands twice.
use whats_multi.Session.Manager.{Handle, member_of, add_adapter, values}
use whats_multi.Prelude.{
  ℕ, ◌+◌, ◌<◌, ◌≡◌, refl, ◌∙◌, ◌≢◌, inl, inr, true, false, ◌||◌, List, [], ◌∷◌, ◌++◌, arith, ◌==◌,
  if◌then◌else◌, Bool-cases, All, Text, text_eq, Dict, insert, delete,
}

abbrev pub times : ℕ → List ℕ → ℕ
times n [] = 0
times n (x ∷ xs) = (if x == n then 1 else 0) + times n xs

abbrev pub Apart : List Handle → Type 0
Apart [] = Unit
Apart (h ∷ hs) = All (λ (k : Handle). k.ref ≢ h.ref) hs × Apart hs

abbrev pub Once : List ℕ → Type 0
Once [] = Unit
Once (x ∷ xs) = (member_of x xs ≡ false) × Once xs

module _ (P : Handle → Type 0) where
  pub All-insert :
      (id : Text) (h : Handle) (d : Dict Handle)
      → P h
      → All P (values d)
      → All P (values (insert id h d))
  unfolding insert
  All-insert id h [] p q = (p, tt)
  All-insert id h ((j, k) ∷ d) p (q, r) = elim (Bool-cases (text_eq j id)) [
    | inl e ↦ rw e (p, r)
    | inr e ↦ rw e (q, All-insert id h d p r)
  ]

  pub All-delete : (id : Text) (d : Dict Handle) → All P (values d) → All P (values (delete id d))
  unfolding delete
  All-delete id [] q = tt
  All-delete id ((j, k) ∷ d) (q, r) = elim (Bool-cases (text_eq j id)) [
    | inl e ↦ rw e (All-delete id d r)
    | inr e ↦ rw e (q, All-delete id d r)
  ]

  pub All-weaken :
      (Q : Handle → Type 0) → ((h : Handle) → P h → Q h) → (hs : List Handle) → All P hs → All Q hs
  All-weaken Q f [] q = tt
  All-weaken Q f (h ∷ hs) (p, q) = (f h p, All-weaken Q f hs q)

pub Apart-insert :
    (id : Text) (h : Handle) (d : Dict Handle)
    → All (λ (k : Handle). k.ref < h.ref) (values d)
    → Apart (values d)
    → Apart (values (insert id h d))
unfolding insert
Apart-insert id h [] lt q = (tt, tt)
Apart-insert id h ((j, k) ∷ d) (lt, lts) (q, r) = elim (Bool-cases (text_eq j id)) [
  | inl e ↦ rw e (
    All-weaken (λ g. g.ref < h.ref) (λ g. g.ref ≢ h.ref) (λ g l same. omega arith) (values d) lts,
    r,
  )
  | inr e ↦
      rw e
        (All-insert (λ g. g.ref ≢ k.ref) id h d (λ same. omega arith) q, Apart-insert id h d lts r)
]

pub Apart-delete : (id : Text) (d : Dict Handle) → Apart (values d) → Apart (values (delete id d))
unfolding delete
Apart-delete id [] q = tt
Apart-delete id ((j, k) ∷ d) (q, r) = elim (Bool-cases (text_eq j id)) [
  | inl e ↦ rw e (Apart-delete id d r)
  | inr e ↦ rw e (All-delete (λ g. g.ref ≢ k.ref) id d q, Apart-delete id d r)
]

member_of-append : (n k : ℕ) (xs : List ℕ) → member_of n (xs ++ k ∷ []) ≡ (member_of n xs || k == n)
member_of-append n k [] = ground arith
member_of-append n k (x ∷ xs) = ground (arith, member_of-append n k xs)

Once-append : (k : ℕ) (xs : List ℕ) → member_of k xs ≡ false → Once xs → Once (xs ++ k ∷ [])
Once-append k [] new o = (refl, tt)
Once-append k (x ∷ xs) new (a, o) =
    (member_of-append x k xs ∙ ground arith, Once-append k xs (ground arith) o)

pub add_adapter-Once : (k : ℕ) (xs : List ℕ) → Once xs → Once (add_adapter k xs)
unfolding add_adapter
add_adapter-Once k xs o = elim (Bool-cases (member_of k xs)) [
  | inl e ↦ rw e o
  | inr e ↦ rw e (Once-append k xs e o)
]

pub add_adapter-keeps :
    (n k : ℕ) (xs : List ℕ) → member_of n xs ≡ true → member_of n (add_adapter k xs) ≡ true
unfolding add_adapter
add_adapter-keeps n k xs h = ground (arith, member_of-append n k xs)

pub add_adapter-adds : (k : ℕ) (xs : List ℕ) → member_of k (add_adapter k xs) ≡ true
unfolding add_adapter
add_adapter-adds k xs = ground (arith, member_of-append k k xs)

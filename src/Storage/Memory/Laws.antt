-- ===== src/Storage/Memory/Laws.antt =====
-- The adapter as a map from keys to texts.
use whats_multi.Errors.{Result, ok, err}
use whats_multi.Config.{is_valid_session_id}
use whats_multi.Storage.Namespace.{session_prefix, storage_key}
use whats_multi.Storage.Namespace.Isolation.{session_prefix_isolates}
use whats_multi.Storage.Memory.{Store, get, set, mset, del, all_keys, keys, clear_from, clear}
use whats_multi.Prelude.{
  ◌≡◌, refl, ap, ◌∙◌, Bool, true, false, ◌&&◌, ◌||◌, Option, none, some, List, [], ◌∷◌, arith,
  if◌then◌else◌, keep, Text, text_eq, starts_with, text_eq_refl, text_eq_iff, lookup, insert,
  delete, lookup-insert, lookup-delete,
}

abbrev pub contains : Text → List Text → Bool
contains j [] = false
contains j (k ∷ ks) = text_eq k j || contains j ks

pub get-del :
    (j : Text) (ks : List Text) (store : Store)
    → get j (del ks store) ≡ (if contains j ks then none else get j store)
unfolding get del
get-del j [] store = refl
get-del j (k ∷ ks) store = ground (arith, get-del j ks (delete k store), lookup-delete k j store)

clear_from-get :
    (prefix j : Text) (ks : List Text) (store : Store)
    → get j (clear_from prefix ks store)
      ≡ (if starts_with prefix j && contains j ks then none else get j store)
unfolding get clear_from
clear_from-get prefix j [] store = ground arith
clear_from-get prefix j (k ∷ ks) store = ground (
  arith,
  clear_from-get prefix j ks (delete k store),
  clear_from-get prefix j ks store,
  lookup-delete k j store,
  text_eq_iff k j,
)

get-none : (j : Text) (store : Store) → contains j (all_keys store) ≡ false → get j store ≡ none
unfolding get lookup
get-none j [] h = refl
get-none j ((k, v) ∷ store) h = ground (arith, get-none j store)

-- `clear` removes exactly the keys under the prefix.
pub get-clear :
    (prefix j : Text) (store : Store)
    → get j (clear prefix store) ≡ (if starts_with prefix j then none else get j store)
unfolding clear
get-clear prefix j store =
    ground (arith, clear_from-get prefix j (all_keys store) store, get-none j store)

-- Purging one session removes each of its keys and leaves the keys of every other session as they
-- were, in any store, foreign keys included.
pub clear_session :
    (a b key : Text) (store : Store)
    → is_valid_session_id a ≡ true
    → is_valid_session_id b ≡ true
    → get (storage_key b key) (clear (session_prefix a) store)
      ≡ (if text_eq a b then none else get (storage_key b key) store)
clear_session a b key store va vb = rw (
  get-clear (session_prefix a) (storage_key b key) store,
  (session_prefix_isolates a b key va vb).0,
)

abbrev pub is_some {ℓ} : {A : Type ℓ} → Option A → Bool
is_some none = false
is_some (some a) = true

pub contains-all_keys :
    (j : Text) (store : Store) → contains j (all_keys store) ≡ is_some (lookup j store)
unfolding lookup
contains-all_keys j [] = refl
contains-all_keys j ((k, v) ∷ store) = ground (arith, contains-all_keys j store)

pub contains-keep :
    (p : Text → Bool) (j : Text) (ks : List Text) → contains j (keep p ks) ≡ (p j && contains j ks)
contains-keep p j [] = ground arith
contains-keep p j (k ∷ ks) = ground (arith, contains-keep p j ks, text_eq_iff k j)

-- `keys` lists exactly the stored keys under the prefix, and after `set` the new key among them.
keys_exact :
    (prefix j k json : Text) (store : Store) {after : Store}
    → set k (some json) store ≡ ok after
    → (contains j (keys prefix store) ≡ (starts_with prefix j && is_some (get j store)))
      × (get j after ≡ (if text_eq k j then some json else get j store))
      × (contains k (keys prefix after) ≡ starts_with prefix k)
unfolding set keys get
keys_exact prefix j k json store {after} h = (
  contains-keep (starts_with prefix) j (all_keys store)
      ∙ ap (λ b. starts_with prefix j && b) (contains-all_keys j store),
  ground (arith, lookup-insert k j json store),
  ground (
    arith,
    contains-keep (starts_with prefix) k (all_keys after),
    contains-all_keys k after,
    lookup-insert k k json store,
    text_eq_refl k,
  ),
)

-- One entry after the other, stopping at the first that cannot be encoded.
unfoldable pub set_each : List (Text × Option Text) → Store → Result Store
set_each [] store = ok store
set_each ((key, value) ∷ rest) store = elim (set key value store) [
  | err e ↦ err e
  | ok next ↦ set_each rest next
]

-- A batch writes what single writes in its order would write, and fails exactly when one of them
-- would; as it encodes first, it fails with no entry written.
pub mset-set_each :
    (entries : List (Text × Option Text)) (store : Store)
    → mset entries store ≡ set_each entries store
unfolding mset set_each set
mset-set_each [] store = refl
mset-set_each ((key, none) ∷ rest) store = refl
mset-set_each ((key, some json) ∷ rest) store =
    ground (arith, mset-set_each rest (insert key json store))

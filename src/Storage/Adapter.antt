-- ===== src/Storage/Adapter.antt =====
-- src/storage/adapter.ts: the contract that every backend meets, as operations and as laws on what a
-- store holds.
use whats_multi.Errors.{Thrown}
use whats_multi.Storage.Memory.Laws.{contains, is_some}
use whats_multi.Prelude.{
  ◌≡◌, ◌&&◌, Option, none, some, List, [], ◌∷◌, map, if◌then◌else◌, Text, text_eq, starts_with,
}

-- How a call of a backend ends.
pub data Attempt {ℓ} (A : Type ℓ) : Type ℓ where
  returned : A → Attempt A
  threw : Thrown → Attempt A

-- `V` is JSON. Each operation gives its outcome and the store that it leaves. A backend without
-- `init` has one that does nothing.
pub record StorageAdapter (V : Type 0) : Type 1 where
  pub Store : Type 0
  pub init : Store → Attempt (Unit {0}) × Store
  pub get : Text → Store → Attempt (Option V) × Store
  pub mget : List Text → Store → Attempt (List (Option V)) × Store
  pub set : Text → V → Store → Attempt (Unit {0}) × Store
  pub mset : List (Text × V) → Store → Attempt (Unit {0}) × Store
  pub del : List Text → Store → Attempt (Unit {0}) × Store
  pub keys : Text → Store → Attempt (List Text) × Store
  pub clear : Text → Store → Attempt (Unit {0}) × Store

-- What a key holds after a batch of writes, in its order.
abbrev pub written : {V : Type 0} → List (Text × V) → Text → Option V → Option V
written [] j old = old
written ((k, v) ∷ rest) j old = written rest j (if text_eq k j then some v else old)

-- What the contract says of the calls that return, where `peek` is what a store holds. A call that
-- throws may have done anything.
pub record IsStorage {V : Type 0} (a : StorageAdapter V) (peek : Text → a.Store → Option V)
    : Type 0 where
  pub init_keeps : (j : Text) (s s' : a.Store) → a.init s ≡ (returned tt, s') → peek j s' ≡ peek j s
  pub get_reads :
      (k : Text) (s s' : a.Store) (found : Option V)
      → a.get k s ≡ (returned found, s')
      → found ≡ peek k s
  pub get_keeps :
      (j k : Text) (s s' : a.Store) (found : Option V)
      → a.get k s ≡ (returned found, s')
      → peek j s' ≡ peek j s
  pub mget_reads :
      (ks : List Text) (s s' : a.Store) (found : List (Option V))
      → a.mget ks s ≡ (returned found, s')
      → found ≡ map (λ k. peek k s) ks
  pub set_writes :
      (j k : Text) (v : V) (s s' : a.Store)
      → a.set k v s ≡ (returned tt, s')
      → peek j s' ≡ (if text_eq k j then some v else peek j s)
  pub mset_writes :
      (j : Text) (entries : List (Text × V)) (s s' : a.Store)
      → a.mset entries s ≡ (returned tt, s')
      → peek j s' ≡ written entries j (peek j s)
  pub del_removes :
      (j : Text) (ks : List Text) (s s' : a.Store)
      → a.del ks s ≡ (returned tt, s')
      → peek j s' ≡ (if contains j ks then none else peek j s)
  pub keys_lists :
      (prefix j : Text) (s s' : a.Store) (ks : List Text)
      → a.keys prefix s ≡ (returned ks, s')
      → contains j ks ≡ (starts_with prefix j && is_some (peek j s))
  pub keys_keeps :
      (prefix j : Text) (s s' : a.Store) (ks : List Text)
      → a.keys prefix s ≡ (returned ks, s')
      → peek j s' ≡ peek j s
  pub clear_removes :
      (prefix j : Text) (s s' : a.Store)
      → a.clear prefix s ≡ (returned tt, s')
      → peek j s' ≡ (if starts_with prefix j then none else peek j s)

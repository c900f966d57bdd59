-- ===== src/Storage/Memory/Contract.antt =====
-- The adapter that src/storage/memory.ts returns, as a backend of src/storage/adapter.ts.
use whats_multi.Errors.{Result, ok, err, ours}
use whats_multi.Storage.Adapter.{Attempt, returned, threw, StorageAdapter, IsStorage, written}
use whats_multi.Storage.Memory.{Store, get, mget, set, mset, del, all_keys, keys, clear}
use whats_multi.Storage.Memory.Laws.{
  contains, is_some, set_each, mset-set_each, get-del, get-clear, contains-all_keys, contains-keep,
}
use whats_multi.Prelude.{
  ◌≡◌, refl, sym, ap, ◌∙◌, inl, inr, Bool, true, false, ◌&&◌, Option, none, some, List, [], ◌∷◌,
  map, arith, if◌then◌else◌, Option-cases, Text, text_eq, starts_with, lookup, insert,
  lookup-insert,
}

-- `stringify` is `JSON.stringify`, none for a value that has no JSON, and `parse` is `JSON.parse`.
module _ {V : Type 0} (stringify : V → Option Text) (parse : Text → V) where
  abbrev pub decode : Option Text → Option V
  decode none = none
  decode (some json) = some (parse json)

  abbrev pub wrote : Store → Result Store → Attempt (Unit {0}) × Store
  wrote s (ok s') = (returned tt, s')
  wrote s (err e) = (threw (ours e), s)

  abbrev pub texts : List (Text × V) → List (Text × Option Text)
  texts = map (λ (k, v). (k, stringify v))

  abbrev pub memory_storage : StorageAdapter V
  memory_storage = record {
    Store = Store;
    init = λ s. (returned tt, s);
    get = λ k s. (returned (decode (get k s)), s);
    mget = λ ks s. (returned (map decode (mget ks s)), s);
    set = λ k v s. wrote s (set k (stringify v) s);
    mset = λ entries s. wrote s (mset (texts entries) s);
    del = λ ks s. (returned tt, del ks s);
    keys = λ prefix s. (returned (keys prefix s), s);
    clear = λ prefix s. (returned tt, clear prefix s);
  }

  unfoldable pub peek : Text → Store → Option V
  peek k s = decode (lookup k s)

  module _ (parses : (v : V) (json : Text) → stringify v ≡ some json → parse json ≡ v) where
    decode-if :
        (b : Bool) (json : Text) (o : Option Text)
        → decode (if b then some json else o) ≡ (if b then some (parse json) else decode o)
    decode-if true json o = refl
    decode-if false json o = refl

    decode-removed :
        (b : Bool) (o : Option Text)
        → decode (if b then none else o) ≡ (if b then none else decode o)
    decode-removed true o = refl
    decode-removed false o = refl

    is_some-decode : (o : Option Text) → is_some (decode o) ≡ is_some o
    is_some-decode none = refl
    is_some-decode (some json) = refl

    map-mget : (ks : List Text) (s : Store) → map decode (mget ks s) ≡ map (λ k. peek k s) ks
    unfolding mget peek
    map-mget [] s = refl
    map-mget (k ∷ ks) s = ap (λ vs. decode (lookup k s) ∷ vs) (map-mget ks s)

    set-ok :
        (j k : Text) (v : V) (s s' : Store)
        → set k (stringify v) s ≡ ok s'
        → peek j s' ≡ (if text_eq k j then some v else peek j s)
    unfolding set peek
    set-ok j k v s s' h = elim (Option-cases (stringify v)) [
      | inl e ↦ absurd (cc (rw (e, set) at h))
      | inr (json, e) ↦
          let same : insert k json s ≡ s' = cc (rw (e, set) at h) in
          rw
            (
              ← same,
              lookup-insert k j json s,
              decode-if (text_eq k j) json (lookup j s),
              parses v json e,
            )
            refl
    ]

    set_wrote :
        (j k : Text) (v : V) (s s' : Store)
        → wrote s (set k (stringify v) s) ≡ (returned tt, s')
        → peek j s' ≡ (if text_eq k j then some v else peek j s)
    set_wrote j k v s s' h = ground (arith, set-ok j k v s s')

    set_each-ok :
        (j : Text) (entries : List (Text × V)) (s s' : Store)
        → set_each (texts entries) s ≡ ok s'
        → peek j s' ≡ written entries j (peek j s)
    unfolding set_each
    set_each-ok j [] s s' h = ap (peek j) (cc)
    set_each-ok j ((k, v) ∷ rest) s s' h =
        stepped (set k (stringify v) s) refl (λ next. set_each-ok j rest next s') h
      where
        stepped :
            (r : Result Store)
            → set k (stringify v) s ≡ r
            → ((next : Store)
                → set_each (texts rest) next ≡ ok s'
                → peek j s' ≡ written rest j (peek j next))
            → elim r [ err e ↦ err e | ok next ↦ set_each (texts rest) next ] ≡ ok s'
            → peek j s' ≡ written rest j (if text_eq k j then some v else peek j s)
        stepped (err e) first ih h = cc
        stepped (ok next) first ih h = ih next h ∙ ap (written rest j) (set-ok j k v s next first)

    mset_wrote :
        (j : Text) (entries : List (Text × V)) (s s' : Store)
        → wrote s (mset (texts entries) s) ≡ (returned tt, s')
        → peek j s' ≡ written entries j (peek j s)
    mset_wrote j entries s s' h =
        let one_by_one = rw (mset-set_each (texts entries) s) at h in
        ground (arith, set_each-ok j entries s s')

    peek-del :
        (j : Text) (ks : List Text) (s : Store)
        → peek j (del ks s) ≡ (if contains j ks then none else peek j s)
    unfolding get peek
    peek-del j ks s = ap decode (get-del j ks s) ∙ decode-removed (contains j ks) (lookup j s)

    peek-clear :
        (prefix j : Text) (s : Store)
        → peek j (clear prefix s) ≡ (if starts_with prefix j then none else peek j s)
    unfolding get peek
    peek-clear prefix j s =
        ap decode (get-clear prefix j s) ∙ decode-removed (starts_with prefix j) (lookup j s)

    contains-keys :
        (prefix j : Text) (s : Store)
        → contains j (keys prefix s) ≡ (starts_with prefix j && is_some (peek j s))
    unfolding keys peek
    contains-keys prefix j s =
        contains-keep (starts_with prefix) j (all_keys s)
        ∙ rw (contains-all_keys j s, is_some-decode (lookup j s)) refl

    -- The in-memory adapter meets the contract of a backend, its batch operations included, if
    -- parsing undoes stringifying: what a key holds is the parsed text of the map under it.
    pub memory_storage-IsStorage : IsStorage memory_storage peek
    unfolding peek get
    memory_storage-IsStorage = record {
      init_keeps = λ j s s' h. ap (peek j) (cc);
      get_reads = λ k s s' found h. cc;
      get_keeps = λ j k s s' found h. ap (peek j) (cc);
      mget_reads = λ ks s s' found h. cc (map-mget ks s);
      set_writes = set_wrote;
      mset_writes = mset_wrote;
      del_removes =
          λ j ks s s' h. let same : del ks s ≡ s' = cc in sym (ap (peek j) same) ∙ peek-del j ks s;
      keys_lists = λ prefix j s s' ks h.
          let same : keys prefix s ≡ ks = cc in
          sym (ap (contains j) same) ∙ contains-keys prefix j s;
      keys_keeps = λ prefix j s s' ks h. ap (peek j) (cc);
      clear_removes = λ prefix j s s' h.
          let same : clear prefix s ≡ s' = cc in sym (ap (peek j) same) ∙ peek-clear prefix j s;
    }

-- ===== src/Session/Registry/Laws.antt =====
-- What the registry remembers and lists, on any backend that meets its contract.
use whats_multi.Auth.Codec.{Json, Values}
use whats_multi.Config.{is_valid_session_id}
use whats_multi.Session.Registry.{ids_of, text_lt, place, sort, then_sorted, list}
use whats_multi.Storage.Adapter.{Attempt, returned, threw, StorageAdapter, IsStorage}
use whats_multi.Storage.Memory.Laws.{contains, is_some}
use whats_multi.Storage.Namespace.{
  storage_key, namespace_prefix, parse_storage_key, ParsedStorageKey,
}
use whats_multi.Storage.Namespace.Codec.{IsBytes, parse_storage_key-storage_key}
use whats_multi.Storage.Namespace.Isolation.{session_prefix_isolates}
use whats_multi.Prelude.{
  ◌≡◌, refl, sym, ap, ◌∙◌, inl, inr, true, false, ◌&&◌, ◌||◌, Option, none, some, List, [], ◌∷◌,
  arith, if◌then◌else◌, Bool-cases, Text, text_eq, starts_with, text_eq_refl, text_eq_iff,
}

text_lt_total : (s t : Text) → text_lt s t ≡ false → text_eq s t ≡ false → text_lt t s ≡ true
unfolding text_lt
text_lt_total [] [] h k = cc
text_lt_total [] (b ∷ t) h k = cc
text_lt_total (a ∷ s) [] h k = refl
text_lt_total (a ∷ s) (b ∷ t) h k = ground (arith, text_lt_total s t)

-- Each id smaller than the next.
abbrev pub Ascending : List Text → Type 0
Ascending [] = Unit
Ascending (x ∷ []) = Unit
Ascending (x ∷ y ∷ ys) = (text_lt x y ≡ true) × Ascending (y ∷ ys)

abbrev Distinct : List Text → Type 0
Distinct [] = Unit
Distinct (x ∷ xs) = (contains x xs ≡ false) × Distinct xs

contains-place :
    (id j : Text) (ids : List Text) → contains id (place j ids) ≡ (text_eq j id || contains id ids)
unfolding place
contains-place id j [] = refl
contains-place id j (k ∷ ids) = ground (arith, contains-place id j ids)

contains-sort : (id : Text) (ids : List Text) → contains id (sort ids) ≡ contains id ids
unfolding sort
contains-sort id [] = refl
contains-sort id (j ∷ ids) =
    contains-place id j (sort ids) ∙ ap (λ b. text_eq j id || b) (contains-sort id ids)

different : (k id : Text) (ids : List Text) → contains id (k ∷ ids) ≡ false → text_eq id k ≡ false
different k id ids new = ground (arith, text_eq_iff k id, text_eq_iff id k)

absent : (k id : Text) (ids : List Text) → contains id (k ∷ ids) ≡ false → contains id ids ≡ false
absent k id ids new = ground arith

-- Behind a smaller head.
place-behind :
    (x id : Text) (ids : List Text)
    → text_lt x id ≡ true
    → Ascending (x ∷ ids)
    → contains id ids ≡ false
    → Ascending (x ∷ place id ids)
unfolding place
place-behind x id [] h asc new = (h, tt)
place-behind x id (k ∷ ids) h (xk, asc) new = elim (Bool-cases (text_lt id k)) [
  | inl e ↦ rw e (h, (e, asc))
  | inr e ↦
      let larger = text_lt_total id k e (different k id ids new) in
      rw e (xk, place-behind k id ids larger asc (absent k id ids new))
]

place-Ascending :
    (id : Text) (ids : List Text)
    → Ascending ids
    → contains id ids ≡ false
    → Ascending (place id ids)
unfolding place
place-Ascending id [] asc new = tt
place-Ascending id (k ∷ ids) asc new = elim (Bool-cases (text_lt id k)) [
  | inl e ↦ rw e (e, asc)
  | inr e ↦
      let larger = text_lt_total id k e (different k id ids new) in
      rw e (place-behind k id ids larger asc (absent k id ids new))
]

sort-Ascending : (ids : List Text) → Distinct ids → Ascending (sort ids)
unfolding sort
sort-Ascending [] d = tt
sort-Ascending (id ∷ ids) (new, d) =
    place-Ascending id (sort ids) (sort-Ascending ids d) (contains-sort id ids ∙ new)

ids_of-Distinct : (ks : List Text) → Distinct (ids_of ks)
unfolding ids_of
ids_of-Distinct [] = tt
ids_of-Distinct (full ∷ ks) = added (parse_storage_key full) (ids_of ks) (ids_of-Distinct ks)
  where
    added :
        (o : Option ParsedStorageKey) (ids : List Text)
        → Distinct ids
        → Distinct (elim o [
          | none ↦ ids
          | some p ↦ if contains p.session_id ids then ids else p.session_id ∷ ids
        ])
    added none ids d = d
    added (some p) ids d = elim (Bool-cases (contains p.session_id ids)) [
      | inl e ↦ rw e d
      | inr e ↦ rw e (e, d)
    ]

ids_of-contains :
    (full : Text) (p : ParsedStorageKey) (ks : List Text)
    → contains full ks ≡ true
    → parse_storage_key full ≡ some p
    → contains p.session_id (ids_of ks) ≡ true
unfolding ids_of
ids_of-contains full p [] h e = cc
ids_of-contains full p (k ∷ ks) h e = elim (Bool-cases (text_eq k full)) [
  | inl same ↦
      rw ((text_eq_iff k full).0 same, e, ids_of) (ground (arith, text_eq_refl p.session_id))
  | inr other ↦ kept (parse_storage_key k) (ids_of ks) (ids_of-contains full p ks (ground arith) e)
]
  where
    kept :
        (o : Option ParsedStorageKey) (ids : List Text)
        → contains p.session_id ids ≡ true
        → contains p.session_id (elim o [
          | none ↦ ids
          | some q ↦ if contains q.session_id ids then ids else q.session_id ∷ ids
        ])
          ≡ true
    kept none ids m = m
    kept (some q) ids m = ground arith

-- A listed id and the key that it comes from.
abbrev Source : Text → List Text → Type 0
Source id ks =
    (full : Text) × (p : ParsedStorageKey) × (contains full ks ≡ true)
    × (parse_storage_key full ≡ some p)
    × (p.session_id ≡ id)

Source-cons : (id k : Text) (ks : List Text) → Source id ks → Source id (k ∷ ks)
Source-cons id k ks (full, p, m, e, i) = (full, p, ground arith, e, i)

ids_of-Source : (id : Text) (ks : List Text) → contains id (ids_of ks) ≡ true → Source id ks
unfolding ids_of
ids_of-Source id [] h = cc
ids_of-Source id (k ∷ ks) h =
    at_head (parse_storage_key k) refl (λ m. Source-cons id k ks (ids_of-Source id ks m)) h
  where
    at_head :
        (o : Option ParsedStorageKey)
        → parse_storage_key k ≡ o
        → (contains id (ids_of ks) ≡ true → Source id (k ∷ ks))
        → contains id (elim o [
          | none ↦ ids_of ks
          | some p ↦
              if contains p.session_id (ids_of ks) then ids_of ks else p.session_id ∷ ids_of ks
        ])
          ≡ true
        → Source id (k ∷ ks)
    at_head none e older h = older h
    at_head (some p) e older h = elim (Bool-cases (text_eq p.session_id id)) [
      | inl same ↦ (k, p, ground (arith, text_eq_refl k), e, (text_eq_iff p.session_id id).0 same)
      | inr other ↦ older (ground arith)
    ]

module _ (to_base64 from_base64 : Text → Text) (array_bytes : Values → Text)
    (a : StorageAdapter Json) (peek : Text → a.Store → Option Json) (law : IsStorage a peek) where
  listed :
      (s s' : a.Store) (ids : List Text)
      → list to_base64 from_base64 array_bytes a s ≡ (returned ids, s')
      → (full : List Text) × (a.keys namespace_prefix s ≡ (returned full, s'))
        × (ids ≡ sort (ids_of full))
  unfolding list
  listed s s' ids h = of_call (a.keys namespace_prefix s) h
    where
      of_call :
          (r : Attempt (List Text) × a.Store)
          → then_sorted to_base64 from_base64 array_bytes a r ≡ (returned ids, s')
          → (full : List Text) × (r ≡ (returned full, s')) × (ids ≡ sort (ids_of full))
      of_call (returned full, s1) h = (full, cc, cc)
      of_call (threw t, s1) h = cc

  -- The list is strictly ascending; it holds the id of every session that has anything stored under
  -- a built key, and nothing but ids of stored keys.
  pub list_exact :
      (s s' : a.Store) (ids : List Text)
      → list to_base64 from_base64 array_bytes a s ≡ (returned ids, s')
      → Ascending ids
        × ((id name : Text)
            → is_valid_session_id id ≡ true
            → IsBytes name
            → is_some (peek (storage_key id name) s) ≡ true
            → contains id ids ≡ true)
        × ((id : Text)
            → contains id ids ≡ true
            → (full : Text) × (p : ParsedStorageKey) × (is_some (peek full s) ≡ true)
              × (parse_storage_key full ≡ some p)
              × (p.session_id ≡ id))
  list_exact s s' ids h =
      let (full, called, sorted) = listed s s' ids h in
      let of_key = λ (j : Text). law.keys_lists namespace_prefix j s s' full called in
      (
        rw sorted (sort-Ascending (ids_of full) (ids_of-Distinct full)),
        λ id name v bytes there.
            let k = storage_key id name in
            let in_full : contains k full ≡ true =
              rw (of_key k, (session_prefix_isolates id id name v v).1, there) refl in
            rw (sorted, contains-sort id (ids_of full))
              (ids_of-contains k _ full in_full (parse_storage_key-storage_key id name v bytes)),
        λ id m.
            let (k, p, in_full, e, same) =
              ids_of-Source id full
                (sym (contains-sort id (ids_of full)) ∙ ap (contains id) (sym sorted) ∙ m) in
            let found : (starts_with namespace_prefix k && is_some (peek k s)) ≡ true =
              sym (of_key k) ∙ in_full in
            (k, p, ground arith, e, same),
      )

-- ===== src/Session/Manager/Laws.antt =====
-- What the calls of the manager do, registry included, on a backend that meets its contract.
use whats_multi.Auth.Codec.{Json, Value, Values, encode_value}
use whats_multi.Auth.Keys.{meta_key}
use whats_multi.Config.{assert_valid_session_id, is_valid_session_id}
use whats_multi.Errors.{Result, ok, err, WhatsMultiError, ours}
use whats_multi.Session.Manager.{
  Handle, session_created, SessionManager, find, has, create_begin, create_end, created_at,
  and_then, register, answered, created, create,
}
use whats_multi.Session.Manager.Dates.{kept_date, created_at-kept_date}
use whats_multi.Session.Manager.Invariant.{create_begin-ok}
use whats_multi.Session.Registry.{meta_value, decoded, then_decoded, read, write, list}
use whats_multi.Session.Registry.Laws.{list_exact}
use whats_multi.Storage.Adapter.{Attempt, returned, threw, StorageAdapter, IsStorage}
use whats_multi.Storage.Memory.Laws.{contains}
use whats_multi.Storage.Namespace.{storage_key}
use whats_multi.Prelude.{
  ℕ, ◌≡◌, refl, sym, ap, ◌∙◌, true, false, Option, none, some, List, ◌∷◌, arith, if◌then◌else◌,
  Text, text_eq, text_eq_refl, lookup-insert,
}

and_then-returned :
    {A B S : Type 0} (r : Attempt A × S) (f : A → S → Attempt B × S) (b : B) (s : S)
    → and_then r f ≡ (returned b, s)
    → (x : A) × (t : S) × (r ≡ (returned x, t)) × (f x t ≡ (returned b, s))
and_then-returned (returned x, t) f b s h = (x, t, refl, h)
and_then-returned (threw e, t) f b s h = cc

valid_of : (id : Text) → assert_valid_session_id id ≡ ok tt → is_valid_session_id id ≡ true
unfolding assert_valid_session_id
valid_of id h = ground arith

create_end-find :
    (storage : ℕ) (name id j : Text) (m : SessionManager)
    → find (create_end storage name id m).1 j
      ≡ (if text_eq id j then some (create_end storage name id m).0 else find m j)
unfolding create_end find
create_end-find storage name id j m = lookup-insert id j _ m.sessions

create_end-events :
    (storage : ℕ) (name id : Text) (m : SessionManager)
    → (create_end storage name id m).1.events ≡ session_created id name ∷ m.events
unfolding create_end
create_end-events storage name id m = refl

module _ (to_base64 from_base64 : Text → Text) (array_bytes : Values → Text)
    (a : StorageAdapter Json) where
  -- The parts of a create that succeeded.
  create-returned :
      (storage now : ℕ) (name id : Text) (started : Handle → Option WhatsMultiError)
      (m m' : SessionManager) (s s' : a.Store) (h : Handle)
      → create to_base64 from_base64 array_bytes a storage name id now started m s
        ≡ (returned h, m', s')
      → (m1 : SessionManager) × (create_begin storage id m ≡ ok m1)
        × (register to_base64 from_base64 array_bytes a name id now s ≡ (returned tt, s'))
        × ((create_end storage name id m1).0 ≡ h)
        × ((create_end storage name id m1).1 ≡ m')
  unfolding create
  create-returned storage now name id started m m' s s' h e =
      of_begin (create_begin storage id m) refl e
    where
      answered-returned :
          (k : Handle) (o : Option WhatsMultiError)
          → answered to_base64 from_base64 array_bytes a k o ≡ returned h
          → k ≡ h
      answered-returned k none e = cc
      answered-returned k (some x) e = cc

      of_register :
          (m1 : SessionManager) (r : Attempt (Unit {0}) × a.Store)
          → created to_base64 from_base64 array_bytes a storage name id started m1 r
            ≡ (returned h, m', s')
          → (r ≡ (returned tt, s'))
            × ((create_end storage name id m1).0 ≡ h)
            × ((create_end storage name id m1).1 ≡ m')
      of_register m1 (threw t, s1) e = cc
      of_register m1 (returned _, s1) e =
          let made = create_end storage name id m1 in
          (cc, answered-returned made.0 (started made.0) (ap (λ p. p.0) e), ap (λ p. p.1) e)

      of_begin :
          (b : Result SessionManager)
          → create_begin storage id m ≡ b
          → elim b [
            | err x ↦ (threw (ours x), m, s)
            | ok m1 ↦
                created to_base64 from_base64 array_bytes a storage name id started m1
                  (register to_base64 from_base64 array_bytes a name id now s)
          ]
            ≡ (returned h, m', s')
          → (m1 : SessionManager) × (create_begin storage id m ≡ ok m1)
            × (register to_base64 from_base64 array_bytes a name id now s ≡ (returned tt, s'))
            × ((create_end storage name id m1).0 ≡ h)
            × ((create_end storage name id m1).1 ≡ m')
      of_begin (err x) b e = cc
      of_begin (ok m1) b e =
          let (r, i, j) =
            of_register m1 (register to_base64 from_base64 array_bytes a name id now s) e in
          (m1, b, r, i, j)

  module _ (peek : Text → a.Store → Option Json) (law : IsStorage a peek) where
    read-returned :
        (id : Text) (s s' : a.Store) (found : Option Value)
        → read to_base64 from_base64 array_bytes a id s ≡ (returned found, s')
        → (found ≡ decoded to_base64 from_base64 array_bytes a (peek (storage_key id meta_key) s))
    unfolding read
    read-returned id s s' found e = of_get (a.get (storage_key id meta_key) s) refl e
      where
        of_get :
            (r : Attempt (Option Json) × a.Store)
            → a.get (storage_key id meta_key) s ≡ r
            → then_decoded to_base64 from_base64 array_bytes a r ≡ (returned found, s')
            → found ≡ decoded to_base64 from_base64 array_bytes a (peek (storage_key id meta_key) s)
        of_get (threw t, s1) got e = cc
        of_get (returned raw, s1) got e =
            let reads = law.get_reads (storage_key id meta_key) s s1 raw got in
            sym (ap value e) ∙ ap (decoded to_base64 from_base64 array_bytes a) reads
          where
            value : Attempt (Option Value) × a.Store → Option Value
            value (returned v, _) = v
            value (threw t, _) = none

    -- The metadata that `create` leaves.
    abbrev pub meta_after : Text → Text → ℕ → a.Store → Json
    meta_after name id now s = encode_value to_base64 array_bytes (
        meta_value (record {
          session_id = id;
          storage = name;
          created_at = kept_date from_base64 now (peek (storage_key id meta_key) s);
          updated_at = now;
        }))

    register-returned :
        (now : ℕ) (name id : Text) (s s' : a.Store)
        → register to_base64 from_base64 array_bytes a name id now s ≡ (returned tt, s')
        → peek (storage_key id meta_key) s' ≡ some (meta_after name id now s)
    unfolding register write
    register-returned now name id s s' e =
        let k = storage_key id meta_key in
        let (_, s1, init, e1) = and_then-returned (a.init s) _ tt s' e in
        let (found, s2, got, wrote) =
          and_then-returned (read to_base64 from_base64 array_bytes a id s1) _ tt s' e1 in
        let reads = read-returned id s1 s2 found got in
        let keeps = law.init_keeps k s s1 init in
        let json_of = λ (o : Option Value). encode_value to_base64 array_bytes (
          meta_value (record {
            session_id = id;
            storage = name;
            created_at = created_at now o;
            updated_at = now;
          })) in
        law.set_writes k k (json_of found) s2 s' wrote
        ∙ ap (λ x. if x then some (json_of found) else peek k s2) (text_eq_refl k)
        ∙ ap (λ o. some (json_of o))
            (reads ∙ ap (decoded to_base64 from_base64 array_bytes a) keeps)
        ∙ ap
            (λ date. some (
              encode_value to_base64 array_bytes (
                meta_value (record {
                  session_id = id;
                  storage = name;
                  created_at = date;
                  updated_at = now;
                }))))
            (created_at-kept_date to_base64 from_base64 array_bytes a now (peek k s))

    -- A create that succeeds found the id free. It leaves the session under its id and every other one
    -- where it was, tells of it once, and writes its metadata, in which a date of creation that was
    -- stored before is kept and the present is written otherwise; and the registry, asked right after
    -- it, lists the id.
    pub create_registers :
        (storage now : ℕ) (name id j : Text) (started : Handle → Option WhatsMultiError)
        (m m' : SessionManager) (s s' s'' : a.Store) (h : Handle) (ids : List Text)
        → create to_base64 from_base64 array_bytes a storage name id now started m s
          ≡ (returned h, m', s')
        → list to_base64 from_base64 array_bytes a s' ≡ (returned ids, s'')
        → (has m id ≡ false)
          × (find m' j ≡ (if text_eq id j then some h else find m j))
          × (m'.events ≡ session_created id name ∷ m.events)
          × (peek (storage_key id meta_key) s' ≡ some (meta_after name id now s))
          × (contains id ids ≡ true)
    unfolding find
    create_registers storage now name id j started m m' s s' s'' h ids e l =
        let (m1, begun, registered, made, left) =
          create-returned storage now name id started m m' s s' h e in
        let (same, living, new, valid) = create_begin-ok storage id m m1 begun in
        let meta = register-returned now name id s s' registered in
        let (_, lists, _) = list_exact to_base64 from_base64 array_bytes a peek law s' s'' ids l in
        (
          new,
          sym (ap (λ x. find x j) left)
              ∙ create_end-find storage name id j m1
              ∙ ap (λ k. if text_eq id j then some k else find m1 j) made
              ∙ ap (λ x. if text_eq id j then some h else find x j) same,
          sym (ap (λ (x : SessionManager). x.events) left)
              ∙ create_end-events storage name id m1
              ∙ ap (λ (x : SessionManager). session_created id name ∷ x.events) same,
          meta,
          lists id meta_key (valid_of id valid) (omega arith) (rw meta refl),
        )

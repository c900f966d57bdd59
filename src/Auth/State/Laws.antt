-- ===== src/Auth/State/Laws.antt =====
-- What the auth state keeps and drops, on any backend that meets its contract.
use whats_multi.Auth.Codec.{Json, Value, Values, encode_value, is_absent, unless_null}
use whats_multi.Auth.Codec.Laws.{unless_null-encode_value}
use whats_multi.Auth.Codec.RoundTrip.{settled, IsPlain, decode_value-encode_value}
use whats_multi.Auth.Keys.{creds_key, parse_signal_key}
use whats_multi.Auth.State.{
  guard, and_then, is_signal_entry, creds_of, use_auth_state, del_some, clear_keys, save_creds,
  purge,
}
use whats_multi.Config.{is_valid_session_id, assert_valid_session_id}
use whats_multi.Errors.{Result, ok, err}
use whats_multi.Storage.Adapter.{Attempt, returned, threw, StorageAdapter, IsStorage}
use whats_multi.Storage.Memory.Laws.{contains, is_some, contains-keep}
use whats_multi.Storage.Namespace.{storage_key, session_prefix}
use whats_multi.Storage.Namespace.Codec.{IsBytes, parse_storage_key-storage_key}
use whats_multi.Storage.Namespace.Isolation.{session_prefix_isolates}
use whats_multi.Prelude.{
  ◌≡◌, refl, sym, ap, ◌∙◌, Bool, true, false, ◌&&◌, Option, none, some, List, [], ◌∷◌, arith,
  if◌then◌else◌, keep, Text, text_eq, text_eq_refl,
}

pub guard-ok :
    {A S : Type 0} (id : Text) (r : Attempt A × S) (x : A) (s : S)
    → guard id r ≡ (ok x, s)
    → r ≡ (returned x, s)
unfolding guard
guard-ok id (returned a, s) x s' h = cc
guard-ok id (threw t, s) x s' h = cc

pub and_then-ok :
    {A B S : Type 0} (m : Result A × S) (f : A → S → Result B × S) (b : B) (s : S)
    → and_then m f ≡ (ok b, s)
    → (x : A) × (t : S) × (m ≡ (ok x, t)) × (f x t ≡ (ok b, s))
and_then-ok (ok x, t) f b s h = (x, t, refl, h)
and_then-ok (err e, t) f b s h = cc

is_signal_entry-storage_key :
    (b name : Text)
    → is_valid_session_id b ≡ true
    → IsBytes name
    → is_signal_entry (storage_key b name) ≡ is_some (parse_signal_key name)
unfolding is_signal_entry
is_signal_entry-storage_key b name vb bytes =
    rw (parse_storage_key-storage_key b name vb bytes, is_signal_entry)
      (of_parsed (parse_signal_key name))
  where
    of_parsed : {A : Type 0} (o : Option A) → elim o [ none ↦ false | some q ↦ true ] ≡ is_some o
    of_parsed none = refl
    of_parsed (some q) = refl

dropped :
    {V : Type 0} (signal same : Bool) (o : Option V)
    → (if signal && (same && is_some o) then none else o) ≡ (if same && signal then none else o)
dropped signal same none = ground arith
dropped signal same (some v) = ground arith

module _ (to_base64 from_base64 : Text → Text) (array_bytes : Values → Text) (init_creds : Value)
    (from_object : Value → Value) (a : StorageAdapter Json) (session_id : Text)
    (peek : Text → a.Store → Option Json) (law : IsStorage a peek) where
  pub del_some-ok :
      (j : Text) (ks : List Text) (s s' : a.Store)
      → del_some to_base64 from_base64 array_bytes init_creds from_object a session_id ks s
        ≡ (ok tt, s')
      → peek j s' ≡ (if contains j ks then none else peek j s)
  unfolding del_some
  del_some-ok j [] s s' h = ap (peek j) (cc)
  del_some-ok j (k ∷ ks) s s' h =
      law.del_removes j (k ∷ ks) s s' (guard-ok session_id (a.del (k ∷ ks) s) tt s' h)

  -- Clearing the keys drops, of everything that is stored under a built key, exactly the Signal keys
  -- of this session: `creds`, `meta` and all that belongs to another session stay as they were.
  pub clear_keys_exact :
      (s s' : a.Store) (b name : Text)
      → is_valid_session_id session_id ≡ true
      → is_valid_session_id b ≡ true
      → IsBytes name
      → clear_keys to_base64 from_base64 array_bytes init_creds from_object a session_id s
        ≡ (ok tt, s')
      → peek (storage_key b name) s' ≡ (
          if text_eq session_id b && is_some (parse_signal_key name)
          then none
          else peek (storage_key b name) s)
  unfolding clear_keys
  clear_keys_exact s s' b name va vb bytes h =
      let j = storage_key b name in
      let (all, s1, listed, deleted) =
        and_then-ok (guard session_id (a.keys (session_prefix session_id) s)) _ tt s' h in
      let read = guard-ok session_id (a.keys (session_prefix session_id) s) all s1 listed in
      del_some-ok j (keep is_signal_entry all) s1 s' deleted
      ∙ rw
          (
            contains-keep is_signal_entry j all,
            law.keys_lists (session_prefix session_id) j s s1 all read,
            law.keys_keeps (session_prefix session_id) j s s1 all read,
            (session_prefix_isolates session_id b name va vb).0,
            is_signal_entry-storage_key b name vb bytes,
          )
          (dropped (is_some (parse_signal_key name)) (text_eq session_id b)
            (peek (storage_key b name) s))

  started :
      (s s' : a.Store) (creds : Value)
      → is_valid_session_id session_id ≡ true
      → use_auth_state to_base64 from_base64 array_bytes init_creds from_object a session_id s
        ≡ (ok creds, s')
      → creds
        ≡ creds_of to_base64 from_base64 array_bytes init_creds from_object a session_id
            (unless_null (peek (storage_key session_id creds_key) s))
  unfolding use_auth_state
  started s s' creds va h =
      let k = storage_key session_id creds_key in
      let valid : assert_valid_session_id session_id ≡ ok tt =
        unfold assert_valid_session_id in rw va refl in
      let (_, s1, init, rest) =
        and_then-ok (guard session_id (a.init s)) _ creds s' (rw (valid, use_auth_state) at h) in
      let (stored, s2, read, last) = and_then-ok (guard session_id (a.get k s1)) _ creds s' rest in
      let reads = law.get_reads k s1 s2 stored (guard-ok session_id (a.get k s1) stored s2 read) in
      let keeps = law.init_keeps k s s1 (guard-ok session_id (a.init s) tt s1 init) in
      sym (ap restored last)
      ∙ ap
          (λ o.
            creds_of to_base64 from_base64 array_bytes init_creds from_object a session_id
              (unless_null o))
          (reads ∙ keeps)
    where
      restored : Result Value × a.Store → Value
      restored (ok v, _) = v
      restored (err e, _) = creds

  -- A purge drops everything that is stored under a built key of this session and nothing else; the
  -- auth state that is built next starts from fresh credentials.
  purge_forgets :
      (s s' s'' : a.Store) (b name : Text) (creds : Value)
      → is_valid_session_id session_id ≡ true
      → is_valid_session_id b ≡ true
      → purge to_base64 from_base64 array_bytes init_creds from_object a session_id s ≡ (ok tt, s')
      → use_auth_state to_base64 from_base64 array_bytes init_creds from_object a session_id s'
        ≡ (ok creds, s'')
      → (peek (storage_key b name) s'
          ≡ (if text_eq session_id b then none else peek (storage_key b name) s))
        × (creds ≡ init_creds)
  unfolding purge
  purge_forgets s s' s'' b name creds va vb h u =
      let prefix = session_prefix session_id in
      let cleared = guard-ok session_id (a.clear prefix s) tt s' h in
      let gone = λ (c name' : Text) (vc : is_valid_session_id c ≡ true).
        law.clear_removes prefix (storage_key c name') s s' cleared
        ∙ ap (λ x. if x then none else peek (storage_key c name') s)
            (session_prefix_isolates session_id c name' va vc).0 in
      let own =
        gone session_id creds_key va
        ∙ ap (λ x. if x then none else peek (storage_key session_id creds_key) s)
            (text_eq_refl session_id) in
      (
        gone b name vb,
        started s' s'' creds va u
            ∙ ap
                (λ o.
                  creds_of to_base64 from_base64 array_bytes init_creds from_object a session_id
                    (unless_null o))
                own,
      )

  module _ (decodes : (s : Text) → IsBytes s → from_base64 (to_base64 s) ≡ s) where
    -- Credentials that were saved, other than null and undefined, are the ones that the next auth state starts with, binary data
    -- included, up to what JSON leaves of them.
    creds_survive :
        (s s' s'' : a.Store) (creds restored : Value)
        → is_valid_session_id session_id ≡ true
        → IsPlain creds
        → is_absent creds ≡ false
        → save_creds to_base64 from_base64 array_bytes init_creds from_object a session_id creds s
          ≡ (ok tt, s')
        → use_auth_state to_base64 from_base64 array_bytes init_creds from_object a session_id s'
          ≡ (ok restored, s'')
        → restored ≡ settled creds
    unfolding save_creds
    creds_survive s s' s'' creds restored va plain filled h u =
        let k = storage_key session_id creds_key in
        let enc = encode_value to_base64 array_bytes creds in
        let wrote = law.set_writes k k enc s s' (guard-ok session_id (a.set k enc s) tt s' h) in
        started s' s'' restored va u
        ∙ (ap (creds_of to_base64 from_base64 array_bytes init_creds from_object a session_id) (
              ap unless_null (wrote ∙ ap (λ x. if x then some enc else peek k s) (text_eq_refl k))
              ∙ unless_null-encode_value to_base64 array_bytes creds filled)
            ∙ decode_value-encode_value to_base64 from_base64 array_bytes decodes creds plain)

-- ===== src/Auth/State/KeyStore.antt =====
-- `keys.set` and `keys.get` of src/auth/auth-state.ts.
use whats_multi.Auth.Codec.{Json, Value, Values, encode_value, is_absent, unless_null}
use whats_multi.Auth.Codec.Laws.{unless_null-encode_value}
use whats_multi.Auth.Codec.RoundTrip.{settled, IsPlain, decode_value-encode_value}
use whats_multi.Auth.Keys.{SignalKeyType, signal_key}
use whats_multi.Auth.State.{
  guard, app_state, revived, collect, keys_get, mset_some, all_writes, all_deletes, keys_set,
}
use whats_multi.Auth.State.Laws.{guard-ok, and_then-ok, del_some-ok}
use whats_multi.Errors.{Result, ok, err}
use whats_multi.Storage.Adapter.{StorageAdapter, IsStorage, written}
use whats_multi.Storage.Memory.Laws.{contains}
use whats_multi.Storage.Namespace.{storage_key}
use whats_multi.Storage.Namespace.Codec.{IsBytes}
use whats_multi.Prelude.{
  ◌≡◌, refl, sym, ap, ◌∙◌, inl, inr, false, Option, none, some, List, [], ◌∷◌, arith, if◌then◌else◌,
  Bool-cases, Option-cases, Text, text_eq, text_eq_refl, Dict, insert,
}

module _ (to_base64 from_base64 : Text → Text) (array_bytes : Values → Text) (init_creds : Value)
    (from_object : Value → Value) (a : StorageAdapter Json) (session_id : Text) where
  module _ (peek : Text → a.Store → Option Json) (law : IsStorage a peek) where
    mset_some-ok :
        (j : Text) (ws : List (Text × Json)) (s s' : a.Store)
        → mset_some to_base64 from_base64 array_bytes init_creds from_object a session_id ws s
          ≡ (ok tt, s')
        → peek j s' ≡ written ws j (peek j s)
    unfolding mset_some
    mset_some-ok j [] s s' h = ap (peek j) (cc)
    mset_some-ok j (w ∷ ws) s s' h =
        law.mset_writes j (w ∷ ws) s s' (guard-ok session_id (a.mset (w ∷ ws) s) tt s' h)

    -- What the store holds after `keys.set`: the writes first, then the deletions.
    keys_set-ok :
        (j : Text) (entries : List (SignalKeyType × Option (List (Text × Value)))) (s s' : a.Store)
        → keys_set to_base64 from_base64 array_bytes init_creds from_object a session_id entries s
          ≡ (ok tt, s')
        → peek j s' ≡ (
            if contains j (
              all_deletes to_base64 from_base64 array_bytes init_creds from_object a session_id
                entries)
            then none
            else written
                (all_writes to_base64 from_base64 array_bytes init_creds from_object a session_id
                  entries)
                j
                (peek j s))
    unfolding keys_set
    keys_set-ok j entries s s' h =
        let ws =
          all_writes to_base64 from_base64 array_bytes init_creds from_object a session_id
            entries in
        let ks =
          all_deletes to_base64 from_base64 array_bytes init_creds from_object a session_id
            entries in
        let (_, s1, wrote, deleted) =
          and_then-ok
            (mset_some to_base64 from_base64 array_bytes init_creds from_object a session_id ws s) _
            tt s' h in
        del_some-ok to_base64 from_base64 array_bytes init_creds from_object a session_id peek law j
          ks s1 s' deleted
        ∙ ap (λ o. if contains j ks then none else o) (mset_some-ok j ws s s1 wrote)

    stored :
        (t : SignalKeyType) (id : Text) (v : Value) (s s' : a.Store) (j : Text)
        → keys_set to_base64 from_base64 array_bytes init_creds from_object a session_id
            ((t, some ((id, v) ∷ [])) ∷ [])
            s
          ≡ (ok tt, s')
        → peek j s' ≡ (
            if text_eq (storage_key session_id (signal_key t id)) j
            then (if is_absent v then none else some (encode_value to_base64 array_bytes v))
            else peek j s)
    unfolding all_writes all_deletes
    stored t id v s s' j h =
        let kept = keys_set-ok j ((t, some ((id, v) ∷ [])) ∷ []) s s' h in
        elim (Bool-cases (is_absent v)) [
          | inl e ↦ kept ∙ rw e (ground arith)
          | inr e ↦ kept ∙ rw e (ground arith)
        ]

    got :
        (t : SignalKeyType) (id : Text) (s s' : a.Store) (out : Dict Value)
        → keys_get to_base64 from_base64 array_bytes init_creds from_object a session_id t
            (id ∷ [])
            s
          ≡ (ok out, s')
        → out ≡ (elim (unless_null (peek (storage_key session_id (signal_key t id)) s)) [
          | none ↦ []
          | some raw ↦
              (
                id,
                revived to_base64 from_base64 array_bytes init_creds from_object a session_id t raw,
              )
              ∷ []
        ])
    unfolding keys_get collect
    got t id s s' out h =
        let ks = storage_key session_id (signal_key t id) ∷ [] in
        let (rows, s1, read, last) = and_then-ok (guard session_id (a.mget ks s)) _ out s' h in
        let rows_are =
          law.mget_reads ks s s1 rows (guard-ok session_id (a.mget ks s) rows s1 read) in
        let o = unless_null (peek (storage_key session_id (signal_key t id)) s) in
        let now = rw rows_are at last in
        sym (ap found now)
        ∙ elim (Option-cases o) [ inl e ↦ rw e refl | inr (raw, e) ↦ rw e (unfold insert in refl) ]
      where
        found : Result (Dict Value) × a.Store → Dict Value
        found (ok d, _) = d
        found (err e, _) = []

    module _ (decodes : (s : Text) → IsBytes s → from_base64 (to_base64 s) ≡ s) where
      -- A Signal entry that was written is read back, revived if it is of the one type that needs it;
      -- an entry set to null or undefined is gone; and no other key of the store changes.
      pub keys_get-keys_set :
          (t : SignalKeyType) (id : Text) (v : Value) (s s' s'' : a.Store) (out : Dict Value)
          (j : Text)
          → IsPlain v
          → keys_set to_base64 from_base64 array_bytes init_creds from_object a session_id
              ((t, some ((id, v) ∷ [])) ∷ [])
              s
            ≡ (ok tt, s')
          → keys_get to_base64 from_base64 array_bytes init_creds from_object a session_id t
              (id ∷ [])
              s'
            ≡ (ok out, s'')
          → (out ≡ (
              if is_absent v
              then []
              else (id, if app_state t then from_object (settled v) else settled v) ∷ []))
            × (text_eq (storage_key session_id (signal_key t id)) j ≡ false → peek j s' ≡ peek j s)
      unfolding keys_get
      keys_get-keys_set t id v s s' s'' out j plain h g =
          let k = storage_key session_id (signal_key t id) in
          let held =
            stored t id v s s' k h
            ∙ ap
                (λ x.
                  if x
                  then (if is_absent v then none else some (encode_value to_base64 array_bytes v))
                  else peek k s)
                (text_eq_refl k) in
          let back = decode_value-encode_value to_base64 from_base64 array_bytes decodes v plain in
          (
            got t id s' s'' out g ∙ elim (Bool-cases (is_absent v)) [
              | inl e ↦ rw (e, held, e) refl
              | inr e ↦
                  rw (e, held, e, unless_null-encode_value to_base64 array_bytes v e, back) refl
            ],
            λ other. stored t id v s s' j h ∙ rw other refl,
          )

-- ===== src/Storage/Namespace/Isolation.antt =====
-- The prefix of a session covers its own keys and those of no other session.
use mathlib.Core.List.{append_assoc}
use whats_multi.Config.{is_valid_session_id}
use whats_multi.Storage.Namespace.{
  separator, encode_bytes, session_prefix, namespace_prefix, storage_key,
}
use whats_multi.Storage.Namespace.Codec.{NoSeparator, valid-NoSeparator}
use whats_multi.Prelude.{◌≡◌, refl, true, [], ◌∷◌, ◌++◌, arith, Text, text_eq, starts_with}

starts_with_id :
    (a b t : Text)
    → NoSeparator a
    → NoSeparator b
    → starts_with (a ++ separator ∷ []) (b ++ (separator ∷ t)) ≡ text_eq a b
starts_with_id [] [] t ha hb = refl
starts_with_id [] (c ∷ b) t ha (ne, hb) = ground arith
starts_with_id (c ∷ a) [] t (ne, ha) hb = ground arith
starts_with_id (c ∷ a) (d ∷ b) t (_, ha) (_, hb) = ground (arith, starts_with_id a b t ha hb)

-- For valid session ids `keys(sessionPrefix(a))` and `clear(sessionPrefix(a))` concern a key built
-- for session `b` exactly if `a` is `b`; and every key that is built lies under the namespace.
pub session_prefix_isolates :
    (a b key : Text)
    → is_valid_session_id a ≡ true
    → is_valid_session_id b ≡ true
    → (starts_with (session_prefix a) (storage_key b key) ≡ text_eq a b)
      × (starts_with namespace_prefix (storage_key b key) ≡ true)
unfolding session_prefix storage_key namespace_prefix
session_prefix_isolates a b key va vb = (
  rw append_assoc
      (starts_with_id a b (encode_bytes key) (valid-NoSeparator a va).0 (valid-NoSeparator b vb).0),
  refl,
)

-- ===== src/Auth/Keys/Laws.antt =====
-- What the flat names `<type>-<id>` keep.
use whats_multi.Auth.Keys.{
  SignalKeyType, sender_key, sender_key_memory, type_name, ParsedSignalKey, behind, first_type,
  types_by_length, is_reserved_key, signal_key, parse_signal_key,
}
use mathlib.Core.List.{append_assoc}
use whats_multi.Prelude.{
  ℕ, ◌≡◌, refl, ap, ◌∙◌, inl, inr, false, Option, none, some, List, [], ◌∷◌, ◌++◌, arith,
  Bool-cases, Option-cases, is_empty, Text, codes,
}

-- What a name is read back as: the pair it was made of, but for a `sender-key` whose id goes on
-- with `memory-` and more.
abbrev pub reread : SignalKeyType → Text → ParsedSignalKey
reread sender_key id = elim (behind (codes "memory-") id) [
  | some more ↦ record { type = sender_key_memory; id = more }
  | none ↦ record { type = sender_key; id = id }
]
reread t id = record { type = t; id = id }

-- A name made of a type and a filled id is read back as that type and that id, with one exception:
-- a `sender-key` whose id is `memory-` and more is read as a `sender-key-memory`.
pub parse_signal_key-signal_key :
    (t : SignalKeyType) (c : ℕ) (id : Text)
    → parse_signal_key (signal_key t (c ∷ id)) ≡ some (reread t (c ∷ id))
unfolding parse_signal_key signal_key types_by_length
parse_signal_key-signal_key sender_key c id = ground arith
parse_signal_key-signal_key t c id = refl

behind_sound : (p s t : Text) → behind p s ≡ some t → (s ≡ p ++ t) × (is_empty t ≡ false)
behind_sound [] [] t h = cc
behind_sound [] (c ∷ s) t h = ground arith
behind_sound (p ∷ ps) [] t h = cc
behind_sound (p ∷ ps) (c ∷ s) t h = ground (arith, behind_sound ps s t)

first_type_sound :
    (ts : List SignalKeyType) (key : Text) {p : ParsedSignalKey}
    → first_type ts key ≡ some p
    → (key ≡ (type_name p.type ++ b'-' ∷ []) ++ p.id) × (is_empty p.id ≡ false)
unfolding first_type
first_type_sound [] key h = cc
first_type_sound (t ∷ ts) key {p} h = elim (Option-cases (behind (type_name t ++ b'-' ∷ []) key)) [
  | inl e ↦ first_type_sound ts key (rw (e, first_type) at h)
  | inr (id, e) ↦
      let same : some (record { type = t; id = id }) ≡ some p = rw (e, first_type) at h in
      let (whole, filled) = behind_sound (type_name t ++ b'-' ∷ []) key id e in
      ground (arith, ap id_of same)
]
  where
    id_of : Option ParsedSignalKey → Text
    id_of none = []
    id_of (some q) = q.id

-- Whatever is read as a Signal key is exactly the name of the type and the filled id that come out,
-- and is neither `creds` nor `meta`.
parse_signal_key_sound :
    (key : Text) {p : ParsedSignalKey}
    → parse_signal_key key ≡ some p
    → (key ≡ signal_key p.type p.id) × (is_empty p.id ≡ false) × (is_reserved_key key ≡ false)
unfolding parse_signal_key signal_key
parse_signal_key_sound key {p} h = elim (Bool-cases (is_reserved_key key)) [
  | inl e ↦ absurd (cc (rw e at h))
  | inr e ↦
      let (whole, filled) = first_type_sound types_by_length key (rw e at h) in
      (whole ∙ append_assoc (type_name p.type) (b'-' ∷ []) p.id, filled, e)
]

-- ===== src/Messaging/Jid/Laws.antt =====
-- What a normalised JID looks like, and that normalising it again changes nothing.
use whats_multi.Errors.{Result, ok, err}
use whats_multi.Messaging.Jid.{
  known_servers, default_server, one_of, is_known_server, is_digit, normalize_phone_number,
  ParsedJid, user_from, parse_jid, jid_text, jid_from, jid_of_parsed, jid_of_phone, normalize_jid,
}
use whats_multi.Prelude.{
  ℕ, ◌≡◌, refl, sym, ap, subst, ◌≢◌, inl, inr, Bool, true, false, Option, none, some, List, [], ◌∷◌,
  ◌++◌, arith, ◌==◌, if◌then◌else◌, ==_iff, Bool-cases, keep, is_empty, All, Text, codes, text_eq,
  includes, split_first, lower, text_eq→eq,
}

abbrev pub Lacks : ℕ → Text → Type 0
Lacks c s = All (λ d. c ≢ d) s

-- What `split_first` has found in a text.
abbrev Split : ℕ → Text → Option (Text × Text) → Type 0
Split c s none = Lacks c s
Split c s (some (a, b)) = Lacks c a × (s ≡ a ++ (c ∷ b))

Split-cons :
    (c d : ℕ) (s : Text) (rest : Option (Text × Text)) (hit : Bool)
    → (c == d) ≡ hit
    → Split c s rest
    → Split c
        (d ∷ s)
        (if hit then some ([], s) else (elim rest [ none ↦ none | some (a, b) ↦ some (d ∷ a, b) ]))
Split-cons c d s rest true e h = (tt, ap (λ x. x ∷ s) (sym ((==_iff c d).0 e)))
Split-cons c d s none false e h = (ground arith, h)
Split-cons c d s (some (a, b)) false e (lacks, same) = ((ground arith, lacks), ap (λ t. d ∷ t) same)

split_first-Split : (c : ℕ) (s : Text) → Split c s (split_first c s)
split_first-Split c [] = tt
split_first-Split c (d ∷ s) =
    Split-cons c d s (split_first c s) (c == d) refl (split_first-Split c s)

split_first-append : (c : ℕ) (a b : Text) → Lacks c a → split_first c (a ++ (c ∷ b)) ≡ some (a, b)
split_first-append c [] b h = ground arith
split_first-append c (d ∷ a) b (ne, h) = ground (arith, split_first-append c a b h)

split_first-none : (c : ℕ) (s : Text) → Lacks c s → split_first c s ≡ none
split_first-none c [] h = refl
split_first-none c (d ∷ s) (ne, h) = ground (arith, split_first-none c s h)

Lacks-left : (c : ℕ) (a b : Text) → Lacks c (a ++ b) → Lacks c a
Lacks-left c [] b h = tt
Lacks-left c (d ∷ a) b (ne, h) = (ne, Lacks-left c a b h)

includes-append : (c : ℕ) (a b : Text) → includes (c ∷ []) (a ++ (c ∷ b)) ≡ true
includes-append c [] b = ground arith
includes-append c (d ∷ a) b = ground (arith, includes-append c a b)

one_of-lower :
    (ts : List Text) (s : Text) → All (λ t. lower t ≡ t) ts → one_of ts s ≡ true → lower s ≡ s
one_of-lower [] s low h = cc
one_of-lower (t ∷ ts) s (e, low) h = elim (Bool-cases (text_eq t s)) [
  | inl same ↦ subst (λ r. lower r ≡ r) (text_eq→eq t s same) e
  | inr other ↦ one_of-lower ts s low (rw other at h)
]

known-lower : (server : Text) → is_known_server server ≡ true → lower server ≡ server
unfolding is_known_server known_servers
known-lower server h =
    one_of-lower known_servers server (refl, (refl, (refl, (refl, (refl, (refl, tt)))))) h

-- A user that can stand in a normalised JID, with a known server.
abbrev pub IsCanonical : Text → Text → Type 0
IsCanonical user server =
    Lacks b'@' user × Lacks b':' user × (is_empty user ≡ false) × (is_known_server server ≡ true)

canonical_fixed :
    (user server : Text)
    → IsCanonical user server
    → normalize_jid (jid_text user server) ≡ ok (jid_text user server)
unfolding normalize_jid parse_jid
canonical_fixed user server (no_at, no_colon, filled, known) =
    rw
      (
        includes-append b'@' user server,
        split_first-append b'@' user server no_at,
        known-lower server known,
        user_from,
        split_first-none b':' user no_colon,
        known,
        filled,
      )
      refl

user_from-Lacks :
    (raw : Text) (o : Option (Text × Text))
    → Lacks b'@' raw
    → Split b':' raw o
    → Lacks b'@' (user_from raw o).0 × Lacks b':' (user_from raw o).0
user_from-Lacks raw none no_at lacks = (no_at, lacks)
user_from-Lacks raw (some (u, device)) no_at (lacks, same) =
    (Lacks-left b'@' u (b':' ∷ device) (subst (Lacks b'@') same no_at), lacks)

jid_from-parts :
    (raw rest : Text) {p : ParsedJid}
    → jid_from (some (raw, rest)) ≡ some p
    → (p.user ≡ (user_from raw (split_first b':' raw)).0)
      × (is_empty p.user ≡ false)
      × (is_known_server p.server ≡ true)
jid_from-parts raw rest e = ground arith

jid_from-IsCanonical :
    (input : Text) (o : Option (Text × Text)) {p : ParsedJid}
    → Split b'@' input o
    → jid_from o ≡ some p
    → IsCanonical p.user p.server
jid_from-IsCanonical input none h e = cc
jid_from-IsCanonical input (some (raw, rest)) {p = p} (no_at, _) e =
    let (at, colon) =
      user_from-Lacks raw (split_first b':' raw) no_at (split_first-Split b':' raw) in
    let (user, filled, known) = jid_from-parts raw rest e in
    (subst (Lacks b'@') (sym user) at, subst (Lacks b':') (sym user) colon, filled, known)

digits-Lacks : (c : ℕ) (s : Text) → is_digit c ≡ false → Lacks c (keep is_digit s)
digits-Lacks c [] h = tt
digits-Lacks c (d ∷ s) h = elim (Bool-cases (is_digit d)) [
  | inl e ↦ rw e ((λ same. absurd (ground arith)), digits-Lacks c s h)
  | inr e ↦ rw e (digits-Lacks c s h)
]

phone-IsCanonical :
    (input : Text) {digits : Text}
    → normalize_phone_number input ≡ ok digits
    → IsCanonical digits default_server
unfolding normalize_phone_number default_server is_known_server known_servers
phone-IsCanonical input {digits = digits} h =
    let same : digits ≡ keep is_digit input = ground arith in
    let filled : is_empty digits ≡ false = ground arith in
    (
      subst (Lacks b'@') (sym same) (digits-Lacks b'@' input refl),
      subst (Lacks b':') (sym same) (digits-Lacks b':' input refl),
      filled,
      refl,
    )

abbrev Normalized : Text → Type 0
Normalized out = (user server : Text) × (out ≡ jid_text user server) × IsCanonical user server

parsed-Normalized :
    (input : Text) (r : Option ParsedJid) {out : Text}
    → parse_jid input ≡ r
    → jid_of_parsed r ≡ ok out
    → Normalized out
parsed-Normalized input none e h = cc
parsed-Normalized input (some p) e h = (
  p.user,
  p.server,
  ground arith,
  jid_from-IsCanonical input (split_first b'@' input) {p = p} (split_first-Split b'@' input)
      (unfold parse_jid in e),
)

phone-Normalized :
    (input : Text) (r : Result Text) {out : Text}
    → normalize_phone_number input ≡ r
    → jid_of_phone r ≡ ok out
    → Normalized out
phone-Normalized input (err x) e h = cc
phone-Normalized input (ok digits) e h =
    (digits, default_server, ground arith, phone-IsCanonical input e)

normalize_jid-Normalized :
    (input : Text) {out : Text} → normalize_jid input ≡ ok out → Normalized out
unfolding normalize_jid
normalize_jid-Normalized input h = elim (Bool-cases (includes (codes "@") input)) [
  | inl jid ↦ parsed-Normalized input (parse_jid input) refl (rw jid at h)
  | inr phone ↦ phone-Normalized input (normalize_phone_number input) refl (rw phone at h)
]

-- Whatever is accepted is turned into `user@server` with a user that is not empty and holds neither
-- an `@` nor the colon of a device, and with a known server; and normalising that text again gives
-- the same text.
pub normalize_jid-idempotent :
    (input : Text) {out : Text}
    → normalize_jid input ≡ ok out
    → ((user server : Text) × (out ≡ jid_text user server) × IsCanonical user server)
      × (normalize_jid out ≡ ok out)
normalize_jid-idempotent input {out = out} h =
    let (user, server, same, canonical) = normalize_jid-Normalized input h in
    (
      (user, server, same, canonical),
      subst (λ t. normalize_jid t ≡ ok t) (sym same) (canonical_fixed user server canonical),
    )

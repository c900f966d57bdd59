-- ===== src/Server/Bearer.antt =====
-- src/server/bearer.ts, and the routes of src/server/index.ts that it guards. `sha256` is the
-- platform's digest. A header holds the white space that `trim` in Webhook/Signature takes off.
use whats_multi.Errors.{Result, ok, err, invalid_config, unauthorized, bare_error}
use whats_multi.Webhook.Signature.{trim}
use whats_multi.Prelude.{
  ℕ, ◌+◌, ◌≡◌, refl, ◌∙◌, Bool, true, false, not, ◌&&◌, ◌||◌, Option, none, some, List, [], ◌∷◌,
  arith, leb, ◌==◌, if◌then◌else◌, keep, is_empty, Text, codes, text_eq, starts_with, text_eq_iff,
}

-- `[ \t]`
abbrev pub is_gap : ℕ → Bool
is_gap c = c == 32 || c == 9

abbrev pub skip_gaps : Text → Text
skip_gaps [] = []
skip_gaps (c ∷ s) = let rest = skip_gaps s in if is_gap c then rest else c ∷ s

-- What `.` does not match.
abbrev pub has_break : Text → Bool
has_break [] = false
has_break (c ∷ s) = c == 10 || c == 13 || c == 0x2028 || c == 0x2029 || has_break s

-- The rest behind the scheme, matched in any case.
unfoldable pub behind_scheme : Text → Text → Option Text
behind_scheme [] s = some s
behind_scheme (p ∷ ps) [] = none
behind_scheme (p ∷ ps) (c ∷ s) =
    let rest = behind_scheme ps s in
    if p == (if leb b'A' c && leb c b'Z' then c + 32 else c) then rest else none

-- The group of the pattern, which the trimmed header ends with a character that is no gap.
abbrev pub group : Text → Option Text
group [] = none
group (c ∷ s) =
    let token = skip_gaps s in
    if is_gap c && not (is_empty token) && not (has_break token) then some (trim token) else none

unfoldable pub read_bearer : Option Text → Option Text
unfolding behind_scheme
read_bearer none = none
read_bearer (some header) = elim (behind_scheme (codes "bearer") (trim header)) [
  | none ↦ none
  | some rest ↦ group rest
]

abbrev pub listed : Text → List Text → Bool
listed t [] = false
listed t (x ∷ xs) = text_eq x t || listed t xs

abbrev filled : List Text → List Text
filled tokens = keep (λ t. not (is_empty t)) tokens

-- The tokens, one or several, and the opt-out.
unfoldable pub resolve_tokens : List Text → Bool → Result (List Text)
resolve_tokens tokens insecure =
    if is_empty (filled tokens)
    then (if insecure then ok [] else err (bare_error invalid_config))
    else if insecure
    then err (bare_error invalid_config)
    else ok (filled tokens)

-- The paths that `createServer` puts behind the guard.
unfoldable pub is_guarded : Text → Bool
is_guarded path =
    text_eq path (codes "/sessions")
    || starts_with (codes "/sessions/") path
    || text_eq path (codes "/events")

-- Whether the token that was presented, if any, is listed.
abbrev pub carries : Option Text → List Text → Bool
carries none tokens = false
carries (some p) tokens = listed p tokens

abbrev pub refusal : Result (Unit {0})
refusal = err (bare_error unauthorized)

module _ (sha256 : Text → Text) where
  -- The loop never ends early; `matched` is what it has found so far.
  unfoldable pub match_from : Bool → Text → List Text → Bool
  match_from matched presented [] = matched
  match_from matched presented (token ∷ tokens) =
      match_from (matched || text_eq (sha256 presented) (sha256 token)) presented tokens

  unfoldable pub token_matches : Text → List Text → Bool
  unfolding match_from
  token_matches presented accepted = match_from false presented accepted

  abbrev answer : List Text → Option Text → Result (Unit {0})
  answer tokens none = refusal
  answer tokens (some presented) = if token_matches presented tokens then ok tt else refusal

  -- `bearerAuth`: the request goes on, or the one answer.
  unfoldable pub bearer_auth : List Text → Option Text → Result (Unit {0})
  unfolding read_bearer token_matches
  bearer_auth tokens header = answer tokens (read_bearer header)

  -- The middleware of `createServer`: without tokens there is no guard.
  unfoldable pub admit : List Text → Text → Option Text → Result (Unit {0})
  unfolding bearer_auth is_guarded
  admit tokens path header =
      if not (is_empty tokens) && is_guarded path then bearer_auth tokens header else ok tt

  match_from-listed :
      (matched : Bool) (presented : Text) (tokens : List Text)
      → ((t : Text) → sha256 presented ≡ sha256 t → presented ≡ t)
      → match_from matched presented tokens ≡ (matched || listed presented tokens)
  unfolding match_from
  match_from-listed matched presented [] inj = ground arith
  match_from-listed matched presented (t ∷ tokens) inj =
      match_from-listed (matched || text_eq (sha256 presented) (sha256 t)) presented tokens inj
      ∙ ground (arith, inj t, text_eq_iff (sha256 presented) (sha256 t), text_eq_iff t presented)

  -- A guarded request is let through exactly if its header carries one of the tokens, if no other text
  -- has the digest of the token that was presented; any other request gets the one refusal. A path
  -- that is not listed is let through whatever its header.
  pub admit-carries :
      (tokens : List Text) (path : Text) (header : Option Text)
      → is_empty tokens ≡ false
      → ((p t : Text) → read_bearer header ≡ some p → sha256 p ≡ sha256 t → p ≡ t)
      → admit tokens path header
        ≡ (if is_guarded path && not (carries (read_bearer header) tokens) then refusal else ok tt)
  unfolding admit bearer_auth token_matches
  admit-carries tokens path header some_token inj =
      rw some_token (of_path (is_guarded path) (read_bearer header) inj)
    where
      of_path :
          (b : Bool) (o : Option Text)
          → ((p t : Text) → o ≡ some p → sha256 p ≡ sha256 t → p ≡ t)
          → (if b then answer tokens o else ok tt)
            ≡ (if b && not (carries o tokens) then refusal else ok tt)
      of_path false o inj = refl
      of_path true none inj = refl
      of_path true (some p) inj =
          rw (match_from-listed false p tokens (λ t. inj p t refl)) (ground arith)

-- ===== src/Errors/Message.antt =====
-- src/errors.ts: formatErrorMessage, with ERROR_MESSAGES of src/generated/errors.ts as the templates.
use mathlib.Core.List.{append-nil, append_assoc}
use whats_multi.Prelude.{
  ℕ, ◌≡◌, sym, ap, ◌∙◌, Bool, not, ◌&&◌, ◌||◌, none, some, [], ◌∷◌, ◌++◌, arith, leb, ◌==◌,
  if◌then◌else◌, is_empty, Text, Dict, lookup,
}

-- `\w`
is_word : ℕ → Bool
is_word c =
    (leb b'a' c && leb c b'z')
    || (leb b'A' c && leb c b'Z')
    || (leb b'0' c && leb c b'9')
    || c == b'_'

-- What a `{key}` is replaced by: the rendered value, or itself when there is none.
abbrev fill : Dict Text → Text → Text
fill params key = elim (lookup key params) [ none ↦ (b'{' ∷ key) ++ b'}' ∷ [] | some value ↦ value ]

-- One character outside a candidate, and one behind `{` and the word characters `key`.
pub data Scan : Type 0 where
  outside : Scan
  within : Text → Scan

abbrev flush : Scan → Text
flush outside = []
flush (within key) = b'{' ∷ key

abbrev advance : Dict Text → Scan → ℕ → Text × Scan
advance params outside c = if c == b'{' then ([], within []) else (c ∷ [], outside)
advance params (within key) c =
    if is_word c
    then ([], within (key ++ c ∷ []))
    else if c == b'}' && not (is_empty key)
    then (fill params key, outside)
    else if c == b'{'
    then (b'{' ∷ key, within [])
    else ((b'{' ∷ key) ++ c ∷ [], outside)

abbrev replace_from : Dict Text → Scan → Text → Text
replace_from params scan [] = flush scan
replace_from params scan (c ∷ s) =
    let (out, next) = advance params scan c in out ++ replace_from params next s

-- `template.replace(/\{(\w+)\}/g, …)`
unfoldable pub format_error_message : Text → Dict Text → Text
unfolding lookup is_word
format_error_message template params = replace_from params outside template

flush-advance :
    (scan : Scan) (c : ℕ) (s : Text)
    → (advance [] scan c).0 ++ (flush (advance [] scan c).1 ++ s) ≡ flush scan ++ (c ∷ s)
unfolding lookup
flush-advance outside c s = ground arith
flush-advance (within key) c s =
    ground (arith, append_assoc key (c ∷ []) s, append_assoc key (b'}' ∷ []) s)

replace_from_nil : (scan : Scan) (s : Text) → replace_from [] scan s ≡ flush scan ++ s
replace_from_nil scan [] = sym (append-nil (flush scan))
replace_from_nil scan (c ∷ s) =
    ap (λ t. (advance [] scan c).0 ++ t) (replace_from_nil (advance [] scan c).1 s)
    ∙ flush-advance scan c s

-- A placeholder with no value is left intact: without params every template is its own message.
format_error_message_nil : (template : Text) → format_error_message template [] ≡ template
unfolding format_error_message
format_error_message_nil template = replace_from_nil outside template

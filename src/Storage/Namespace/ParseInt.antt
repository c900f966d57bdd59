-- ===== src/Storage/Namespace/ParseInt.antt =====
-- `Number.parseInt(s, 16)` of ECMAScript, as far as src/storage/namespace.ts uses it, with the
-- reduction modulo 256 that `Buffer.from` makes of the result.
use whats_multi.Prelude.{
  ℕ, ◌+◌, ◌-◌, ◌*◌, ◌%◌, Bool, true, false, ◌&&◌, ◌||◌, Option, none, some, [], ◌∷◌, leb, ◌==◌,
  if◌then◌else◌, Text,
}

-- White space and line terminators.
is_space : ℕ → Bool
is_space c =
    (leb 9 c && leb c 13)
    || c == 32
    || c == 160
    || c == 0x1680
    || (leb 0x2000 c && leb c 0x200a)
    || c == 0x2028
    || c == 0x2029
    || c == 0x202f
    || c == 0x205f
    || c == 0x3000
    || c == 0xfeff

skip_space : Text → Text
unfolding is_space
skip_space [] = []
skip_space (c ∷ s) = let rest = skip_space s in if is_space c then rest else c ∷ s

abbrev sign : Text → Bool × Text
sign [] = (false, [])
sign (c ∷ s) = if c == b'-' then (true, s) else if c == b'+' then (false, s) else (false, c ∷ s)

abbrev skip_0x : Text → Text
skip_0x (c ∷ d ∷ s) = if c == b'0' && (d == b'x' || d == b'X') then s else c ∷ d ∷ s
skip_0x s = s

abbrev digit : ℕ → Option ℕ
digit c =
    if leb b'0' c && leb c b'9'
    then some (c - b'0')
    else if leb b'a' c && leb c b'f'
    then some (c - b'a' + 10)
    else if leb b'A' c && leb c b'F'
    then some (c - b'A' + 10)
    else none

-- The value of the longest prefix of digits, none if it is empty.
digits : Option ℕ → Text → Option ℕ
digits acc [] = acc
digits acc (c ∷ s) = elim (digit c) [
  | none ↦ acc
  | some d ↦ digits (elim acc [ none ↦ some d | some n ↦ some (n * 16 + d) ]) s
]

abbrev to_byte : Bool → ℕ → ℕ
to_byte false n = n % 256
to_byte true n = (256 - n % 256) % 256

unfoldable pub parse_int_byte : Text → Option ℕ
unfolding skip_space digits
parse_int_byte s =
    let (negative, rest) = sign (skip_space s) in
    elim (digits none (skip_0x rest)) [ none ↦ none | some n ↦ some (to_byte negative n) ]

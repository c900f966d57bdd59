-- ===== src/Config/Values.antt =====
-- The checks of one setting in src/config.ts. A setting is a JavaScript value; a number is told by
-- what the checks read of it.
use whats_multi.Errors.{Result, ok, err, invalid_config, bare_error}
use whats_multi.Prelude.{
  ℕ, zero, suc, ◌≤◌, ◌≡◌, refl, subst, Bool, false, Option, none, some, [], ◌∷◌, arith, ltb,
  if◌then◌else◌, is_empty, Text, codes, text_eq,
}

-- `natural` is an integer from 0 on, `negative` any number below 0, `fractional` a number above 0
-- between `floor` and `floor + 1`, told apart by `rest`.
pub data Input : Type 0 where
  absent : Input
  natural : ℕ → Input
  negative : (is_integer : Bool) → Input
  fractional : (floor rest : ℕ) → Input
  not_finite : Input
  flag : Bool → Input
  words : Text → Input
  other : Input

-- A number that passed the checks.
pub data Amount : Type 0 where
  whole : ℕ → Amount
  part : (floor rest : ℕ) → Amount

pub data LogLevel : Type 0 where
  silent error warn info debug trace : LogLevel

abbrev invalid {ℓ} : {A : Type ℓ} → Result A
invalid = err (bare_error invalid_config)

-- `num` with a minimum, for integers.
unfoldable pub num : Input → ℕ → ℕ → Result ℕ
num absent fallback least = ok fallback
num (natural n) fallback least = if ltb n least then invalid else ok n
num _ fallback least = invalid

-- The check behind it, 0 < ratio < 1.
unfoldable pub in_range : Amount → Result Amount
in_range (part zero rest) = ok (part zero rest)
in_range _ = invalid

-- `num` with `integer: false`, and the check of a ratio. Any number below 0 fails the latter.
unfoldable pub ratio : Input → Amount → Result Amount
unfolding in_range
ratio absent fallback = in_range fallback
ratio (natural n) fallback = in_range (whole n)
ratio (fractional floor rest) fallback = in_range (part floor rest)
ratio _ fallback = invalid

unfoldable pub bool : Input → Bool → Result Bool
bool absent fallback = ok fallback
bool (flag b) fallback = ok b
bool _ fallback = invalid

unfoldable pub str : Input → Text → Result Text
str absent fallback = ok fallback
str (words []) fallback = invalid
str (words (c ∷ s)) fallback = ok (c ∷ s)
str _ fallback = invalid

-- `isLogLevel`
unfoldable pub read_level : Text → Option LogLevel
read_level s =
    if text_eq s (codes "silent")
    then some silent
    else if text_eq s (codes "error")
    then some error
    else if text_eq s (codes "warn")
    then some warn
    else if text_eq s (codes "info")
    then some info
    else if text_eq s (codes "debug")
    then some debug
    else if text_eq s (codes "trace")
    then some trace
    else none

unfoldable pub level : Input → LogLevel → Result LogLevel
unfolding read_level
level absent fallback = ok fallback
level (words s) fallback = elim (read_level s) [ none ↦ invalid | some l ↦ ok l ]
level _ fallback = invalid

-- A value that is given and passes is the one that is taken, and it is at least the minimum.
pub num-ok :
    (input : Input) (fallback least n : ℕ)
    → least ≤ fallback
    → num input fallback least ≡ ok n
    → least ≤ n
unfolding num
num-ok absent fallback least n h e = ground arith
num-ok (natural m) fallback least n h e = ground arith
num-ok other fallback least n h e = cc
num-ok _ fallback least n h e = cc

pub str-ok :
    (input : Input) (fallback s : Text)
    → is_empty fallback ≡ false
    → str input fallback ≡ ok s
    → is_empty s ≡ false
unfolding str
str-ok absent fallback s h e = ground arith
str-ok (words []) fallback s h e = cc
str-ok (words (c ∷ t)) fallback s h e = ground arith
str-ok _ fallback s h e = cc

-- Above 0 and below 1.
abbrev pub IsRatio : Amount → Type 0
IsRatio (part zero rest) = Unit
IsRatio _ = ⊥

in_range-IsRatio : (a b : Amount) → in_range a ≡ ok b → IsRatio b
unfolding in_range
in_range-IsRatio (whole n) b e = cc
in_range-IsRatio (part zero rest) b e = let same : part zero rest ≡ b = cc in subst IsRatio same tt
in_range-IsRatio (part (suc n) rest) b e = cc

pub ratio-ok : (input : Input) (fallback a : Amount) → ratio input fallback ≡ ok a → IsRatio a
unfolding ratio
ratio-ok absent fallback a e = in_range-IsRatio fallback a e
ratio-ok (natural n) fallback a e = in_range-IsRatio (whole n) a e
ratio-ok (fractional n rest) fallback a e = in_range-IsRatio (part n rest) a e
ratio-ok _ fallback a e = cc

-- The next check, if the last one passed.
abbrev pub and_then : {A B : Type 0} → Result A → (A → Result B) → Result B
and_then (ok a) f = f a
and_then (err e) f = err e

pub and_then-ok :
    {A B : Type 0} (r : Result A) (f : A → Result B) (b : B)
    → and_then r f ≡ ok b
    → (a : A) × (r ≡ ok a) × (f a ≡ ok b)
and_then-ok (ok a) f b h = (a, refl, h)
and_then-ok (err e) f b h = cc

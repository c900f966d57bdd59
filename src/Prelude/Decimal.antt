-- ===== src/Prelude/Decimal.antt =====
-- Decimal text of a number, as `String(n)` and a template literal print it, and `Number` of a text
-- of digits.
use Prim.Native.Nat.{ℕ, zero, suc, ◌+◌, ◌-◌, ◌*◌, ◌/◌, ◌%◌, ◌≤◌, ◌<◌}
use mathlib.Core.Path.{◌≡◌, refl, ◌∙◌}
use mathlib.Core.Logic.{inl, inr}
use mathlib.Core.Bool.{Bool, true, false, ◌&&◌}
use mathlib.Core.List.{[], ◌∷◌, ◌++◌}
use native.Mathlib.Omega.{arith}
use whats_multi.Prelude.Tests.{leb, ltb, if◌then◌else◌, Bool-cases, ltb→lt}
use whats_multi.Prelude.Lists.{All, All-append, is_empty}
use whats_multi.Prelude.Texts.{Text}

-- `n + 1` rounds are enough, since the number falls with each.
print_from : ℕ → ℕ → Text
print_from zero n = []
print_from (suc fuel) n =
    let front = print_from fuel (n / 10) in
    if ltb n 10 then (b'0' + n) ∷ [] else front ++ (b'0' + n % 10) ∷ []

unfoldable pub print : ℕ → Text
unfolding print_from
print n = print_from (suc n) n

unfoldable pub read_from : ℕ → Text → ℕ
read_from acc [] = acc
read_from acc (c ∷ s) = read_from (acc * 10 + (c - b'0')) s

unfoldable pub read : Text → ℕ
unfolding read_from
read s = read_from 0 s

abbrev pub IsDigit : ℕ → Type 0
IsDigit c = (b'0' ≤ c) × (c ≤ b'9')

-- `\d+` throughout.
unfoldable pub all_digits : Text → Bool
all_digits [] = true
all_digits (c ∷ s) = leb b'0' c && leb c b'9' && all_digits s

read_from-append : (acc : ℕ) (s t : Text) → read_from acc (s ++ t) ≡ read_from (read_from acc s) t
unfolding read_from
read_from-append acc [] t = refl
read_from-append acc (c ∷ s) t = read_from-append (acc * 10 + (c - b'0')) s t

read-print_from : (fuel n : ℕ) → n < fuel → read_from 0 (print_from fuel n) ≡ n
unfolding print_from
read-print_from zero n h = elim h [ ]
read-print_from (suc fuel) n h = elim (Bool-cases (ltb n 10)) [
  | inl small ↦ rw small (unfold read_from in omega arith)
  | inr big ↦ rw big (
      read_from-append 0 (print_from fuel (n / 10)) ((b'0' + n % 10) ∷ [])
      ∙ rw (read-print_from fuel (n / 10) (ground arith)) (unfold read_from in omega arith))
]

print_from-digits : (fuel n : ℕ) → All IsDigit (print_from fuel n)
unfolding print_from
print_from-digits zero n = tt
print_from-digits (suc fuel) n = elim (Bool-cases (ltb n 10)) [
  | inl small ↦ rw small (omega (arith, ltb→lt n 10 small), tt)
  | inr big ↦ rw big (
      All-append IsDigit (print_from fuel (n / 10)) ((b'0' + n % 10) ∷ [])
        (print_from-digits fuel (n / 10)) (omega arith, tt))
]

pub read-print : (n : ℕ) → read (print n) ≡ n
unfolding read print
read-print n = read-print_from (suc n) n (omega arith)

pub print-digits : (n : ℕ) → All IsDigit (print n)
unfolding print
print-digits n = print_from-digits (suc n) n

pub all_digits_of : (s : Text) → All IsDigit s → all_digits s ≡ true
unfolding all_digits
all_digits_of [] h = refl
all_digits_of (c ∷ s) (d, h) = ground (arith, all_digits_of s h)

is_empty-append : (s : Text) (c : ℕ) → is_empty (s ++ c ∷ []) ≡ false
is_empty-append [] c = refl
is_empty-append (d ∷ s) c = refl

pub is_empty-print : (n : ℕ) → is_empty (print n) ≡ false
unfolding print print_from
is_empty-print n = elim (Bool-cases (ltb n 10)) [
  | inl small ↦ rw (small, print_from) refl
  | inr big ↦ rw (big, print_from) (is_empty-append _ _)
]

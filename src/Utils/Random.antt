-- ===== src/Utils/Random.antt =====
-- src/utils/random.ts: mulberry32, on unsigned 32-bit integers that wrap around.
use Prim.Native.Nat.{bit_or, bit_xor}
use whats_multi.Prelude.{ℕ, ◌+◌, ◌*◌, ◌/◌, ◌%◌, ◌^◌, ◌<◌, arith}

abbrev pub two_32 : ℕ
two_32 = 4294967296

-- `Math.imul(x, y) >>> 0`
abbrev imul : ℕ → ℕ → ℕ
imul x y = (x * y) % two_32

-- One call of the generator: the new state, and the numerator of the result, which the source
-- divides by 2 ^ 32.
unfoldable pub mulberry32 : ℕ → ℕ × ℕ
mulberry32 seed =
    let a = (seed + 0x6d2b79f5) % two_32 in
    let t = imul (bit_xor a (a / 2 ^ 15)) (bit_or a 1) in
    let u = bit_xor t ((t + imul (bit_xor t (t / 2 ^ 7)) (bit_or t 61)) % two_32) % two_32 in
    (a, bit_xor u (u / 2 ^ 14) % two_32)

-- Whatever the state, the result divided by 2 ^ 32 is below 1, and the next state is a 32-bit word.
pub mulberry32_bounds : (seed : ℕ) → ((mulberry32 seed).0 < two_32) × ((mulberry32 seed).1 < two_32)
unfolding mulberry32
mulberry32_bounds seed = (omega arith, omega arith)

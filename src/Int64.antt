-- ===== src/Int64.antt =====
-- Go's int64 and int (64 bits wide): an integer is the number of its two's-complement pattern,
-- below 2^64. Sums and products wrap around; comparisons read the top bit as the sign.
use code_base_ddd.Prelude.{ℕ, ◌+◌, ◌-◌, ◌*◌, ◌%◌, ◌<◌, ◌^◌, ◌≡◌, Bool, true, arith, ltb}

abbrev pub modulus : ℕ
modulus = 2 ^ 64

-- The sign bit: patterns below it are the non-negative integers.
abbrev pub half : ℕ
half = 2 ^ 63

abbrev pub add64 : ℕ → ℕ → ℕ
add64 a b = (a + b) % modulus

abbrev pub mul64 : ℕ → ℕ → ℕ
mul64 a b = a * b % modulus

-- Signed `a < b`: adding 2^63 turns the signed order into the order of the patterns.
abbrev pub slt : ℕ → ℕ → Bool
slt a b = ltb ((a + half) % modulus) ((b + half) % modulus)

-- `x > 0` holds of the patterns strictly between 0 and 2^63.
pub slt-zero→ : (x : ℕ) → x < modulus → slt 0 x ≡ true → (0 < x) × (x < half)
slt-zero→ x w h = ground arith

pub slt-zero← : (x : ℕ) → 0 < x → x < half → slt 0 x ≡ true
slt-zero← x h k = ground arith

-- Differences wrap around too.
abbrev pub sub64 : ℕ → ℕ → ℕ
sub64 a b = (a + modulus - b) % modulus

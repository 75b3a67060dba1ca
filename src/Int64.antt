-- ===== src/Int64.antt =====
-- Go's int64: a value is its 64-bit pattern, a number below 2 ^ 64, and patterns from 2 ^ 63 on
-- stand for the negative integers. Addition and subtraction wrap, as Go's do; order, division and
-- remainder are the signed ones (division truncates towards zero).
use decentralized_poker_engi.Common.{
  ℕ, ◌+◌, ◌-◌, ◌/◌, ◌%◌, ◌≤◌, ◌<◌, ◌≡◌, Bool, false, arith, ltb, leb, if◌then◌else◌,
}

-- 2 ^ 64.
abbrev pub word : ℕ
word = 18446744073709551616

-- 2 ^ 63: the patterns below it are the integers from 0 on.
abbrev pub half : ℕ
half = 9223372036854775808

unfoldable pub add64 : ℕ → ℕ → ℕ
add64 a b = (a + b) % word

unfoldable pub sub64 : ℕ → ℕ → ℕ
sub64 a b = (a + word - b) % word

-- The order of the signed values: adding 2 ^ 63 turns it into the order of the patterns.
unfoldable pub lt64 : ℕ → ℕ → Bool
lt64 a b = ltb ((a + half) % word) ((b + half) % word)

unfoldable pub le64 : ℕ → ℕ → Bool
le64 a b = leb ((a + half) % word) ((b + half) % word)

-- `a / n` and `a % n` by a positive divisor.
unfoldable pub div64 : ℕ → ℕ → ℕ
div64 a n = if ltb a half then a / n else (word - (word - a) / n) % word

unfoldable pub mod64 : ℕ → ℕ → ℕ
mod64 a n = if ltb a half then a % n else (word - (word - a) % n) % word

pub add64_exact : (a b : ℕ) → a + b < word → add64 a b ≡ a + b
unfolding add64
add64_exact a b h = omega arith

pub sub64_exact : (a b : ℕ) → b ≤ a → a < word → sub64 a b ≡ a - b
unfolding sub64
sub64_exact a b h k = omega arith

pub lt64_exact : (a b : ℕ) → a < half → b < half → lt64 a b ≡ ltb a b
unfolding lt64
lt64_exact a b h k = ground arith

pub le64_exact : (a b : ℕ) → a < half → b < half → le64 a b ≡ leb a b
unfolding le64
le64_exact a b h k = ground arith

pub div64_exact : (a n : ℕ) → a < half → div64 a n ≡ a / n
unfolding div64
div64_exact a n h = ground arith

pub mod64_exact : (a n : ℕ) → a < half → mod64 a n ≡ a % n
unfolding mod64
mod64_exact a n h = ground arith

-- A pattern from 2 ^ 63 on is negative, so no number from 0 on is below it.
pub lt64_negative : (a n : ℕ) → a < half → half ≤ n → n < word → lt64 a n ≡ false
unfolding lt64
lt64_negative a n h k l = ground arith

pub le64_negative : (a n : ℕ) → a < half → half ≤ n → n < word → le64 a n ≡ false
unfolding le64
le64_negative a n h k l = ground arith

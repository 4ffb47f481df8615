-- ===== src/Prelude/Int.antt =====
-- Signed integers over the native numbers, and Rust's `i64` and `u64` among them: sums wrap around
-- as in a release build, and so do the casts.
use codelldb.Prelude.{
  ℕ, suc, ◌+◌, ◌-◌, ◌%◌, ◌^◌, ◌≤◌, ◌<◌, ◌≡◌, refl, Bool, arith, ltb, leb, if◌then◌else◌,
}

-- `negsuc n` is the number -(n + 1).
pub data ℤ : Type 0 where
  pos negsuc : ℕ → ℤ

abbrev pub pos_part : ℤ → ℕ
pos_part (pos n) = n
pos_part (negsuc n) = 0

abbrev pub neg_part : ℤ → ℕ
neg_part (pos n) = 0
neg_part (negsuc n) = suc n

abbrev pub sub_ℕ : ℕ → ℕ → ℤ
sub_ℕ a b = if leb b a then pos (a - b) else negsuc (b - a - 1)

infixl 65 ◌+ℤ◌
unfoldable pub ◌+ℤ◌ : ℤ → ℤ → ℤ
a +ℤ b = sub_ℕ (pos_part a + pos_part b) (neg_part a + neg_part b)

abbrev pub ltb_ℤ : ℤ → ℤ → Bool
ltb_ℤ a b = ltb (pos_part a + neg_part b) (pos_part b + neg_part a)

-- `as u64` of a number in two's complement.
abbrev pub to_u64 : ℤ → ℕ
to_u64 (pos n) = n % 2 ^ 64
to_u64 (negsuc n) = 2 ^ 64 - 1 - n % 2 ^ 64

-- `as i64` of a `u64`.
abbrev pub of_u64 : ℕ → ℤ
of_u64 n = if ltb n (2 ^ 63) then pos n else negsuc (2 ^ 64 - 1 - n)

abbrev pub wrap_i64 : ℤ → ℤ
wrap_i64 z = of_u64 (to_u64 z)

-- A sum of two `i64`.
abbrev pub wrapping_sum : ℤ → ℤ → ℤ
wrapping_sum a b = wrap_i64 (a +ℤ b)

-- The numbers that an `i64` has.
abbrev pub IsI64 : ℤ → Type 0
IsI64 z = (pos_part z < 2 ^ 63) × (neg_part z ≤ 2 ^ 63)

pub wrap_i64_inside : (z : ℤ) → IsI64 z → wrap_i64 z ≡ z
wrap_i64_inside (pos n) h = ground arith
wrap_i64_inside (negsuc n) h = ground arith

pub wrap_i64-IsI64 : (z : ℤ) → IsI64 (wrap_i64 z)
wrap_i64-IsI64 (pos n) = ground arith
wrap_i64-IsI64 (negsuc n) = ground arith

-- A sum with a number that is not negative, if it is not negative either, did not wrap around.
pub wrapping_sum_forward :
    (start : ℤ) (n : ℕ)
    → n < 2 ^ 63
    → IsI64 start
    → neg_part (wrapping_sum start (pos n)) ≡ 0
    → (pos_part start + n ≡ pos_part (wrapping_sum start (pos n)) + neg_part start)
      × (pos_part start ≤ pos_part (wrapping_sum start (pos n)))
unfolding ◌+ℤ◌
wrapping_sum_forward (pos s) n h k e = ground arith
wrapping_sum_forward (negsuc s) n h k e = ground arith

-- The cast to `u64` keeps a number that is not negative, and makes a large one of a negative one.
pub to_u64_forward : (z : ℤ) → IsI64 z → neg_part z ≡ 0 → to_u64 z ≡ pos_part z
to_u64_forward (pos n) h e = ground arith
to_u64_forward (negsuc n) h e = ground arith

pub to_u64_negative : (z : ℤ) → IsI64 z → 0 < neg_part z → 2 ^ 63 ≤ to_u64 z
to_u64_negative (pos n) h e = ground arith
to_u64_negative (negsuc n) h e = ground arith

pub +ℤ_parts :
    (a b : ℤ)
    → pos_part (a +ℤ b) + neg_part a + neg_part b ≡ neg_part (a +ℤ b) + pos_part a + pos_part b
unfolding ◌+ℤ◌
+ℤ_parts a b = ground arith

pub eq_of_parts : (a b : ℤ) → pos_part a + neg_part b ≡ pos_part b + neg_part a → a ≡ b
eq_of_parts a b h = ground arith

pub ruleset int_laws = (arith, +ℤ_parts, eq_of_parts)

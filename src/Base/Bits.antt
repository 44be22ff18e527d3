-- ===== src/Base/Bits.antt =====
-- Bit operations on machine words, in arithmetic. A mask over one byte is a table of 256 entries.
use Prim.Native.Nat.{
  ℕ, zero, suc, ◌+◌, ◌-◌, ◌*◌, ◌/◌, ◌%◌, ◌^◌, ◌≤◌, ◌<◌, max, min, bit_and, bit_or, digits,
  bit_or-bitwise, bit_and-bitwise,
}
use mathlib.Core.Path.{◌≡◌, refl, ap}
use mathlib.Core.Bool.{Bool, true, ◌&&◌}
use native.Mathlib.Omega.{arith}
use native.Mathlib.Nat.{pow-suc, le_refl}
use duckcall.Base.Tests.{◌==◌, ==→eq, ltb}

table : ℕ → (ℕ → Bool) → Bool
table zero p = true
table (suc n) p = p n && table n p

table_sound : (n : ℕ) (p : ℕ → Bool) (x : ℕ) → table n p ≡ true → x < n → p x ≡ true
unfolding table
table_sound zero p x h lt = absurd (omega arith)
table_sound (suc n) p x h lt = ground (arith, table_sound n p x)

module _ (f g : ℕ → ℕ) where
  by_table : (n : ℕ) → table n (λ x. f x == g x) ≡ true → (x : ℕ) → x < n → f x ≡ g x
  by_table n h x lt = ==→eq (f x) (g x) (table_sound n _ x h lt)

-- `b & 0x7f`, `b & 0x80`, `b & 0x40` and `b | 0x80` on a byte.
pub low_seven : (b : ℕ) → b < 256 → bit_and b 0x7f ≡ b % 128
unfolding table
low_seven = by_table _ _ 256 refl

pub top_bit : (b : ℕ) → b < 256 → bit_and b 0x80 ≡ b / 128 * 128
unfolding table
top_bit = by_table _ _ 256 refl

pub sign_bit : (b : ℕ) → b < 256 → bit_and b 0x40 ≡ b / 64 % 2 * 64
unfolding table
sign_bit = by_table _ _ 256 refl

pub more_bit : (b : ℕ) → b < 256 → bit_or b 0x80 ≡ b % 128 + 128
unfolding table
more_bit = by_table _ _ 256 refl

-- One binary digit of `bit_or`. The recursion behind the native operation counts its fuel by the
-- first operand, and any fuel that covers the operand gives the same number.
abbrev or_digits : ℕ → ℕ → ℕ → ℕ
or_digits fuel a b = digits (λ y. y) max fuel a b

or_digits_enough : (n m a b : ℕ) → a ≤ n → a ≤ m → or_digits n a b ≡ or_digits m a b
or_digits_enough zero zero zero b h k = refl
or_digits_enough zero zero (suc a) b h k = absurd (omega arith)
or_digits_enough zero (suc m) zero b h k = refl
or_digits_enough zero (suc m) (suc a) b h k = absurd (omega arith)
or_digits_enough (suc n) zero zero b h k = refl
or_digits_enough (suc n) zero (suc a) b h k = absurd (omega arith)
or_digits_enough (suc n) (suc m) zero b h k = refl
or_digits_enough (suc n) (suc m) (suc a) b h k =
    omega (arith, or_digits_enough n m (suc a / 2) (b / 2) (omega arith) (omega arith))

or_zero_left : (b : ℕ) → bit_or 0 b ≡ b
or_zero_left b = bit_or-bitwise 0 b

or_digit : (a b : ℕ) → bit_or a b ≡ bit_or (a / 2) (b / 2) * 2 + max (a % 2) (b % 2)
or_digit zero b = omega (arith, or_zero_left b, or_zero_left (b / 2))
or_digit (suc a) b = omega (
  arith,
  bit_or-bitwise (suc a) b,
  bit_or-bitwise (suc a / 2) (b / 2),
  or_digits_enough a (suc a / 2) (suc a / 2) (b / 2) (omega arith) (omega arith),
)

double_shift : (g k : ℕ) → g * 2 ^ suc k ≡ 2 * (g * 2 ^ k)
double_shift g k = omega (arith, ap (λ (t : ℕ). g * t) (pow-suc 2 k))

-- `acc | g << k` is a sum while `acc` has only its low `k` bits.
pub or_above : (k acc g : ℕ) → acc < 2 ^ k → bit_or acc (g * 2 ^ k) ≡ acc + g * 2 ^ k
or_above zero zero g h = omega (arith, or_zero_left (g * 2 ^ 0))
or_above zero (suc acc) g h = absurd (omega arith)
or_above (suc k) acc g h = omega (
  arith,
  or_digit acc (g * 2 ^ suc k),
  double_shift g k,
  pow-suc 2 k,
  or_above k (acc / 2) g (omega (arith, pow-suc 2 k)),
  ap (λ (t : ℕ). bit_or (acc / 2) t) (half_double g k),
)
  where
    half_double : (x j : ℕ) → x * 2 ^ suc j / 2 ≡ x * 2 ^ j
    half_double x j = omega (arith, double_shift x j)

abbrev and_digits : ℕ → ℕ → ℕ → ℕ
and_digits fuel a b = digits (λ y. 0) min fuel a b

and_digits_enough : (n m a b : ℕ) → a ≤ n → a ≤ m → and_digits n a b ≡ and_digits m a b
and_digits_enough zero zero zero b h k = refl
and_digits_enough zero zero (suc a) b h k = absurd (omega arith)
and_digits_enough zero (suc m) zero b h k = refl
and_digits_enough zero (suc m) (suc a) b h k = absurd (omega arith)
and_digits_enough (suc n) zero zero b h k = refl
and_digits_enough (suc n) zero (suc a) b h k = absurd (omega arith)
and_digits_enough (suc n) (suc m) zero b h k = refl
and_digits_enough (suc n) (suc m) (suc a) b h k =
    omega (arith, and_digits_enough n m (suc a / 2) (b / 2) (omega arith) (omega arith))

and_digit : (a b : ℕ) → bit_and a b ≡ bit_and (a / 2) (b / 2) * 2 + min (a % 2) (b % 2)
and_digit zero b = omega (arith, bit_and-bitwise 0 b, bit_and-bitwise 0 (b / 2))
and_digit (suc a) b = omega (
  arith,
  bit_and-bitwise (suc a) b,
  bit_and-bitwise (suc a / 2) (b / 2),
  and_digits_enough a (suc a / 2) (suc a / 2) (b / 2) (omega arith) (omega arith),
)

and_zero_right : (n a : ℕ) → a ≤ n → bit_and a 0 ≡ 0
and_zero_right n zero h = bit_and-bitwise 0 0
and_zero_right zero (suc a) h = absurd (omega arith)
and_zero_right (suc n) (suc a) h =
    omega (arith, and_digit (suc a) 0, and_zero_right n (suc a / 2) (omega arith))

-- `v & m` on any word, for a mask of low ones, a digit more at a time.
low_bits_one : (a : ℕ) → bit_and a 1 ≡ a % 2
low_bits_one a = omega (arith, and_digit a 1, and_zero_right (a / 2) (a / 2) (le_refl _))

low_bits_two : (a : ℕ) → bit_and a 3 ≡ a % 4
low_bits_two a = omega (arith, and_digit a 3, low_bits_one (a / 2))

low_bits_three : (a : ℕ) → bit_and a 7 ≡ a % 8
low_bits_three a = omega (arith, and_digit a 7, low_bits_two (a / 2))

low_bits_four : (a : ℕ) → bit_and a 15 ≡ a % 16
low_bits_four a = omega (arith, and_digit a 15, low_bits_three (a / 2))

low_bits_five : (a : ℕ) → bit_and a 31 ≡ a % 32
low_bits_five a = omega (arith, and_digit a 31, low_bits_four (a / 2))

low_bits_six : (a : ℕ) → bit_and a 63 ≡ a % 64
low_bits_six a = omega (arith, and_digit a 63, low_bits_five (a / 2))

-- `v & 0x7f`
pub low_group : (a : ℕ) → bit_and a 0x7f ≡ a % 128
low_group a = omega (arith, and_digit a 0x7f, low_bits_six (a / 2))

-- Shifts of a 64-bit word lose the bits that pass the top. Of a group of seven bits shifted by `s`
-- the low 64 - s stay, and of `^0` shifted all ones from bit `s` on.
group_table :
    table 64 (λ s. table 128 (λ g.
      (g * 2 ^ s % 2 ^ 64 == g % 2 ^ (64 - s) * 2 ^ s)
      && ltb (g * 2 ^ s % 2 ^ 64 + 2 ^ s) (2 ^ 64 + 1)))
    ≡ true
unfolding table
group_table = refl

pub group_shifted :
    (s g : ℕ)
    → s < 64
    → g < 128
    → (g * 2 ^ s % 2 ^ 64 ≡ g % 2 ^ (64 - s) * 2 ^ s) × (g * 2 ^ s % 2 ^ 64 + 2 ^ s ≤ 2 ^ 64)
group_shifted s g hs hg = ground (arith, table_sound 128 _ g (table_sound 64 _ s group_table hs) hg)

pub ones_shifted : (s : ℕ) → s < 64 → (2 ^ 64 - 1) * 2 ^ s % 2 ^ 64 ≡ (2 ^ (64 - s) - 1) * 2 ^ s
unfolding table
ones_shifted = by_table _ _ 64 refl

pub ones_above : (s : ℕ) → s < 64 → (2 ^ (64 - s) - 1) * 2 ^ s + 2 ^ s ≡ 2 ^ 64
unfolding table
ones_above = by_table _ _ 64 refl

pow_table : table 57 (λ s. ltb (128 * 2 ^ s) (2 ^ 63 + 1)) ≡ true
unfolding table
pow_table = refl

-- Below bit 57 there is room for a group of seven bits and one more.
pub pow_bound : (s : ℕ) → s ≤ 56 → 128 * 2 ^ s ≤ 2 ^ 63
pow_bound s h = ground (arith, table_sound 57 _ s pow_table)

-- The k-th binary digit, and `v & 1<<k`.
abbrev pub digit : ℕ → ℕ → ℕ
digit zero a = a % 2
digit (suc k) a = digit k (a / 2)

half_power : (k : ℕ) → 2 ^ suc k / 2 ≡ 2 ^ k
half_power k = omega (arith, pow-suc 2 k)

even_power : (k : ℕ) → 2 ^ suc k % 2 ≡ 0
even_power k = omega (arith, pow-suc 2 k)

min_zero : (a : ℕ) → min a 0 ≡ 0
min_zero a = omega arith

pub and_power : (k a : ℕ) → bit_and a (2 ^ k) ≡ digit k a * 2 ^ k
and_power zero a = omega (arith, low_bits_one a)
and_power (suc k) a = omega (
  arith,
  and_digit a (2 ^ suc k),
  ap (λ (t : ℕ). bit_and (a / 2) t) (half_power k),
  ap (λ (t : ℕ). min (a % 2) t) (even_power k),
  min_zero (a % 2),
  and_power k (a / 2),
  double_shift (digit k (a / 2)) k,
)

pub digit_bound : (k a : ℕ) → digit k a ≤ 1
digit_bound zero a = omega arith
digit_bound (suc k) a = digit_bound k (a / 2)

-- The test of a bit.
pub and_power_zero : (k a d : ℕ) → digit k a ≡ d → (bit_and a (2 ^ k) == 0) ≡ (d == 0)
and_power_zero k a zero h = ground (arith, and_power k a)
and_power_zero k a (suc zero) h = ground (arith, and_power k a, pow_pos k)
  where
    pow_pos : (k : ℕ) → 1 ≤ 2 ^ k
    pow_pos zero = omega arith
    pow_pos (suc k) = omega (arith, pow-suc 2 k, pow_pos k)
and_power_zero k a (suc (suc d)) h = absurd (omega (arith, digit_bound k a))

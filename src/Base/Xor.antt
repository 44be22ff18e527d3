-- ===== src/Base/Xor.antt =====
-- `v ^ 1<<k` on a word: the bit is flipped.
use Prim.Native.Nat.{
  ℕ, zero, suc, ◌+◌, ◌-◌, ◌*◌, ◌/◌, ◌%◌, ◌^◌, ◌≤◌, ◌<◌, bit_xor, digits, differ, bit_xor-bitwise,
}
use mathlib.Core.Path.{◌≡◌, refl, ap}
use native.Mathlib.Omega.{arith}
use native.Mathlib.Nat.{pow-suc}
use duckcall.Base.Tests.{ltb, if◌then◌else◌}

-- One binary digit, as for `bit_or` in Bits.
abbrev xor_digits : ℕ → ℕ → ℕ → ℕ
xor_digits fuel a b = digits (λ y. y) differ fuel a b

xor_digits_enough : (n m a b : ℕ) → a ≤ n → a ≤ m → xor_digits n a b ≡ xor_digits m a b
xor_digits_enough zero zero zero b h k = refl
xor_digits_enough zero zero (suc a) b h k = absurd (omega arith)
xor_digits_enough zero (suc m) zero b h k = refl
xor_digits_enough zero (suc m) (suc a) b h k = absurd (omega arith)
xor_digits_enough (suc n) zero zero b h k = refl
xor_digits_enough (suc n) zero (suc a) b h k = absurd (omega arith)
xor_digits_enough (suc n) (suc m) zero b h k = refl
xor_digits_enough (suc n) (suc m) (suc a) b h k =
    omega (arith, xor_digits_enough n m (suc a / 2) (b / 2) (omega arith) (omega arith))

xor_digit : (a b : ℕ) → bit_xor a b ≡ bit_xor (a / 2) (b / 2) * 2 + differ (a % 2) (b % 2)
xor_digit zero b = omega (arith, bit_xor-bitwise 0 b, bit_xor-bitwise 0 (b / 2))
xor_digit (suc a) b = omega (
  arith,
  bit_xor-bitwise (suc a) b,
  bit_xor-bitwise (suc a / 2) (b / 2),
  xor_digits_enough a (suc a / 2) (suc a / 2) (b / 2) (omega arith) (omega arith),
)

differ_zero : (x : ℕ) → differ x 0 ≡ x
differ_zero zero = refl
differ_zero (suc x) = refl

flip_lowest : (a : ℕ) → a < 2 → bit_xor a 1 ≡ (if ltb a 1 then a + 1 else a - 1)
flip_lowest zero h = refl
flip_lowest (suc zero) h = refl
flip_lowest (suc (suc a)) h = absurd (omega arith)

half_power : (k : ℕ) → 2 ^ suc k / 2 ≡ 2 ^ k
half_power k = omega (arith, pow-suc 2 k)

even_power : (k : ℕ) → 2 ^ suc k % 2 ≡ 0
even_power k = omega (arith, pow-suc 2 k)

flip_digit : (k a : ℕ) → bit_xor a (2 ^ suc k) ≡ bit_xor (a / 2) (2 ^ k) * 2 + a % 2
flip_digit k a = omega (
  arith,
  xor_digit a (2 ^ suc k),
  ap (λ (t : ℕ). bit_xor (a / 2) t) (half_power k),
  ap (λ (t : ℕ). differ (a % 2) t) (even_power k),
  differ_zero (a % 2),
)

pub flip_bit :
    (k a : ℕ) → a < 2 ^ suc k → bit_xor a (2 ^ k) ≡ (if ltb a (2 ^ k) then a + 2 ^ k else a - 2 ^ k)
flip_bit zero a h = flip_lowest a h
flip_bit (suc k) a h = ground (
  arith,
  flip_digit k a,
  pow-suc 2 k,
  pow-suc 2 (suc k),
  flip_bit k (a / 2) (omega (arith, pow-suc 2 (suc k))),
)

-- Flipping the top bit of a word, once and twice.
pub flip_top_bound : (a : ℕ) → a < 2 ^ 64 → bit_xor a (2 ^ 63) < 2 ^ 64
flip_top_bound a h = ground (arith, flip_bit 63 a h)

pub flip_twice : (a : ℕ) → a < 2 ^ 64 → bit_xor (bit_xor a (2 ^ 63)) (2 ^ 63) ≡ a
flip_twice a h =
    ground (arith, flip_bit 63 a h, flip_bit 63 (bit_xor a (2 ^ 63)) (flip_top_bound a h))

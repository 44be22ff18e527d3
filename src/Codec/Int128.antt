-- ===== src/Codec/Int128.antt =====
-- NewDecimal of codec/values.go, and the two's complement halves that codec/codectest takes the same
-- way.
use duckcall.Base.{
  ℕ, ◌+◌, ◌-◌, ◌/◌, ◌%◌, ◌^◌, ◌<◌, ◌≡◌, ltb, if◌then◌else◌, Option, none, some, arith,
}
use duckcall.Base.Int.{ℤ, pos, negsuc, is_negative, magnitude}
use duckcall.Codec.Types.{Value, decimal}
use duckcall.Codec.Cells.{int128_big, uint128_big}

unfoldable pub plus_two_128 : ℤ → ℤ
plus_two_128 (pos n) = pos (n + 2 ^ 128)
plus_two_128 (negsuc n) = if ltb n (2 ^ 128) then pos (2 ^ 128 - 1 - n) else negsuc (n - 2 ^ 128)

-- `Rsh` rounds down.
unfoldable pub shift_64 : ℤ → ℤ
shift_64 (pos n) = pos (n / 2 ^ 64)
shift_64 (negsuc n) = negsuc (n / 2 ^ 64)

-- High and low half. `Uint64` of a big.Int is the low word of its magnitude.
unfoldable pub int128parts : ℤ → ℕ × ℕ
int128parts v =
    let b = if is_negative v then plus_two_128 v else v in
    (magnitude (shift_64 b) % 2 ^ 64, magnitude b % 2 ^ 64)

unfoldable pub new_decimal : ℕ → ℕ → ℤ → Value
new_decimal width scale unscaled = let (hi, lo) = int128parts unscaled in decimal width scale hi lo

-- The halves of the integer that two halves make.
pub int128parts-int128_big :
    (hi lo : ℕ) → hi < 2 ^ 64 → lo < 2 ^ 64 → int128parts (int128_big hi lo) ≡ (hi, lo)
unfolding int128parts int128_big plus_two_128 shift_64
int128parts-int128_big hi lo hh hl = ground arith

pub int128parts-uint128_big :
    (hi lo : ℕ) → hi < 2 ^ 64 → lo < 2 ^ 64 → int128parts (uint128_big hi lo) ≡ (hi, lo)
unfolding int128parts uint128_big shift_64
int128parts-uint128_big hi lo hh hl = ground arith

-- Every integer of 128 bits is what its halves make.
abbrev pub IsInt128 : ℤ → Type 0
IsInt128 (pos n) = n < 2 ^ 127
IsInt128 (negsuc n) = n < 2 ^ 127

pub int128_big-int128parts :
    (z : ℤ) → IsInt128 z → int128_big (int128parts z).0 (int128parts z).1 ≡ z
unfolding int128parts int128_big plus_two_128 shift_64
int128_big-int128parts (pos n) h = ground arith
int128_big-int128parts (negsuc n) h = ground arith

-- BigInt of a Decimal.
unfoldable pub big_of : Value → Option ℤ
big_of (decimal width scale hi lo) = some (int128_big hi lo)
big_of _ = none

-- An integer of 128 bits is the unscaled value of the decimal that NewDecimal makes of it.
pub big_of-new_decimal :
    (width scale : ℕ) (z : ℤ) → IsInt128 z → big_of (new_decimal width scale z) ≡ some z
unfolding big_of new_decimal
big_of-new_decimal width scale z h = λ i. some (int128_big-int128parts z h i)

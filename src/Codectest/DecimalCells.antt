-- ===== src/Codectest/DecimalCells.antt =====
-- appendDecimal of codec/codectest/codectest.go against decodeDecimalCell of codec/chunk.go.
use duckcall.Base.{ℕ, ◌-◌, ◌^◌, ◌≤◌, ◌<◌, ◌≡◌, refl, ltb, if◌then◌else◌, length-append, arith}
use duckcall.Codec.Types.{decimal}
use duckcall.Codec.Cells.{
  little_endian, word, widen, decode_cell, decode_other_cell, physical_width, decode_decimal_cell,
  int128_big,
}
use duckcall.Codec.Int128.{int128parts, int128parts-int128_big}
use duckcall.Codectest.TypeWriter.{decimal_type}
use duckcall.Codectest.CellWriter.{le_bytes, cell, other_cell, halves, as_decimal, decimal_cell}
use duckcall.Codectest.Cells.{length-le_bytes, word-le_bytes_alone, StoredAs, halves-StoredAs}

-- The high word of a sign-extended low word.
abbrev pub sign_word : ℕ → ℕ
sign_word lo = if ltb lo (2 ^ 63) then 0 else 2 ^ 64 - 1

parts_back :
    (lo : ℕ) → lo < 2 ^ 64 → int128parts (int128_big (sign_word lo) lo) ≡ (sign_word lo, lo)
parts_back lo h = int128parts-int128_big (sign_word lo) lo (ground arith) h

low_16 : (n : ℕ) → n < 2 ^ 16 → word 2 (le_bytes 2 (widen 16 n)) ≡ n
unfolding le_bytes little_endian
low_16 n h = ground arith

pub decimal_16-StoredAs :
    (width scale n : ℕ)
    → width ≤ 4
    → n < 2 ^ 16
    → StoredAs
        (decimal_type width scale)
        (decimal width scale (sign_word (widen 16 n)) (widen 16 n))
unfolding cell other_cell decode_cell decode_other_cell physical_width as_decimal decimal_cell
    decimal_type decode_decimal_cell
decimal_16-StoredAs width scale n small h = record {
  bytes = le_bytes 2 (widen 16 n);
  stored = rw (parts_back (widen 16 n) (ground arith)) (ground arith);
  wide = ground (arith, length-le_bytes 2 (widen 16 n));
  back = rw (length-le_bytes 2 (widen 16 n), low_16 n h);
}

low_32 : (n : ℕ) → n < 2 ^ 32 → word 4 (le_bytes 4 (widen 32 n)) ≡ n
unfolding le_bytes little_endian
low_32 n h = ground arith

pub decimal_32-StoredAs :
    (width scale n : ℕ)
    → 4 < width
    → width ≤ 9
    → n < 2 ^ 32
    → StoredAs
        (decimal_type width scale)
        (decimal width scale (sign_word (widen 32 n)) (widen 32 n))
unfolding cell other_cell decode_cell decode_other_cell physical_width as_decimal decimal_cell
    decimal_type decode_decimal_cell
decimal_32-StoredAs width scale n big small h = record {
  bytes = le_bytes 4 (widen 32 n);
  stored = rw (parts_back (widen 32 n) (ground arith)) (ground arith);
  wide = ground (arith, length-le_bytes 4 (widen 32 n));
  back = rw (length-le_bytes 4 (widen 32 n), low_32 n h);
}

low_64 : (n : ℕ) → n < 2 ^ 64 → word 8 (le_bytes 8 n) ≡ n
unfolding le_bytes little_endian
low_64 n h = word-le_bytes_alone 8 n (omega arith)

pub decimal_64-StoredAs :
    (width scale n : ℕ)
    → 9 < width
    → width ≤ 18
    → n < 2 ^ 64
    → StoredAs (decimal_type width scale) (decimal width scale (sign_word n) n)
unfolding cell other_cell decode_cell decode_other_cell physical_width as_decimal decimal_cell
    decimal_type decode_decimal_cell
decimal_64-StoredAs width scale n big small h = record {
  bytes = le_bytes 8 n;
  stored = rw (parts_back n (ground arith)) (ground arith);
  wide = ground (arith, length-le_bytes 8 n);
  back = rw (length-le_bytes 8 n, low_64 n h);
}

pub wide_decimal-StoredAs :
    (width scale hi lo : ℕ)
    → 18 < width
    → hi < 2 ^ 64
    → lo < 2 ^ 64
    → StoredAs (decimal_type width scale) (decimal width scale hi lo)
unfolding cell other_cell decode_cell decode_other_cell physical_width as_decimal decimal_cell
    decimal_type decode_decimal_cell halves
wide_decimal-StoredAs width scale hi lo wide hh hl =
    halves-StoredAs _ _ hi lo (decimal width scale) hh hl
      (rw (int128parts-int128_big hi lo hh hl) (ground arith)) (ground arith)
      (rw
        (length-append (le_bytes 8 lo) (le_bytes 8 hi), length-le_bytes 8 lo, length-le_bytes 8 hi))
      refl

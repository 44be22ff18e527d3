-- ===== src/Codectest/Cells.antt =====
-- appendCell of codec/codectest/codectest.go against decodeCell of codec/chunk.go.
use duckcall.Base.{
  ℕ, zero, suc, ◌/◌, ◌^◌, ◌<◌, ◌≡◌, refl, List, ◌++◌, some, ok, length, drop, length-append, arith,
}
use native.Mathlib.Nat.{pow-suc}
use duckcall.Codec.Types.{LogicalType, Value}
use duckcall.Codec.Cells.{little_endian, word, decode_cell, physical_width}
use duckcall.Codectest.CellWriter.{le_bytes, cell, halves}

pub length-le_bytes : (n v : ℕ) → length (le_bytes n v) ≡ n
unfolding le_bytes
length-le_bytes zero v = refl
length-le_bytes (suc n) v = λ i. suc (length-le_bytes n (v / 256) i)

-- The number that was appended, in front of what follows.
pub word-le_bytes : (n v : ℕ) (more : List ℕ) → v < 256 ^ n → word n (le_bytes n v ++ more) ≡ v
unfolding le_bytes little_endian
word-le_bytes zero v more h = omega arith
word-le_bytes (suc n) v more h =
    omega (arith, pow-suc 256 n, word-le_bytes n (v / 256) more (omega (arith, pow-suc 256 n)))

pub drop-le_bytes : (n v : ℕ) (more : List ℕ) → drop n (le_bytes n v ++ more) ≡ more
unfolding le_bytes
drop-le_bytes zero v more = refl
drop-le_bytes (suc n) v more = drop-le_bytes n (v / 256) more

pub word-le_bytes_alone : (n v : ℕ) → v < 256 ^ n → word n (le_bytes n v) ≡ v
unfolding le_bytes little_endian
word-le_bytes_alone zero v h = omega arith
word-le_bytes_alone (suc n) v h =
    omega (arith, pow-suc 256 n, word-le_bytes_alone n (v / 256) (omega (arith, pow-suc 256 n)))

-- The cell of a value, which decodes to the value.
pub record StoredAs (t : LogicalType) (v : Value) : Type 0 where
  pub bytes : List ℕ
  pub stored : cell t v ≡ some bytes
  pub wide : length bytes ≡ physical_width t
  pub back : decode_cell t bytes ≡ ok v

-- A cell that is one number.
pub number-StoredAs :
    (t : LogicalType) (v : Value) (n x : ℕ) (f : ℕ → Value)
    → x < 256 ^ n
    → cell t v ≡ some (le_bytes n x)
    → physical_width t ≡ n
    → decode_cell t (le_bytes n x) ≡ ok (f (word n (le_bytes n x)))
    → f x ≡ v
    → StoredAs t v
number-StoredAs t v n x f h stored wide back same = record {
  bytes = le_bytes n x;
  stored = stored;
  wide = cc (length-le_bytes n x, wide);
  back = rw (back, word-le_bytes_alone n x h, same);
}

-- A cell of two words.
pub halves-StoredAs :
    (t : LogicalType) (v : Value) (hi lo : ℕ) (f : ℕ → ℕ → Value)
    → hi < 2 ^ 64
    → lo < 2 ^ 64
    → cell t v ≡ some (halves (hi, lo))
    → physical_width t ≡ 16
    → (let c = le_bytes 8 lo ++ le_bytes 8 hi in
        decode_cell t c ≡ ok (f (word 8 (drop 8 c)) (word 8 c)))
    → f hi lo ≡ v
    → StoredAs t v
unfolding halves
halves-StoredAs t v hi lo f hh hl stored wide back same = record {
  bytes = le_bytes 8 lo ++ le_bytes 8 hi;
  stored = stored;
  wide = omega (
    arith,
    wide,
    length-append (le_bytes 8 lo) (le_bytes 8 hi),
    length-le_bytes 8 lo,
    length-le_bytes 8 hi,
  );
  back = rw (
    back,
    drop-le_bytes 8 lo (le_bytes 8 hi),
    word-le_bytes 8 lo (le_bytes 8 hi) (omega arith),
    word-le_bytes_alone 8 hi (omega arith),
    same,
  );
}

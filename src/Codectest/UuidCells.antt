-- ===== src/Codectest/UuidCells.antt =====
-- The UUID case of appendCell of codec/codectest/codectest.go against decodeCell of codec/chunk.go.
use duckcall.Base.{
  ℕ, zero, suc, ◌+◌, ◌*◌, ◌/◌, ◌%◌, ◌^◌, ◌<◌, ◌≡◌, refl, List, [], ◌∷◌, ◌++◌, take, drop, arith, ap,
}
use native.Mathlib.Nat.{pow-suc}
use duckcall.Codec.Types.{type_uuid, scalar_type, uuid}
use duckcall.Codec.Cells.{decode_cell, decode_other_cell, physical_width, big_endian}
use duckcall.Codectest.CellWriter.{cell, other_cell}
use duckcall.Codectest.Cells.{StoredAs, halves-StoredAs}
use duckcall.Codectest.CellWriter.{as_uuid, be_word}
use duckcall.Base.{bit_xor}
use duckcall.Base.Xor.{flip_top_bound, flip_twice}
use duckcall.Codec.Cells.{big_endian}

be_word-append : (acc : ℕ) (bs cs : List ℕ) → be_word acc (bs ++ cs) ≡ be_word (be_word acc bs) cs
unfolding be_word
be_word-append acc [] cs = refl
be_word-append acc (b ∷ bs) cs = be_word-append (acc * 256 + b) bs cs

be_word-big_endian : (n acc v : ℕ) → v < 256 ^ n → be_word acc (big_endian n v) ≡ acc * 256 ^ n + v
unfolding be_word big_endian
be_word-big_endian zero acc v h = omega arith
be_word-big_endian (suc n) acc v h = omega (
  arith,
  be_word-append acc (big_endian n (v / 256)) (v % 256 ∷ []),
  be_word-big_endian n acc (v / 256) (omega (arith, pow-suc 256 n)),
  ap (λ (t : ℕ). acc * t) (pow-suc 256 n),
)

whole_word : (v : ℕ) → v < 2 ^ 64 → be_word 0 (big_endian 8 v) ≡ v
whole_word v h = omega (arith, be_word-big_endian 8 0 v (omega arith))

first_word : (hi : ℕ) (more : List ℕ) → take 8 (big_endian 8 hi ++ more) ≡ big_endian 8 hi
unfolding big_endian
first_word hi more = refl

second_word : (hi : ℕ) (more : List ℕ) → drop 8 (big_endian 8 hi ++ more) ≡ more
unfolding big_endian
second_word hi more = refl

pub uuid-StoredAs :
    (hi lo : ℕ)
    → hi < 2 ^ 64
    → lo < 2 ^ 64
    → StoredAs (scalar_type type_uuid) (uuid (big_endian 8 hi ++ big_endian 8 lo))
unfolding cell other_cell decode_cell decode_other_cell physical_width as_uuid
uuid-StoredAs hi lo hh hl =
    halves-StoredAs _ _ (bit_xor hi (2 ^ 63)) lo
      (λ h l. uuid (big_endian 8 (bit_xor h (2 ^ 63)) ++ big_endian 8 l)) (flip_top_bound hi hh) hl
      (rw (
        first_word hi (big_endian 8 lo),
        second_word hi (big_endian 8 lo),
        whole_word hi hh,
        whole_word lo hl,
      ))
      refl refl (rw (flip_twice hi hh))

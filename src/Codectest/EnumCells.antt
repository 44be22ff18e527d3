-- ===== src/Codectest/EnumCells.antt =====
-- The ENUM case of appendCell of codec/codectest/codectest.go against that of decodeCell of
-- codec/chunk.go.
use duckcall.Base.{
  ℕ, zero, suc, ◌^◌, ◌≤◌, ◌<◌, ◌≡◌, true, false, List, [], ◌∷◌, some, length, get_elem?, subst,
  bytes_eq, bytes_eq→eq, bytes_eq_refl, arith, Bool-cases, inl, inr, leb,
}
use duckcall.Codec.Types.{type_enum, LogicalType, logical_type, no_child, no_fields, text}
use duckcall.Codec.Cells.{decode_cell, decode_other_cell, physical_width}
use duckcall.Codectest.CellWriter.{le_bytes, cell, other_cell}
use duckcall.Codectest.Cells.{length-le_bytes, word-le_bytes_alone, StoredAs}
use duckcall.Codectest.CellWriter.{as_enum, enum_cell, enum_position}
use duckcall.Codec.Cells.{enum_value}
use duckcall.Codec.TypeTree.{enum_index_width}

abbrev pub enum_type : List (List ℕ) → LogicalType
enum_type dict = logical_type type_enum 0 0 no_child no_fields dict 0

-- A string of the dictionary is found, at a place that holds it.
record IsFound (s : List ℕ) (dict : List (List ℕ)) : Type 0 where
  place : ℕ
  found : enum_position s dict ≡ some place
  there : get_elem? dict place ≡ some s
  below : place < length dict

IsFound-later : (s e : List ℕ) (es : List (List ℕ)) → IsFound s es → IsFound s (e ∷ es)
unfolding enum_position
IsFound-later s e es f = elim (Bool-cases (bytes_eq e s)) [
  | inl same ↦ record {
    place = 0;
    found = rw same;
    there = rw (bytes_eq→eq e s same);
    below = omega arith;
  }
  | inr differs ↦ record {
    place = suc f.place;
    found = rw (differs, f.found);
    there = f.there;
    below = omega (arith, f.below);
  }
]

get_first : (e : List ℕ) (es : List (List ℕ)) (s : List ℕ) → get_elem? (e ∷ es) 0 ≡ some s → e ≡ s
get_first e es s h = cc

found_now : (e s : List ℕ) → e ≡ s → bytes_eq e s ≡ true
found_now e s h = subst (λ x. bytes_eq e x ≡ true) h (bytes_eq_refl e)

enum_position-IsFound :
    (s : List ℕ) (dict : List (List ℕ)) (i : ℕ) → get_elem? dict i ≡ some s → IsFound s dict
unfolding enum_position
enum_position-IsFound s [] i h = absurd cc
enum_position-IsFound s (e ∷ es) zero h = record {
  place = 0;
  found = rw (found_now e s (get_first e es s h));
  there = h;
  below = omega arith;
}
enum_position-IsFound s (e ∷ es) (suc i) h = IsFound-later s e es (enum_position-IsFound s es i h)

module _ (dict : List (List ℕ)) (s : List ℕ) (f : IsFound s dict) where
  enum_1-StoredAs : leb (length dict) 255 ≡ true → StoredAs (enum_type dict) (text s)
  unfolding cell other_cell decode_cell decode_other_cell physical_width as_enum enum_cell
      enum_value enum_index_width
  enum_1-StoredAs a = record {
    bytes = le_bytes 1 f.place;
    stored = rw (a, f.found);
    wide = rw (a, length-le_bytes 1 f.place);
    back = rw (
      length-le_bytes 1 f.place,
      word-le_bytes_alone 1 f.place (ground (arith, f.below)),
      f.there,
    );
  }

  enum_2-StoredAs :
      leb (length dict) 255 ≡ false
      → leb (length dict) 65535 ≡ true
      → StoredAs (enum_type dict) (text s)
  unfolding cell other_cell decode_cell decode_other_cell physical_width as_enum enum_cell
      enum_value enum_index_width
  enum_2-StoredAs a b = record {
    bytes = le_bytes 2 f.place;
    stored = rw (a, b, f.found);
    wide = rw (a, b, length-le_bytes 2 f.place);
    back = rw (
      length-le_bytes 2 f.place,
      word-le_bytes_alone 2 f.place (ground (arith, f.below)),
      f.there,
    );
  }

  enum_4-StoredAs :
      leb (length dict) 255 ≡ false
      → leb (length dict) 65535 ≡ false
      → length dict ≤ 2 ^ 32
      → StoredAs (enum_type dict) (text s)
  unfolding cell other_cell decode_cell decode_other_cell physical_width as_enum enum_cell
      enum_value enum_index_width
  enum_4-StoredAs a b c = record {
    bytes = le_bytes 4 f.place;
    stored = rw (a, b, f.found);
    wide = rw (a, b, length-le_bytes 4 f.place);
    back = rw (
      length-le_bytes 4 f.place,
      word-le_bytes_alone 4 f.place (ground (arith, f.below)),
      f.there,
    );
  }

pub enum-StoredAs :
    (dict : List (List ℕ)) (i : ℕ) (s : List ℕ)
    → length dict ≤ 2 ^ 32
    → get_elem? dict i ≡ some s
    → StoredAs (enum_type dict) (text s)
enum-StoredAs dict i s h found =
    let f = enum_position-IsFound s dict i found in
    elim (Bool-cases (leb (length dict) 255)) [
      | inl a ↦ enum_1-StoredAs dict s f a
      | inr a ↦ elim (Bool-cases (leb (length dict) 65535)) [
        | inl b ↦ enum_2-StoredAs dict s f a b
        | inr b ↦ enum_4-StoredAs dict s f a b h
      ]
    ]

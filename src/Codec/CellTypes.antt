-- ===== src/Codec/CellTypes.antt =====
-- codec/chunk.go: the type of the value of a cell.
use duckcall.Base.{
  or_left, or_right, ℕ, ◌==◌, ◌≡◌, refl, Bool, true, false, List, Option, none, some, Result, ok,
  err, if◌then◌else◌, get_elem?,
}
use duckcall.Codec.Types.{
  type_enum, type_decimal, id_of, enum_of, width_of, scale_of, LogicalType, CodecError, text,
}
use duckcall.Codec.Cells.{
  date_value, timestamp_value, decode_decimal_cell, enum_value, decode_other_cell, decode_cell,
  sequence_value,
}
use duckcall.Codec.Ensures.{OkHas, ok-OkHas, err-OkHas, split_ok}
use duckcall.Codec.GoTypes.{Fits, is_timestamp}

-- A branch that ends.
module _ {ℓ} {A : Type ℓ} (P : A → Type 0) where
  when :
      (b : Bool) (a : A) (y : Result CodecError A)
      → (b ≡ true → P a)
      → OkHas P y
      → OkHas P (if b then ok a else y)
  when b a y p q = split_ok P b (ok a) y (λ e. ok-OkHas P a (p e)) λ e. q

  both : (b : Bool) (x y : A) → P x → P y → P (if b then x else y)
  both true x y p q = p
  both false x y p q = q

pub sequence_value-Fits : (t : LogicalType) (v : ℕ) → OkHas (Fits t) (sequence_value (id_of t) v)
unfolding sequence_value Fits
sequence_value-Fits t v = search (when, err-OkHas) depth 30

label-OkHas :
    (t : LogicalType) (i : ℕ) (e : CodecError) (o : Option (List ℕ))
    → (id_of t == type_enum) ≡ true
    → get_elem? (enum_of t) i ≡ o
    → OkHas (Fits t) (elim o [ some s ↦ ok (text s) | none ↦ err e ])
unfolding Fits
label-OkHas t i e none h g = err-OkHas (Fits t) e
label-OkHas t i e (some s) h g =
    ok-OkHas (Fits t) (text s) (search (or_left, or_right, h), λ _. (i, g))

enum_value-OkHas :
    (t : LogicalType) (cell : List ℕ)
    → (id_of t == type_enum) ≡ true
    → OkHas (Fits t) (enum_value t cell)
unfolding enum_value
enum_value-OkHas t cell h = label-OkHas t _ _ _ h refl

decimal_cell-Fits :
    (t : LogicalType) (cell : List ℕ)
    → (id_of t == type_decimal) ≡ true
    → Fits t (decode_decimal_cell t cell)
unfolding decode_decimal_cell Fits
decimal_cell-Fits t cell e =
    let fits : ((id_of t == type_decimal) ≡ true)
        × (width_of t ≡ width_of t)
        × (scale_of t ≡ scale_of t) =
      (e, refl, refl) in
    search (both (Fits t), fits) depth 8

timestamp_value-Fits :
    (t : LogicalType) (v : ℕ) → is_timestamp (id_of t) ≡ true → Fits t (timestamp_value (id_of t) v)
unfolding timestamp_value Fits
timestamp_value-Fits t v e = search (both (Fits t), or_right) depth 8

decode_other_cell-Fits :
    (t : LogicalType) (cell : List ℕ) → OkHas (Fits t) (decode_other_cell t cell)
unfolding decode_other_cell date_value Fits
decode_other_cell-Fits t cell =
    search
      (
        when, split_ok, err-OkHas, enum_value-OkHas, decimal_cell-Fits, timestamp_value-Fits,
        or_left, or_right,
      )
      depth 30

pub decode_cell-Fits : (t : LogicalType) (cell : List ℕ) → OkHas (Fits t) (decode_cell t cell)
unfolding decode_cell Fits
decode_cell-Fits t cell = search (when, decode_other_cell-Fits) depth 30

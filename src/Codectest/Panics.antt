-- ===== src/Codectest/Panics.antt =====
-- What makes the encoder of codec/codectest/codectest.go panic.
use duckcall.Base.{
  ℕ, zero, suc, ◌≡◌, refl, ◌≢◌, List, [], ◌∷◌, none, some, length, get_elem?, ne→==, if◌then◌else◌,
  sym, ap, ◌∙◌,
}
use duckcall.Qser.Writer.{Writer, new_writer, put_field, put_end, put_field_uvarint, put_uvarint}
use duckcall.Codectest.Write.{Write, put, on_some, ◌then◌, write_each, write_list}
use duckcall.Codectest.TypeWriter.{write_type}
use duckcall.Codectest.Bodies.{Col, rows_of, write_column, write_chunk, encode_chunk}

Panics : Write → Type 0
Panics p = (w : Writer) → p w ≡ none

then_Panics : (p q : Write) → Panics q → Panics (p then q)
unfolding Panics
then_Panics p q h w = elim (p w) as (λ x. on_some x q ≡ none) [ none ↦ refl | some v ↦ h v ]

first_Panics : (p q : Write) → Panics p → Panics (p then q)
unfolding Panics
first_Panics p q h w = rw (h w)

column_Panics : (rows : ℕ) (c : Col) → length c.vals ≢ rows → Panics (write_column rows c)
unfolding Panics write_column
column_Panics rows c h w = rw (ne→== (length c.vals) rows h)

first_col : (x : Col) (cols : List Col) (c : Col) → get_elem? (x ∷ cols) 0 ≡ some c → x ≡ c
first_col x cols c e = cc

columns_Panics :
    (rows i : ℕ) (cols : List Col) (c : Col)
    → get_elem? cols i ≡ some c
    → length c.vals ≢ rows
    → Panics (write_each (write_column rows) cols)
unfolding Panics write_each
columns_Panics rows i [] c e h = absurd cc
columns_Panics rows zero (x ∷ cols) c e h =
    first_Panics (write_column rows x) (write_each (write_column rows) cols) (
      column_Panics rows x
        (λ k. h (ap (λ (y : Col). length y.vals) (sym (first_col x cols c e)) ∙ k)))
columns_Panics rows (suc i) (x ∷ cols) c e h =
    then_Panics (write_column rows x) (write_each (write_column rows) cols)
      (columns_Panics rows i cols c e h)

chunk_Panics :
    (cols : List Col) (i : ℕ) (c : Col)
    → get_elem? cols i ≡ some c
    → length c.vals ≢ rows_of cols
    → Panics (write_chunk cols)
unfolding write_chunk write_list
chunk_Panics cols i c e h =
    let columns =
      put (put_uvarint (length cols)) then write_each (write_column (rows_of cols)) cols in
    let after = columns then put put_end in
    let types = write_list (λ c. write_type c.of_type) cols in
    then_Panics (put (put_field_uvarint 100 (rows_of cols)))
      (put (put_field 101) then types then put (put_field 102) then after)
      (then_Panics (put (put_field 101)) (types then put (put_field 102) then after) (
        then_Panics types (put (put_field 102) then after) (
          then_Panics (put (put_field 102)) after (
            first_Panics columns (put put_end) (
              then_Panics (put (put_uvarint (length cols)))
                (write_each (write_column (rows_of cols)) cols)
                (columns_Panics (rows_of cols) i cols c e h))))))

-- EncodeChunk panics on a chunk with a column that has another number of values than the first.
pub encode_chunk-unequal :
    (cols : List Col) (i : ℕ) (c : Col)
    → get_elem? cols i ≡ some c
    → length c.vals ≢ rows_of cols
    → encode_chunk cols ≡ none
unfolding encode_chunk Panics
encode_chunk-unequal cols i c e h = rw (chunk_Panics cols i c e h new_writer)

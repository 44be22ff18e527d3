-- ===== src/Codec/WellFormed.antt =====
-- codec/chunk.go: the rows of a decoded chunk and the lengths of its columns.
use duckcall.Base.{
  ℕ, ◌^◌, ◌≤◌, ◌≡◌, refl, Bool, true, false, List, [], ◌∷◌, Option, none, some, Result, ok, err,
  ltb, length, All, ltb→le,
}
use duckcall.Qser.Reader.{rest, end_object, uvarint, Error}
use duckcall.Codec.Types.{LogicalType, chunk_rows, CodecError, unsupported, implausible, Value}
use duckcall.Codec.Decode.{Decode, ◌>>=◌, ◌>>◌, done, read, refuse, check}
use duckcall.Codec.TypeTree.{required}
use duckcall.Codec.Vectors.{max_chunk_rows, vector_levels}
use duckcall.Codec.Ensures.{OkHas, bind-Ensures, then-Ensures, done-Ensures, check-Ensures, Ensures}
use duckcall.Codec.Lengths.{decode_vector-Sized}
use duckcall.Codec.Chunk.{
  column_error, column_checked, check_column, column_outcome, decode_column, push_column,
  decode_columns, chunk_columns_of, chunk_rows_of, decode_chunk_contents, Column, Chunk,
}

-- A column without an error has a value for each row.
abbrev pub IsFull : ℕ → Column → Type 0
IsFull rows cl = cl.error ≡ none → length cl.vals ≡ rows

pub record IsWellFormed (ch : Chunk) : Type 0 where
  pub rows_bound : ch.rows ≤ 2 ^ 16
  pub full : All (IsFull ch.rows) ch.cols

pub refuse-Ensures : (b : Bool) (e : CodecError) → Ensures (λ _. b ≡ false) (refuse b e)
unfolding refuse OkHas
refuse-Ensures true e = record { holds = λ r. tt }
refuse-Ensures false e = record { holds = λ r. refl }

column_error-OkHas :
    (t : LogicalType) (rows : ℕ) (x : Result CodecError (List Value))
    → OkHas (λ vals. length vals ≡ rows) x
    → OkHas (IsFull rows) (column_error t x)
unfolding OkHas
column_error-OkHas t rows (ok vals) h = λ e. h
column_error-OkHas t rows (err (unsupported u)) h = λ e. cc
column_error-OkHas t rows (err e) h = tt

column_checked-OkHas :
    (P : Column → Type 0) (t : LogicalType) (col : Column) (e : Option Error)
    → P col
    → OkHas P (column_checked t col e)
unfolding OkHas
column_checked-OkHas P t col none p = p
column_checked-OkHas P t col (some e) p = tt

decode_column-Ensures : (rows : ℕ) (t : LogicalType) → Ensures (IsFull rows) (decode_column rows t)
unfolding decode_column
decode_column-Ensures rows t =
    bind-Ensures (IsFull rows) (IsFull rows) (column_outcome t rows)
      (λ col. read end_object >>= λ e. check_column t col)
      (record {
        holds =
            λ r. column_error-OkHas t rows _ ((decode_vector-Sized vector_levels t rows).holds r);
      })
      λ col h.
        then-Ensures (IsFull rows) (read end_object) (λ e. check_column t col)
          λ e. record { holds = λ r. column_checked-OkHas (IsFull rows) t col r.err h }

push_column-Ensures :
    (rows : ℕ) (t : LogicalType) (rest : Decode (List Column))
    → Ensures (All (IsFull rows)) rest
    → Ensures (All (IsFull rows)) (push_column rows t rest)
unfolding push_column
push_column-Ensures rows t rest h =
    bind-Ensures (IsFull rows) (All (IsFull rows)) (decode_column rows t)
      (λ col. rest >>= λ cols. done (col ∷ cols)) (decode_column-Ensures rows t)
      λ col p.
        bind-Ensures (All (IsFull rows)) (All (IsFull rows)) rest (λ cols. done (col ∷ cols)) h
          λ cols ps. done-Ensures (All (IsFull rows)) (col ∷ cols) (p, ps)

decode_columns-Ensures :
    (rows : ℕ) (ts : List LogicalType) → Ensures (All (IsFull rows)) (decode_columns rows ts)
unfolding decode_columns OkHas
decode_columns-Ensures rows [] = record { holds = λ r. tt }
decode_columns-Ensures rows (t ∷ ts) = record {
  holds = (push_column-Ensures rows t _ (decode_columns-Ensures rows ts)).holds;
}

module _ (rows : ℕ) (h : ltb max_chunk_rows rows ≡ false) where
  filled :
      (cols : List Column)
      → All (IsFull rows) cols
      → IsWellFormed (record { rows = rows; cols = cols })
  filled cols p = record { rows_bound = ltb→le max_chunk_rows rows h; full = p }

  last_columns-Ensures :
      (types : List LogicalType)
      → Ensures IsWellFormed (
          decode_columns rows types >>= λ cols.
          read end_object >>= λ e. check (record { rows = rows; cols = cols }))
  last_columns-Ensures types =
      bind-Ensures (All (IsFull rows)) IsWellFormed (decode_columns rows types)
        (λ cols. read end_object >>= λ e. check (record { rows = rows; cols = cols }))
        (decode_columns-Ensures rows types)
        λ cols p.
          then-Ensures IsWellFormed (read end_object)
            (λ e. check (record { rows = rows; cols = cols }))
            λ e. check-Ensures IsWellFormed (record { rows = rows; cols = cols }) (filled cols p)

  columns-Ensures : Ensures IsWellFormed (chunk_columns_of rows)
  unfolding chunk_columns_of
  columns-Ensures = search (then-Ensures, last_columns-Ensures) depth 10

chunk_rows-Ensures : Ensures IsWellFormed chunk_rows_of
unfolding chunk_rows_of
chunk_rows-Ensures =
    then-Ensures IsWellFormed (read uvarint)
      (λ rows.
        refuse (ltb max_chunk_rows rows) (implausible chunk_rows rows) >> chunk_columns_of rows)
      λ rows.
        bind-Ensures (λ _. ltb max_chunk_rows rows ≡ false) IsWellFormed
          (refuse (ltb max_chunk_rows rows) (implausible chunk_rows rows))
          (λ _. chunk_columns_of rows)
          (refuse-Ensures (ltb max_chunk_rows rows) (implausible chunk_rows rows))
          λ _ h. columns-Ensures rows h

pub chunk_contents-Ensures : Ensures IsWellFormed decode_chunk_contents
unfolding decode_chunk_contents
chunk_contents-Ensures =
    then-Ensures IsWellFormed (required chunk_rows 100) (λ _. chunk_rows_of) λ _. chunk_rows-Ensures

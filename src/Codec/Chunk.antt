-- ===== src/Codec/Chunk.antt =====
-- Chunk, Column and decodeChunkContents of codec/chunk.go.
use duckcall.Base.{
  ℕ, not, List, [], ◌∷◌, Option, none, some, Result, ok, err, ltb, ◌==◌, if◌then◌else◌, length,
  get_elem?,
}
use duckcall.Qser.Reader.{end_object, uvarint, list_count, Error, Reader}
use duckcall.Codec.Types.{
  LogicalType, chunk_rows, chunk_types, chunk_columns, CodecError, framing, unsupported, miscounted,
  implausible, value_index, in_column, Value,
}
use duckcall.Codec.Decode.{Decode, ◌>>=◌, ◌>>◌, done, read, refuse, check, for_range}
use duckcall.Codec.TypeTree.{required, decode_type, type_levels}
use duckcall.Codec.Vectors.{max_chunk_rows, element, decode_vector, vector_levels}

-- Column: its type, a value for each row, and the error of a type without values.
pub record Column : Type 0 where
  pub of_type : LogicalType
  pub vals : List Value
  pub error : Option CodecError

pub record Chunk : Type 0 where
  pub rows : ℕ
  pub cols : List Column

abbrev pub row_count : Chunk → ℕ
row_count ch = ch.rows

abbrev pub column_count : Chunk → ℕ
column_count ch = length ch.cols

unfoldable pub column_value : Column → ℕ → Result CodecError Value
column_value cl row = elim cl.error [ none ↦ ok (element cl.vals row) | some e ↦ err e ]

-- Chunk.Value at indices that are not negative.
unfoldable pub chunk_value : Chunk → ℕ → ℕ → Result CodecError Value
chunk_value ch col row = elim (get_elem? ch.cols col) [
  | none ↦ err (value_index col row)
  | some cl ↦ if ltb row ch.rows then column_value cl row else err (value_index col row)
]

-- The error of a column's vector.
abbrev pub column_error : LogicalType → Result CodecError (List Value) → Result CodecError Column
column_error t (ok vals) = ok (record { of_type = t; vals = vals; error = none })
column_error t (err (unsupported u)) =
    ok (record { of_type = t; vals = []; error = some (unsupported u) })
column_error t (err e) = err (in_column t e)

abbrev pub column_of :
    LogicalType → Result CodecError (List Value) × Reader → Result CodecError Column × Reader
column_of t (x, r) = (column_error t x, r)

-- `if err := r.Err(); err != nil { return …, fmt.Errorf("codec: %s column: %w", t, err) }`
abbrev pub column_checked : LogicalType → Column → Option Error → Result CodecError Column
column_checked t col none = ok col
column_checked t col (some e) = err (in_column t (framing e))

abbrev pub check_column : LogicalType → Column → Decode Column
check_column t col r = (column_checked t col r.err, r)

abbrev pub column_outcome : LogicalType → ℕ → Decode Column
column_outcome t rows r = column_of t (decode_vector vector_levels t rows r)

unfoldable pub decode_column : ℕ → LogicalType → Decode Column
decode_column rows t = do col ← column_outcome t rows; e ← read end_object; check_column t col

unfoldable pub push_column : ℕ → LogicalType → Decode (List Column) → Decode (List Column)
push_column rows t rest = do col ← decode_column rows t; cols ← rest; done (col ∷ cols)

unfoldable pub decode_columns : ℕ → List LogicalType → Decode (List Column)
decode_columns rows [] r = (ok [], r)
decode_columns rows (t ∷ ts) r = push_column rows t (decode_columns rows ts) r

unfoldable pub decode_types : Decode (List LogicalType)
decode_types = do n ← read list_count; for_range (λ i. decode_type type_levels) n 0

-- The chunk's types and columns.
unfoldable pub chunk_columns_of : ℕ → Decode Chunk
chunk_columns_of rows = do
  required chunk_types 101
  types ← decode_types
  required chunk_columns 102
  ncols ← read list_count
  refuse (not (ncols == length types)) (miscounted chunk_columns ncols (length types))
  cols ← decode_columns rows types
  e ← read end_object
  check (record { rows = rows; cols = cols })

unfoldable pub chunk_rows_of : Decode Chunk
chunk_rows_of = do
  rows ← read uvarint
  refuse (ltb max_chunk_rows rows) (implausible chunk_rows rows)
  chunk_columns_of rows

unfoldable pub decode_chunk_contents : Decode Chunk
decode_chunk_contents = do required chunk_rows 100; chunk_rows_of

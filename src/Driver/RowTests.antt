-- ===== src/Driver/RowTests.antt =====
-- driver/rows.go on a result of two rows, with an empty chunk before them.
use duckcall.Base.{ℕ, zero, suc, ◌≡◌, refl, List, [], ◌∷◌, map, none, some, Result, ok, err, arith}
use duckcall.Codec.Types.{LogicalType, scalar_type, type_integer, CodecError, Value, int32}
use duckcall.Codec.Chunk.{Chunk, chunk_value, column_value}
use duckcall.Base.{◌-◌, ◌^◌, ◌++◌, false}
use duckcall.Base.Strings.{codes}
use duckcall.Base.Numerals.{digits_from}
use duckcall.Codec.Types.{
  logical_type, child, no_child, no_fields, field, type_list, type_struct, type_varchar, null,
  items, struct, entry, no_entries, value, no_values, text,
}
use duckcall.Driver.Values.{to_driver_value, append_json, scalar_value, json_leaf, string, misfit}
use duckcall.Driver.Rows.{new_rows, row_cells, convert_cell}
use duckcall.Driver.Table.{collect, all_rows, IsReadable, next-all_rows}

abbrev no_rows : Chunk
no_rows = record { rows = 0; cols = [] }

abbrev two_rows : Chunk
two_rows = record {
  rows = 2;
  cols =
      record { of_type = scalar_type type_integer; vals = int32 7 ∷ int32 8 ∷ []; error = none }
      ∷ [];
}

abbrev same : CodecError → CodecError
same e = e

abbrev as_is : LogicalType → Value → Result CodecError Value
as_is t v = ok v

abbrev first_cell : Chunk → ℕ → List Value
first_cell ch i = elim (chunk_value ch 0 i) [ ok v ↦ v ∷ [] | err e ↦ [] ]

none_there : IsReadable same as_is 1 first_cell no_rows
none_there i h = absurd (omega arith)

two_there : IsReadable same as_is 1 first_cell two_rows
unfolding row_cells convert_cell chunk_value column_value
two_there zero h = refl
two_there (suc zero) h = refl
two_there (suc (suc i)) h = absurd (omega arith)

next-all_rows_example :
    collect same as_is 3 1 (new_rows (map ok (no_rows ∷ two_rows ∷ [])))
    ≡ some (all_rows same as_is 1 first_cell (no_rows ∷ two_rows ∷ []))
next-all_rows_example =
    next-all_rows same as_is 1 first_cell (no_rows ∷ two_rows ∷ []) 3 (none_there, (two_there, tt))
      (omega arith)

both :
    all_rows same as_is 1 first_cell (no_rows ∷ two_rows ∷ [])
    ≡ (int32 7 ∷ []) ∷ (int32 8 ∷ []) ∷ []
unfolding chunk_value column_value
both = refl

abbrev quoted : List ℕ → List ℕ
quoted s = 34 ∷ (s ++ (34 ∷ []))

-- STRUCT(a INTEGER, b VARCHAR)[]
abbrev table_type : LogicalType
table_type =
    logical_type type_list 0 0
      (child (
        logical_type type_struct 0 0 no_child
          (field (codes "a") (scalar_type type_integer)
            (field (codes "b") (scalar_type type_varchar) no_fields))
          [] 0))
      no_fields [] 0

rendered :
    to_driver_value
      (λ x. x)
      (λ _. [])
      (λ _. false)
      (λ _ _ _. [])
      (λ _ _. [])
      quoted
      table_type
      (items (
        value
          (struct (
            entry
              (codes "a")
              (int32 (2 ^ 32 - 7))
              (entry (codes "b") (text (codes "x")) no_entries)))
          (value null no_values)))
    ≡ ok (string (codes "[{\"a\":-7,\"b\":\"x\"},null]"))
unfolding to_driver_value append_json scalar_value json_leaf digits_from
rendered = refl

misfitting :
    to_driver_value
      (λ x. x)
      (λ _. [])
      (λ _. false)
      (λ _ _ _. [])
      (λ _ _. [])
      quoted
      table_type
      (int32 7)
    ≡ err (misfit table_type)
unfolding to_driver_value append_json
misfitting = refl

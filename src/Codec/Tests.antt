-- ===== src/Codec/Tests.antt =====
-- Concrete chunks and result bodies.
use duckcall.Base.{ℕ, ◌-◌, ◌^◌, ◌≡◌, refl, true, List, [], ◌∷◌, ◌++◌, none, some, ok, All, arith}
use duckcall.Qser.Varint.{uvarint_scan, uint16 as read_uint16}
use duckcall.Qser.Reader.{
  Reader, truncated, new_reader, guarded, peek_id, try_field, end_object, take_bytes, uvarint,
  svarint, bool, bytes, list_count, present, hugeint, optional_idx,
}
use duckcall.Codec.Types.{scalar_type, null, int32, text}
use duckcall.Codec.Decode.{refuse, require, for_range}
use duckcall.Codec.TypeTree.{type_object, decode_type}
use duckcall.Codec.Cells.{little_endian, decode_cell, physical_width, supported_scalar, valid}
use duckcall.Codec.Vectors.{
  tabulate, rows_or_unsupported, string_value, string_cell, string_vector, scalar_cell,
  sized_vector, scalar_vector, nested_or_scalar_vector, validity_mask_of, vector_of_type,
  decode_flat_vector, vector_of_kind, vector_object, decode_vector,
}
use duckcall.Codec.Chunk.{
  chunk_value, decode_column, push_column, decode_columns, decode_types, chunk_columns_of,
  chunk_rows_of, decode_chunk_contents, Column, Chunk,
}
use duckcall.Codec.Reading.{results-Reads, Reads}
use duckcall.Codec.Results.{
  read_prepare, read_fetch, schema_columns, wrapped_chunk, chunk_wrapper, present_chunks,
  decode_chunk_list, read_prepare, read_fetch, read_chunk, decode_prepare, decode_fetch,
  decode_chunk, PrepareResult,
}
use duckcall.Codec.WellFormed.{IsWellFormed}
use duckcall.Codec.ResultChunks.{
  Answers, decode_fetch-IsWellFormed, decode_prepare-IsWellFormed, chunk_value-in_range,
}

-- A chunk of two rows: an INTEGER column of 7 and -2, and a VARCHAR column whose second row is null.
abbrev pub chunk_bytes : List ℕ
chunk_bytes =
    100 ∷ 0 ∷ 2 ∷ 101 ∷ 0 ∷ 2 ∷ 100 ∷ 0 ∷ 13 ∷ 255 ∷ 255 ∷ 100 ∷ 0 ∷ 25 ∷ 255 ∷ 255 ∷ 102 ∷ 0 ∷ 2
    ∷ 100 ∷ 0 ∷ 0 ∷ 102 ∷ 0 ∷ 8 ∷ 7 ∷ 0 ∷ 0 ∷ 0 ∷ 254 ∷ 255 ∷ 255 ∷ 255 ∷ 255 ∷ 255 ∷ 100 ∷ 0 ∷ 1
    ∷ 101 ∷ 0 ∷ 1 ∷ 1 ∷ 102 ∷ 0 ∷ 2 ∷ 1 ∷ 97 ∷ 0 ∷ 255 ∷ 255 ∷ 255 ∷ 255 ∷ []

abbrev pub text_column : Column
text_column = record { of_type = scalar_type 25; vals = text (97 ∷ []) ∷ null ∷ []; error = none }

abbrev pub two_rows : Chunk
two_rows = record {
  rows = 2;
  cols =
      record { of_type = scalar_type 13; vals = int32 7 ∷ int32 4294967294 ∷ []; error = none }
      ∷ text_column
      ∷ [];
}

two_rows-decoded : decode_chunk chunk_bytes ≡ ok two_rows
unfolding uvarint_scan read_uint16 new_reader guarded peek_id try_field end_object take_bytes
    uvarint bool bytes list_count refuse require for_range type_object decode_type little_endian
    decode_cell physical_width supported_scalar valid tabulate rows_or_unsupported string_value
    string_cell string_vector scalar_cell sized_vector scalar_vector nested_or_scalar_vector
    validity_mask_of vector_of_type decode_flat_vector vector_of_kind vector_object decode_vector
    decode_column push_column decode_columns decode_types chunk_columns_of chunk_rows_of
    decode_chunk_contents read_chunk decode_chunk
two_rows-decoded = refl

chunk_value-in_range_example : Answers text_column 1 (chunk_value two_rows 1 1)
chunk_value-in_range_example =
    chunk_value-in_range chunk_bytes two_rows 1 1 text_column two_rows-decoded refl (omega arith)

abbrev fetch_bytes : List ℕ
fetch_bytes = 1 ∷ 0 ∷ 1 ∷ 1 ∷ 44 ∷ 1 ∷ chunk_bytes ++ (255 ∷ 255 ∷ 2 ∷ 0 ∷ 5 ∷ 255 ∷ 255 ∷ [])

two_rows-fetched :
    decode_fetch fetch_bytes ≡ ok (record { chunks = two_rows ∷ []; batch_index = 5 })
unfolding uvarint_scan read_uint16 new_reader guarded peek_id try_field end_object take_bytes
    uvarint bool bytes list_count present optional_idx refuse require for_range type_object
    decode_type little_endian decode_cell physical_width supported_scalar valid tabulate
    rows_or_unsupported string_value string_cell string_vector scalar_cell sized_vector
    scalar_vector nested_or_scalar_vector validity_mask_of vector_of_type decode_flat_vector
    vector_of_kind vector_object decode_vector decode_column push_column decode_columns decode_types
    chunk_columns_of chunk_rows_of decode_chunk_contents wrapped_chunk chunk_wrapper present_chunks
    decode_chunk_list read_fetch decode_fetch
two_rows-fetched = refl

decode_fetch-IsWellFormed_example : All IsWellFormed (two_rows ∷ [])
decode_fetch-IsWellFormed_example =
    decode_fetch-IsWellFormed fetch_bytes (record { chunks = two_rows ∷ []; batch_index = 5 })
      two_rows-fetched

-- A result without columns, and one chunk.
abbrev pub prepare_bytes : List ℕ
prepare_bytes =
    3 ∷ 0 ∷ 1 ∷ 4 ∷ 0 ∷ 1 ∷ 1 ∷ 44 ∷ 1 ∷ chunk_bytes
    ++ (255 ∷ 255 ∷ 5 ∷ 0 ∷ 127 ∷ 1 ∷ 255 ∷ 255 ∷ [])

abbrev pub prepared : PrepareResult
prepared = record {
  schema = [];
  chunks = two_rows ∷ [];
  needs_more_fetch = true;
  result_uuid = record { upper = 2 ^ 64 - 1; lower = 1 };
}

pub two_rows-prepared : decode_prepare prepare_bytes ≡ ok prepared
unfolding uvarint_scan read_uint16 new_reader guarded peek_id try_field end_object take_bytes
    uvarint svarint bool bytes list_count present hugeint refuse require for_range type_object
    decode_type little_endian decode_cell physical_width supported_scalar valid tabulate
    rows_or_unsupported string_value string_cell string_vector scalar_cell sized_vector
    scalar_vector nested_or_scalar_vector validity_mask_of vector_of_type decode_flat_vector
    vector_of_kind vector_object decode_vector decode_column push_column decode_columns decode_types
    chunk_columns_of chunk_rows_of decode_chunk_contents schema_columns wrapped_chunk chunk_wrapper
    present_chunks decode_chunk_list read_prepare decode_prepare
two_rows-prepared = refl

decode_prepare-IsWellFormed_example : All IsWellFormed (two_rows ∷ [])
decode_prepare-IsWellFormed_example =
    decode_prepare-IsWellFormed prepare_bytes prepared two_rows-prepared

-- A reader that has failed in front of a good body.
abbrev failed_reader : Reader
failed_reader = record { buf = fetch_bytes; off = 0; err = some truncated }

results-Reads_example :
    Reads read_prepare failed_reader
    × Reads read_fetch failed_reader
    × Reads read_chunk failed_reader
results-Reads_example = results-Reads failed_reader (omega arith)

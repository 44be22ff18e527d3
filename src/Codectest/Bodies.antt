-- ===== src/Codectest/Bodies.antt =====
-- Chunks and result bodies of codec/codectest/codectest.go.
use duckcall.Base.{ℕ, Bool, true, List, [], ◌∷◌, Option, not, ◌==◌, if◌then◌else◌, length, is_empty}
use duckcall.Qser.Reader.{Hugeint}
use duckcall.Qser.Writer.{
  new_writer, put_field, put_field_uvarint, put_field_bool, put_field_hugeint, put_end, put_bool,
  put_string,
}
use duckcall.Codec.Types.{LogicalType, Value}
use duckcall.Codectest.Write.{Write, put, skip, panic, ◌then◌, write_list, bytes_of}
use duckcall.Codectest.TypeWriter.{write_type}
use duckcall.Codectest.VectorWriter.{write_vector}

-- Col
pub record Col : Type 0 where
  pub name : List ℕ
  pub of_type : LogicalType
  pub vals : List Value

abbrev pub rows_of : List Col → ℕ
rows_of [] = 0
rows_of (c ∷ cs) = length c.vals

unfoldable pub write_column : ℕ → Col → Write
write_column rows c =
    if not (length c.vals == rows) then panic else write_vector c.of_type c.vals then put put_end

-- WriteChunk.
unfoldable pub write_chunk : List Col → Write
write_chunk cols =
    put (put_field_uvarint 100 (rows_of cols))
    then put (put_field 101)
    then write_list (λ c. write_type c.of_type) cols
    then put (put_field 102)
    then write_list (write_column (rows_of cols)) cols
    then put put_end

unfoldable pub encode_chunk : List Col → Option (List ℕ)
encode_chunk cols = bytes_of (write_chunk cols new_writer)

unfoldable pub write_wrapper : List Col → Write
write_wrapper cols =
    put (put_bool true) then put (put_field 300) then write_chunk cols then put put_end

unfoldable pub write_chunk_list : List (List Col) → Write
write_chunk_list chunks = write_list write_wrapper chunks

unfoldable pub write_schema : List Col → Write
write_schema cols =
    if is_empty cols
    then skip
    else put (put_field 1)
      then write_list (λ c. write_type c.of_type) cols
      then put (put_field 2)
      then write_list (λ c. put (put_string c.name)) cols

-- `if len(chunks) > 0 { w.Field(id); writeChunkList(…) }`
unfoldable pub write_chunks_field : ℕ → List (List Col) → Write
write_chunks_field id chunks =
    if is_empty chunks then skip else put (put_field id) then write_chunk_list chunks

unfoldable pub write_prepare_body : List Col → List (List Col) → Bool → Hugeint → Write
write_prepare_body cols inline needs_more uuid =
    write_schema cols
    then (if needs_more then put (put_field_bool 3 true) else skip)
    then write_chunks_field 4 inline
    then put (put_field_hugeint 5 uuid)
    then put put_end

unfoldable pub encode_prepare_body : List Col → List (List Col) → Bool → Hugeint → Option (List ℕ)
encode_prepare_body cols inline needs_more uuid =
    bytes_of (write_prepare_body cols inline needs_more uuid new_writer)

unfoldable pub write_fetch_body : List (List Col) → ℕ → Write
write_fetch_body chunks batch_index =
    write_chunks_field 1 chunks then put (put_field_uvarint 2 batch_index) then put put_end

unfoldable pub encode_fetch_body : List (List Col) → ℕ → Option (List ℕ)
encode_fetch_body chunks batch_index = bytes_of (write_fetch_body chunks batch_index new_writer)

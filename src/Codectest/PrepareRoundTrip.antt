-- ===== src/Codectest/PrepareRoundTrip.antt =====
-- EncodePrepareBody of codec/codectest/codectest.go against DecodePrepare of codec/result.go.
use duckcall.Base.{ℕ, ◌≡◌, Bool, true, false, List, [], ◌++◌, some, length, if◌then◌else◌, All, map}
use duckcall.Qser.Varint.{IsU64}
use duckcall.Qser.Reader.{Hugeint, bool}
use duckcall.Qser.Writer.{Writer, put_field_bool}
use duckcall.Qser.RoundTrip.{wrote}
use duckcall.Codec.Decode.{read}
use duckcall.Codec.TypeTree.{optional, type_levels}
use duckcall.Codec.Chunk.{decode_types}
use duckcall.Codec.Results.{PrepareResult, SchemaColumn, decode_names}
use duckcall.Codectest.Write.{put, skip, ◌then◌}
use duckcall.Codectest.Bodies.{Col, write_schema}
use duckcall.Codectest.Encodes.{Encodes}
use duckcall.Codectest.Fields.{FieldReads}
use duckcall.Codectest.TypeRoundTrip.{IsType}
use duckcall.Codectest.ChunkRoundTrip.{IsChunk, chunk_of}

-- The schema that a decoder makes of columns.
abbrev pub schema_of : List Col → List SchemaColumn
schema_of cols = map (λ c. record { name = c.name; of_type = c.of_type }) cols

-- A column with a name and a type that can be written.
pub record IsNamed (c : Col) : Type 0 where
  pub named : IsU64 (length c.name)
  pub is_type : IsType type_levels c.of_type

-- The two fields of the schema, which are left out together.
record SchemaFields (cols : List Col) : Type 0 where
  types : List ℕ
  names : List ℕ
  writes : (w : Writer) → write_schema cols w ≡ some (wrote w (types ++ names))
  types_read : FieldReads 1 types (optional 1 [] decode_types) (map (λ c. c.of_type) cols)
  names_read : FieldReads 2 names (optional 2 [] decode_names) (map (λ c. c.name) cols)

-- Whether more is to be fetched, which is left out when it is false.
record MoreField (needs_more : Bool) : Type 0 where
  bytes : List ℕ
  writes :
      (w : Writer)
      → (if needs_more then put (put_field_bool 3 true) else skip) w ≡ some (wrote w bytes)
  more_read : FieldReads 3 bytes (optional 3 false (read bool)) needs_more

-- A result body whose schema, chunks and handle can be written.
pub record IsPrepare (cols : List Col) (inline : List (List Col)) (uuid : Hugeint) : Type 0 where
  pub columns_counted : IsU64 (length cols)
  pub columns : All IsNamed cols
  pub chunks_counted : IsU64 (length inline)
  pub chunks : All IsChunk inline
  pub upper_u64 : IsU64 uuid.upper
  pub lower_u64 : IsU64 uuid.lower

module _ (cols : List Col) (inline : List (List Col)) (needs_more : Bool) (uuid : Hugeint) where
  abbrev pub prepared : PrepareResult
  prepared = record {
    schema = schema_of cols;
    chunks = map chunk_of inline;
    needs_more_fetch = needs_more;
    result_uuid = uuid;
  }

-- ===== src/Codec/Results.antt =====
-- codec/result.go: the bodies of PREPARE_RESPONSE and FETCH_RESPONSE.
use duckcall.Base.{
  ℕ, Bool, false, not, List, [], ◌∷◌, Option, none, some, Result, ◌==◌, if◌then◌else◌, length,
}
use duckcall.Qser.Reader.{
  optional_idx_absent, new_reader, end_object, bool, string, list_count, present, hugeint,
  optional_idx, Hugeint,
}
use duckcall.Codec.Types.{
  LogicalType, chunk_object, result_uuid, column_names, CodecError, miscounted,
}
use duckcall.Codec.Decode.{Decode, ◌>>=◌, ◌>>◌, done, read, refuse, check, for_range}
use duckcall.Codec.Chunk.{decode_types, decode_chunk_contents, Chunk}
use duckcall.Codec.TypeTree.{optional, required}

-- Schema: a name and a type for each column.
pub record SchemaColumn : Type 0 where
  pub name : List ℕ
  pub of_type : LogicalType

pub record PrepareResult : Type 0 where
  pub schema : List SchemaColumn
  pub chunks : List Chunk
  pub needs_more_fetch : Bool
  pub result_uuid : Hugeint

pub record FetchResult : Type 0 where
  pub chunks : List Chunk
  pub batch_index : ℕ

unfoldable pub schema_columns : List (List ℕ) → List LogicalType → List SchemaColumn
schema_columns (n ∷ ns) (t ∷ ts) = record { name = n; of_type = t } ∷ schema_columns ns ts
schema_columns _ _ = []

abbrev pub push_chunk : Option Chunk → List Chunk → List Chunk
push_chunk none cs = cs
push_chunk (some c) cs = c ∷ cs

unfoldable pub wrapped_chunk : Decode (Option Chunk)
wrapped_chunk = do
  required chunk_object 300
  ch ← decode_chunk_contents
  e ← read end_object
  done (some ch)

-- An element of the chunk list, `none` for a null pointer.
unfoldable pub chunk_wrapper : Decode (Option Chunk)
chunk_wrapper = do is_present ← read present; if is_present then wrapped_chunk else done none

unfoldable pub present_chunks : List (Option Chunk) → List Chunk
present_chunks [] = []
present_chunks (c ∷ cs) = push_chunk c (present_chunks cs)

unfoldable pub decode_chunk_list : Decode (List Chunk)
decode_chunk_list = do
  n ← read list_count
  chunks ← for_range (λ i. chunk_wrapper) n 0
  check (present_chunks chunks)

unfoldable pub decode_names : Decode (List (List ℕ))
decode_names = do n ← read list_count; for_range (λ i. read string) n 0

unfoldable pub read_prepare : Decode PrepareResult
read_prepare = do
  types ← optional 1 [] decode_types
  names ← optional 2 [] decode_names
  refuse (not (length names == length types))
      (miscounted column_names (length names) (length types))
  more ← optional 3 false (read bool)
  chunks ← optional 4 [] decode_chunk_list
  required result_uuid 5
  id ← read hugeint
  e ← read end_object
  check (record {
    schema = schema_columns names types;
    chunks = chunks;
    needs_more_fetch = more;
    result_uuid = id;
  })

unfoldable pub read_fetch : Decode FetchResult
read_fetch = do
  chunks ← optional 1 [] decode_chunk_list
  index ← optional 2 optional_idx_absent (read optional_idx)
  e ← read end_object
  check (record { chunks = chunks; batch_index = index })

unfoldable pub read_chunk : Decode Chunk
read_chunk = do ch ← decode_chunk_contents; check ch

unfoldable pub decode_prepare : List ℕ → Result CodecError PrepareResult
decode_prepare body = (read_prepare (new_reader body)).0

unfoldable pub decode_fetch : List ℕ → Result CodecError FetchResult
decode_fetch body = (read_fetch (new_reader body)).0

unfoldable pub decode_chunk : List ℕ → Result CodecError Chunk
decode_chunk buf = (read_chunk (new_reader buf)).0

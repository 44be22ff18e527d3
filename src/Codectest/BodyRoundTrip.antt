-- ===== src/Codectest/BodyRoundTrip.antt =====
-- EncodeFetchBody and EncodePrepareBody of codec/codectest/codectest.go against the decoders of
-- codec/result.go.
use duckcall.Base.{
  ℕ, ◌+◌, ◌%◌, ◌≡◌, refl, true, List, [], ◌∷◌, ◌++◌, some, ok, length, arith, All, map,
  append_assoc, append-nil, length-append,
}
use duckcall.Qser.Varint.{IsU64, id_bytes}
use duckcall.Qser.Bytes.{uvarint_bytes, length-uvarint_bytes}
use duckcall.Qser.Reader.{end_id, optional_idx}
use duckcall.Qser.Writer.{Writer, put_field, put_end, put_bool}
use duckcall.Qser.Groups.{uvarint-at}
use duckcall.Qser.RoundTrip.{wrote, put_uvarint-wrote, list_count-at, present-at}
use duckcall.Qser.Optional.{field-NotNext, uvarint_field, put_field_uvarint-wrote, end_object-end}
use duckcall.Codec.Decode.{require}
use duckcall.Codec.TypeTree.{optional}
use duckcall.Codec.Results.{
  chunk_wrapper, wrapped_chunk, present_chunks, decode_chunk_list, read_fetch, decode_fetch,
}
use duckcall.Codectest.Write.{write_list}
use duckcall.Codectest.Bodies.{
  Col, write_wrapper, write_chunk_list, write_chunks_field, write_fetch_body, encode_fetch_body,
}
use duckcall.Codectest.Encodes.{Encodes-read_back, read_back, Encodes, try_field-same, check-at}
use duckcall.Codectest.Lists.{EachEncodes, each-Encodes}
use duckcall.Codectest.Fields.{FieldReads, missing-FieldReads, present-FieldReads}
use duckcall.Codectest.ChunkRoundTrip.{IsChunk, chunk_of, chunk-Encodes}

wrapper-Encodes :
    (cols : List Col)
    → IsChunk cols
    → Encodes 1 (write_wrapper cols) chunk_wrapper (some (chunk_of cols))
unfolding write_wrapper chunk_wrapper wrapped_chunk require put_field put_bool put_end
wrapper-Encodes cols is =
    let e = chunk-Encodes cols is in
    record {
      bytes = 1 ∷ (id_bytes 300 ++ (e.bytes ++ id_bytes end_id));
      writes = λ w. rw e.writes (simp append_assoc);
      reads = λ pre more. simp append_assoc (
          rw
            (
              present-at true pre (id_bytes 300 ++ (e.bytes ++ (id_bytes end_id ++ more))),
              try_field-same 300 _ (e.bytes ++ (id_bytes end_id ++ more)) refl,
              e.reads,
              end_object-end,
            )
            (simp append_assoc));
      long = omega arith;
    }

wrappers-EachEncodes :
    (i : ℕ) (chunks : List (List Col))
    → All IsChunk chunks
    → EachEncodes (λ i. chunk_wrapper) write_wrapper (λ cols. some (chunk_of cols)) i chunks
wrappers-EachEncodes i [] h = tt
wrappers-EachEncodes i (c ∷ chunks) (h, hs) =
    (wrapper-Encodes c h, wrappers-EachEncodes (i + 1) chunks hs)

present_chunks-some :
    (chunks : List (List Col))
    → present_chunks (map (λ cols. some (chunk_of cols)) chunks) ≡ map chunk_of chunks
unfolding present_chunks
present_chunks-some [] = refl
present_chunks-some (c ∷ chunks) = λ i. chunk_of c ∷ present_chunks-some chunks i

pub chunk_list-Encodes :
    (chunks : List (List Col))
    → IsU64 (length chunks)
    → All IsChunk chunks
    → Encodes 1 (write_chunk_list chunks) decode_chunk_list (map chunk_of chunks)
unfolding write_chunk_list write_list decode_chunk_list
chunk_list-Encodes chunks h hs =
    let each =
      each-Encodes (λ i. chunk_wrapper) write_wrapper (λ cols. some (chunk_of cols)) 0 chunks
        (wrappers-EachEncodes 0 chunks hs) in
    record {
      bytes = uvarint_bytes 9 (length chunks) ++ each.bytes;
      writes = λ w. rw (put_uvarint-wrote (length chunks) w h, each.writes) (simp append_assoc);
      reads = λ pre more. simp append_assoc (
          rw
            (
              list_count-at (length chunks) pre (each.bytes ++ more) h
                  (omega (arith, each.long, length-append each.bytes more)),
              each.reads,
              present_chunks-some,
              check-at,
            )
            (simp append_assoc));
      long = omega (
        arith,
        length-uvarint_bytes 9 (length chunks),
        length-append (uvarint_bytes 9 (length chunks)) each.bytes,
      );
    }

-- The chunks of a result, in a field that is left out when there are none.
pub record ChunksField (id : ℕ) (chunks : List (List Col)) : Type 0 where
  pub bytes : List ℕ
  pub writes : (w : Writer) → write_chunks_field id chunks w ≡ some (wrote w bytes)
  pub field_reads : FieldReads id bytes (optional id [] decode_chunk_list) (map chunk_of chunks)

pub chunks_field :
    (id : ℕ) (chunks : List (List Col))
    → id % 65536 ≡ id
    → IsU64 (length chunks)
    → All IsChunk chunks
    → ChunksField id chunks
unfolding write_chunks_field put_field
chunks_field id [] small h hs = record {
  bytes = [];
  writes = λ w. rw append-nil;
  field_reads = missing-FieldReads id [] decode_chunk_list;
}
chunks_field id (c ∷ chunks) small h hs =
    let e = chunk_list-Encodes (c ∷ chunks) h hs in
    record {
      bytes = id_bytes id ++ e.bytes;
      writes = λ w. rw e.writes (simp append_assoc);
      field_reads = present-FieldReads id [] decode_chunk_list 1 _ _ small e;
    }

pub fetch-Encodes :
    (chunks : List (List Col)) (index : ℕ)
    → IsU64 (length chunks)
    → All IsChunk chunks
    → IsU64 index
    → Encodes 1
        (write_fetch_body chunks index)
        read_fetch
        (record { chunks = map chunk_of chunks; batch_index = index })
unfolding write_fetch_body read_fetch put_end put_field optional_idx
fetch-Encodes chunks index h hs hi =
    let f = chunks_field 1 chunks refl h hs in
    record {
      bytes = f.bytes ++ (uvarint_field 2 index ++ id_bytes end_id);
      writes = λ w. rw (f.writes, put_field_uvarint-wrote 2 index _ hi) (simp append_assoc);
      reads = λ pre more. simp append_assoc (
          rw
            (
              f.field_reads.reads pre _ (
                  field-NotNext 1 2 (uvarint_bytes 9 index ++ (id_bytes end_id ++ more))
                    (omega arith)),
              try_field-same 2 _ (uvarint_bytes 9 index ++ (id_bytes end_id ++ more)) refl,
              uvarint-at index _ (id_bytes end_id ++ more) hi,
              end_object-end,
              check-at,
            )
            (simp append_assoc));
      long = omega (arith, length-append f.bytes (uvarint_field 2 index ++ id_bytes end_id));
    }

-- A FETCH_RESPONSE of fewer than 2^64 chunks, each of columns that have as many values of their type
-- as the first, at most 65536, with an index that fits a uint64, is encoded without a panic. Whatever
-- bytes follow, DecodeFetch gives the chunks and the index back.
pub decode_fetch-encode_fetch_body :
    (chunks : List (List Col)) (index : ℕ) (more : List ℕ)
    → IsU64 (length chunks)
    → All IsChunk chunks
    → IsU64 index
    → read_back decode_fetch more (encode_fetch_body chunks index)
      ≡ some (ok (record { chunks = map chunk_of chunks; batch_index = index }))
unfolding encode_fetch_body decode_fetch
decode_fetch-encode_fetch_body chunks index more h hs hi =
    Encodes-read_back 1 (write_fetch_body chunks index) read_fetch _ more
      (fetch-Encodes chunks index h hs hi)

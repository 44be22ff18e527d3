-- ===== src/Codectest/ChunkRoundTrip.antt =====
-- WriteChunk of codec/codectest/codectest.go against decodeChunkContents of codec/chunk.go.
use duckcall.Base.{
  ℕ, suc, ◌+◌, ◌^◌, ◌≤◌, ◌≡◌, refl, subst, List, [], ◌∷◌, ◌++◌, none, some, ok, length, eq→==,
  arith, All, map, append_assoc, append-nil, length-append, le→ltb,
}
use duckcall.Qser.Varint.{IsU64, id_bytes}
use duckcall.Qser.Bytes.{uvarint_bytes}
use duckcall.Qser.Reader.{end_id}
use duckcall.Qser.Writer.{Writer, put_field, put_end}
use duckcall.Qser.Groups.{uvarint-at}
use duckcall.Qser.RoundTrip.{wrote, put_uvarint-wrote, list_count-at}
use duckcall.Qser.Optional.{uvarint_field, put_field_uvarint-wrote, end_object-end}
use duckcall.Qser.At.{at}
use duckcall.Codec.Types.{LogicalType}
use duckcall.Codec.Decode.{require, refuse}
use duckcall.Codec.TypeTree.{decode_type, type_levels}
use duckcall.Codec.Vectors.{decode_vector, vector_levels, max_chunk_rows}
use duckcall.Codec.Chunk.{
  Column, Chunk, decode_column, push_column, decode_columns, decode_types, chunk_columns_of,
  chunk_rows_of, decode_chunk_contents, check_column,
}
use duckcall.Codectest.Write.{write_list, write_each}
use duckcall.Codectest.TypeWriter.{write_type}
use duckcall.Codectest.VectorWriter.{write_vector}
use duckcall.Codectest.Bodies.{Col, rows_of, write_column, write_chunk}
use duckcall.Codectest.Encodes.{Encodes, try_field-same, check-at}
use duckcall.Codectest.Lists.{EachEncodes, list-Encodes}
use duckcall.Codectest.TypeRoundTrip.{IsType, type-Encodes}
use duckcall.Codectest.VectorRoundTrip.{IsVector, column-Encodes}

-- A column of `rows` values that its type has.
pub record IsColumn (rows : ℕ) (c : Col) : Type 0 where
  pub is_type : IsType type_levels c.of_type
  pub is_vector : IsVector vector_levels c.of_type c.vals
  pub full : length c.vals ≡ rows

pub record IsChunk (cols : List Col) : Type 0 where
  pub counted : IsU64 (length cols)
  pub small : rows_of cols ≤ 2 ^ 16
  pub columns : All (IsColumn (rows_of cols)) cols

-- What a decoder makes of columns: the names are no part of a chunk.
abbrev pub column_of : Col → Column
column_of c = record { of_type = c.of_type; vals = c.vals; error = none }

abbrev pub chunk_of : List Col → Chunk
chunk_of cols = record { rows = rows_of cols; cols = map column_of cols }

check_column-at :
    (t : LogicalType) (col : Column) (pre more : List ℕ)
    → check_column t col (at pre more) ≡ (ok col, at pre more)
unfolding at
check_column-at t col pre more = refl

one_column-Encodes :
    (rows : ℕ) (c : Col)
    → IsColumn rows c
    → Encodes 1 (write_column rows c) (decode_column rows c.of_type) (column_of c)
unfolding write_column decode_column put_end put_field
one_column-Encodes rows c is =
    let e =
      subst
        (λ n.
          Encodes 1 (write_vector c.of_type c.vals) (decode_vector vector_levels c.of_type n)
            c.vals)
        is.full (column-Encodes vector_levels c.of_type c.vals is.is_vector) in
    record {
      bytes = e.bytes ++ id_bytes end_id;
      writes = λ w. rw (eq→== (length c.vals) rows is.full, e.writes) (simp append_assoc);
      reads = λ pre more. rw (
        append_assoc e.bytes (id_bytes end_id) more,
        e.reads,
        end_object-end,
        check_column-at,
        append_assoc,
      );
      long = omega (arith, e.long, length-append e.bytes (id_bytes end_id));
    }

columns-Encodes :
    (rows : ℕ) (cols : List Col)
    → All (IsColumn rows) cols
    → Encodes
        (length cols)
        (write_each (write_column rows) cols)
        (decode_columns rows (map (λ c. c.of_type) cols))
        (map column_of cols)
unfolding write_each decode_columns push_column
columns-Encodes rows [] h = record {
  bytes = [];
  writes = λ w. rw append-nil;
  reads = λ pre more. rw append-nil;
  long = omega arith;
}
columns-Encodes rows (c ∷ cols) (h, hs) =
    let x = one_column-Encodes rows c h in
    let xs = columns-Encodes rows cols hs in
    record {
      bytes = x.bytes ++ xs.bytes;
      writes = λ w. rw (x.writes, xs.writes) (simp append_assoc);
      reads = λ pre more. simp append_assoc (rw (x.reads, xs.reads) (simp append_assoc));
      long = omega (arith, x.long, xs.long, length-append x.bytes xs.bytes);
    }

types-EachEncodes :
    (rows i : ℕ) (cols : List Col)
    → All (IsColumn rows) cols
    → EachEncodes (λ i. decode_type type_levels) (λ c. write_type c.of_type) (λ c. c.of_type) i cols
types-EachEncodes rows i [] h = tt
types-EachEncodes rows i (c ∷ cols) (h, hs) =
    (type-Encodes type_levels c.of_type h.is_type, types-EachEncodes rows (i + 1) cols hs)

pub types-Encodes :
    (rows : ℕ) (cols : List Col)
    → IsU64 (length cols)
    → All (IsColumn rows) cols
    → Encodes 1
        (write_list (λ c. write_type c.of_type) cols)
        decode_types
        (map (λ c. c.of_type) cols)
unfolding decode_types
types-Encodes rows cols h hs =
    list-Encodes (λ i. decode_type type_levels) (λ c. write_type c.of_type) (λ c. c.of_type)
      decode_types cols refl h (types-EachEncodes rows 0 cols hs)

pub length-map {ℓ κ} :
    {A : Type ℓ} {B : Type κ} (f : A → B) (xs : List A) → length (map f xs) ≡ length xs
length-map f [] = refl
length-map f (x ∷ xs) = λ i. suc (length-map f xs i)

columns-wrote :
    (cols : List Col) (w : Writer) (bytes : List ℕ)
    → IsU64 (length cols)
    → ((w : Writer) → write_each (write_column (rows_of cols)) cols w ≡ some (wrote w bytes))
    → write_list (write_column (rows_of cols)) cols w
      ≡ some (wrote w (uvarint_bytes 9 (length cols) ++ bytes))
unfolding write_list
columns-wrote cols w bytes h writes =
    rw (put_uvarint-wrote (length cols) w h, writes) (simp append_assoc)

pub chunk-Encodes :
    (cols : List Col)
    → IsChunk cols
    → Encodes 1 (write_chunk cols) decode_chunk_contents (chunk_of cols)
unfolding write_chunk decode_chunk_contents chunk_rows_of chunk_columns_of require refuse put_field
    put_end
chunk-Encodes cols is =
    let ts = types-Encodes (rows_of cols) cols is.counted is.columns in
    let cs = columns-Encodes (rows_of cols) cols is.columns in
    record {
      bytes =
          uvarint_field 100 (rows_of cols)
          ++ (id_bytes 101
              ++ (ts.bytes
                  ++ (id_bytes 102
                      ++ (uvarint_bytes 9 (length cols) ++ (cs.bytes ++ id_bytes end_id)))));
      writes = λ w.
          rw
            (
              put_field_uvarint-wrote 100 (rows_of cols) w (omega (arith, is.small)),
              ts.writes,
              columns-wrote cols _ cs.bytes is.counted cs.writes,
            )
            (simp append_assoc);
      reads = λ pre more. simp append_assoc (
          rw
            (
              try_field-same 100 pre
                  (uvarint_bytes 9 (rows_of cols)
                    ++ (id_bytes 101
                        ++ (ts.bytes
                            ++ (id_bytes 102
                                ++ (uvarint_bytes 9 (length cols)
                                    ++ (cs.bytes ++ (id_bytes end_id ++ more)))))))
                  refl,
              uvarint-at (rows_of cols) _ _ (omega (arith, is.small)),
              le→ltb max_chunk_rows (rows_of cols) is.small,
              try_field-same 101 _
                  (ts.bytes
                    ++ (id_bytes 102
                        ++ (uvarint_bytes 9 (length cols)
                            ++ (cs.bytes ++ (id_bytes end_id ++ more)))))
                  refl,
              ts.reads,
              try_field-same 102 _
                  (uvarint_bytes 9 (length cols) ++ (cs.bytes ++ (id_bytes end_id ++ more))) refl,
              list_count-at (length cols) _ (cs.bytes ++ (id_bytes end_id ++ more)) is.counted
                  (omega (arith, cs.long, length-append cs.bytes (id_bytes end_id ++ more))),
              length-map (λ (c : Col). c.of_type) cols,
              eq→== (length cols) (length cols) refl,
              cs.reads,
              end_object-end,
              check-at,
            )
            (simp append_assoc));
      long = omega arith;
    }

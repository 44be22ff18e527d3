-- ===== src/Codec/ChunkSafety.antt =====
-- What the decoders of codec/chunk.go and codec/result.go do to the reader on any input.
use duckcall.Base.{ℕ, zero, suc, Bool, true, false, List, [], ◌∷◌, Option, Result, ok, err}
use duckcall.Qser.Reader.{rest, end_object}
use duckcall.Qser.Safety.{Moves-refl, end_object-IsSafe, if-IsSafe, IsSafe}
use duckcall.Codec.Types.{
  LogicalType, Child, no_child, child, Fields, no_fields, field, child_type, CodecError, missing,
  vector_too_deep, Value,
}
use duckcall.Codec.Decode.{Decode, ◌>>=◌, throw, read, check}
use duckcall.Codec.Safety.{
  bind-IsSafe, read-IsSafe, check-IsSafe, decode_type-IsSafe, safe_decoders,
}
use duckcall.Codec.Vectors.{
  lift, framing_or, unsupported_but_parsed, tolerate, tabulate, rows_or_unsupported, string_value,
  string_cell, string_vector, struct_child, struct_children, struct_vector, list_entry, with_child,
  nested_rows, list_vector, array_vector, sized_vector, unsized_vector, scalar_vector,
  nested_or_scalar_vector, validity_mask_of, vector_of_type, decode_flat_vector, constant_vector,
  dictionary_vector, sequence_vector, vector_of_kind, vector_object, decode_vector, vector_levels,
}
use duckcall.Codec.Chunk.{
  check_column, column_outcome, decode_column, push_column, decode_columns, decode_types,
  chunk_columns_of, chunk_rows_of, decode_chunk_contents, Column,
}
use duckcall.Codec.Results.{
  wrapped_chunk, chunk_wrapper, decode_chunk_list, decode_names, read_prepare, read_fetch,
}

lift-IsSafe {ℓ} : {A : Type ℓ} (x : Result CodecError A) → IsSafe (lift x)
lift-IsSafe x = record { moves = Moves-refl }

framing_or-IsSafe {ℓ} : {A : Type ℓ} (e : CodecError) → IsSafe (framing_or {A = A} e)
unfolding framing_or
framing_or-IsSafe e = record { moves = Moves-refl }

throw-IsSafe {ℓ} : {A : Type ℓ} (e : CodecError) → IsSafe (throw {A = A} e)
throw-IsSafe e = record { moves = Moves-refl }

tolerate-IsSafe {ℓ} : {A : Type ℓ} (m : Decode A) → IsSafe m → IsSafe (tolerate m)
unfolding tolerate
tolerate-IsSafe m h = record { moves = h.moves }

ruleset safe_vectors =
    (safe_decoders, lift-IsSafe, framing_or-IsSafe, throw-IsSafe, tolerate-IsSafe)

module _ (rec : LogicalType → ℕ → Decode (List Value)) (t : LogicalType) (count : ℕ) where
  rows_or_unsupported-IsSafe :
      (b : Bool) (row : ℕ → Result CodecError Value)
      → IsSafe (rows_or_unsupported rec t count b row)
  unfolding rows_or_unsupported
  rows_or_unsupported-IsSafe true row = framing_or-IsSafe _
  rows_or_unsupported-IsSafe false row =
      bind-IsSafe (lift (tabulate row count 0)) check (lift-IsSafe _) check-IsSafe

  module _ (rec-IsSafe : (t : LogicalType) (n : ℕ) → IsSafe (rec t n)) where
    module _ (b : Bool) (validity : Option (List ℕ)) where
      string_cell-IsSafe : (i : ℕ) → IsSafe (string_cell rec t count b validity i)
      unfolding string_cell string_value
      string_cell-IsSafe i = search safe_vectors depth 10

      string_vector-IsSafe : IsSafe (string_vector rec t count b validity)
      unfolding string_vector
      string_vector-IsSafe = search (safe_vectors, string_cell-IsSafe) depth 12

      struct_child-IsSafe :
          (ft : LogicalType) (rest : Decode (List (Result CodecError (List Value))))
          → IsSafe rest
          → IsSafe (struct_child rec t count b validity ft rest)
      unfolding struct_child
      struct_child-IsSafe ft rest h = search (safe_vectors, rec-IsSafe) depth 12

      struct_children-IsSafe : (fs : Fields) → IsSafe (struct_children rec t count b validity fs)
      unfolding struct_children
      struct_children-IsSafe no_fields = record { moves = Moves-refl }
      struct_children-IsSafe (field name ft fs) = record {
        moves = (struct_child-IsSafe ft _ (struct_children-IsSafe fs)).moves;
      }

      struct_vector-IsSafe : IsSafe (struct_vector rec t count b validity)
      unfolding struct_vector
      struct_vector-IsSafe =
          search (safe_vectors, struct_children-IsSafe, rows_or_unsupported-IsSafe) depth 12

      list_entry-IsSafe : (i : ℕ) → IsSafe (list_entry rec t count b validity i)
      unfolding list_entry
      list_entry-IsSafe i = search safe_vectors depth 12

      nested_rows-IsSafe :
          (x : Result CodecError (List Value)) (row : List Value → ℕ → Result CodecError Value)
          → IsSafe (nested_rows rec t count b validity x row)
      nested_rows-IsSafe (ok vals) row = rows_or_unsupported-IsSafe b (row vals)
      nested_rows-IsSafe (err e) row =
          if-IsSafe b (unsupported_but_parsed t) (framing_or e) (framing_or-IsSafe _)
            (framing_or-IsSafe e)

      with_child-IsSafe :
          (f : LogicalType → Decode (List Value))
          → ((c : LogicalType) → IsSafe (f c))
          → (c : Child) → IsSafe (with_child rec t count b validity f c)
      with_child-IsSafe f h no_child = throw-IsSafe (missing child_type)
      with_child-IsSafe f h (child c) = record { moves = (h c).moves }

      list_vector-IsSafe : IsSafe (list_vector rec t count b validity)
      unfolding list_vector
      list_vector-IsSafe =
          search
            (safe_vectors, list_entry-IsSafe, with_child-IsSafe, nested_rows-IsSafe, rec-IsSafe)
            depth 20

      array_vector-IsSafe : IsSafe (array_vector rec t count b validity)
      unfolding array_vector
      array_vector-IsSafe =
          search (safe_vectors, with_child-IsSafe, nested_rows-IsSafe, rec-IsSafe) depth 20

      sized_vector-IsSafe : (w : ℕ) → IsSafe (sized_vector rec t count b validity w)
      unfolding sized_vector
      sized_vector-IsSafe w = search (safe_vectors, rows_or_unsupported-IsSafe) depth 12

      unsized_vector-IsSafe : IsSafe (unsized_vector rec t count b validity)
      unfolding unsized_vector
      unsized_vector-IsSafe = search safe_vectors depth 8

      nested_or_scalar_vector-IsSafe : IsSafe (nested_or_scalar_vector rec t count b validity)
      unfolding nested_or_scalar_vector scalar_vector
      nested_or_scalar_vector-IsSafe =
          search
            (
              if-IsSafe, struct_vector-IsSafe, list_vector-IsSafe, array_vector-IsSafe,
              sized_vector-IsSafe, unsized_vector-IsSafe,
            )
            depth 8

    vector_of_type-IsSafe :
        (b : Bool) (validity : Option (List ℕ)) → IsSafe (vector_of_type rec t count b validity)
    unfolding vector_of_type
    vector_of_type-IsSafe b validity =
        search (if-IsSafe, string_vector-IsSafe, nested_or_scalar_vector-IsSafe) depth 8

    validity_mask_of-IsSafe : (b : Bool) → IsSafe (validity_mask_of rec t count b)
    unfolding validity_mask_of
    validity_mask_of-IsSafe b = search safe_vectors depth 12

    decode_flat_vector-IsSafe : IsSafe (decode_flat_vector rec t count)
    unfolding decode_flat_vector
    decode_flat_vector-IsSafe =
        search (safe_vectors, validity_mask_of-IsSafe, vector_of_type-IsSafe) depth 14

    constant_vector-IsSafe : IsSafe (constant_vector rec t count)
    unfolding constant_vector
    constant_vector-IsSafe = search (safe_vectors, rec-IsSafe) depth 8

    dictionary_vector-IsSafe : IsSafe (dictionary_vector rec t count)
    unfolding dictionary_vector
    dictionary_vector-IsSafe = search (safe_vectors, rec-IsSafe) depth 14

    sequence_vector-IsSafe : IsSafe (sequence_vector rec t count)
    unfolding sequence_vector
    sequence_vector-IsSafe = search safe_vectors depth 12

    vector_object-IsSafe : IsSafe (vector_object rec t count)
    unfolding vector_object vector_of_kind
    vector_object-IsSafe =
        search
          (
            safe_vectors, decode_flat_vector-IsSafe, constant_vector-IsSafe,
            dictionary_vector-IsSafe, sequence_vector-IsSafe,
          )
          depth 14

pub decode_vector-IsSafe :
    (levels : ℕ) (t : LogicalType) (count : ℕ) → IsSafe (decode_vector levels t count)
unfolding decode_vector
decode_vector-IsSafe zero t count = throw-IsSafe vector_too_deep
decode_vector-IsSafe (suc levels) t count = record {
  moves = (vector_object-IsSafe (decode_vector levels) t count (decode_vector-IsSafe levels)).moves;
}

column_outcome-IsSafe : (t : LogicalType) (rows : ℕ) → IsSafe (column_outcome t rows)
column_outcome-IsSafe t rows = record { moves = (decode_vector-IsSafe vector_levels t rows).moves }

check_column-IsSafe : (t : LogicalType) (col : Column) → IsSafe (check_column t col)
check_column-IsSafe t col = record { moves = Moves-refl }

decode_column-IsSafe : (rows : ℕ) (t : LogicalType) → IsSafe (decode_column rows t)
unfolding decode_column
decode_column-IsSafe rows t =
    bind-IsSafe (column_outcome t rows) (λ col. read end_object >>= λ e. check_column t col)
      (column_outcome-IsSafe t rows)
      λ col.
        bind-IsSafe (read end_object) (λ e. check_column t col)
          (read-IsSafe end_object end_object-IsSafe) λ e. check_column-IsSafe t col

push_column-IsSafe :
    (rows : ℕ) (t : LogicalType) (rest : Decode (List Column))
    → IsSafe rest
    → IsSafe (push_column rows t rest)
unfolding push_column
push_column-IsSafe rows t rest h = search (safe_vectors, decode_column-IsSafe) depth 12

decode_columns-IsSafe : (rows : ℕ) (ts : List LogicalType) → IsSafe (decode_columns rows ts)
unfolding decode_columns
decode_columns-IsSafe rows [] = record { moves = Moves-refl }
decode_columns-IsSafe rows (t ∷ ts) = record {
  moves = (push_column-IsSafe rows t _ (decode_columns-IsSafe rows ts)).moves;
}

pub decode_chunk_contents-IsSafe : IsSafe decode_chunk_contents
unfolding decode_chunk_contents chunk_rows_of chunk_columns_of decode_types
decode_chunk_contents-IsSafe =
    search (safe_vectors, decode_type-IsSafe, decode_columns-IsSafe) depth 20

chunk_wrapper-IsSafe : IsSafe chunk_wrapper
unfolding chunk_wrapper wrapped_chunk
chunk_wrapper-IsSafe = search (safe_vectors, decode_chunk_contents-IsSafe) depth 14

chunk_list-IsSafe : IsSafe decode_chunk_list
unfolding decode_chunk_list
chunk_list-IsSafe = search (safe_vectors, chunk_wrapper-IsSafe) depth 12

pub read_prepare-IsSafe : IsSafe read_prepare
unfolding read_prepare decode_types decode_names
read_prepare-IsSafe = search (safe_vectors, decode_type-IsSafe, chunk_list-IsSafe) depth 24

pub read_fetch-IsSafe : IsSafe read_fetch
unfolding read_fetch
read_fetch-IsSafe = search (safe_vectors, chunk_list-IsSafe) depth 14

-- ===== src/Codectest/Tests.antt =====
-- Runs of the encoder of codec/codectest/codectest.go, and examples of what is proved of it.
use duckcall.Base.{◌-◌, ◌^◌, ◌≡◌, refl, inl, inr, List, [], ◌∷◌, some, none, ok, arith}
use duckcall.Base.Int.{negsuc}
use duckcall.Qser.Reader.{Hugeint}
use duckcall.Qser.Writer.{new_writer}
use duckcall.Codec.Types.{
  type_boolean, type_integer, type_varchar, type_list, type_struct, type_array, LogicalType,
  logical_type, no_child, child, no_fields, field, scalar_type, null, int32, text, items, struct,
  no_values, value, no_entries, entry,
}
use duckcall.Codec.TypeTree.{decode_type, type_levels}
use duckcall.Codec.Results.{decode_fetch}
use duckcall.Codec.Int128.{big_of, new_decimal, big_of-new_decimal}
use duckcall.Codectest.TypeWriter.{write_type, decimal_type}
use duckcall.Codectest.VectorWriter.{
  bit_blob, is_bit, are_bits, bits_byte, pack_bits, ones, flatten, list_values, row_elements,
  field_value, nth_entry,
}
use duckcall.Codectest.Bodies.{Col, encode_fetch_body, encode_chunk}
use duckcall.Codectest.Encodes.{decoded, read_back}
use duckcall.Codectest.EnumCells.{enum_type}
use duckcall.Codectest.CellRoundTrip.{is_int32}
use duckcall.Codectest.FixedTypes.{scalar-IsFixed}
use duckcall.Codectest.Strings.{is_text, no_string}
use duckcall.Codectest.ListRows.{null_list, is_items}
use duckcall.Codectest.StructColumns.{null_struct, is_named, named, no_more}
use duckcall.Codectest.TypeRoundTrip.{
  IsType, is_scalar, is_decimal, is_list, is_struct, is_enum, is_array, nothing_more, one_field,
  decode_type-write_type,
}
use duckcall.Codectest.VectorRoundTrip.{
  are_cells, are_strings, are_lists, are_structs, no_columns, one_column,
}
use duckcall.Codectest.ChunkRoundTrip.{IsColumn, IsChunk, chunk_of}
use duckcall.Codectest.Panics.{encode_chunk-unequal}
use duckcall.Codectest.BodyRoundTrip.{decode_fetch-encode_fetch_body}

bits_packed : bit_blob (b'0' ∷ b'1' ∷ b'0' ∷ b'1' ∷ []) ≡ some (4 ∷ 0xf5 ∷ [])
unfolding bit_blob are_bits is_bit pack_bits bits_byte ones
bits_packed = refl

bits_refused : bit_blob (b'0' ∷ b'1' ∷ b'2' ∷ []) ≡ none
unfolding bit_blob are_bits is_bit
bits_refused = refl

-- STRUCT(price DECIMAL(18,3), tags ENUM('x','y')[2])
abbrev price_type : LogicalType
price_type =
    logical_type type_struct 0 0 no_child
      (field (b'p' ∷ b'r' ∷ b'i' ∷ b'c' ∷ b'e' ∷ []) (decimal_type 18 3) (
        field (b't' ∷ b'a' ∷ b'g' ∷ b's' ∷ [])
          (logical_type type_array 0 0 (child (enum_type ((b'x' ∷ []) ∷ (b'y' ∷ []) ∷ [])))
            no_fields [] 2)
          no_fields))
      [] 0

price_type-IsType : IsType type_levels price_type
price_type-IsType = is_struct 64 type_struct _ refl (omega arith) (
    one_field 64 (b'p' ∷ b'r' ∷ b'i' ∷ b'c' ∷ b'e' ∷ []) _ _ (omega arith)
      (is_decimal 63 18 3 (omega arith) (omega arith))
      (one_field 64 (b't' ∷ b'a' ∷ b'g' ∷ b's' ∷ []) _ _ (omega arith)
        (is_array 63 _ 2 (omega arith) (
          is_enum 62 ((b'x' ∷ []) ∷ (b'y' ∷ []) ∷ []) (omega arith)
            (omega arith, (omega arith, tt))))
        (nothing_more 64)))

decode_type-write_type_example :
    decoded (decode_type type_levels) (7 ∷ []) (write_type price_type new_writer)
    ≡ some (ok price_type, 7 ∷ [])
decode_type-write_type_example = decode_type-write_type price_type (7 ∷ []) price_type-IsType

-- INTEGER: 5, NULL, -1.
abbrev numbers : Col
numbers = record {
  name = (b'n' ∷ []);
  of_type = scalar_type type_integer;
  vals = int32 5 ∷ null ∷ int32 (2 ^ 32 - 1) ∷ [];
}

-- VARCHAR[]: ['a', NULL], NULL, [].
abbrev lists : Col
lists = record {
  name = (b'l' ∷ []);
  of_type = logical_type type_list 0 0 (child (scalar_type type_varchar)) no_fields [] 0;
  vals = items (value (text (b'a' ∷ [])) (value null no_values)) ∷ null ∷ items no_values ∷ [];
}

-- STRUCT(k INTEGER): {k: 5}, NULL, {k: NULL}.
abbrev structs : Col
structs = record {
  name = (b's' ∷ []);
  of_type =
      logical_type type_struct 0 0 no_child (field (b'k' ∷ []) (scalar_type type_integer) no_fields)
        [] 0;
  vals =
      struct (entry (b'k' ∷ []) (int32 5) no_entries)
      ∷ null
      ∷ struct (entry (b'k' ∷ []) null no_entries)
      ∷ [];
}

abbrev sample : List Col
sample = numbers ∷ lists ∷ structs ∷ []

numbers-IsColumn : IsColumn 3 numbers
numbers-IsColumn = record {
  is_type = is_scalar 64 type_integer refl (omega arith);
  is_vector =
      are_cells 64 _ _ (scalar-IsFixed type_integer refl) (omega arith) (
        inr (is_int32 5 (omega arith)),
        (inl refl, (inr (is_int32 (2 ^ 32 - 1) (omega arith)), tt)),
      );
  full = refl;
}

lists-IsColumn : IsColumn 3 lists
unfolding row_elements list_values flatten
lists-IsColumn = record {
  is_type = is_list 64 type_list _ refl (is_scalar 63 type_varchar refl (omega arith));
  is_vector =
      are_lists 64 (scalar_type type_varchar) _ (omega arith)
        (is_items _, (null_list, (is_items _, tt))) (omega arith)
        (are_strings 63 type_varchar _ refl (omega arith)
          (is_text (b'a' ∷ []) (omega arith), (no_string _, tt)));
  full = refl;
}

structs-IsColumn : IsColumn 3 structs
unfolding field_value nth_entry
structs-IsColumn = record {
  is_type = is_struct 64 type_struct _ refl (omega arith) (
      one_field 64 (b'k' ∷ []) _ _ (omega arith) (is_scalar 63 type_integer refl (omega arith))
        (nothing_more 64));
  is_vector =
      are_structs 64 (field (b'k' ∷ []) (scalar_type type_integer) no_fields) _ (omega arith)
        (omega arith)
        (
          is_named _ (named _ _ _ _ _ no_more),
          (null_struct, (is_named _ (named _ _ _ _ _ no_more), tt)),
        )
        (one_column 64 0 _ _ _ _
          (are_cells 63 _ _ (scalar-IsFixed type_integer refl) (omega arith)
            (inr (is_int32 5 (omega arith)), (inl refl, (inl refl, tt))))
          (no_columns 64 1 _));
  full = refl;
}

sample-IsChunk : IsChunk sample
sample-IsChunk = record {
  counted = omega arith;
  small = omega arith;
  columns = (numbers-IsColumn, (lists-IsColumn, (structs-IsColumn, tt)));
}

decode_fetch-encode_fetch_body_example :
    read_back decode_fetch [] (encode_fetch_body (sample ∷ []) 7)
    ≡ some (ok (record { chunks = chunk_of sample ∷ []; batch_index = 7 }))
decode_fetch-encode_fetch_body_example =
    decode_fetch-encode_fetch_body (sample ∷ []) 7 [] (omega arith) (sample-IsChunk, tt)
      (omega arith)

abbrev handle : Hugeint
handle = record { upper = 1; lower = 2 }

abbrev short : Col
short = record { name = (b'x' ∷ []); of_type = scalar_type type_boolean; vals = [] }

encode_chunk-unequal_example : encode_chunk (numbers ∷ short ∷ []) ≡ none
encode_chunk-unequal_example =
    encode_chunk-unequal (numbers ∷ short ∷ []) 1 short refl (omega arith)

big_of-new_decimal_example : big_of (new_decimal 20 2 (negsuc 4)) ≡ some (negsuc 4)
big_of-new_decimal_example = big_of-new_decimal 20 2 (negsuc 4) (omega arith)

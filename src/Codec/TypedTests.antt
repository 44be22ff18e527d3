-- ===== src/Codec/TypedTests.antt =====
-- A concrete nested vector.
use duckcall.Base.{ℕ, ◌≡◌, refl, List, [], ◌∷◌, ok, All}
use duckcall.Qser.Varint.{uvarint_scan, uint16 as read_uint16}
use duckcall.Qser.Reader.{
  new_reader, guarded, peek_id, try_field, end_object, take_bytes, uvarint, bool, bytes, list_count,
}
use duckcall.Codec.Types.{
  type_list, type_enum, logical_type, no_child, child, no_fields, LogicalType, Value, text, items,
  value, no_values,
}
use duckcall.Codec.Decode.{refuse, require, for_range}
use duckcall.Codec.TypeTree.{enum_index_width}
use duckcall.Codec.Cells.{
  little_endian, enum_value, decode_other_cell, decode_cell, physical_width, supported_scalar,
  valid,
}
use duckcall.Codec.Vectors.{
  tolerate, tabulate, rows_or_unsupported, list_entry, list_row, list_vector, scalar_cell,
  sized_vector, scalar_vector, nested_or_scalar_vector, validity_mask_of, vector_of_type,
  decode_flat_vector, vector_of_kind, vector_object, decode_vector, to_values,
}
use duckcall.Codec.GoTypes.{Fits}
use duckcall.Codec.Typed.{decode_vector-Fits}

-- LIST of ENUM('a', 'b').
abbrev labels : LogicalType
labels = logical_type type_enum 0 0 no_child no_fields ((97 ∷ []) ∷ (98 ∷ []) ∷ []) 0

abbrev label_list : LogicalType
label_list = logical_type type_list 0 0 (child labels) no_fields [] 0

-- One row, the list of both labels.
abbrev label_bytes : List ℕ
label_bytes =
    100 ∷ 0 ∷ 0 ∷ 104 ∷ 0 ∷ 2 ∷ 105 ∷ 0 ∷ 1 ∷ 101 ∷ 0 ∷ 2 ∷ 255 ∷ 255 ∷ 106 ∷ 0 ∷ 100 ∷ 0 ∷ 0 ∷ 102
    ∷ 0 ∷ 2 ∷ 0 ∷ 1 ∷ 255 ∷ 255 ∷ []

abbrev label_rows : List Value
label_rows = items (value (text (97 ∷ [])) (value (text (98 ∷ [])) no_values)) ∷ []

label_rows-decoded : (decode_vector 65 label_list 1 (new_reader label_bytes)).0 ≡ ok label_rows
unfolding uvarint_scan read_uint16 new_reader guarded peek_id try_field end_object take_bytes
    uvarint bool bytes list_count refuse require for_range little_endian enum_value
    decode_other_cell decode_cell physical_width supported_scalar valid tolerate tabulate
    rows_or_unsupported list_entry list_row list_vector scalar_cell sized_vector scalar_vector
    nested_or_scalar_vector validity_mask_of vector_of_type decode_flat_vector vector_of_kind
    vector_object decode_vector to_values enum_index_width
label_rows-decoded = refl

decode_vector-Fits_example : All (Fits label_list) label_rows
decode_vector-Fits_example =
    decode_vector-Fits 65 label_list 1 (new_reader label_bytes) label_rows label_rows-decoded

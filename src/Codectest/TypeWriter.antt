-- ===== src/Codectest/TypeWriter.antt =====
-- WriteType of codec/codectest/codectest.go, and the builders of types.
use duckcall.Base.{ℕ, true, List, [], ◌∷◌, ◌==◌, if◌then◌else◌, length}
use duckcall.Qser.Writer.{
  put_field, put_field_uvarint, put_field_string, put_bool, put_end, put_string, put_uvarint,
}
use duckcall.Codec.Types.{
  LogicalType, logical_type, Child, no_child, child, Fields, no_fields, field, count_fields,
  type_decimal, type_list, type_map, type_struct, type_union, type_variant, type_enum, type_array,
}
use duckcall.Codec.Cells.{one_of}
use duckcall.Codectest.Write.{Write, put, skip, panic, ◌then◌, write_list}

-- DecimalT.
unfoldable pub decimal_type : ℕ → ℕ → LogicalType
decimal_type width scale = logical_type type_decimal width scale no_child no_fields [] 0

abbrev info_decimal : ℕ
info_decimal = 2

abbrev info_list : ℕ
info_list = 4

abbrev info_struct : ℕ
info_struct = 5

abbrev info_enum : ℕ
info_enum = 6

abbrev info_array : ℕ
info_array = 9

-- `if v != 0 { w.FieldUvarint(id, v) }`
unfoldable pub write_nonzero : ℕ → ℕ → Write
write_nonzero id v = if v == 0 then skip else put (put_field_uvarint id v)

-- The info object of a kind, with its fields in `body`.
unfoldable pub write_info : ℕ → Write → Write
write_info kind body =
    put (put_field 101)
    then put (put_bool true)
    then put (put_field_uvarint 100 kind)
    then body
    then put put_end

unfoldable pub write_decimal_info : ℕ → ℕ → Write
write_decimal_info width scale =
    write_info info_decimal (write_nonzero 200 width then write_nonzero 201 scale)

unfoldable pub write_list_info : Write → Write
write_list_info write_child = write_info info_list (put (put_field 200) then write_child)

unfoldable pub write_struct_info : ℕ → Write → Write
write_struct_info n write_fields =
    write_info info_struct (put (put_field 200) then put (put_uvarint n) then write_fields)

unfoldable pub write_enum_info : List (List ℕ) → Write
write_enum_info values = write_info info_enum (
    put (put_field_uvarint 200 (length values))
    then put (put_field 201)
    then write_list (λ v. put (put_string v)) values)

unfoldable pub write_array_info : Write → ℕ → Write
write_array_info write_child size =
    write_info info_array (put (put_field 200) then write_child then write_nonzero 201 size)

-- The switch on the type's id; `write_child` and `write_fields` are the recursive calls.
unfoldable pub write_type_info : LogicalType → Write → Write → Write
write_type_info (logical_type id width scale c fs values size) write_child write_fields =
    if id == type_decimal
    then write_decimal_info width scale
    else if one_of id (type_list ∷ type_map ∷ [])
    then write_list_info write_child
    else if one_of id (type_struct ∷ type_union ∷ type_variant ∷ [])
    then write_struct_info (count_fields fs) write_fields
    else if id == type_enum
    then write_enum_info values
    else if id == type_array
    then write_array_info write_child size
    else skip

unfoldable pub write_type_object : ℕ → Write → Write
write_type_object id info = put (put_field_uvarint 100 id) then info then put put_end

unfoldable pub write_field : List ℕ → Write → Write
write_field name write_child =
    put (put_field_string 0 name) then put (put_field 1) then write_child then put put_end

-- A nil child panics where it is used.
unfoldable mutual
  pub write_type : LogicalType → Write
  write_type (logical_type id width scale c fs values size) = write_type_object id (
      write_type_info (logical_type id width scale c fs values size) (write_child_type c)
        (write_field_types fs))

  pub write_child_type : Child → Write
  write_child_type no_child = panic
  write_child_type (child t) = write_type t

  pub write_field_types : Fields → Write
  write_field_types no_fields = skip
  write_field_types (field name t fs) = write_field name (write_type t) then write_field_types fs

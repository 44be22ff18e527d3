-- ===== src/Codec/TypeTree.antt =====
-- decodeType and decodeTypeInfo of codec/logicaltype.go.
use duckcall.Base.{
  ℕ, zero, suc, ◌%◌, ◌^◌, false, not, List, [], ◌∷◌, err, leb, ◌==◌, if◌then◌else◌, length,
}
use duckcall.Qser.Reader.{try_field, end_object, uvarint, string, list_count, present}
use duckcall.Codec.Types.{
  LogicalType, logical_type, no_child, child, Fields, no_fields, field, scalar_type, Part,
  miscounted, type_too_deep, extension_info, unknown_info_kind, type_id, info_kind, list_type_child,
  struct_field_type, enum_count, array_type_child, enum_values,
}
use duckcall.Codec.Decode.{
  Decode, ◌>>=◌, ◌>>◌, done, throw, read, refuse, require, check, for_range,
}

-- `if r.TryField(id) { x = … }`
abbrev pub optional {ℓ} : {A : Type ℓ} → ℕ → A → Decode A → Decode A
optional id z m = do found ← read (try_field id); if found then m else done z

abbrev pub required : Part → ℕ → Decode (Unit {0})
required part id = do found ← read (try_field id); require part found

unfoldable pub to_fields : List (List ℕ × LogicalType) → Fields
to_fields [] = no_fields
to_fields ((name, t) ∷ fs) = field name t (to_fields fs)

-- The type's id with the parameters that its info carries; each case sets its own.
module _ (id : ℕ) (rec : Decode LogicalType) where
  unfoldable pub decimal_info : Decode LogicalType
  decimal_info = do
    w ← optional 200 0 (read uvarint)
    s ← optional 201 0 (read uvarint)
    done (logical_type id (w % 256) (s % 256) no_child no_fields [] 0)

  unfoldable pub string_info : Decode LogicalType
  string_info = do collation ← optional 200 [] (read string); done (scalar_type id)

  unfoldable pub list_info : Decode LogicalType
  list_info = do
    required list_type_child 200
    c ← rec
    done (logical_type id 0 0 (child c) no_fields [] 0)

  unfoldable pub struct_field : ℕ → Decode (List ℕ × LogicalType)
  struct_field i = do
    name ← optional 0 [] (read string)
    required struct_field_type 1
    t ← rec
    e ← read end_object
    done (name, t)

  unfoldable pub struct_info : Decode LogicalType
  struct_info = optional 200 (scalar_type id) do
    n ← read list_count
    fs ← for_range struct_field n 0
    done (logical_type id 0 0 no_child (to_fields fs) [] 0)

  unfoldable pub enum_info : Decode LogicalType
  enum_info = do
    required enum_count 200
    n ← read uvarint
    values ← optional 201 [] do count ← read list_count; for_range (λ i. read string) count 0
    refuse (not (length values == n)) (miscounted enum_values (length values) n)
    done (logical_type id 0 0 no_child no_fields values 0)

  unfoldable pub array_info : Decode LogicalType
  array_info = do
    required array_type_child 200
    c ← rec
    n ← optional 201 0 (read uvarint)
    done (logical_type id 0 0 (child c) no_fields [] (n % 2 ^ 32))

  -- The kinds of type info: generic 1, decimal 2, string 3, list 4, struct 5, enum 6, array 9.
  unfoldable pub info_of_kind : ℕ → Decode LogicalType
  info_of_kind kind =
      if kind == 1
      then done (scalar_type id)
      else if kind == 2
      then decimal_info
      else if kind == 3
      then string_info
      else if kind == 4
      then list_info
      else if kind == 5
      then struct_info
      else if kind == 6
      then enum_info
      else if kind == 9
      then array_info
      else throw (unknown_info_kind kind)

  unfoldable pub decode_type_info : Decode LogicalType
  decode_type_info = do
    required info_kind 100
    kind ← read uvarint
    alias ← optional 101 [] (read string)
    extended ← optional 103 false (read present)
    refuse extended extension_info
    t ← info_of_kind kind
    e ← read end_object
    check t

-- `decodeType` for one object, with `rec` for the call one level deeper.
unfoldable pub type_object : Decode LogicalType → Decode LogicalType
type_object rec = do
  required type_id 100
  id ← read uvarint
  t ← optional 101 (scalar_type (id % 2 ^ 32)) do
    nested ← read present
    if nested then decode_type_info (id % 2 ^ 32) rec else done (scalar_type (id % 2 ^ 32))
  e ← read end_object
  check t

-- The levels that are left: `decodeType(r, depth)` is `decode_type (65 - depth)`, since it refuses a
-- depth above 64.
unfoldable pub decode_type : ℕ → Decode LogicalType
decode_type zero r = (err type_too_deep, r)
decode_type (suc levels) r = type_object (decode_type levels) r

-- `decodeType(r, 0)`
abbrev pub type_levels : ℕ
type_levels = 65

-- The width of the indices of an enum vector.
unfoldable pub enum_index_width : ℕ → ℕ
enum_index_width n = if leb n 255 then 1 else if leb n 65535 then 2 else 4

-- ===== src/Codectest/VectorWriter.antt =====
-- writeVector, validityMask and bitBlob of codec/codectest/codectest.go.
use duckcall.Base.{
  ℕ, zero, suc, ◌+◌, ◌-◌, ◌*◌, ◌/◌, ◌%◌, Bool, true, false, ◌&&◌, ◌||◌, List, [], ◌∷◌, ◌++◌, Option,
  none, some, ◌==◌, if◌then◌else◌, length, drop, take,
}
use duckcall.Qser.Writer.{
  put_field, put_field_uvarint, put_field_bool, put_field_bytes, put_end, put_uvarint, put_string,
  put_bytes,
}
use duckcall.Codec.Types.{
  type_varchar, type_blob, type_bit, type_struct, type_list, type_map, type_array, LogicalType,
  logical_type, Child, no_child, child, Fields, no_fields, field, count_fields, fields_of, Value,
  null, text, blob, items, struct, entries, Values, no_values, value, Entries, no_entries, entry,
  Pairs, no_pairs, pair,
}
use duckcall.Codec.Cells.{one_of}
use duckcall.Codec.Vectors.{replicate}
use duckcall.Codectest.Write.{Write, put, skip, panic, on_some, ◌then◌, write_list}
use duckcall.Codectest.CellWriter.{append_cell}

abbrev pub is_null : Value → Bool
is_null null = true
is_null _ = false

unfoldable pub any_null : List Value → Bool
any_null [] = false
any_null (v ∷ vs) = is_null v || any_null vs

-- A byte of the mask: a bit for each of the next `left` values, the lowest first.
unfoldable pub mask_byte : ℕ → List Value → ℕ
mask_byte zero vals = 0
mask_byte (suc left) [] = 0
mask_byte (suc left) (v ∷ vs) = (if is_null v then 0 else 1) + 2 * mask_byte left vs

unfoldable pub mask_bytes : ℕ → List Value → List ℕ
mask_bytes zero vals = []
mask_bytes (suc n) vals = mask_byte 8 vals ∷ mask_bytes n (drop 8 vals)

-- `validityMask`, nil without a NULL, else whole words of 64 rows.
unfoldable pub validity_mask : List Value → Option (List ℕ)
validity_mask vals =
    if any_null vals then some (mask_bytes ((length vals + 63) / 64 * 8) vals) else none

-- `bitBlob`. The bits of the slice, the ones of the padding first, are packed highest first.
unfoldable pub is_bit : ℕ → Bool
is_bit c = (c == b'0') || (c == b'1')

unfoldable pub bits_byte : ℕ → List ℕ → ℕ
bits_byte acc [] = acc
bits_byte acc (c ∷ cs) = bits_byte (2 * acc + (c - b'0')) cs

unfoldable pub pack_bits : ℕ → List ℕ → List ℕ
pack_bits zero cs = []
pack_bits (suc n) cs = bits_byte 0 (take 8 cs) ∷ pack_bits n (drop 8 cs)

unfoldable pub are_bits : List ℕ → Bool
are_bits [] = true
are_bits (c ∷ cs) = is_bit c && are_bits cs

unfoldable pub ones : ℕ → List ℕ
ones zero = []
ones (suc n) = b'1' ∷ ones n

abbrev pub padding_of : List ℕ → ℕ
padding_of s = (8 - length s % 8) % 8

unfoldable pub bit_blob : List ℕ → Option (List ℕ)
bit_blob [] = some (0 ∷ [])
bit_blob (c ∷ cs) =
    let s = c ∷ cs in
    let padding = padding_of s in
    if are_bits s
    then some (padding ∷ pack_bits ((length s + padding) / 8) (ones padding ++ s))
    else none

-- VARCHAR, BLOB and BIT.
unfoldable pub write_bits : List ℕ → Write
write_bits s w = on_some (bit_blob s) λ b. some (put_bytes b w)

unfoldable pub write_string_cell : ℕ → Value → Write
write_string_cell id null = put (put_string [])
write_string_cell id (text s) = if id == type_bit then write_bits s else put (put_string s)
write_string_cell id (blob b) = put (put_bytes b)
write_string_cell id _ = panic

unfoldable pub write_strings : ℕ → List Value → Write
write_strings id vals = put (put_field 102) then write_list (write_string_cell id) vals

-- STRUCT: the values of the j-th field. A value that is no struct leaves NULL.
unfoldable pub nth_entry : ℕ → Entries → Option Value
nth_entry j no_entries = none
nth_entry zero (entry name v es) = some v
nth_entry (suc j) (entry name v es) = nth_entry j es

unfoldable pub field_value : ℕ → Value → Option Value
field_value j (struct es) = nth_entry j es
field_value j _ = some null

-- A loop that fills a slice, which a panic ends.
unfoldable pub collect {ℓ κ} : {A : Type ℓ} {B : Type κ} → (A → Option B) → List A → Option (List B)
collect f [] = some []
collect f (x ∷ xs) = on_some (f x) λ y. on_some (collect f xs) λ ys. some (y ∷ ys)

-- LIST and MAP: the elements of a row. A map entry is a struct with the names of the child's fields.
unfoldable pub list_values : Values → List Value
list_values no_values = []
list_values (value v vs) = v ∷ list_values vs

unfoldable pub map_entry : Fields → Value → Value → Option Value
map_entry (field k kt (field n nt fs)) key val =
    some (struct (entry k key (entry n val no_entries)))
map_entry _ key val = none

abbrev pub child_fields : Child → Fields
child_fields no_child = no_fields
child_fields (child t) = fields_of t

unfoldable pub map_values : Fields → Pairs → Option (List Value)
map_values fs no_pairs = some []
map_values fs (pair k v ps) =
    on_some (map_entry fs k v) λ e. on_some (map_values fs ps) λ es. some (e ∷ es)

unfoldable pub row_elements : Child → Value → Option (List Value)
row_elements c null = some []
row_elements c (items vs) = some (list_values vs)
row_elements c (entries ps) = map_values (child_fields c) ps
row_elements c _ = none

-- The windows of the rows and their elements in one list, after `off` elements.
unfoldable pub windows : ℕ → List (List Value) → List (ℕ × ℕ)
windows off [] = []
windows off (row ∷ rows) = (off, length row) ∷ windows (off + length row) rows

unfoldable pub flatten : List (List Value) → List Value
flatten [] = []
flatten (row ∷ rows) = row ++ flatten rows

unfoldable pub write_window : ℕ × ℕ → Write
write_window (off, len) =
    put (put_field_uvarint 100 off) then put (put_field_uvarint 101 len) then put put_end

unfoldable pub write_rows : (List Value → Write) → List (List Value) → Write
write_rows write_child rows =
    put (put_field_uvarint 104 (length (flatten rows)))
    then put (put_field 105)
    then write_list write_window (windows 0 rows)
    then put (put_field 106)
    then write_child (flatten rows)
    then put put_end

unfoldable pub write_list_vector : Child → (List Value → Write) → List Value → Write
write_list_vector c write_child vals w =
    on_some (collect (row_elements c) vals) λ rows. write_rows write_child rows w

-- ARRAY: the elements of a row, which are as many as the type says.
unfoldable pub array_elements : ℕ → Value → Option (List Value)
array_elements size null = some (replicate size null)
array_elements size (items vs) =
    if length (list_values vs) == size then some (list_values vs) else none
array_elements size _ = none

unfoldable pub write_array_vector : ℕ → (List Value → Write) → List Value → Write
write_array_vector size write_child vals w = on_some (collect (array_elements size) vals) λ rows.
    (put (put_field_uvarint 103 size)
        then put (put_field 104)
        then write_child (flatten rows)
        then put put_end)
      w

-- Every other type: one blob of cells.
unfoldable pub append_cells : LogicalType → List ℕ → List Value → Option (List ℕ)
append_cells t cells [] = some cells
append_cells t cells (v ∷ vs) = on_some (append_cell cells t v) λ more. append_cells t more vs

unfoldable pub write_scalars : LogicalType → List Value → Write
write_scalars t vals w = on_some (append_cells t [] vals) λ b. some (put_field_bytes 102 b w)

unfoldable pub write_struct_vector : ℕ → (ℕ → List Value → Write) → List Value → Write
write_struct_vector n write_fields vals =
    put (put_field 103) then put (put_uvarint n) then write_fields 0 vals

-- A nil mask has no field.
unfoldable pub write_validity : Option (List ℕ) → Write
write_validity none = put (put_field_bool 100 false)
write_validity (some mask) = put (put_field_bool 100 true) then put (put_field_bytes 101 mask)

-- The switch on the type's id; `write_child` and `write_fields` are the recursive calls.
unfoldable pub write_data :
    LogicalType → (List Value → Write) → (ℕ → List Value → Write) → List Value → Write
write_data (logical_type id width scale c fs values size) write_child write_fields vals =
    if one_of id (type_varchar ∷ type_blob ∷ type_bit ∷ [])
    then write_strings id vals
    else if id == type_struct
    then write_struct_vector (count_fields fs) write_fields vals
    else if one_of id (type_list ∷ type_map ∷ [])
    then write_list_vector c write_child vals
    else if id == type_array
    then write_array_vector size write_child vals
    else write_scalars (logical_type id width scale c fs values size) vals

-- The vector of one field of a struct, the j-th.
unfoldable pub write_field_vector : ℕ → (List Value → Write) → List Value → Write
write_field_vector j write_child vals w =
    on_some (collect (field_value j) vals) λ column. (write_child column then put put_end) w

unfoldable mutual
  pub write_vector : LogicalType → List Value → Write
  write_vector (logical_type id width scale c fs values size) vals =
      write_validity (validity_mask vals)
      then write_data (logical_type id width scale c fs values size) (write_child_vector c)
          (write_field_vectors fs) vals

  pub write_child_vector : Child → List Value → Write
  write_child_vector no_child vals = panic
  write_child_vector (child t) vals = write_vector t vals

  pub write_field_vectors : Fields → ℕ → List Value → Write
  write_field_vectors no_fields j vals = skip
  write_field_vectors (field name t fs) j vals =
      write_field_vector j (write_vector t) vals then write_field_vectors fs (suc j) vals

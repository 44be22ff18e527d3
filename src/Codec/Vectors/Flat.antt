-- ===== src/Codec/Vectors/Flat.antt =====
-- decodeFlatVector of codec/chunk.go. `rec` is the call of decodeVector one level deeper.
use duckcall.Base.{
  ℕ, ◌+◌, ◌-◌, ◌*◌, ◌/◌, Bool, true, false, not, ◌||◌, List, [], ◌∷◌, Option, none, some, Result,
  ok, err, ltb, ◌==◌, if◌then◌else◌, length, drop, take, get_elem?,
}
use duckcall.Qser.Reader.{end_object, uvarint, bool, bytes, list_count}
use duckcall.Codec.Types.{
  type_varchar, type_blob, type_bit, type_geometry, type_struct, type_list, type_map, type_union,
  type_array, type_variant, id_of, child_of, fields_of, count_fields, LogicalType, Child, no_child,
  child, Fields, no_fields, field, validity_flag, validity_mask, vector_data, vector_children,
  list_size, list_entries, list_child, array_size, array_child, child_type, CodecError, missing,
  miscounted, implausible, list_entry_outside, Value, null, text, blob, items, struct, entries,
  Entries, no_entries, entry,
}
use duckcall.Codec.Decode.{Decode, ◌>>=◌, ◌>>◌, done, read, refuse, check, for_range}
use duckcall.Codec.TypeTree.{optional, required}
use duckcall.Codec.Cells.{one_of, decode_cell, physical_width, supported_scalar, bit_string, valid}
use duckcall.Codec.Vectors.Outcomes.{
  max_vector_rows, lift, framing_or, unsupported_but_parsed, tolerate, element, tabulate, to_values,
  map_pairs,
}

module _ (rec : LogicalType → ℕ → Decode (List Value)) (t : LogicalType) (count : ℕ) where
  -- `if unsupported { return nil, unsupportedButParsed(r, t) }`, or the rows and `r.Err()`.
  unfoldable pub rows_or_unsupported : Bool → (ℕ → Result CodecError Value) → Decode (List Value)
  rows_or_unsupported true row = unsupported_but_parsed t
  rows_or_unsupported false row = do vals ← lift (tabulate row count 0); check vals

  module _ (unsupported_yet : Bool) (validity : Option (List ℕ)) where
    -- VARCHAR, BLOB, BIT and GEOMETRY.
    unfoldable pub string_value : List ℕ → Bool → Decode Value
    string_value b is_valid =
        if not is_valid || unsupported_yet
        then done null
        else if id_of t == type_varchar
        then done (text b)
        else if id_of t == type_bit
        then lift (elim (bit_string b) [ ok s ↦ ok (text s) | err e ↦ err e ])
        else done (blob b)

    unfoldable pub string_cell : ℕ → Decode Value
    string_cell i = do b ← read bytes; string_value b (valid validity i)

    unfoldable pub string_vector : Decode (List Value)
    string_vector = do
      required vector_data 102
      n ← read list_count
      refuse (not (n == count)) (miscounted vector_data n count)
      vals ← for_range string_cell count 0
      if unsupported_yet then unsupported_but_parsed t else check vals

    -- STRUCT, UNION and VARIANT: a child vector for each field, here the first with the others in
    -- `rest`.
    unfoldable pub struct_child :
        LogicalType
        → Decode (List (Result CodecError (List Value)))
        → Decode (List (Result CodecError (List Value)))
    struct_child ft rest = do
      c ← tolerate (rec ft count)
      e ← read end_object
      cs ← rest
      done (c ∷ cs)

    unfoldable pub struct_children : Fields → Decode (List (Result CodecError (List Value)))
    struct_children no_fields r = (ok [], r)
    struct_children (field name ft fs) r = struct_child ft (struct_children fs) r

    unfoldable pub struct_entries : Fields → List (Result CodecError (List Value)) → ℕ → Entries
    struct_entries (field name ft fs) (ok vals ∷ cs) i =
        entry name (element vals i) (struct_entries fs cs i)
    struct_entries _ _ i = no_entries

    unfoldable pub any_unsupported : List (Result CodecError (List Value)) → Bool
    any_unsupported [] = false
    any_unsupported (ok vals ∷ cs) = any_unsupported cs
    any_unsupported (err e ∷ cs) = true

    unfoldable pub struct_row : List (Result CodecError (List Value)) → ℕ → Result CodecError Value
    struct_row cs i =
        if valid validity i then ok (struct (struct_entries (fields_of t) cs i)) else ok null

    unfoldable pub struct_vector : Decode (List Value)
    struct_vector = do
      required vector_children 103
      n ← read list_count
      refuse (not (n == count_fields (fields_of t)))
          (miscounted vector_children n (count_fields (fields_of t)))
      cs ← struct_children (fields_of t)
      rows_or_unsupported (unsupported_yet || any_unsupported cs || not (id_of t == type_struct))
          (struct_row cs)

    -- LIST and MAP: an [offset, length) window of one child vector for each row.
    unfoldable pub list_entry : ℕ → Decode (ℕ × ℕ)
    list_entry i = do
      off ← optional 100 0 (read uvarint)
      len ← optional 101 0 (read uvarint)
      e ← read end_object
      done (off, len)

    unfoldable pub list_row : ℕ → List Value → List (ℕ × ℕ) → ℕ → Result CodecError Value
    list_row size vals windows i = elim (get_elem? windows i) [
      | none ↦ ok null
      | some (off, len) ↦
          if not (valid validity i)
          then ok null
          else if ltb size len || ltb (size - len) off
          then err list_entry_outside
          else if id_of t == type_map
          then ok (entries (map_pairs (take len (drop off vals))))
          else ok (items (to_values (take len (drop off vals))))
    ]

    abbrev pub with_child : (LogicalType → Decode (List Value)) → Child → Decode (List Value)
    with_child f no_child r = (err (missing child_type), r)
    with_child f (child c) r = f c r

    -- What LIST, MAP and ARRAY do with the outcome of the child vector.
    abbrev pub nested_rows :
        Result CodecError (List Value)
        → (List Value → ℕ → Result CodecError Value)
        → Decode (List Value)
    nested_rows (err e) row = if unsupported_yet then unsupported_but_parsed t else framing_or e
    nested_rows (ok vals) row = rows_or_unsupported unsupported_yet (row vals)

    unfoldable pub list_vector : Decode (List Value)
    list_vector = do
      required list_size 104
      size ← read uvarint
      refuse (ltb max_vector_rows size) (implausible list_size size)
      required list_entries 105
      n ← read list_count
      refuse (not (n == count)) (miscounted list_entries n count)
      windows ← for_range list_entry n 0
      required list_child 106
      with_child
          (λ c. do
            kept ← tolerate (rec c size)
            e ← read end_object
            nested_rows kept (λ vals i. list_row size vals windows i))
          (child_of t)

    unfoldable pub array_row : ℕ → List Value → ℕ → Result CodecError Value
    array_row size vals i =
        if valid validity i
        then ok (items (to_values (take size (drop (i * size) vals))))
        else ok null

    unfoldable pub array_vector : Decode (List Value)
    array_vector = do
      required array_size 103
      size ← read uvarint
      refuse (ltb max_vector_rows size || ltb max_vector_rows (size * count))
          (implausible array_size size)
      required array_child 104
      with_child
          (λ c. do
            kept ← tolerate (rec c (size * count))
            e ← read end_object
            nested_rows kept (array_row size))
          (child_of t)

    -- Every other type: one blob with a cell of `w` bytes for each row.
    unfoldable pub scalar_cell : ℕ → List ℕ → ℕ → Result CodecError Value
    scalar_cell w cells i =
        if valid validity i then decode_cell t (take w (drop (i * w) cells)) else ok null

    unfoldable pub sized_vector : ℕ → Decode (List Value)
    sized_vector w = do
      required vector_data 102
      cells ← read bytes
      refuse (ltb (length cells) (count * w)) (miscounted vector_data (length cells) count)
      rows_or_unsupported (unsupported_yet || not (supported_scalar t)) (scalar_cell w cells)

    unfoldable pub unsized_vector : Decode (List Value)
    unsized_vector = do skipped ← optional 102 [] (read bytes); unsupported_but_parsed t

    unfoldable pub scalar_vector : Decode (List Value)
    scalar_vector =
        if physical_width t == 0 then unsized_vector else sized_vector (physical_width t)

    unfoldable pub nested_or_scalar_vector : Decode (List Value)
    nested_or_scalar_vector =
        if one_of (id_of t) (type_struct ∷ type_union ∷ type_variant ∷ [])
        then struct_vector
        else if one_of (id_of t) (type_list ∷ type_map ∷ [])
        then list_vector
        else if id_of t == type_array
        then array_vector
        else scalar_vector

  unfoldable pub validity_mask_of : Bool → Decode (Option (List ℕ))
  validity_mask_of has_nulls =
      if has_nulls
      then (do
        required validity_mask 101
        mask ← read bytes
        refuse (ltb (length mask) ((count + 7) / 8)) (miscounted validity_mask (length mask) count)
        done (some mask))
      else done none

  -- The switch on the type's id.
  unfoldable pub vector_of_type : Bool → Option (List ℕ) → Decode (List Value)
  vector_of_type tagged validity =
      if one_of (id_of t) (type_varchar ∷ type_blob ∷ type_bit ∷ type_geometry ∷ [])
      then string_vector (tagged || (id_of t == type_geometry)) validity
      else nested_or_scalar_vector tagged validity

  unfoldable pub decode_flat_vector : Decode (List Value)
  decode_flat_vector = do
    tagged ← optional 99 false do tag ← read uvarint; done true
    required validity_flag 100
    has_nulls ← read bool
    validity ← validity_mask_of has_nulls
    vector_of_type tagged validity

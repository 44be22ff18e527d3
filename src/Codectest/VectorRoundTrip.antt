-- ===== src/Codectest/VectorRoundTrip.antt =====
-- writeVector of codec/codectest/codectest.go against decodeVector of codec/chunk.go.
use duckcall.Base.{
  ℕ, suc, ◌*◌, ◌^◌, ◌≤◌, ◌<◌, ◌≡◌, refl, subst, sym, true, false, List, [], ◌∷◌, length,
  if◌then◌else◌, arith, All, map,
}
use duckcall.Codec.Types.{
  type_varchar, type_blob, type_bit, type_struct, type_list, type_map, type_array, child_of,
  fields_of, LogicalType, logical_type, no_child, child, Fields, no_fields, field, count_fields,
  scalar_type, Value,
}
use duckcall.Codec.Decode.{Decode}
use duckcall.Codec.Cells.{one_of, physical_width}
use duckcall.Codec.Vectors.{vector_of_type, nested_or_scalar_vector, decode_vector}
use duckcall.Codectest.Write.{Write, ◌then◌}
use duckcall.Codectest.VectorWriter.{
  validity_mask, write_vector, write_data, flatten, write_validity, write_child_vector,
  write_field_vectors,
}
use duckcall.Codectest.Encodes.{Encodes}
use duckcall.Codectest.FlatVectors.{vector-Encodes}
use duckcall.Codectest.FixedTypes.{IsFixed, IsSlot, slots-SlotOf}
use duckcall.Codectest.Scalars.{scalars-Encodes}
use duckcall.Codectest.Strings.{IsString, strings-Encodes}
use duckcall.Codectest.Branches.{
  write_cells, read_cells, write_string_type, read_string_type, write_list_type, read_list_type,
}
use duckcall.Codectest.ListVectors.{RowsOf, rows-Encodes}
use duckcall.Codectest.ListRows.{IsList, IsMap, elements_of, lists-RowsOf, maps-RowsOf}
use duckcall.Codectest.ArrayVectors.{IsArray, array_slots, arrays-Encodes}
use duckcall.Codectest.StructColumns.{IsStruct, column}
use duckcall.Codectest.StructVectors.{ColumnsEncode, structs-Encodes, length-column}
use duckcall.Qser.Varint.{IsU64}

abbrev list_type : ℕ → LogicalType → LogicalType
list_type id c = logical_type id 0 0 (child c) no_fields [] 0

abbrev array_type : LogicalType → ℕ → LogicalType
array_type c size = logical_type type_array 0 0 (child c) no_fields [] size

abbrev struct_type : Fields → LogicalType
struct_type fs = logical_type type_struct 0 0 no_child fs [] 0

-- What a MAP is a list of.
abbrev entry_type : List ℕ → LogicalType → List ℕ → LogicalType → LogicalType
entry_type k kt n nt = struct_type (field k kt (field n nt no_fields))

abbrev list_elements : LogicalType → List Value → List Value
list_elements c vals = flatten (map (elements_of (child c)) vals)

-- The values of a column: at most 2^24, each NULL or of the type, and those of its parts too. The
-- types nest at most `levels` deep.
mutual
  pub data IsVector : ℕ → LogicalType → List Value → Type 0 where
    are_cells :
        (l : ℕ) (t : LogicalType) (vals : List Value)
        → IsFixed t
        → length vals ≤ 2 ^ 24
        → All (IsSlot t) vals
        → IsVector (suc l) t vals
    are_strings :
        (l id : ℕ) (vals : List Value)
        → one_of id (type_varchar ∷ type_blob ∷ type_bit ∷ []) ≡ true
        → length vals ≤ 2 ^ 24
        → All (IsString id) vals
        → IsVector (suc l) (scalar_type id) vals
    are_lists :
        (l : ℕ) (c : LogicalType) (vals : List Value)
        → length vals ≤ 2 ^ 24
        → All IsList vals
        → length (list_elements c vals) ≤ 2 ^ 24
        → IsVector l c (list_elements c vals)
        → IsVector (suc l) (list_type type_list c) vals
    are_maps :
        (l : ℕ) (k n : List ℕ) (kt nt : LogicalType) (vals : List Value)
        → length vals ≤ 2 ^ 24
        → All IsMap vals
        → length (list_elements (entry_type k kt n nt) vals) ≤ 2 ^ 24
        → IsVector l (entry_type k kt n nt) (list_elements (entry_type k kt n nt) vals)
        → IsVector (suc l) (list_type type_map (entry_type k kt n nt)) vals
    are_arrays :
        (l : ℕ) (c : LogicalType) (size : ℕ) (vals : List Value)
        → length vals ≤ 2 ^ 24
        → size ≤ 2 ^ 24
        → size * length vals ≤ 2 ^ 24
        → All (IsArray size) vals
        → IsVector l c (array_slots size vals)
        → IsVector (suc l) (array_type c size) vals
    are_structs :
        (l : ℕ) (fs : Fields) (vals : List Value)
        → length vals ≤ 2 ^ 24
        → IsU64 (count_fields fs)
        → All (IsStruct fs) vals
        → AreColumns l fs 0 vals
        → IsVector (suc l) (struct_type fs) vals

  pub data AreColumns : ℕ → Fields → ℕ → List Value → Type 0 where
    no_columns : (l j : ℕ) (vals : List Value) → AreColumns l no_fields j vals
    one_column :
        (l j : ℕ) (name : List ℕ) (t : LogicalType) (fs : Fields) (vals : List Value)
        → IsVector l t (column j vals)
        → AreColumns l fs (suc j) vals
        → AreColumns l (field name t fs) j vals

-- A vector whose data both switches find.
module _ (l : ℕ) (t : LogicalType) (vals : List Value) where
  abbrev child_writer : List Value → Write
  child_writer = write_child_vector (child_of t)

  abbrev fields_writer : ℕ → List Value → Write
  fields_writer = write_field_vectors (fields_of t)

  write_vector-parts :
      write_vector t vals
      ≡ (write_validity (validity_mask vals) then write_data t child_writer fields_writer vals)
  unfolding write_vector
  write_vector-parts =
      elim t
        as (λ u. write_vector u vals ≡ (
          write_validity (validity_mask vals)
          then write_data u (write_child_vector (child_of u)) (write_field_vectors (fields_of u))
              vals)) [ logical_type id w s c fs e n ↦ refl ]

  found-Encodes :
      (p : Write) (m : Decode (List Value))
      → write_data t child_writer fields_writer vals ≡ p
      → vector_of_type (decode_vector l) t (length vals) false (validity_mask vals) ≡ m
      → length vals ≤ 2 ^ 24
      → Encodes 1 p m vals
      → Encodes 1 (write_vector t vals) (decode_vector (suc l) t (length vals)) vals
  found-Encodes p m writes reads small e =
      subst (λ q. Encodes 1 q (decode_vector (suc l) t (length vals)) vals) (sym write_vector-parts)
        (vector-Encodes l t _ vals small (
          subst
            (λ q.
              Encodes 1 q
                (vector_of_type (decode_vector l) t (length vals) false (validity_mask vals)) vals)
            (sym writes) (subst (λ d. Encodes 1 p d vals) (sym reads) e)))

cells-Encodes :
    (l : ℕ) (t : LogicalType) (vals : List Value)
    → IsFixed t
    → length vals ≤ 2 ^ 24
    → All (IsSlot t) vals
    → Encodes 1 (write_vector t vals) (decode_vector (suc l) t (length vals)) vals
cells-Encodes l t vals fixed small slots =
    found-Encodes l t vals _ _ (write_cells t _ _ vals fixed.supported)
      (read_cells (decode_vector l) t (length vals) (validity_mask vals) fixed.supported) small
      (scalars-Encodes (decode_vector l) t vals fixed.supported fixed.sized
        (bound (length vals) (physical_width t) small fixed.narrow)
        (slots-SlotOf t vals fixed slots))
  where
    bound : (n w : ℕ) → n ≤ 2 ^ 24 → w ≤ 16 → n * w < 2 ^ 64
    bound n w hn hw = grind arith

module _ (l : ℕ) (vals : List Value) (small : length vals ≤ 2 ^ 24) where
  texts-Encodes :
      (id : ℕ)
      → one_of id (type_varchar ∷ type_blob ∷ type_bit ∷ []) ≡ true
      → All (IsString id) vals
      → Encodes 1
          (write_vector (scalar_type id) vals)
          (decode_vector (suc l) (scalar_type id) (length vals))
          vals
  texts-Encodes id h are =
      found-Encodes l (scalar_type id) vals _ _ (write_string_type id _ _ vals h)
        (read_string_type (decode_vector l) id (length vals) (validity_mask vals) h) small
        (strings-Encodes (decode_vector l) id vals (omega arith) are)

  lists-Encodes :
      (id : ℕ) (c : LogicalType)
      → one_of id (type_list ∷ type_map ∷ []) ≡ true
      → RowsOf id (child c) vals (map (elements_of (child c)) vals)
      → length (list_elements c vals) ≤ 2 ^ 24
      → Encodes 1
          (write_vector c (list_elements c vals))
          (decode_vector l c (length (list_elements c vals)))
          (list_elements c vals)
      → Encodes 1
          (write_vector (list_type id c) vals)
          (decode_vector (suc l) (list_type id c) (length vals))
          vals
  unfolding write_child_vector
  lists-Encodes id c h rows fits e =
      found-Encodes l (list_type id c) vals _ _ (write_list_type id c _ _ vals h)
        (read_list_type (decode_vector l) (length vals) (validity_mask vals) id c h) small
        (rows-Encodes (decode_vector l) (list_type id c) c vals (map (elements_of (child c)) vals)
          rows (write_child_vector (child c)) refl fits (omega arith) e)

  array-Encodes :
      (c : LogicalType) (size : ℕ)
      → size ≤ 2 ^ 24
      → size * length vals ≤ 2 ^ 24
      → All (IsArray size) vals
      → Encodes 1
          (write_vector c (array_slots size vals))
          (decode_vector l c (length (array_slots size vals)))
          (array_slots size vals)
      → Encodes 1
          (write_vector (array_type c size) vals)
          (decode_vector (suc l) (array_type c size) (length vals))
          vals
  unfolding write_child_vector write_data vector_of_type nested_or_scalar_vector
  array-Encodes c size narrow fits are e =
      found-Encodes l (array_type c size) vals _ _ refl refl small (
        arrays-Encodes (decode_vector l) (array_type c size) c size vals are
          (write_child_vector (child c)) refl narrow fits e)

  struct-Encodes :
      (fs : Fields)
      → IsU64 (count_fields fs)
      → All (IsStruct fs) vals
      → ColumnsEncode (decode_vector l) (struct_type fs) vals fs 0
      → Encodes 1
          (write_vector (struct_type fs) vals)
          (decode_vector (suc l) (struct_type fs) (length vals))
          vals
  unfolding write_data vector_of_type nested_or_scalar_vector
  struct-Encodes fs counted are es =
      found-Encodes l (struct_type fs) vals _ _ refl refl small
        (structs-Encodes (decode_vector l) (struct_type fs) vals fs refl refl counted are es)

mutual
  pub column-Encodes :
      (l : ℕ) (t : LogicalType) (vals : List Value)
      → IsVector l t vals
      → Encodes 1 (write_vector t vals) (decode_vector l t (length vals)) vals
  column-Encodes _ _ _ (are_cells l t vals fixed small slots) =
      cells-Encodes l t vals fixed small slots
  column-Encodes _ _ _ (are_strings l id vals h small are) = texts-Encodes l vals small id h are
  column-Encodes _ _ _ (are_lists l c vals small are fits inner) =
      lists-Encodes l vals small type_list c refl (lists-RowsOf (child c) vals are) fits
        (column-Encodes l c (list_elements c vals) inner)
  column-Encodes _ _ _ (are_maps l k n kt nt vals small are fits inner) =
      lists-Encodes l vals small type_map (entry_type k kt n nt) refl
        (maps-RowsOf (entry_type k kt n nt) k n kt nt refl vals are) fits
        (column-Encodes l (entry_type k kt n nt) (list_elements (entry_type k kt n nt) vals) inner)
  column-Encodes _ _ _ (are_arrays l c size vals small narrow fits are inner) =
      array-Encodes l vals small c size narrow fits are
        (column-Encodes l c (array_slots size vals) inner)
  column-Encodes _ _ _ (are_structs l fs vals small counted are columns) =
      struct-Encodes l vals small fs counted are
        (columns-ColumnsEncode (struct_type fs) l fs 0 vals columns)

  columns-ColumnsEncode :
      (u : LogicalType) (l : ℕ) (fs : Fields) (j : ℕ) (vals : List Value)
      → AreColumns l fs j vals
      → ColumnsEncode (decode_vector l) u vals fs j
  columns-ColumnsEncode u _ _ _ _ (no_columns l j vals) = tt
  columns-ColumnsEncode u _ _ _ _ (one_column l j name t fs vals is columns) = (
    subst (λ n. Encodes 1 (write_vector t (column j vals)) (decode_vector l t n) (column j vals))
        (length-column j vals) (column-Encodes l t (column j vals) is),
    columns-ColumnsEncode u l fs (suc j) vals columns,
  )

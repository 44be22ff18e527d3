-- ===== src/Codec/Vectors.antt =====
-- decodeVector and decodeFlatVector of codec/chunk.go. `rec` is the call of decodeVector one level
-- deeper.
mod Outcomes
mod Flat
unfoldable pub use Outcomes.*
unfoldable pub use Flat.*
use duckcall.Base.{
  ℕ, zero, suc, ◌+◌, ◌-◌, ◌*◌, ◌/◌, ◌%◌, ◌^◌, Bool, true, false, not, ◌||◌, List, [], ◌∷◌, Option,
  none, some, Result, ok, err, ltb, ◌==◌, if◌then◌else◌, length, drop, take, get_elem?,
}
use duckcall.Qser.Reader.{Error, Reader, end_object, uvarint, svarint, bool, bytes, list_count}
use duckcall.Codec.Types.{
  type_varchar, type_blob, type_bit, type_geometry, type_struct, type_list, type_map, type_union,
  type_array, type_variant, id_of, child_of, fields_of, count_fields, LogicalType, Child, no_child,
  child, Fields, no_fields, field, selection, dict_count, sequence_start, sequence_increment,
  validity_flag, validity_mask, vector_data, vector_children, list_size, list_entries, list_child,
  array_size, array_child, vector_rows, child_type, CodecError, framing, unsupported, missing,
  miscounted, implausible, vector_too_deep, list_entry_outside, unknown_encoding, dictionary_index,
  Value, null, text, blob, items, struct, entries, Values, no_values, value, Entries, no_entries,
  entry, Pairs, no_pairs, pair,
}
use duckcall.Codec.Decode.{Decode, ◌>>=◌, ◌>>◌, done, throw, read, refuse, check, for_range}
use duckcall.Codec.TypeTree.{optional, required}
use duckcall.Codec.Cells.{
  one_of, word, decode_cell, physical_width, supported_scalar, bit_string, valid, sequence_value,
}

module _ (rec : LogicalType → ℕ → Decode (List Value)) (t : LogicalType) (count : ℕ) where
  abbrev pub repeated : List Value → List Value
  repeated [] = []
  repeated (v ∷ vs) = replicate count v

  unfoldable pub constant_vector : Decode (List Value)
  constant_vector = do vals ← rec t 1; done (repeated vals)

  unfoldable pub dictionary_cell : List ℕ → List Value → ℕ → Result CodecError Value
  dictionary_cell sel dict i =
      let idx = word 4 (drop (i * 4) sel) in
      if ltb idx (length dict)
      then ok (element dict idx)
      else err (dictionary_index idx (length dict))

  unfoldable pub dictionary_vector : Decode (List Value)
  dictionary_vector = do
    required selection 91
    sel ← read bytes
    refuse (not (length sel == count * 4)) (miscounted selection (length sel) count)
    required dict_count 92
    n ← read uvarint
    refuse (ltb max_chunk_rows n) (implausible dict_count n)
    dict ← rec t n
    lift (tabulate (dictionary_cell sel dict) count 0)

  unfoldable pub sequence_vector : Decode (List Value)
  sequence_vector = do
    required sequence_start 91
    start ← read svarint
    required sequence_increment 92
    inc ← read svarint
    lift (tabulate (λ i. sequence_value (id_of t) ((start + i * inc) % 2 ^ 64)) count 0)

  -- Flat 0, constant 2, dictionary 3, sequence 4; FSST is 1.
  unfoldable pub vector_of_kind : ℕ → Decode (List Value)
  vector_of_kind kind =
      if kind == 0
      then decode_flat_vector rec t count
      else if kind == 2
      then constant_vector
      else if kind == 3
      then dictionary_vector
      else if kind == 4
      then sequence_vector
      else throw (unknown_encoding kind)

  unfoldable pub vector_object : Decode (List Value)
  vector_object = do
    refuse (ltb max_vector_rows count) (implausible vector_rows count)
    kind ← optional 90 0 (read uvarint)
    vector_of_kind kind

-- `decodeVector(r, t, count, depth)` is `decode_vector (65 - depth) t count`, since it refuses a
-- depth above 64.
unfoldable pub decode_vector : ℕ → LogicalType → ℕ → Decode (List Value)
decode_vector zero t count r = (err vector_too_deep, r)
decode_vector (suc levels) t count r = vector_object (decode_vector levels) t count r

abbrev pub vector_levels : ℕ
vector_levels = 65

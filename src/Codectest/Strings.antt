-- ===== src/Codectest/Strings.antt =====
-- The string vectors of codec/codectest/codectest.go against those of codec/chunk.go.
use duckcall.Base.{
  ℕ, suc, ◌+◌, ◌≡◌, refl, ap, ◌∙◌, true, false, not, List, [], ◌∷◌, ◌++◌, Option, some, length,
  get_elem?, eq→==, arith, append_assoc, length-append, map, All,
}
use duckcall.Qser.Varint.{IsU64, id_bytes}
use duckcall.Qser.Bytes.{uvarint_bytes}
use duckcall.Qser.RoundTrip.{string_bytes, put_uvarint-wrote, list_count-at}
use duckcall.Qser.Writer.{put_field, put_string}
use duckcall.Codec.Types.{
  type_varchar, type_blob, type_bit, LogicalType, scalar_type, Value, null, text, blob,
}
use duckcall.Codec.Decode.{Decode, require, refuse, for_range}
use duckcall.Codec.Cells.{valid}
use duckcall.Codec.Vectors.{string_cell, string_value, string_vector}
use duckcall.Codectest.Write.{write_list, write_each}
use duckcall.Codectest.VectorWriter.{
  is_null, validity_mask, are_bits, write_bits, write_string_cell, write_strings,
}
use duckcall.Codectest.BitStrings.{bit_string-bit_blob}
use duckcall.Codectest.Encodes.{
  Encodes, try_field-same, check-at, put_bytes-wrote, bytes-at_front, long_string,
}
use duckcall.Codectest.Lists.{EachEncodes, each-Encodes, map-same}
use duckcall.Codectest.Validity.{valid-validity_mask}

-- A NULL or a string of the type.
pub data IsString : ℕ → Value → Type 0 where
  no_string : (id : ℕ) → IsString id null
  is_text : (s : List ℕ) → IsU64 (length s) → IsString type_varchar (text s)
  is_blob : (b : List ℕ) → IsU64 (length b) → IsString type_blob (blob b)
  is_bits : (s : List ℕ) → are_bits s ≡ true → IsU64 (suc (length s)) → IsString type_bit (text s)

module _ (rec : LogicalType → ℕ → Decode (List Value)) (count : ℕ) (mask : Option (List ℕ)) where
  -- The cell in row `i`, which is valid unless the value is NULL.
  string_cell-Encodes :
      (id i : ℕ) (v : Value)
      → IsString id v
      → valid mask i ≡ not (is_null v)
      → Encodes 1 (write_string_cell id v) (string_cell rec (scalar_type id) count false mask i) v
  unfolding write_string_cell write_bits string_cell string_value put_string
  string_cell-Encodes _ i _ (no_string id) h = record {
    bytes = string_bytes [];
    writes = λ w. rw (put_bytes-wrote [] w (omega arith));
    reads = λ pre more. rw (bytes-at_front [] pre more (omega arith), h);
    long = long_string [];
  }
  string_cell-Encodes _ i _ (is_text s fits) h = record {
    bytes = string_bytes s;
    writes = λ w. rw (put_bytes-wrote s w fits);
    reads = λ pre more. rw (bytes-at_front s pre more fits, h);
    long = long_string s;
  }
  string_cell-Encodes _ i _ (is_blob b fits) h = record {
    bytes = string_bytes b;
    writes = λ w. rw (put_bytes-wrote b w fits);
    reads = λ pre more. rw (bytes-at_front b pre more fits, h);
    long = long_string b;
  }
  string_cell-Encodes _ i _ (is_bits s are fits) h =
      let (b, packs, prints, short) = bit_string-bit_blob s are in
      let fits' : IsU64 (length b) = omega (arith, short, fits) in
      record {
        bytes = string_bytes b;
        writes = λ w. rw packs (ap some (put_bytes-wrote b w fits'));
        reads = λ pre more. rw (bytes-at_front b pre more fits', h, prints);
        long = long_string b;
      }

  string_cells-EachEncodes :
      (id i : ℕ) (vals : List Value)
      → All (IsString id) vals
      → ((k : ℕ) (v : Value) → get_elem? vals k ≡ some v → valid mask (i + k) ≡ not (is_null v))
      → EachEncodes
          (string_cell rec (scalar_type id) count false mask)
          (write_string_cell id)
          (λ v. v)
          i
          vals
  string_cells-EachEncodes id i [] h valid_rows = tt
  string_cells-EachEncodes id i (v ∷ vals) (h, hs) valid_rows = (
    string_cell-Encodes id i v h (ap (valid mask) (omega arith) ∙ valid_rows 0 v refl),
    string_cells-EachEncodes id (i + 1) vals hs
        λ k w e. ap (valid mask) (omega arith) ∙ valid_rows (suc k) w e,
  )

module _ (rec : LogicalType → ℕ → Decode (List Value)) (id : ℕ) (vals : List Value) where
  cells-Encodes :
      All (IsString id) vals
      → Encodes
          (length vals)
          (write_each (write_string_cell id) vals)
          (for_range
            (string_cell rec (scalar_type id) (length vals) false (validity_mask vals))
            (length vals)
            0)
          (map (λ v. v) vals)
  cells-Encodes hs =
      each-Encodes _ (write_string_cell id) (λ v. v) 0 vals
        (string_cells-EachEncodes rec (length vals) (validity_mask vals) id 0 vals hs
          λ k v e. ap (valid (validity_mask vals)) (omega arith) ∙ valid-validity_mask vals k v e)

  pub strings-Encodes :
      IsU64 (length vals)
      → All (IsString id) vals
      → Encodes 1
          (write_strings id vals)
          (string_vector rec (scalar_type id) (length vals) false (validity_mask vals))
          vals
  unfolding write_strings write_list string_vector require refuse put_field
  strings-Encodes h hs =
      let cells = cells-Encodes hs in
      record {
        bytes = id_bytes 102 ++ (uvarint_bytes 9 (length vals) ++ cells.bytes);
        writes = λ w. rw (put_uvarint-wrote (length vals) _ h, cells.writes) (simp append_assoc);
        reads = λ pre more. simp append_assoc (
            rw
              (
                try_field-same 102 pre (uvarint_bytes 9 (length vals) ++ (cells.bytes ++ more))
                    refl,
                list_count-at (length vals) _ (cells.bytes ++ more) h
                    (omega (arith, cells.long, length-append cells.bytes more)),
                eq→== (length vals) (length vals) refl,
                cells.reads,
                check-at,
              )
              (simp (append_assoc, map-same)));
        long = omega arith;
      }

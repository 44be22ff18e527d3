-- ===== src/Codectest/ListVectors.antt =====
-- The LIST and MAP vectors of codec/codectest/codectest.go against those of codec/chunk.go.
use duckcall.Base.{
  ℕ, ◌+◌, ◌-◌, ◌^◌, ◌≤◌, ◌≡◌, refl, false, ◌||◌, List, [], ◌++◌, some, Result, ok, length,
  get_elem?, ltb, ◌==◌, eq→==, le→ltb, if◌then◌else◌, arith, append_assoc, length-append,
  Bool-cases, inl, inr, map,
}
use duckcall.Qser.Varint.{IsU64, id_bytes}
use duckcall.Qser.Bytes.{uvarint_bytes}
use duckcall.Qser.Reader.{end_id}
use duckcall.Qser.Writer.{put_field, put_end}
use duckcall.Qser.Groups.{uvarint-at}
use duckcall.Qser.Optional.{uvarint_field, put_field_uvarint-wrote, end_object-end}
use duckcall.Qser.RoundTrip.{put_uvarint-wrote, list_count-at}
use duckcall.Codec.Types.{
  type_map, id_of, child_of, LogicalType, Child, child, CodecError, Value, items, entries,
}
use duckcall.Codec.Decode.{Decode, require, refuse, for_range}
use duckcall.Codec.Vectors.{
  list_entry, list_row, list_vector, max_vector_rows, to_values, map_pairs, tolerate,
}
use duckcall.Codectest.Write.{Write, ◌then◌, write_list, write_each}
use duckcall.Codectest.VectorWriter.{
  is_null, validity_mask, windows, flatten, collect, row_elements, write_window, write_rows,
  write_list_vector,
}
use duckcall.Codectest.Encodes.{Encodes, try_field-same}
use duckcall.Codectest.Lists.{each-Encodes, map-same}
use duckcall.Codectest.Rows.{rows-at, null_is}
use duckcall.Codectest.Validity.{valid-validity_mask}
use duckcall.Codectest.Windows.{window_of, length-windows, windows-EachEncodes}

-- What the decoder makes of the elements of a row.
abbrev pub row_value : ℕ → List Value → Value
row_value id row = if id == type_map then entries (map_pairs row) else items (to_values row)

-- The rows of the values, which make the values again.
pub record RowsOf (id : ℕ) (c : Child) (vals : List Value) (rows : List (List Value)) : Type 0 where
  pub collected : collect (row_elements c) vals ≡ some rows
  pub counted : length rows ≡ length vals
  pub each :
      (i : ℕ) (v : Value)
      → get_elem? vals i ≡ some v
      → (row : List Value) × ((get_elem? rows i ≡ some row)
          × (is_null v ≡ false → row_value id row ≡ v))

module _ (rec : LogicalType → ℕ → Decode (List Value)) (t c : LogicalType) (vals : List Value)
    (rows : List (List Value)) (r : RowsOf (id_of t) (child c) vals rows) where
  abbrev elements : List Value
  elements = flatten rows

  inside_window :
      (off len size : ℕ) → off + len ≤ size → (ltb size len || ltb (size - len) off) ≡ false
  inside_window off len size h = ground arith

  row_ok :
      (row : List Value)
      → ◌≡◌ {A = Result CodecError Value}
          (if id_of t == type_map then ok (entries (map_pairs row)) else ok (items (to_values row)))
          (ok (row_value (id_of t) row))
  row_ok row = elim (Bool-cases (id_of t == type_map)) [ inl h ↦ rw h | inr h ↦ rw h ]

  row_at :
      (i : ℕ) (v : Value)
      → get_elem? vals i ≡ some v
      → list_row rec t
          (length vals)
          false
          (validity_mask vals)
          (length elements)
          elements
          (windows 0 rows)
          i
        ≡ ok v
  unfolding list_row
  row_at i v e =
      let (row, (there, same)) = r.each i v e in
      let w = window_of [] rows i row there in
      elim (Bool-cases (is_null v)) [
        | inl h ↦
            rw (list_row, w.there, valid-validity_mask vals i v e, h) (λ j. ok (null_is v h j))
        | inr h ↦ rw (
          list_row,
          w.there,
          valid-validity_mask vals i v e,
          h,
          inside_window w.off (length row) (length elements) w.inside,
          w.holds,
          row_ok row,
          same h,
        )
      ]

  windows-Encodes :
      length elements ≤ 2 ^ 24
      → Encodes
          (length (windows 0 rows))
          (write_each write_window (windows 0 rows))
          (for_range
            (list_entry rec t (length vals) false (validity_mask vals))
            (length (windows 0 rows))
            0)
          (map (λ w. w) (windows 0 rows))
  windows-Encodes small =
      each-Encodes _ write_window (λ w. w) 0 (windows 0 rows)
        (windows-EachEncodes rec t (length vals) (validity_mask vals) 0 0 rows (omega arith))

  pub rows-Encodes :
      (p : List Value → Write)
      → child_of t ≡ child c
      → length (flatten rows) ≤ 2 ^ 24
      → IsU64 (length vals)
      → Encodes 1 (p (flatten rows)) (rec c (length (flatten rows))) (flatten rows)
      → Encodes 1
          (write_list_vector (child c) p vals)
          (list_vector rec t (length vals) false (validity_mask vals))
          vals
  unfolding write_list_vector write_rows write_list list_vector require refuse tolerate put_field
      put_end
  rows-Encodes p same small counted e =
      let ws = windows-Encodes small in
      record {
        bytes =
            uvarint_field 104 (length elements)
            ++ (id_bytes 105
                ++ (uvarint_bytes 9 (length (windows 0 rows))
                    ++ (ws.bytes ++ (id_bytes 106 ++ (e.bytes ++ id_bytes end_id)))));
        writes = λ w.
            rw
              (
                r.collected,
                put_field_uvarint-wrote 104 (length elements) w (omega arith),
                put_uvarint-wrote (length (windows 0 rows)) _
                    (omega (arith, length-windows 0 rows, r.counted)),
                ws.writes,
                e.writes,
              )
              (simp append_assoc);
        reads = λ pre more.
            let after = id_bytes 106 ++ (e.bytes ++ (id_bytes end_id ++ more)) in
            simp append_assoc (
              rw
                (
                  try_field-same 104 pre
                      (uvarint_bytes 9 (length elements)
                        ++ (id_bytes 105
                            ++ (uvarint_bytes 9 (length (windows 0 rows)) ++ (ws.bytes ++ after))))
                      refl,
                  uvarint-at (length elements) _ _ (omega arith),
                  le→ltb max_vector_rows (length elements) small,
                  try_field-same 105 _
                      (uvarint_bytes 9 (length (windows 0 rows)) ++ (ws.bytes ++ after)) refl,
                  list_count-at (length (windows 0 rows)) _ (ws.bytes ++ after)
                      (omega (arith, length-windows 0 rows, r.counted))
                      (omega (arith, ws.long, length-append ws.bytes after)),
                  eq→== (length (windows 0 rows)) (length vals)
                      (omega (arith, length-windows 0 rows, r.counted)),
                  ws.reads,
                  map-same,
                  try_field-same 106 _ (e.bytes ++ (id_bytes end_id ++ more)) refl,
                  same,
                  e.reads,
                  end_object-end,
                  rows-at rec t vals
                      (λ i.
                        list_row rec t (length vals) false (validity_mask vals) (length elements)
                          elements (windows 0 rows) i)
                      _ more row_at,
                )
                (simp append_assoc));
        long = omega arith;
      }

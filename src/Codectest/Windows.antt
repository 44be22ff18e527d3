-- ===== src/Codectest/Windows.antt =====
-- The windows that codec/codectest/codectest.go writes for the rows of a list vector.
use duckcall.Base.{
  ℕ, zero, suc, ◌+◌, ◌≤◌, ◌≡◌, refl, subst, false, List, [], ◌∷◌, ◌++◌, Option, some, length, drop,
  take, get_elem?, arith, append_assoc, length-append, drop-append, take-append,
}
use duckcall.Qser.Varint.{IsU64, id_bytes}
use duckcall.Qser.Bytes.{uvarint_bytes}
use duckcall.Qser.Reader.{end_id}
use duckcall.Qser.Writer.{put_field, put_end}
use duckcall.Qser.Groups.{uvarint-at}
use duckcall.Qser.Optional.{uvarint_field, put_field_uvarint-wrote, end_object-end}
use duckcall.Codec.Types.{LogicalType, Value}
use duckcall.Codec.Decode.{Decode}
use duckcall.Codec.Vectors.{list_entry}
use duckcall.Codectest.VectorWriter.{windows, flatten, write_window}
use duckcall.Codectest.Encodes.{Encodes, try_field-same}
use duckcall.Codectest.Lists.{EachEncodes}

-- Where a row's window is: after `before` elements, in the elements of all rows.
pub record WindowAt (before : List Value) (rows : List (List Value)) (i : ℕ) (row : List Value)
    : Type 0 where
  pub off : ℕ
  pub there : get_elem? (windows (length before) rows) i ≡ some (off, length row)
  pub holds : take (length row) (drop off (before ++ flatten rows)) ≡ row
  pub inside : off + length row ≤ length (before ++ flatten rows)

first_window :
    (before r row : List Value) (rows : List (List Value))
    → r ≡ row
    → WindowAt before (r ∷ rows) 0 row
unfolding windows flatten
first_window before r row rows same = subst (WindowAt before (r ∷ rows) 0) same (record {
  off = length before;
  there = refl;
  holds = rw (drop-append before (r ++ flatten rows)) (take-append r (flatten rows));
  inside = omega (arith, length-append before (r ++ flatten rows), length-append r (flatten rows));
})

later_window :
    (before r row : List Value) (rows : List (List Value)) (i : ℕ)
    → WindowAt (before ++ r) rows i row
    → WindowAt before (r ∷ rows) (suc i) row
unfolding windows flatten
later_window before r row rows i w = record {
  off = w.off;
  there =
      subst (λ n. get_elem? (windows n rows) i ≡ some (w.off, length row)) (length-append before r)
        w.there;
  holds = rw (← append_assoc before r (flatten rows)) w.holds;
  inside = rw (← append_assoc before r (flatten rows)) w.inside;
}

first_row :
    (r row : List Value) (rows : List (List Value)) → get_elem? (r ∷ rows) 0 ≡ some row → r ≡ row
first_row r row rows e = cc

pub window_of :
    (before : List Value) (rows : List (List Value)) (i : ℕ) (row : List Value)
    → get_elem? rows i ≡ some row
    → WindowAt before rows i row
window_of before [] i row e = absurd cc
window_of before (r ∷ rows) zero row e = first_window before r row rows (first_row r row rows e)
window_of before (r ∷ rows) (suc i) row e =
    later_window before r row rows i (window_of (before ++ r) rows i row e)

pub length-windows : (off : ℕ) (rows : List (List Value)) → length (windows off rows) ≡ length rows
unfolding windows
length-windows off [] = refl
length-windows off (r ∷ rows) = λ i. suc (length-windows (off + length r) rows i)

module _ (rec : LogicalType → ℕ → Decode (List Value)) (t : LogicalType) (count : ℕ)
    (mask : Option (List ℕ)) where
  window-Encodes :
      (i off len : ℕ)
      → IsU64 off
      → IsU64 len
      → Encodes 1 (write_window (off, len)) (list_entry rec t count false mask i) (off, len)
  unfolding write_window list_entry put_end put_field
  window-Encodes i off len ho hl = record {
    bytes = uvarint_field 100 off ++ (uvarint_field 101 len ++ id_bytes end_id);
    writes = λ w.
        rw (put_field_uvarint-wrote 100 off w ho, put_field_uvarint-wrote 101 len _ hl)
          (simp append_assoc);
    reads = λ pre more. simp append_assoc (
        rw
          (
            try_field-same 100 pre
                (uvarint_bytes 9 off
                  ++ (id_bytes 101 ++ (uvarint_bytes 9 len ++ (id_bytes end_id ++ more))))
                refl,
            uvarint-at off _ _ ho,
            try_field-same 101 _ (uvarint_bytes 9 len ++ (id_bytes end_id ++ more)) refl,
            uvarint-at len _ _ hl,
            end_object-end,
          )
          (simp append_assoc));
    long = omega arith;
  }

  -- While all windows lie below 2^64.
  pub windows-EachEncodes :
      (i off : ℕ) (rows : List (List Value))
      → IsU64 (off + length (flatten rows))
      → EachEncodes (list_entry rec t count false mask) write_window (λ w. w) i (windows off rows)
  unfolding windows flatten
  windows-EachEncodes i off [] h = tt
  windows-EachEncodes i off (r ∷ rows) h = (
    window-Encodes i off (length r) (omega arith) (omega (arith, length-append r (flatten rows))),
    windows-EachEncodes (i + 1) (off + length r) rows
        (omega (arith, length-append r (flatten rows))),
  )

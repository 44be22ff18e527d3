-- ===== src/Codectest/ArrayVectors.antt =====
-- The ARRAY vectors of codec/codectest/codectest.go against those of codec/chunk.go.
use duckcall.Base.{
  ℕ, zero, suc, ◌*◌, ◌^◌, ◌≤◌, ◌≡◌, refl, subst, false, List, [], ◌∷◌, ◌++◌, some, ok, length, drop,
  take, get_elem?, eq→==, le→ltb, arith, append_assoc, length-append, Bool-cases, inl, inr, map,
  All,
}
use duckcall.Qser.Varint.{id_bytes}
use duckcall.Qser.Bytes.{uvarint_bytes}
use duckcall.Qser.Reader.{end_id}
use duckcall.Qser.Writer.{put_field, put_end}
use duckcall.Qser.Groups.{uvarint-at}
use duckcall.Qser.Optional.{uvarint_field, put_field_uvarint-wrote, end_object-end}
use duckcall.Codec.Types.{child_of, LogicalType, child, Value, null, items, Values}
use duckcall.Codec.Decode.{Decode, require, refuse}
use duckcall.Codec.Vectors.{
  array_row, array_vector, max_vector_rows, replicate, to_values, tolerate,
}
use duckcall.Codectest.Write.{Write}
use duckcall.Codectest.VectorWriter.{
  is_null, validity_mask, flatten, collect, list_values, array_elements, write_array_vector,
}
use duckcall.Codectest.Encodes.{Encodes, try_field-same}
use duckcall.Codectest.Rows.{rows-at, null_is, drop-past, take-front, suc_times, first_is}
use duckcall.Codectest.ListRows.{or_empty, to_values-list_values}
use duckcall.Codectest.Validity.{valid-validity_mask}

-- NULL or a slice of as many elements as the type says.
pub data IsArray (size : ℕ) : Value → Type 0 where
  null_array : IsArray size null
  is_sized : (vs : Values) → length (list_values vs) ≡ size → IsArray size (items vs)

abbrev pub slots_of : ℕ → Value → List Value
slots_of size v = or_empty (array_elements size v)

length-replicate : (n : ℕ) → length (replicate n null) ≡ n
unfolding replicate
length-replicate zero = refl
length-replicate (suc n) = λ i. suc (length-replicate n i)

-- A value whose elements can be written, and make it again.
record IsArrayRow (size : ℕ) (v : Value) : Type 0 where
  taken : array_elements size v ≡ some (slots_of size v)
  wide : length (slots_of size v) ≡ size
  again : is_null v ≡ false → items (to_values (slots_of size v)) ≡ v

array-IsArrayRow : (size : ℕ) (v : Value) → IsArray size v → IsArrayRow size v
unfolding array_elements
array-IsArrayRow size _ null_array = record {
  taken = refl;
  wide = length-replicate size;
  again = λ h. absurd cc;
}
array-IsArrayRow size _ (is_sized vs h) = record {
  taken = rw (eq→== (length (list_values vs)) size h);
  wide = rw (eq→== (length (list_values vs)) size h) h;
  again = λ _. rw (eq→== (length (list_values vs)) size h, to_values-list_values vs);
}

arrays-IsArrayRow :
    (size : ℕ) (vals : List Value) → All (IsArray size) vals → All (IsArrayRow size) vals
arrays-IsArrayRow size [] h = tt
arrays-IsArrayRow size (v ∷ vals) (h, hs) =
    (array-IsArrayRow size v h, arrays-IsArrayRow size vals hs)

module _ (size : ℕ) where
  abbrev pub array_slots : List Value → List Value
  array_slots vals = flatten (map (slots_of size) vals)

  collect-slots :
      (vals : List Value)
      → All (IsArrayRow size) vals
      → collect (array_elements size) vals ≡ some (map (slots_of size) vals)
  unfolding collect
  collect-slots [] h = refl
  collect-slots (v ∷ vals) (h, hs) = rw (h.taken, collect-slots vals hs)

  length-array_slots :
      (vals : List Value)
      → All (IsArrayRow size) vals
      → length (array_slots vals) ≡ length vals * size
  unfolding flatten
  length-array_slots [] h = omega arith
  length-array_slots (v ∷ vals) (h, hs) = omega (
    arith,
    h.wide,
    length-append (slots_of size v) (array_slots vals),
    length-array_slots vals hs,
    suc_times (length vals) size,
  )

  slots_at :
      (vals : List Value) (i : ℕ) (v : Value)
      → All (IsArrayRow size) vals
      → get_elem? vals i ≡ some v
      → is_null v ≡ false
      → items (to_values (take size (drop (i * size) (array_slots vals)))) ≡ v
  unfolding flatten
  slots_at [] i v h e k = absurd cc
  slots_at (x ∷ vals) zero v (h, hs) e k =
      rw
        (
          drop-past [] (slots_of size x ++ array_slots vals) 0 (0 * size) (omega arith),
          take-front (slots_of size x) (array_slots vals) size (omega (arith, h.wide)),
        )
        (subst (λ y. is_null y ≡ false → items (to_values (slots_of size x)) ≡ y)
          (first_is x vals v e) h.again k)
  slots_at (x ∷ vals) (suc i) v (h, hs) e k =
      rw
        (drop-past (slots_of size x) (array_slots vals) (i * size) (suc i * size)
          (omega (arith, h.wide, suc_times i size)))
        (slots_at vals i v hs e k)

module _ (rec : LogicalType → ℕ → Decode (List Value)) (t c : LogicalType) (size : ℕ)
    (vals : List Value) (are : All (IsArray size) vals) where
  row_at :
      (i : ℕ) (v : Value)
      → get_elem? vals i ≡ some v
      → array_row rec t (length vals) false (validity_mask vals) size (array_slots size vals) i
        ≡ ok v
  unfolding array_row
  row_at i v e = elim (Bool-cases (is_null v)) [
    | inl h ↦ rw (array_row, valid-validity_mask vals i v e, h) (λ j. ok (null_is v h j))
    | inr h ↦ rw (
      array_row,
      valid-validity_mask vals i v e,
      h,
      slots_at size vals i v (arrays-IsArrayRow size vals are) e h,
    )
  ]

  counted : length (array_slots size vals) ≡ size * length vals
  counted = grind (arith, length-array_slots size vals (arrays-IsArrayRow size vals are))

  slots-Encodes :
      (p : List Value → Write)
      → child_of t ≡ child c
      → size ≤ 2 ^ 24
      → size * length vals ≤ 2 ^ 24
      → Encodes 1 (p (array_slots size vals)) (rec c (size * length vals)) (array_slots size vals)
      → Encodes 1
          (write_array_vector size p vals)
          (array_vector rec t (length vals) false (validity_mask vals))
          vals
  unfolding write_array_vector array_vector require refuse tolerate put_field put_end
  slots-Encodes p same small fits e = record {
    bytes = uvarint_field 103 size ++ (id_bytes 104 ++ (e.bytes ++ id_bytes end_id));
    writes = λ w.
        rw
          (
            collect-slots size vals (arrays-IsArrayRow size vals are),
            put_field_uvarint-wrote 103 size w (omega arith),
            e.writes,
          )
          (simp append_assoc);
    reads = λ pre more. simp append_assoc (
        rw
          (
            try_field-same 103 pre
                (uvarint_bytes 9 size ++ (id_bytes 104 ++ (e.bytes ++ (id_bytes end_id ++ more))))
                refl,
            uvarint-at size _ _ (omega arith),
            le→ltb max_vector_rows size small,
            le→ltb max_vector_rows (size * length vals) fits,
            try_field-same 104 _ (e.bytes ++ (id_bytes end_id ++ more)) refl,
            same,
            e.reads,
            end_object-end,
            rows-at rec t vals
                (array_row rec t (length vals) false (validity_mask vals) size
                  (array_slots size vals))
                _ more row_at,
          )
          (simp append_assoc));
    long = omega arith;
  }

  pub arrays-Encodes :
      (p : List Value → Write)
      → child_of t ≡ child c
      → size ≤ 2 ^ 24
      → size * length vals ≤ 2 ^ 24
      → Encodes 1
          (p (array_slots size vals))
          (rec c (length (array_slots size vals)))
          (array_slots size vals)
      → Encodes 1
          (write_array_vector size p vals)
          (array_vector rec t (length vals) false (validity_mask vals))
          vals
  arrays-Encodes p same small fits inner = slots-Encodes p same small fits (
      subst (λ n. Encodes 1 (p (array_slots size vals)) (rec c n) (array_slots size vals)) counted
        inner)

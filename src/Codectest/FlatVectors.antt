-- ===== src/Codectest/FlatVectors.antt =====
-- What writeVector of codec/codectest/codectest.go puts in front of a vector's data, and how
-- decodeVector of codec/chunk.go comes to the data.
use duckcall.Base.{
  ℕ, suc, ◌+◌, ◌/◌, ◌^◌, ◌≤◌, ◌≡◌, refl, true, false, List, ◌∷◌, ◌++◌, none, some, length,
  if◌then◌else◌, arith, le→ltb, append_assoc, Bool-cases, inl, inr, subst, sym,
}
use duckcall.Qser.Varint.{IsU64, id_bytes}
use duckcall.Qser.Bytes.{uvarint_bytes}
use duckcall.Qser.Writer.{put_field, put_bool, put_field_bool}
use duckcall.Qser.RoundTrip.{string_bytes, bool-at}
use duckcall.Qser.Optional.{field-NotNext}
use duckcall.Codec.Types.{LogicalType, Value}
use duckcall.Codec.Decode.{Decode, require, refuse}
use duckcall.Codec.Vectors.{
  max_vector_rows, validity_mask_of, vector_of_type, decode_flat_vector, vector_of_kind,
  vector_object, decode_vector,
}
use duckcall.Codectest.Write.{Write, ◌then◌}
use duckcall.Codectest.VectorWriter.{any_null, validity_mask, mask_bytes, write_validity}
use duckcall.Codectest.Encodes.{Encodes, try_field-same, bytes-at_apart, put_field_bytes-wrote}
use duckcall.Codectest.Validity.{length-mask_bytes, mask_length}

module _ (rec : LogicalType → ℕ → Decode (List Value)) (t : LogicalType) (count : ℕ) where
  -- The validity of a vector and the rest of it.
  no_mask-Encodes :
      (p : Write) (vals : List Value)
      → count ≤ 2 ^ 24
      → Encodes 1 p (vector_of_type rec t count false none) vals
      → Encodes 1 (write_validity none then p) (vector_object rec t count) vals
  unfolding write_validity vector_object vector_of_kind decode_flat_vector put_field_bool put_field
      put_bool require refuse validity_mask_of
  no_mask-Encodes p vals small e = record {
    bytes = id_bytes 100 ++ (0 ∷ e.bytes);
    writes = λ w. rw e.writes (simp append_assoc);
    reads = λ pre more.
        rw
          (
            le→ltb max_vector_rows count small,
            field-NotNext 90 100 (0 ∷ (e.bytes ++ more)) (omega arith),
            field-NotNext 99 100 (0 ∷ (e.bytes ++ more)) (omega arith),
            try_field-same 100 pre (0 ∷ (e.bytes ++ more)) refl,
            bool-at false _ (e.bytes ++ more),
            e.reads,
          )
          (simp append_assoc);
    long = omega arith;
  }

  mask-Encodes :
      (mask : List ℕ) (p : Write) (vals : List Value)
      → count ≤ 2 ^ 24
      → IsU64 (length mask)
      → (count + 7) / 8 ≤ length mask
      → Encodes 1 p (vector_of_type rec t count false (some mask)) vals
      → Encodes 1 (write_validity (some mask) then p) (vector_object rec t count) vals
  unfolding write_validity vector_object vector_of_kind decode_flat_vector put_field_bool put_field
      put_bool require refuse validity_mask_of
  mask-Encodes mask p vals small h enough e = record {
    bytes = id_bytes 100 ++ (1 ∷ (id_bytes 101 ++ (string_bytes mask ++ e.bytes)));
    writes = λ w. rw (put_field_bytes-wrote 101 mask _ h, e.writes) (simp append_assoc);
    reads = λ pre more. simp append_assoc (
        rw
          (
            le→ltb max_vector_rows count small,
            field-NotNext 90 100
                (1
                  ∷ (id_bytes 101
                      ++ (uvarint_bytes 9 (length mask) ++ (mask ++ (e.bytes ++ more)))))
                (omega arith),
            field-NotNext 99 100
                (1
                  ∷ (id_bytes 101
                      ++ (uvarint_bytes 9 (length mask) ++ (mask ++ (e.bytes ++ more)))))
                (omega arith),
            try_field-same 100 pre
                (1
                  ∷ (id_bytes 101
                      ++ (uvarint_bytes 9 (length mask) ++ (mask ++ (e.bytes ++ more)))))
                refl,
            bool-at true _
                (id_bytes 101 ++ (uvarint_bytes 9 (length mask) ++ (mask ++ (e.bytes ++ more)))),
            try_field-same 101 _ (uvarint_bytes 9 (length mask) ++ (mask ++ (e.bytes ++ more)))
                refl,
            bytes-at_apart mask _ (e.bytes ++ more) h,
            le→ltb (length mask) ((count + 7) / 8) enough,
            e.reads,
          )
          (simp append_assoc));
    long = omega arith;
  }

-- A flat vector around its data, at any depth.
pub vector-Encodes :
    (l : ℕ) (t : LogicalType) (p : Write) (vals : List Value)
    → length vals ≤ 2 ^ 24
    → Encodes 1 p (vector_of_type (decode_vector l) t (length vals) false (validity_mask vals)) vals
    → Encodes 1
        (write_validity (validity_mask vals) then p)
        (decode_vector (suc l) t (length vals))
        vals
unfolding decode_vector validity_mask
vector-Encodes l t p vals small e = elim (Bool-cases (any_null vals)) [
  | inl h ↦
      subst (λ v. Encodes 1 (write_validity v then p) (decode_vector (suc l) t (length vals)) vals)
        (sym (nulls h))
        (mask-Encodes (decode_vector l) t (length vals) (mask_bytes (mask_length vals) vals) p vals
          small (omega (arith, length-mask_bytes (mask_length vals) vals))
          (omega (arith, length-mask_bytes (mask_length vals) vals))
          (subst (λ v. Encodes 1 p (vector_of_type (decode_vector l) t (length vals) false v) vals)
            (nulls h) e))
  | inr h ↦
      subst (λ v. Encodes 1 (write_validity v then p) (decode_vector (suc l) t (length vals)) vals)
        (sym (full h))
        (no_mask-Encodes (decode_vector l) t (length vals) p vals small (
          subst (λ v. Encodes 1 p (vector_of_type (decode_vector l) t (length vals) false v) vals)
            (full h) e))
]
  where
    nulls : any_null vals ≡ true → validity_mask vals ≡ some (mask_bytes (mask_length vals) vals)
    nulls h = rw h

    full : any_null vals ≡ false → validity_mask vals ≡ none
    full h = rw h

-- ===== src/Codectest/Scalars.antt =====
-- The vectors of fixed-width cells of codec/codectest/codectest.go against those of codec/chunk.go.
use duckcall.Base.{
  ℕ, zero, suc, ◌*◌, ◌^◌, ◌<◌, ◌≡◌, refl, subst, true, false, List, [], ◌∷◌, ◌++◌, some, ok, length,
  drop, take, get_elem?, ◌==◌, arith, le→ltb, append_assoc, append-nil, length-append, All,
  Bool-cases, inl, inr,
}
use duckcall.Qser.Varint.{id_bytes}
use duckcall.Qser.Bytes.{uvarint_bytes}
use duckcall.Qser.RoundTrip.{string_bytes}
use duckcall.Codec.Types.{LogicalType, Value}
use duckcall.Codec.Decode.{Decode, require, refuse}
use duckcall.Codec.Cells.{decode_cell, physical_width, supported_scalar}
use duckcall.Codec.Vectors.{scalar_cell, sized_vector, scalar_vector}
use duckcall.Codectest.CellWriter.{cell, append_cell}
use duckcall.Codectest.VectorWriter.{is_null, validity_mask, append_cells, write_scalars}
use duckcall.Codectest.Encodes.{Encodes, try_field-same, bytes-at_apart, put_field_bytes-wrote}
use duckcall.Codectest.Rows.{rows-at, drop-past, take-front, suc_times, first_is, null_is}
use duckcall.Codectest.Validity.{valid-validity_mask}

-- The cell of a value, which decodes to it unless it is NULL.
pub record SlotOf (t : LogicalType) (v : Value) : Type 0 where
  pub bytes : List ℕ
  pub stored : cell t v ≡ some bytes
  pub wide : length bytes ≡ physical_width t
  pub back : is_null v ≡ false → decode_cell t bytes ≡ ok v

-- The cells of a list of values.
record CellsOf (t : LogicalType) (vals : List Value) : Type 0 where
  bytes : List ℕ
  stored : (acc : List ℕ) → append_cells t acc vals ≡ some (acc ++ bytes)
  wide : length bytes ≡ length vals * physical_width t
  back :
      (i : ℕ) (v : Value)
      → get_elem? vals i ≡ some v
      → is_null v ≡ false
      → decode_cell t (take (physical_width t) (drop (i * physical_width t) bytes)) ≡ ok v

first_cell :
    (t : LogicalType) (v x : Value) (c more : List ℕ)
    → length c ≡ physical_width t
    → (is_null x ≡ false → decode_cell t c ≡ ok x)
    → x ≡ v
    → is_null v ≡ false
    → decode_cell t (take (physical_width t) (drop (0 * physical_width t) (c ++ more))) ≡ ok v
first_cell t v x c more wide back same h =
    rw
      (
        drop-past [] (c ++ more) 0 (0 * physical_width t) (omega arith),
        take-front c more (physical_width t) (omega (arith, wide)),
      )
      (subst (λ y. is_null y ≡ false → decode_cell t c ≡ ok y) same back h)

one_more_cell :
    (t : LogicalType) (x : Value) (vals : List Value)
    → SlotOf t x
    → CellsOf t vals
    → CellsOf t (x ∷ vals)
unfolding append_cells append_cell
one_more_cell t x vals c cs = record {
  bytes = c.bytes ++ cs.bytes;
  stored = λ acc. rw (c.stored, cs.stored, append_assoc);
  wide = omega (
    arith,
    c.wide,
    cs.wide,
    length-append c.bytes cs.bytes,
    suc_times (length vals) (physical_width t),
  );
  back = cell_at;
}
  where
    cell_at :
        (i : ℕ) (v : Value)
        → get_elem? (x ∷ vals) i ≡ some v
        → is_null v ≡ false
        → decode_cell t
            (take (physical_width t) (drop (i * physical_width t) (c.bytes ++ cs.bytes)))
          ≡ ok v
    cell_at zero v e h = first_cell t v x c.bytes cs.bytes c.wide c.back (first_is x vals v e) h
    cell_at (suc i) v e h =
        rw
          (drop-past c.bytes cs.bytes (i * physical_width t) (suc i * physical_width t)
            (omega (arith, c.wide, suc_times i (physical_width t))))
          (cs.back i v e h)

all_cells : (t : LogicalType) (vals : List Value) → All (SlotOf t) vals → CellsOf t vals
unfolding append_cells
all_cells t [] h = record {
  bytes = [];
  stored = λ acc. rw append-nil;
  wide = omega arith;
  back = λ i v e. absurd cc;
}
all_cells t (v ∷ vals) (h, hs) = one_more_cell t v vals h (all_cells t vals hs)

module _ (rec : LogicalType → ℕ → Decode (List Value)) (t : LogicalType) (vals : List Value) where
  scalar_rows :
      (xs : CellsOf t vals) (i : ℕ) (v : Value)
      → get_elem? vals i ≡ some v
      → scalar_cell rec t (length vals) false (validity_mask vals) (physical_width t) xs.bytes i
        ≡ ok v
  unfolding scalar_cell
  scalar_rows xs i v e = elim (Bool-cases (is_null v)) [
    | inl h ↦ rw (valid-validity_mask vals i v e, h) (λ i. ok (null_is v h i))
    | inr h ↦ rw (valid-validity_mask vals i v e, h) (xs.back i v e h)
  ]

  pub scalars-Encodes :
      supported_scalar t ≡ true
      → (physical_width t == 0) ≡ false
      → length vals * physical_width t < 2 ^ 64
      → All (SlotOf t) vals
      → Encodes 1
          (write_scalars t vals)
          (scalar_vector rec t (length vals) false (validity_mask vals))
          vals
  unfolding scalar_vector sized_vector write_scalars require refuse
  scalars-Encodes supported sized small slots =
      let xs = all_cells t vals slots in
      record {
        bytes = id_bytes 102 ++ string_bytes xs.bytes;
        writes =
            λ w. rw (xs.stored [], put_field_bytes-wrote 102 xs.bytes w (omega (arith, xs.wide)));
        reads = λ pre more. rw sized (
            simp append_assoc (
              rw
                (
                  try_field-same 102 pre (uvarint_bytes 9 (length xs.bytes) ++ (xs.bytes ++ more))
                      refl,
                  bytes-at_apart xs.bytes _ more (omega (arith, xs.wide)),
                  le→ltb (length xs.bytes) (length vals * physical_width t)
                      (omega (arith, xs.wide)),
                  supported,
                  rows-at rec t vals
                      (scalar_cell rec t (length vals) false (validity_mask vals) (physical_width t)
                        xs.bytes)
                      _ more (scalar_rows xs),
                )
                (simp append_assoc)));
        long = omega arith;
      }

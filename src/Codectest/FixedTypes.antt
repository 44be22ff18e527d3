-- ===== src/Codectest/FixedTypes.antt =====
-- The types with cells of a fixed width, and their NULL cells.
use duckcall.Base.{
  ℕ, ◌≤◌, ◌≡◌, refl, subst, sym, true, false, List, [], ◌∷◌, ◌⊎◌, inl, inr, some, length, leb, ◌==◌,
  ==→eq, Bool-cases, arith, All,
}
use duckcall.Codec.Types.{
  type_boolean, type_tinyint, type_smallint, type_integer, type_bigint, type_date, type_time,
  type_timestamp_sec, type_timestamp_ms, type_timestamp, type_timestamp_ns, type_float, type_double,
  type_interval, type_utinyint, type_usmallint, type_uinteger, type_ubigint, type_timestamp_tz,
  type_time_tz, type_time_ns, type_uhugeint, type_hugeint, type_uuid, LogicalType, scalar_type,
  Value, null,
}
use duckcall.Codec.Cells.{one_of, physical_width, supported_scalar}
use duckcall.Codec.TypeTree.{enum_index_width}
use duckcall.Codectest.TypeWriter.{decimal_type}
use duckcall.Codectest.CellWriter.{
  le_bytes, cell, other_cell, nz, as_time_tz, as_big, as_uuid, as_interval, as_decimal, as_enum,
  halves, decimal_cell, enum_cell,
}
use duckcall.Codectest.Cells.{length-le_bytes}
use duckcall.Codectest.CellRoundTrip.{IsCell, cell-StoredAs}
use duckcall.Codectest.EnumCells.{enum_type}
use duckcall.Codectest.Scalars.{SlotOf}

-- A type with cells of a fixed width, and the cell of NULL.
pub record IsFixed (t : LogicalType) : Type 0 where
  pub supported : supported_scalar t ≡ true
  pub sized : (physical_width t == 0) ≡ false
  pub narrow : physical_width t ≤ 16
  pub null_slot : SlotOf t null

null_cell :
    (t : LogicalType) (n : ℕ)
    → cell t null ≡ some (le_bytes n 0)
    → physical_width t ≡ n
    → SlotOf t null
null_cell t n stored wide = record {
  bytes = le_bytes n 0;
  stored = stored;
  wide = subst (λ k. length (le_bytes n 0) ≡ k) (sym wide) (length-le_bytes n 0);
  back = λ h. absurd cc;
}

-- A type whose NULL is as many zeros as a cell has bytes.
fixed_width :
    (n : ℕ) (t : LogicalType)
    → supported_scalar t ≡ true
    → (1 ≤ n) × (n ≤ 16)
    → cell t null ≡ some (le_bytes n 0)
    → physical_width t ≡ n
    → IsFixed t
fixed_width n t supported range stored wide = record {
  supported = supported;
  sized = ground (arith, wide);
  narrow = omega (arith, wide, range.1);
  null_slot = null_cell t n stored wide;
}

abbrev fixed_ids : List ℕ
fixed_ids =
    type_boolean ∷ type_tinyint ∷ type_smallint ∷ type_integer ∷ type_bigint ∷ type_date ∷ type_time
    ∷ type_timestamp_sec ∷ type_timestamp_ms ∷ type_timestamp ∷ type_timestamp_ns ∷ type_float
    ∷ type_double ∷ type_utinyint ∷ type_usmallint ∷ type_uinteger ∷ type_ubigint
    ∷ type_timestamp_tz ∷ type_time_tz ∷ type_time_ns ∷ type_hugeint ∷ type_uhugeint ∷ type_uuid
    ∷ type_interval ∷ []

scalars-IsFixed : All (λ id. IsFixed (scalar_type id)) fixed_ids
unfolding cell other_cell physical_width nz as_big as_uuid as_interval as_time_tz supported_scalar
    halves le_bytes
scalars-IsFixed = (
  fixed_width 1 _ refl (omega arith) refl refl,
  (
    fixed_width 1 _ refl (omega arith) refl refl,
    (
      fixed_width 2 _ refl (omega arith) refl refl,
      (
        fixed_width 4 _ refl (omega arith) refl refl,
        (
          fixed_width 8 _ refl (omega arith) refl refl,
          (
            fixed_width 4 _ refl (omega arith) refl refl,
            (
              fixed_width 8 _ refl (omega arith) refl refl,
              (
                fixed_width 8 _ refl (omega arith) refl refl,
                (
                  fixed_width 8 _ refl (omega arith) refl refl,
                  (
                    fixed_width 8 _ refl (omega arith) refl refl,
                    (
                      fixed_width 8 _ refl (omega arith) refl refl,
                      (
                        fixed_width 4 _ refl (omega arith) refl refl,
                        (
                          fixed_width 8 _ refl (omega arith) refl refl,
                          (
                            fixed_width 1 _ refl (omega arith) refl refl,
                            (
                              fixed_width 2 _ refl (omega arith) refl refl,
                              (
                                fixed_width 4 _ refl (omega arith) refl refl,
                                (
                                  fixed_width 8 _ refl (omega arith) refl refl,
                                  (
                                    fixed_width 8 _ refl (omega arith) refl refl,
                                    (
                                      fixed_width 8 _ refl (omega arith) refl refl,
                                      (
                                        fixed_width 8 _ refl (omega arith) refl refl,
                                        (
                                          fixed_width 16 _ refl (omega arith) refl refl,
                                          (
                                            fixed_width 16 _ refl (omega arith) refl refl,
                                            (
                                              fixed_width 16 _ refl (omega arith) refl refl,
                                              (fixed_width 16 _ refl (omega arith) refl refl, tt),
                                            ),
                                          ),
                                        ),
                                      ),
                                    ),
                                  ),
                                ),
                              ),
                            ),
                          ),
                        ),
                      ),
                    ),
                  ),
                ),
              ),
            ),
          ),
        ),
      ),
    ),
  ),
)

All-one_of : (P : ℕ → Type 0) (ids : List ℕ) → All P ids → (id : ℕ) → one_of id ids ≡ true → P id
All-one_of P [] h id e = absurd cc
All-one_of P (x ∷ xs) (h, hs) id e = elim (Bool-cases (id == x)) [
  | inl same ↦ subst P (sym (==→eq id x same)) h
  | inr differs ↦ All-one_of P xs hs id (ground (arith, differs))
]

pub scalar-IsFixed : (id : ℕ) → one_of id fixed_ids ≡ true → IsFixed (scalar_type id)
scalar-IsFixed id h = All-one_of (λ id. IsFixed (scalar_type id)) fixed_ids scalars-IsFixed id h

pub decimal-IsFixed : (width scale : ℕ) → IsFixed (decimal_type width scale)
unfolding cell other_cell physical_width as_decimal decimal_cell decimal_type supported_scalar
    halves le_bytes
decimal-IsFixed width scale = elim (Bool-cases (leb width 4)) [
  | inl a ↦ fixed_width 2 _ refl (omega arith) (rw a) (rw a)
  | inr a ↦ elim (Bool-cases (leb width 9)) [
    | inl b ↦ fixed_width 4 _ refl (omega arith) (rw (a, b)) (rw (a, b))
    | inr b ↦ elim (Bool-cases (leb width 18)) [
      | inl c ↦ fixed_width 8 _ refl (omega arith) (rw (a, b, c)) (rw (a, b, c))
      | inr c ↦ fixed_width 16 _ refl (omega arith) (rw (a, b, c)) (rw (a, b, c))
    ]
  ]
]

pub enum-IsFixed : (dict : List (List ℕ)) → IsFixed (enum_type dict)
unfolding cell other_cell physical_width as_enum enum_cell enum_index_width supported_scalar
enum-IsFixed dict = elim (Bool-cases (leb (length dict) 255)) [
  | inl a ↦ fixed_width 1 _ refl (omega arith) (rw a) (rw a)
  | inr a ↦ elim (Bool-cases (leb (length dict) 65535)) [
    | inl b ↦ fixed_width 2 _ refl (omega arith) (rw (a, b)) (rw (a, b))
    | inr b ↦ fixed_width 4 _ refl (omega arith) (rw (a, b)) (rw (a, b))
  ]
]

-- A NULL or a value of the type.
abbrev pub IsSlot : LogicalType → Value → Type 0
IsSlot t v = (v ≡ null) ⊎ IsCell t v

slot-SlotOf : (t : LogicalType) (v : Value) → IsFixed t → IsSlot t v → SlotOf t v
slot-SlotOf t v fixed (inl h) = subst (SlotOf t) (sym h) fixed.null_slot
slot-SlotOf t v fixed (inr is) =
    let s = cell-StoredAs t v is in
    record { bytes = s.bytes; stored = s.stored; wide = s.wide; back = λ h. s.back }

pub slots-SlotOf :
    (t : LogicalType) (vals : List Value) → IsFixed t → All (IsSlot t) vals → All (SlotOf t) vals
slots-SlotOf t [] fixed h = tt
slots-SlotOf t (v ∷ vals) fixed (h, hs) = (slot-SlotOf t v fixed h, slots-SlotOf t vals fixed hs)

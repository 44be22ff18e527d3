-- ===== src/Codectest/CellRoundTrip.antt =====
-- appendCell of codec/codectest/codectest.go against decodeCell of codec/chunk.go.
use duckcall.Base.{
  ℕ, ◌-◌, ◌^◌, ◌≤◌, ◌<◌, ◌≡◌, refl, Bool, true, false, List, ◌++◌, some, length, get_elem?, ◌⊎◌,
  not, ◌==◌, arith,
}
use duckcall.Codec.Types.{
  type_boolean, type_tinyint, type_smallint, type_integer, type_bigint, type_date, type_time,
  type_timestamp_sec, type_timestamp_ms, type_timestamp, type_timestamp_ns, type_float, type_double,
  type_interval, type_utinyint, type_usmallint, type_uinteger, type_ubigint, type_timestamp_tz,
  type_time_tz, type_time_ns, type_uhugeint, type_hugeint, type_uuid, LogicalType, scalar_type,
  Value, boolean, int8, int16, int32, int64, uint8, uint16, uint32, uint64, float32, float64, time,
  time_ns, decimal, big_int, instant, time_tz, interval, uuid, text,
}
use duckcall.Codec.Cells.{
  widen, decode_cell, decode_other_cell, physical_width, date_value, timestamp_value, int128_big,
  uint128_big, big_endian,
}
use duckcall.Codectest.TypeWriter.{decimal_type}
use duckcall.Codectest.CellWriter.{
  cell, other_cell, nz, as_bool, as_int8, as_uint8, as_int16, as_uint16, as_int32, as_uint32,
  as_int64, as_uint64, as_float32, as_float64, as_time, as_time_ns, as_ticks, timestamp_unit,
}
use duckcall.Codectest.Cells.{StoredAs, number-StoredAs}
use duckcall.Codectest.CellKinds.{
  seconds_back, millis_back, micros_back, nanos_back, date-StoredAs, timestamp-StoredAs,
  hugeint-StoredAs, uhugeint-StoredAs, interval-StoredAs, time_tz-StoredAs,
}
use duckcall.Codectest.EnumCells.{enum_type, enum-StoredAs}
use duckcall.Codectest.UuidCells.{uuid-StoredAs}
use duckcall.Codectest.DecimalCells.{
  wide_decimal-StoredAs, decimal_16-StoredAs, decimal_32-StoredAs, decimal_64-StoredAs, sign_word,
}

-- A value of a type that has fixed-width cells, in range.
pub data IsCell : LogicalType → Value → Type 0 where
  is_boolean : (b : Bool) → IsCell (scalar_type type_boolean) (boolean b)
  is_int8 : (n : ℕ) → n < 2 ^ 8 → IsCell (scalar_type type_tinyint) (int8 n)
  is_uint8 : (n : ℕ) → n < 2 ^ 8 → IsCell (scalar_type type_utinyint) (uint8 n)
  is_int16 : (n : ℕ) → n < 2 ^ 16 → IsCell (scalar_type type_smallint) (int16 n)
  is_uint16 : (n : ℕ) → n < 2 ^ 16 → IsCell (scalar_type type_usmallint) (uint16 n)
  is_int32 : (n : ℕ) → n < 2 ^ 32 → IsCell (scalar_type type_integer) (int32 n)
  is_uint32 : (n : ℕ) → n < 2 ^ 32 → IsCell (scalar_type type_uinteger) (uint32 n)
  is_int64 : (n : ℕ) → n < 2 ^ 64 → IsCell (scalar_type type_bigint) (int64 n)
  is_uint64 : (n : ℕ) → n < 2 ^ 64 → IsCell (scalar_type type_ubigint) (uint64 n)
  is_float32 : (n : ℕ) → n < 2 ^ 32 → IsCell (scalar_type type_float) (float32 n)
  is_float64 : (n : ℕ) → n < 2 ^ 64 → IsCell (scalar_type type_double) (float64 n)
  is_time : (n : ℕ) → n < 2 ^ 64 → IsCell (scalar_type type_time) (time n)
  is_time_ns : (n : ℕ) → n < 2 ^ 64 → IsCell (scalar_type type_time_ns) (time_ns n)
  is_date : (days : ℕ) → days < 2 ^ 32 → IsCell (scalar_type type_date) (date_value days)
  is_seconds : (n : ℕ) → n < 2 ^ 64 → IsCell (scalar_type type_timestamp_sec) (instant n 1)
  is_millis : (n : ℕ) → n < 2 ^ 64 → IsCell (scalar_type type_timestamp_ms) (instant n 1000)
  is_micros : (n : ℕ) → n < 2 ^ 64 → IsCell (scalar_type type_timestamp) (instant n 1_000_000)
  is_zoned : (n : ℕ) → n < 2 ^ 64 → IsCell (scalar_type type_timestamp_tz) (instant n 1_000_000)
  is_nanos : (n : ℕ) → n < 2 ^ 64 → IsCell (scalar_type type_timestamp_ns) (instant n 1_000_000_000)
  is_hugeint :
      (hi lo : ℕ)
      → hi < 2 ^ 64
      → lo < 2 ^ 64
      → IsCell (scalar_type type_hugeint) (big_int (int128_big hi lo))
  is_uhugeint :
      (hi lo : ℕ)
      → hi < 2 ^ 64
      → lo < 2 ^ 64
      → IsCell (scalar_type type_uhugeint) (big_int (uint128_big hi lo))
  is_decimal_16 :
      (width scale n : ℕ)
      → width ≤ 4
      → n < 2 ^ 16
      → IsCell
          (decimal_type width scale)
          (decimal width scale (sign_word (widen 16 n)) (widen 16 n))
  is_decimal_32 :
      (width scale n : ℕ)
      → 4 < width
      → width ≤ 9
      → n < 2 ^ 32
      → IsCell
          (decimal_type width scale)
          (decimal width scale (sign_word (widen 32 n)) (widen 32 n))
  is_decimal_64 :
      (width scale n : ℕ)
      → 9 < width
      → width ≤ 18
      → n < 2 ^ 64
      → IsCell (decimal_type width scale) (decimal width scale (sign_word n) n)
  is_decimal_128 :
      (width scale hi lo : ℕ)
      → 18 < width
      → hi < 2 ^ 64
      → lo < 2 ^ 64
      → IsCell (decimal_type width scale) (decimal width scale hi lo)
  is_interval :
      (months days micros : ℕ)
      → months < 2 ^ 32
      → days < 2 ^ 32
      → micros < 2 ^ 64
      → IsCell (scalar_type type_interval) (interval months days micros)
  -- At most 15:59:59 on either side of UTC.
  is_time_tz :
      (micros offset : ℕ)
      → micros < 2 ^ 40
      → offset < 2 ^ 32
      → (offset ≤ 57599) ⊎ (2 ^ 32 - 57599 ≤ offset)
      → IsCell (scalar_type type_time_tz) (time_tz micros offset)
  is_enum :
      (dict : List (List ℕ)) (i : ℕ) (s : List ℕ)
      → length dict ≤ 2 ^ 32
      → get_elem? dict i ≡ some s
      → IsCell (enum_type dict) (text s)
  is_uuid :
      (hi lo : ℕ)
      → hi < 2 ^ 64
      → lo < 2 ^ 64
      → IsCell (scalar_type type_uuid) (uuid (big_endian 8 hi ++ big_endian 8 lo))

pub cell-StoredAs : (t : LogicalType) (v : Value) → IsCell t v → StoredAs t v
unfolding cell other_cell decode_cell decode_other_cell physical_width nz as_bool as_int8 as_uint8
    as_int16 as_uint16 as_int32 as_uint32 as_int64 as_uint64 as_float32 as_float64 as_time
    as_time_ns as_ticks timestamp_unit timestamp_value
cell-StoredAs _ _ (is_boolean true) =
    number-StoredAs _ _ 1 1 (λ n. boolean (not (n == 0))) (omega arith) refl refl refl refl
cell-StoredAs _ _ (is_boolean false) =
    number-StoredAs _ _ 1 0 (λ n. boolean (not (n == 0))) (omega arith) refl refl refl refl
cell-StoredAs _ _ (is_int8 n h) = number-StoredAs _ _ 1 n int8 h refl refl refl refl
cell-StoredAs _ _ (is_uint8 n h) = number-StoredAs _ _ 1 n uint8 h refl refl refl refl
cell-StoredAs _ _ (is_int16 n h) = number-StoredAs _ _ 2 n int16 h refl refl refl refl
cell-StoredAs _ _ (is_uint16 n h) = number-StoredAs _ _ 2 n uint16 h refl refl refl refl
cell-StoredAs _ _ (is_int32 n h) = number-StoredAs _ _ 4 n int32 h refl refl refl refl
cell-StoredAs _ _ (is_uint32 n h) = number-StoredAs _ _ 4 n uint32 h refl refl refl refl
cell-StoredAs _ _ (is_int64 n h) = number-StoredAs _ _ 8 n int64 h refl refl refl refl
cell-StoredAs _ _ (is_uint64 n h) = number-StoredAs _ _ 8 n uint64 h refl refl refl refl
cell-StoredAs _ _ (is_float32 n h) = number-StoredAs _ _ 4 n float32 h refl refl refl refl
cell-StoredAs _ _ (is_float64 n h) = number-StoredAs _ _ 8 n float64 h refl refl refl refl
cell-StoredAs _ _ (is_time n h) = number-StoredAs _ _ 8 n time h refl refl refl refl
cell-StoredAs _ _ (is_time_ns n h) = number-StoredAs _ _ 8 n time_ns h refl refl refl refl
cell-StoredAs _ _ (is_date days h) = date-StoredAs days h
cell-StoredAs _ _ (is_seconds n h) =
    timestamp-StoredAs type_timestamp_sec 1 n h (seconds_back n h) refl refl (λ c. refl)
cell-StoredAs _ _ (is_millis n h) =
    timestamp-StoredAs type_timestamp_ms 1000 n h (millis_back n h) refl refl (λ c. refl)
cell-StoredAs _ _ (is_micros n h) =
    timestamp-StoredAs type_timestamp 1_000_000 n h (micros_back n h) refl refl (λ c. refl)
cell-StoredAs _ _ (is_zoned n h) =
    timestamp-StoredAs type_timestamp_tz 1_000_000 n h (micros_back n h) refl refl (λ c. refl)
cell-StoredAs _ _ (is_nanos n h) =
    timestamp-StoredAs type_timestamp_ns 1_000_000_000 n h (nanos_back n h) refl refl (λ c. refl)
cell-StoredAs _ _ (is_hugeint hi lo hh hl) = hugeint-StoredAs hi lo hh hl
cell-StoredAs _ _ (is_uhugeint hi lo hh hl) = uhugeint-StoredAs hi lo hh hl
cell-StoredAs _ _ (is_decimal_16 width scale n small h) = decimal_16-StoredAs width scale n small h
cell-StoredAs _ _ (is_decimal_32 width scale n big small h) =
    decimal_32-StoredAs width scale n big small h
cell-StoredAs _ _ (is_decimal_64 width scale n big small h) =
    decimal_64-StoredAs width scale n big small h
cell-StoredAs _ _ (is_decimal_128 width scale hi lo wide hh hl) =
    wide_decimal-StoredAs width scale hi lo wide hh hl
cell-StoredAs _ _ (is_interval months days micros hm hd hu) =
    interval-StoredAs months days micros hm hd hu
cell-StoredAs _ _ (is_time_tz micros offset hm ho near) = time_tz-StoredAs micros offset hm ho near
cell-StoredAs _ _ (is_enum dict i s h found) = enum-StoredAs dict i s h found
cell-StoredAs _ _ (is_uuid hi lo hh hl) = uuid-StoredAs hi lo hh hl

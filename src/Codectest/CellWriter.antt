-- ===== src/Codectest/CellWriter.antt =====
-- appendCell of codec/codectest/codectest.go and its helpers. A cell of a Go type that the column's
-- type does not have is a failed type assertion, which panics.
use duckcall.Base.{
  ℕ, zero, suc, ◌+◌, ◌-◌, ◌*◌, ◌/◌, ◌%◌, ◌^◌, List, [], ◌∷◌, ◌++◌, Option, none, some, ltb, leb,
  ◌==◌, bytes_eq, if◌then◌else◌, length, drop, take, bit_xor,
}
use duckcall.Codec.Types.{
  type_boolean, type_tinyint, type_smallint, type_integer, type_bigint, type_date, type_time,
  type_timestamp_sec, type_timestamp_ms, type_timestamp, type_timestamp_ns, type_decimal,
  type_float, type_double, type_interval, type_utinyint, type_usmallint, type_uinteger,
  type_ubigint, type_timestamp_tz, type_time_tz, type_time_ns, type_uhugeint, type_hugeint,
  type_uuid, type_enum, id_of, width_of, enum_of, LogicalType, Value, null, boolean, int8, int16,
  int32, int64, uint8, uint16, uint32, uint64, float32, float64, time, time_ns, decimal, big_int,
  instant, time_tz, interval, uuid, text,
}
use duckcall.Codec.Cells.{one_of, int128_big, time_tz_max_offset}
use duckcall.Codec.Int128.{int128parts}
use duckcall.Codectest.Write.{on_some}

-- `binary.LittleEndian.AppendUint…`: the low n bytes of a number, lowest first.
unfoldable pub le_bytes : ℕ → ℕ → List ℕ
le_bytes zero v = []
le_bytes (suc n) v = v % 256 ∷ le_bytes n (v / 256)

-- `binary.BigEndian.Uint64`
unfoldable pub be_word : ℕ → List ℕ → ℕ
be_word acc [] = acc
be_word acc (b ∷ bs) = be_word (acc * 256 + b) bs

-- The type assertions.
unfoldable pub as_bool : Value → Option ℕ
as_bool (boolean b) = some (if b then 1 else 0)
as_bool _ = none

unfoldable pub as_int8 : Value → Option ℕ
as_int8 (int8 n) = some n
as_int8 _ = none

unfoldable pub as_uint8 : Value → Option ℕ
as_uint8 (uint8 n) = some n
as_uint8 _ = none

unfoldable pub as_int16 : Value → Option ℕ
as_int16 (int16 n) = some n
as_int16 _ = none

unfoldable pub as_uint16 : Value → Option ℕ
as_uint16 (uint16 n) = some n
as_uint16 _ = none

unfoldable pub as_int32 : Value → Option ℕ
as_int32 (int32 n) = some n
as_int32 _ = none

unfoldable pub as_uint32 : Value → Option ℕ
as_uint32 (uint32 n) = some n
as_uint32 _ = none

unfoldable pub as_int64 : Value → Option ℕ
as_int64 (int64 n) = some n
as_int64 _ = none

unfoldable pub as_uint64 : Value → Option ℕ
as_uint64 (uint64 n) = some n
as_uint64 _ = none

unfoldable pub as_float32 : Value → Option ℕ
as_float32 (float32 n) = some n
as_float32 _ = none

unfoldable pub as_float64 : Value → Option ℕ
as_float64 (float64 n) = some n
as_float64 _ = none

unfoldable pub as_time : Value → Option ℕ
as_time (time n) = some n
as_time _ = none

unfoldable pub as_time_ns : Value → Option ℕ
as_time_ns (time_ns n) = some n
as_time_ns _ = none

-- A time.Time in units of 1/k seconds, rounded down: `Unix`, `UnixMilli`, `UnixMicro`, `UnixNano`.
unfoldable pub unix_ticks : ℕ → ℕ → ℕ → ℕ
unix_ticks k v p =
    if ltb v (2 ^ 63)
    then v * k / p % 2 ^ 64
    else (2 ^ 64 - ((2 ^ 64 - v) * k + (p - 1)) / p % 2 ^ 64) % 2 ^ 64

unfoldable pub as_ticks : ℕ → Value → Option ℕ
as_ticks k (instant v p) = some (unix_ticks k v p)
as_ticks k _ = none

-- Go's `/` on int64 rounds towards 0.
unfoldable pub days_of : ℕ → ℕ
days_of s = if ltb s (2 ^ 63) then s / 86400 else (2 ^ 64 - (2 ^ 64 - s) / 86400) % 2 ^ 64

unfoldable pub as_days : Value → Option ℕ
as_days (instant v p) = some (days_of (unix_ticks 1 v p))
as_days _ = none

-- The value, or the zero value for NULL.
unfoldable pub nz : (Value → Option ℕ) → Value → Option ℕ
nz assert null = some 0
nz assert v = assert v

unfoldable pub as_decimal : Value → Option (ℕ × ℕ)
as_decimal null = some (0, 0)
as_decimal (decimal w s hi lo) = some (int128parts (int128_big hi lo))
as_decimal _ = none

unfoldable pub as_big : Value → Option (ℕ × ℕ)
as_big null = some (0, 0)
as_big (big_int z) = some (int128parts z)
as_big _ = none

unfoldable pub as_uuid : Value → Option (ℕ × ℕ)
as_uuid null = some (0, 0)
as_uuid (uuid u) = some (bit_xor (be_word 0 (take 8 u)) (2 ^ 63), be_word 0 (drop 8 u))
as_uuid _ = none

-- The two halves of 128 bits, low first.
unfoldable pub halves : ℕ × ℕ → List ℕ
halves (hi, lo) = le_bytes 8 lo ++ le_bytes 8 hi

unfoldable pub as_interval : Value → Option (List ℕ)
as_interval null = some (le_bytes 4 0 ++ (le_bytes 4 0 ++ le_bytes 8 0))
as_interval (interval months days micros) =
    some (le_bytes 4 months ++ (le_bytes 4 days ++ le_bytes 8 micros))
as_interval _ = none

-- The parts around `|` share no bit, so it adds them.
unfoldable pub as_time_tz : Value → Option ℕ
as_time_tz null = some 0
as_time_tz (time_tz micros offset) =
    some (micros * 2 ^ 24 % 2 ^ 64 + (time_tz_max_offset + 2 ^ 32 - offset) % 2 ^ 32 % 2 ^ 24)
as_time_tz _ = none

-- The first place of a string in an enum's dictionary.
unfoldable pub enum_position : List ℕ → List (List ℕ) → Option ℕ
enum_position s [] = none
enum_position s (e ∷ es) =
    let later = enum_position s es in
    if bytes_eq e s then some 0 else on_some later (λ i. some (suc i))

unfoldable pub as_enum : List (List ℕ) → Value → Option ℕ
as_enum dict null = some 0
as_enum dict (text s) = enum_position s dict
as_enum dict _ = none

abbrev pub fixed : ℕ → Option ℕ → Option (List ℕ)
fixed n x = on_some x (λ v. some (le_bytes n v))

unfoldable pub decimal_cell : LogicalType → Value → Option (List ℕ)
decimal_cell t v = on_some (as_decimal v) λ (hi, lo).
    if leb (width_of t) 4
    then some (le_bytes 2 lo)
    else if leb (width_of t) 9
    then some (le_bytes 4 lo)
    else if leb (width_of t) 18
    then some (le_bytes 8 lo)
    else some (halves (hi, lo))

unfoldable pub enum_cell : List (List ℕ) → Value → Option (List ℕ)
enum_cell dict v =
    if leb (length dict) 255
    then fixed 1 (as_enum dict v)
    else if leb (length dict) 65535
    then fixed 2 (as_enum dict v)
    else fixed 4 (as_enum dict v)

-- The units of a timestamp in a second.
unfoldable pub timestamp_unit : ℕ → ℕ
timestamp_unit id =
    if id == type_timestamp_sec
    then 1
    else if id == type_timestamp_ms
    then 1000
    else if id == type_timestamp_ns
    then 1_000_000_000
    else 1_000_000

-- The types that are neither integers nor floats.
unfoldable pub other_cell : LogicalType → Value → Option (List ℕ)
other_cell t v =
    let id = id_of t in
    if id == type_date
    then fixed 4 (nz as_days v)
    else if id == type_time
    then fixed 8 (nz as_time v)
    else if one_of id (
        type_timestamp_sec ∷ type_timestamp_ms ∷ type_timestamp ∷ type_timestamp_ns
        ∷ type_timestamp_tz ∷ [])
    then fixed 8 (nz (as_ticks (timestamp_unit id)) v)
    else if id == type_decimal
    then decimal_cell t v
    else if one_of id (type_hugeint ∷ type_uhugeint ∷ [])
    then on_some (as_big v) (λ p. some (halves p))
    else if id == type_uuid
    then on_some (as_uuid v) (λ p. some (halves p))
    else if id == type_interval
    then as_interval v
    else if id == type_time_tz
    then fixed 8 (as_time_tz v)
    else if id == type_time_ns
    then fixed 8 (nz as_time_ns v)
    else if id == type_enum
    then enum_cell (enum_of t) v
    else none

unfoldable pub cell : LogicalType → Value → Option (List ℕ)
cell t v =
    let id = id_of t in
    if id == type_boolean
    then fixed 1 (nz as_bool v)
    else if id == type_tinyint
    then fixed 1 (nz as_int8 v)
    else if id == type_utinyint
    then fixed 1 (nz as_uint8 v)
    else if id == type_smallint
    then fixed 2 (nz as_int16 v)
    else if id == type_usmallint
    then fixed 2 (nz as_uint16 v)
    else if id == type_integer
    then fixed 4 (nz as_int32 v)
    else if id == type_uinteger
    then fixed 4 (nz as_uint32 v)
    else if id == type_bigint
    then fixed 8 (nz as_int64 v)
    else if id == type_ubigint
    then fixed 8 (nz as_uint64 v)
    else if id == type_float
    then fixed 4 (nz as_float32 v)
    else if id == type_double
    then fixed 8 (nz as_float64 v)
    else other_cell t v

unfoldable pub append_cell : List ℕ → LogicalType → Value → Option (List ℕ)
append_cell cells t v = on_some (cell t v) λ c. some (cells ++ c)

-- ===== src/Codec/Cells.antt =====
-- Single cells: decodeCell and its helpers of codec/chunk.go, and the conversions of codec/values.go.
use duckcall.Base.{
  ℕ, zero, suc, ◌+◌, ◌-◌, ◌*◌, ◌/◌, ◌%◌, ◌^◌, Bool, true, false, not, ◌||◌, List, [], ◌∷◌, ◌++◌,
  Option, none, some, Result, ok, err, ltb, leb, ◌==◌, if◌then◌else◌, length, drop, take, get_elem?,
  bit_and, bit_xor,
}
use duckcall.Codec.Types.{
  type_boolean, type_tinyint, type_smallint, type_integer, type_bigint, type_date, type_time,
  type_timestamp_sec, type_timestamp_ms, type_timestamp, type_timestamp_ns, type_decimal,
  type_float, type_double, type_interval, type_utinyint, type_usmallint, type_uinteger,
  type_ubigint, type_timestamp_tz, type_time_tz, type_time_ns, type_uhugeint, type_hugeint,
  type_uuid, type_enum, id_of, width_of, scale_of, enum_of, LogicalType, CodecError, unsupported,
  bad_bit_value, enum_index, non_integer_sequence, ℤ, pos, negsuc, Value, boolean, int8, int16,
  int32, int64, uint8, uint16, uint32, uint64, float32, float64, time, time_ns, decimal, big_int,
  instant, time_tz, interval, uuid, text,
}
use duckcall.Codec.TypeTree.{enum_index_width}

-- `case a, b, c:`
abbrev pub one_of : ℕ → List ℕ → Bool
one_of id [] = false
one_of id (x ∷ xs) = (id == x) || one_of id xs

-- The bytes of a little-endian number, and `binary.LittleEndian.Uint16` and so on of a longer slice.
unfoldable pub little_endian : List ℕ → ℕ
little_endian [] = 0
little_endian (b ∷ bs) = b + 256 * little_endian bs

abbrev pub word : ℕ → List ℕ → ℕ
word n cell = little_endian (take n cell)

-- `binary.BigEndian.PutUint64`: the low n bytes of a number, highest first.
unfoldable pub big_endian : ℕ → ℕ → List ℕ
big_endian zero v = []
big_endian (suc n) v = big_endian n (v / 256) ++ (v % 256 ∷ [])

-- `int64(v)` of a signed w-bit pattern.
abbrev pub widen : ℕ → ℕ → ℕ
widen w v = if ltb v (2 ^ (w - 1)) then v else v + (2 ^ 64 - 2 ^ w)

unfoldable pub int128_big : ℕ → ℕ → ℤ
int128_big hi lo =
    if ltb hi (2 ^ 63) then pos (lo + hi * 2 ^ 64) else negsuc (2 ^ 128 - (lo + hi * 2 ^ 64) - 1)

unfoldable pub uint128_big : ℕ → ℕ → ℤ
uint128_big hi lo = pos (lo + hi * 2 ^ 64)

unfoldable pub date_value : ℕ → Value
date_value days = instant (widen 32 days * 86400 % 2 ^ 64) 1

unfoldable pub timestamp_value : ℕ → ℕ → Value
timestamp_value id v =
    if id == type_timestamp_sec
    then instant v 1
    else if id == type_timestamp_ms
    then instant v 1000
    else if id == type_timestamp_ns
    then instant v 1_000_000_000
    else instant v 1_000_000

unfoldable pub decode_decimal_cell : LogicalType → List ℕ → Value
decode_decimal_cell t cell =
    if length cell == 2
    then narrow (widen 16 (word 2 cell))
    else if length cell == 4
    then narrow (widen 32 (word 4 cell))
    else if length cell == 8
    then narrow (word 8 cell)
    else decimal (width_of t) (scale_of t) (word 8 (drop 8 cell)) (word 8 cell)
  where
    -- `newDecimal(…, v>>63, uint64(v))`
    narrow : ℕ → Value
    narrow v = decimal (width_of t) (scale_of t) (if ltb v (2 ^ 63) then 0 else 2 ^ 64 - 1) v

abbrev pub time_tz_max_offset : ℕ
time_tz_max_offset = 16 * 60 * 60 - 1

unfoldable pub enum_value : LogicalType → List ℕ → Result CodecError Value
enum_value t cell = elim (get_elem? (enum_of t) idx) [
  | some s ↦ ok (text s)
  | none ↦ err (enum_index idx (length (enum_of t)))
]
  where
    idx : ℕ
    idx =
        if length cell == 1
        then word 1 cell
        else if length cell == 2
        then word 2 cell
        else word 4 cell

-- The types that are neither integers nor floats.
unfoldable pub decode_other_cell : LogicalType → List ℕ → Result CodecError Value
decode_other_cell t cell =
    let id = id_of t in
    if id == type_date
    then ok (date_value (word 4 cell))
    else if id == type_time
    then ok (time (word 8 cell))
    else if one_of id (
        type_timestamp_sec ∷ type_timestamp_ms ∷ type_timestamp ∷ type_timestamp_ns
        ∷ type_timestamp_tz ∷ [])
    then ok (timestamp_value id (word 8 cell))
    else if id == type_decimal
    then ok (decode_decimal_cell t cell)
    else if id == type_hugeint
    then ok (big_int (int128_big (word 8 (drop 8 cell)) (word 8 cell)))
    else if id == type_uhugeint
    then ok (big_int (uint128_big (word 8 (drop 8 cell)) (word 8 cell)))
    else if id == type_uuid
    then ok (
        uuid (big_endian 8 (bit_xor (word 8 (drop 8 cell)) (2 ^ 63)) ++ big_endian 8 (word 8 cell)))
    else if id == type_interval
    then ok (interval (word 4 cell) (word 4 (drop 4 cell)) (word 8 (drop 8 cell)))
    else if id == type_time_tz
    then ok (
        time_tz (word 8 cell / 2 ^ 24)
          ((time_tz_max_offset + 2 ^ 32 - word 8 cell % 2 ^ 24) % 2 ^ 32))
    else if id == type_time_ns
    then ok (time_ns (word 8 cell))
    else if id == type_enum
    then enum_value t cell
    else err (unsupported t)

unfoldable pub decode_cell : LogicalType → List ℕ → Result CodecError Value
decode_cell t cell =
    let id = id_of t in
    if id == type_boolean
    then ok (boolean (not (word 1 cell == 0)))
    else if id == type_tinyint
    then ok (int8 (word 1 cell))
    else if id == type_utinyint
    then ok (uint8 (word 1 cell))
    else if id == type_smallint
    then ok (int16 (word 2 cell))
    else if id == type_usmallint
    then ok (uint16 (word 2 cell))
    else if id == type_integer
    then ok (int32 (word 4 cell))
    else if id == type_uinteger
    then ok (uint32 (word 4 cell))
    else if id == type_bigint
    then ok (int64 (word 8 cell))
    else if id == type_ubigint
    then ok (uint64 (word 8 cell))
    else if id == type_float
    then ok (float32 (word 4 cell))
    else if id == type_double
    then ok (float64 (word 8 cell))
    else decode_other_cell t cell

unfoldable pub physical_width : LogicalType → ℕ
physical_width t =
    let id = id_of t in
    if one_of id (type_boolean ∷ type_tinyint ∷ type_utinyint ∷ [])
    then 1
    else if one_of id (type_smallint ∷ type_usmallint ∷ [])
    then 2
    else if one_of id (type_integer ∷ type_uinteger ∷ type_float ∷ type_date ∷ [])
    then 4
    else if one_of id (
        type_bigint ∷ type_ubigint ∷ type_double ∷ type_time ∷ type_time_tz ∷ type_time_ns
        ∷ type_timestamp_sec ∷ type_timestamp_ms ∷ type_timestamp ∷ type_timestamp_ns
        ∷ type_timestamp_tz ∷ [])
    then 8
    else if one_of id (type_interval ∷ type_hugeint ∷ type_uhugeint ∷ type_uuid ∷ [])
    then 16
    else if id == type_decimal
    then (if leb (width_of t) 4
        then 2
        else if leb (width_of t) 9
        then 4
        else if leb (width_of t) 18
        then 8
        else 16)
    else if id == type_enum
    then enum_index_width (length (enum_of t))
    else 0

unfoldable pub supported_scalar : LogicalType → Bool
supported_scalar t = one_of (id_of t) (
    type_boolean ∷ type_tinyint ∷ type_utinyint ∷ type_smallint ∷ type_usmallint ∷ type_integer
    ∷ type_uinteger ∷ type_bigint ∷ type_ubigint ∷ type_float ∷ type_double ∷ type_decimal
    ∷ type_date ∷ type_time ∷ type_timestamp_sec ∷ type_timestamp_ms ∷ type_timestamp
    ∷ type_timestamp_ns ∷ type_timestamp_tz ∷ type_enum ∷ type_hugeint ∷ type_uhugeint ∷ type_uuid
    ∷ type_interval ∷ type_time_tz ∷ type_time_ns ∷ [])

-- The digits of a byte from the bit `8 - left` on, highest first.
unfoldable pub byte_bits : ℕ → ℕ → List ℕ
byte_bits zero b = []
byte_bits (suc left) b = (b'0' + b / 2 ^ left % 2) ∷ byte_bits left b

unfoldable pub all_bits : List ℕ → List ℕ
all_bits [] = []
all_bits (b ∷ bs) = byte_bits 8 b ++ all_bits bs

unfoldable pub bit_string : List ℕ → Result CodecError (List ℕ)
bit_string [] = err bad_bit_value
bit_string (padding ∷ []) = if padding == 0 then ok [] else err bad_bit_value
bit_string (padding ∷ b ∷ bs) =
    if ltb 7 padding then err bad_bit_value else ok (byte_bits (8 - padding) b ++ all_bits bs)

-- `valid`; a nil mask is `none`.
unfoldable pub valid : Option (List ℕ) → ℕ → Bool
valid none row = true
valid (some mask) row = elim (get_elem? mask (row / 8)) [
  | none ↦ false
  | some b ↦ not (bit_and b (2 ^ (row % 8)) == 0)
]

-- One element of a sequence vector, which only integer types have.
unfoldable pub sequence_value : ℕ → ℕ → Result CodecError Value
sequence_value id v =
    if id == type_tinyint
    then ok (int8 (v % 2 ^ 8))
    else if id == type_smallint
    then ok (int16 (v % 2 ^ 16))
    else if id == type_integer
    then ok (int32 (v % 2 ^ 32))
    else if id == type_bigint
    then ok (int64 v)
    else if id == type_utinyint
    then ok (uint8 (v % 2 ^ 8))
    else if id == type_usmallint
    then ok (uint16 (v % 2 ^ 16))
    else if id == type_uinteger
    then ok (uint32 (v % 2 ^ 32))
    else if id == type_ubigint
    then ok (uint64 v)
    else err (non_integer_sequence id)

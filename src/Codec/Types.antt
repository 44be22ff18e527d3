-- ===== src/Codec/Types.antt =====
-- The data of codec/logicaltype.go, codec/values.go and codec/errors.go.
use duckcall.Base.{ℕ, suc, Bool, List, []}
use duckcall.Qser.Reader.{Error}
pub use duckcall.Base.Int.{ℤ, pos, negsuc}

-- TypeID.
abbrev pub type_sql_null : ℕ
type_sql_null = 1

abbrev pub type_boolean : ℕ
type_boolean = 10

abbrev pub type_tinyint : ℕ
type_tinyint = 11

abbrev pub type_smallint : ℕ
type_smallint = 12

abbrev pub type_integer : ℕ
type_integer = 13

abbrev pub type_bigint : ℕ
type_bigint = 14

abbrev pub type_date : ℕ
type_date = 15

abbrev pub type_time : ℕ
type_time = 16

abbrev pub type_timestamp_sec : ℕ
type_timestamp_sec = 17

abbrev pub type_timestamp_ms : ℕ
type_timestamp_ms = 18

abbrev pub type_timestamp : ℕ
type_timestamp = 19

abbrev pub type_timestamp_ns : ℕ
type_timestamp_ns = 20

abbrev pub type_decimal : ℕ
type_decimal = 21

abbrev pub type_float : ℕ
type_float = 22

abbrev pub type_double : ℕ
type_double = 23

abbrev pub type_varchar : ℕ
type_varchar = 25

abbrev pub type_blob : ℕ
type_blob = 26

abbrev pub type_interval : ℕ
type_interval = 27

abbrev pub type_utinyint : ℕ
type_utinyint = 28

abbrev pub type_usmallint : ℕ
type_usmallint = 29

abbrev pub type_uinteger : ℕ
type_uinteger = 30

abbrev pub type_ubigint : ℕ
type_ubigint = 31

abbrev pub type_timestamp_tz : ℕ
type_timestamp_tz = 32

abbrev pub type_time_tz : ℕ
type_time_tz = 34

abbrev pub type_time_ns : ℕ
type_time_ns = 35

abbrev pub type_bit : ℕ
type_bit = 36

abbrev pub type_uhugeint : ℕ
type_uhugeint = 49

abbrev pub type_hugeint : ℕ
type_hugeint = 50

abbrev pub type_uuid : ℕ
type_uuid = 54

abbrev pub type_geometry : ℕ
type_geometry = 60

abbrev pub type_struct : ℕ
type_struct = 100

abbrev pub type_list : ℕ
type_list = 101

abbrev pub type_map : ℕ
type_map = 102

abbrev pub type_enum : ℕ
type_enum = 104

abbrev pub type_union : ℕ
type_union = 107

abbrev pub type_array : ℕ
type_array = 108

abbrev pub type_variant : ℕ
type_variant = 109

-- LogicalType: id, width, scale, child, fields, enum dictionary and array size. A nil child is
-- `no_child`, and the fields are a list of name and type.
mutual
  pub data LogicalType : Type 0 where
    logical_type : ℕ → ℕ → ℕ → Child → Fields → List (List ℕ) → ℕ → LogicalType

  pub data Child : Type 0 where
    no_child : Child
    child : LogicalType → Child

  pub data Fields : Type 0 where
    no_fields : Fields
    field : List ℕ → LogicalType → Fields → Fields

abbrev pub id_of : LogicalType → ℕ
id_of (logical_type id w s c f e n) = id

abbrev pub width_of : LogicalType → ℕ
width_of (logical_type id w s c f e n) = w

abbrev pub scale_of : LogicalType → ℕ
scale_of (logical_type id w s c f e n) = s

abbrev pub child_of : LogicalType → Child
child_of (logical_type id w s c f e n) = c

abbrev pub fields_of : LogicalType → Fields
fields_of (logical_type id w s c f e n) = f

abbrev pub enum_of : LogicalType → List (List ℕ)
enum_of (logical_type id w s c f e n) = e

abbrev pub count_fields : Fields → ℕ
count_fields no_fields = 0
count_fields (field name t fs) = suc (count_fields fs)

-- `LogicalType{ID: id}`
abbrev pub scalar_type : ℕ → LogicalType
scalar_type id = logical_type id 0 0 no_child no_fields [] 0

-- What an error says is missing, short, miscounted or implausible.
pub data Part : Type 0 where
  type_id info_kind list_type_child struct_field_type enum_count array_type_child : Part
  chunk_rows chunk_types chunk_columns chunk_object result_uuid column_names : Part
  selection dict_count sequence_start sequence_increment validity_flag validity_mask : Part
  vector_data vector_children list_size list_entries list_child array_size array_child : Part
  vector_rows enum_values child_type : Part

pub data CodecError : Type 0 where
  framing : Error → CodecError
  -- ErrUnsupportedType
  unsupported : LogicalType → CodecError
  missing : Part → CodecError
  miscounted : Part → ℕ → ℕ → CodecError
  implausible : Part → ℕ → CodecError
  type_too_deep vector_too_deep extension_info bad_bit_value list_entry_outside : CodecError
  unknown_info_kind unknown_encoding non_integer_sequence : ℕ → CodecError
  dictionary_index enum_index value_index : ℕ → ℕ → CodecError
  in_column : LogicalType → CodecError → CodecError

-- A Go value of a result cell. Signed integers are two's complement patterns of their width, floats
-- are their bits, and a time.Time is a count of ticks since the epoch with the ticks in a second.
mutual
  pub data Value : Type 0 where
    null : Value
    boolean : Bool → Value
    int8 int16 int32 int64 uint8 uint16 uint32 uint64 float32 float64 time time_ns : ℕ → Value
    decimal : ℕ → ℕ → ℕ → ℕ → Value
    big_int : ℤ → Value
    instant : ℕ → ℕ → Value
    time_tz : ℕ → ℕ → Value
    interval : ℕ → ℕ → ℕ → Value
    uuid text blob : List ℕ → Value
    items : Values → Value
    struct : Entries → Value
    entries : Pairs → Value

  pub data Values : Type 0 where
    no_values : Values
    value : Value → Values → Values

  pub data Entries : Type 0 where
    no_entries : Entries
    entry : List ℕ → Value → Entries → Entries

  pub data Pairs : Type 0 where
    no_pairs : Pairs
    pair : Value → Value → Pairs → Pairs

-- ===== src/Codec/TypeText.antt =====
-- codec/logicaltype.go: how a type prints. A panic, which is Go's dereference of a nil child, is
-- `none`.
use duckcall.Base.{ℕ, List, [], ◌∷◌, ◌++◌, Option, none, some, ◌==◌, length, if◌then◌else◌}
use duckcall.Base.Strings.{codes}
use duckcall.Base.Numerals.{digits}
use duckcall.Codec.Types.{
  LogicalType, logical_type, Child, no_child, child, Fields, no_fields, field, type_sql_null,
  type_boolean, type_tinyint, type_smallint, type_integer, type_bigint, type_date, type_time,
  type_timestamp_sec, type_timestamp_ms, type_timestamp, type_timestamp_ns, type_decimal,
  type_float, type_double, type_varchar, type_blob, type_interval, type_utinyint, type_usmallint,
  type_uinteger, type_ubigint, type_timestamp_tz, type_time_tz, type_time_ns, type_bit,
  type_uhugeint, type_hugeint, type_uuid, type_geometry, type_struct, type_list, type_map,
  type_enum, type_union, type_array, type_variant,
}

-- typeNames
abbrev pub type_names : List (ℕ × List ℕ)
type_names =
    (type_sql_null, codes "NULL")
    ∷ (type_boolean, codes "BOOLEAN")
    ∷ (type_tinyint, codes "TINYINT")
    ∷ (type_smallint, codes "SMALLINT")
    ∷ (type_integer, codes "INTEGER")
    ∷ (type_bigint, codes "BIGINT")
    ∷ (type_utinyint, codes "UTINYINT")
    ∷ (type_usmallint, codes "USMALLINT")
    ∷ (type_uinteger, codes "UINTEGER")
    ∷ (type_ubigint, codes "UBIGINT")
    ∷ (type_hugeint, codes "HUGEINT")
    ∷ (type_uhugeint, codes "UHUGEINT")
    ∷ (type_float, codes "FLOAT")
    ∷ (type_double, codes "DOUBLE")
    ∷ (type_varchar, codes "VARCHAR")
    ∷ (type_blob, codes "BLOB")
    ∷ (type_bit, codes "BIT")
    ∷ (type_date, codes "DATE")
    ∷ (type_time, codes "TIME")
    ∷ (type_time_tz, codes "TIMETZ")
    ∷ (type_time_ns, codes "TIME_NS")
    ∷ (type_timestamp_sec, codes "TIMESTAMP_S")
    ∷ (type_timestamp_ms, codes "TIMESTAMP_MS")
    ∷ (type_timestamp, codes "TIMESTAMP")
    ∷ (type_timestamp_ns, codes "TIMESTAMP_NS")
    ∷ (type_timestamp_tz, codes "TIMESTAMPTZ")
    ∷ (type_interval, codes "INTERVAL")
    ∷ (type_uuid, codes "UUID")
    ∷ (type_geometry, codes "GEOMETRY")
    ∷ (type_union, codes "UNION")
    ∷ (type_variant, codes "VARIANT")
    ∷ []

-- The name, or `TYPE(id)`.
unfoldable pub named_text : ℕ → List (ℕ × List ℕ) → List ℕ
named_text id [] = codes "TYPE(" ++ (digits id ++ codes ")")
named_text id ((k, name) ∷ ns) = if k == id then name else named_text id ns

abbrev pub suffixed : Option (List ℕ) → List ℕ → Option (List ℕ)
suffixed none s = none
suffixed (some t) s = some (t ++ s)

-- `%s` of a type: package fmt recovers a panic in String.
abbrev pub printed : Option (List ℕ) → List ℕ
printed (some t) = t
printed none =
    codes
      "%!s(PANIC=String method: runtime error: invalid memory address or nil pointer dereference)"

-- A field of a STRUCT, and the fields behind it, each after a comma.
abbrev pub field_text : List ℕ → List ℕ → List ℕ → List ℕ
field_text name t rest = name ++ (32 ∷ (t ++ rest))

abbrev pub comma : List ℕ → List ℕ
comma s = 44 ∷ 32 ∷ s

abbrev pub struct_text : List ℕ → List ℕ
struct_text s = codes "STRUCT(" ++ (s ++ codes ")")

abbrev pub map_text : List (List ℕ) → List ℕ
map_text (key ∷ val ∷ []) = codes "MAP(" ++ (key ++ (codes ", " ++ (val ++ codes ")")))
map_text _ = codes "MAP"

unfoldable mutual
  -- LogicalType.String
  pub type_text : LogicalType → Option (List ℕ)
  type_text (logical_type id w s c fs e n) =
      if id == type_decimal
      then some (codes "DECIMAL(" ++ (digits w ++ (44 ∷ (digits s ++ codes ")"))))
      else if id == type_list
      then suffixed (child_text c) (codes "[]")
      else if id == type_array
      then suffixed (child_text c) (91 ∷ (digits n ++ codes "]"))
      else if id == type_struct
      then some (struct_text (fields_text fs))
      else if id == type_map
      then some (map_text (child_fields c))
      else if id == type_enum
      then some (codes "ENUM(" ++ (digits (length e) ++ codes " values)"))
      else some (named_text id type_names)

  pub child_text : Child → Option (List ℕ)
  child_text no_child = none
  child_text (child t) = type_text t

  pub fields_text : Fields → List ℕ
  fields_text no_fields = []
  fields_text (field name t no_fields) = field_text name (printed (type_text t)) []
  fields_text (field name t (field name' t' fs)) =
      field_text name (printed (type_text t)) (comma (fields_text (field name' t' fs)))

  -- The texts of the types of the child's fields.
  pub child_fields : Child → List (List ℕ)
  child_fields no_child = []
  child_fields (child (logical_type id w s c fs e n)) = field_types fs

  pub field_types : Fields → List (List ℕ)
  field_types no_fields = []
  field_types (field name t fs) = printed (type_text t) ∷ field_types fs

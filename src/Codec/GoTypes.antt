-- ===== src/Codec/GoTypes.antt =====
-- The Go values that the columns of each type in codec/chunk.go hold.
use duckcall.Base.{ℕ, ◌==◌, ◌||◌, ◌≡◌, Bool, true, List, [], ◌∷◌, some, get_elem?}
use duckcall.Codec.Types.{
  scalar_type, type_boolean, type_tinyint, type_smallint, type_integer, type_bigint, type_date,
  type_time, type_timestamp_sec, type_timestamp_ms, type_timestamp, type_timestamp_ns, type_decimal,
  type_float, type_double, type_interval, type_utinyint, type_usmallint, type_uinteger,
  type_ubigint, type_timestamp_tz, type_time_tz, type_time_ns, type_uhugeint, type_hugeint,
  type_uuid, type_enum, type_varchar, type_blob, type_bit, type_list, type_array, type_map,
  type_struct, id_of, width_of, scale_of, enum_of, child_of, fields_of, LogicalType, Child,
  no_child, child, Fields, no_fields, field, Value, null, boolean, int8, int16, int32, int64, uint8,
  uint16, uint32, uint64, float32, float64, time, time_ns, decimal, big_int, instant, time_tz,
  interval, uuid, text, blob, items, struct, entries, Values, no_values, value, Entries, no_entries,
  entry, Pairs, no_pairs, pair,
}
use duckcall.Codec.Cells.{one_of}

abbrev pub is_text : ℕ → Bool
is_text id = one_of id (type_varchar ∷ type_bit ∷ type_enum ∷ [])

abbrev pub is_timestamp : ℕ → Bool
is_timestamp id = one_of id (
    type_timestamp_sec ∷ type_timestamp_ms ∷ type_timestamp ∷ type_timestamp_ns ∷ type_timestamp_tz
    ∷ [])

-- The label of an ENUM is one of the type's dictionary.
abbrev pub IsLabel : LogicalType → List ℕ → Type 0
IsLabel t s = (id_of t == type_enum) ≡ true → (i : ℕ) × (get_elem? (enum_of t) i ≡ some s)

-- The key and the value of a MAP are the two fields of its child; a child of other fields has the
-- invalid type, which only nil fits.
abbrev pub pair_types : Fields → LogicalType × LogicalType
pair_types (field key t (field name u no_fields)) = (t, u)
pair_types _ = (scalar_type 0, scalar_type 0)

abbrev pub key_type : Fields → LogicalType
key_type fs = (pair_types fs).0

abbrev pub value_type : Fields → LogicalType
value_type fs = (pair_types fs).1

-- A value that a column of a type may hold, at every level: nil for a null, the type's own Go type
-- with the parameters of the type, and for a nested type rows that fit the types below it.
unfoldable mutual
  pub Fits : LogicalType → Value → Type 0
  Fits t null = Unit
  Fits t (boolean b) = (id_of t == type_boolean) ≡ true
  Fits t (int8 v) = (id_of t == type_tinyint) ≡ true
  Fits t (int16 v) = (id_of t == type_smallint) ≡ true
  Fits t (int32 v) = (id_of t == type_integer) ≡ true
  Fits t (int64 v) = (id_of t == type_bigint) ≡ true
  Fits t (uint8 v) = (id_of t == type_utinyint) ≡ true
  Fits t (uint16 v) = (id_of t == type_usmallint) ≡ true
  Fits t (uint32 v) = (id_of t == type_uinteger) ≡ true
  Fits t (uint64 v) = (id_of t == type_ubigint) ≡ true
  Fits t (float32 v) = (id_of t == type_float) ≡ true
  Fits t (float64 v) = (id_of t == type_double) ≡ true
  Fits t (time v) = (id_of t == type_time) ≡ true
  Fits t (time_ns v) = (id_of t == type_time_ns) ≡ true
  Fits t (decimal w s hi lo) =
      ((id_of t == type_decimal) ≡ true) × (w ≡ width_of t) × (s ≡ scale_of t)
  Fits t (big_int v) = one_of (id_of t) (type_hugeint ∷ type_uhugeint ∷ []) ≡ true
  Fits t (instant v ticks) = ((id_of t == type_date) || is_timestamp (id_of t)) ≡ true
  Fits t (time_tz v offset) = (id_of t == type_time_tz) ≡ true
  Fits t (interval months days micros) = (id_of t == type_interval) ≡ true
  Fits t (uuid bs) = (id_of t == type_uuid) ≡ true
  Fits t (text s) = (is_text (id_of t) ≡ true) × IsLabel t s
  Fits t (blob bs) = (id_of t == type_blob) ≡ true
  Fits t (items vs) =
      (one_of (id_of t) (type_list ∷ type_array ∷ []) ≡ true) × ValuesFit (child_of t) vs
  Fits t (struct es) = ((id_of t == type_struct) ≡ true) × EntriesFit (fields_of t) es
  Fits t (entries ps) = ((id_of t == type_map) ≡ true) × PairsFit (child_of t) ps

  pub ValuesFit : Child → Values → Type 0
  ValuesFit c no_values = Unit
  ValuesFit no_child (value v vs) = ⊥
  ValuesFit (child t) (value v vs) = Fits t v × ValuesFit (child t) vs

  -- A struct has its type's fields, in their order and with their names.
  pub EntriesFit : Fields → Entries → Type 0
  EntriesFit no_fields no_entries = Unit
  EntriesFit (field name t fs) (entry name' v es) = (name ≡ name') × Fits t v × EntriesFit fs es
  EntriesFit no_fields (entry name v es) = ⊥
  EntriesFit (field name t fs) no_entries = ⊥

  pub PairsFit : Child → Pairs → Type 0
  PairsFit c no_pairs = Unit
  PairsFit no_child (pair k v ps) = ⊥
  PairsFit (child t) (pair k v ps) =
      Fits (key_type (fields_of t)) k × Fits (value_type (fields_of t)) v × PairsFit (child t) ps

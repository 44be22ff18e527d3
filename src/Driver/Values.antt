-- ===== src/Driver/Values.antt =====
-- driver/rows.go: the driver.Value of a cell, and the JSON of a nested one. How a float32 widens, what strconv writes
-- for a float64, what package time writes for a moment of a type, and json.Marshal of a string are parameters.
use duckcall.Base.{
  ℕ, suc, ◌^◌, Bool, true, false, ◌||◌, List, [], ◌∷◌, ◌++◌, Option, none, some, Result, ok, err,
  ◌==◌, ltb, if◌then◌else◌,
}
use duckcall.Base.Int.{ℤ, pos, negsuc, signed}
use duckcall.Base.Strings.{codes}
use duckcall.Base.Numerals.{format_int}
use duckcall.Codec.Types.{
  LogicalType, Child, no_child, child, Fields, no_fields, field, id_of, child_of, fields_of,
  count_fields, CodecError, type_list, type_array, type_struct, type_map, type_decimal,
  type_hugeint, type_uhugeint, type_ubigint, Value, null, boolean, int8, int16, int32, int64, uint8,
  uint16, uint32, uint64, float32, float64, time, time_ns, decimal, big_int, instant, time_tz,
  interval, uuid, text, blob, items, struct, entries, Values, no_values, value, Entries, no_entries,
  entry, Pairs, no_pairs, pair,
}
use duckcall.Base.{get_elem?}
use duckcall.Codec.TypeText.{type_text}
use duckcall.Codec.Results.{SchemaColumn}
use duckcall.Codec.Text.{
  decimal_text, time_text, time_ns_text, time_tz_text, interval_text, uuid_text,
}

pub data Converted : Type 0 where
  nil : Converted
  bool : Bool → Converted
  int : ℤ → Converted
  float : ℕ → Converted
  string bytes : List ℕ → Converted
  moment : ℕ → ℕ → Converted

-- `nil_child` is where Go dereferences a nil child.
pub data RowError : Type 0 where
  cell_error : CodecError → RowError
  no_mapping no_json nil_child : RowError
  misfit : LogicalType → RowError

abbrev pub is_nested : ℕ → Bool
is_nested id =
    (id == type_list) || ((id == type_array) || ((id == type_struct) || (id == type_map)))

-- `x.IsInt64()`
abbrev pub is_int64 : ℤ → Bool
is_int64 (pos n) = ltb n (2 ^ 63)
is_int64 (negsuc n) = ltb n (2 ^ 63)

abbrev pub json_number_safe : ℕ → Bool
json_number_safe id =
    (id == type_decimal)
    || ((id == type_hugeint) || ((id == type_uhugeint) || (id == type_ubigint)))

abbrev pub child_type : Child → Option LogicalType
child_type no_child = none
child_type (child t) = some t

-- The key and the value type of a MAP.
abbrev pub pair_fields : Fields → Option (LogicalType × LogicalType)
pair_fields (field k t (field v u no_fields)) = some (t, u)
pair_fields _ = none

abbrev pub pair_types : Child → Option (LogicalType × LogicalType)
pair_types no_child = none
pair_types (child t) = pair_fields (fields_of t)

abbrev pub count_entries : Entries → ℕ
count_entries no_entries = 0
count_entries (entry k v es) = suc (count_entries es)

abbrev pub joined :
    List ℕ → Result RowError (List ℕ) → Result RowError (List ℕ) → Result RowError (List ℕ)
joined sep (err e) r = err e
joined sep (ok a) (err e) = err e
joined sep (ok a) (ok b) = ok (a ++ (sep ++ b))

abbrev pub wrapped : ℕ → ℕ → Result RowError (List ℕ) → Result RowError (List ℕ)
wrapped before after (err e) = err e
wrapped before after (ok s) = ok (before ∷ (s ++ (after ∷ [])))

abbrev pub as_string : Result RowError (List ℕ) → Result RowError Converted
as_string (err e) = err e
as_string (ok s) = ok (string s)

module _ (widen : ℕ → ℕ) (float_text : ℕ → List ℕ) (is_special : ℕ → Bool)
    (moment_text : ℕ → ℕ → ℕ → List ℕ) (key_moment : ℕ → ℕ → List ℕ)
    (json_string : List ℕ → List ℕ) where
  -- The second switch of toDriverValue.
  unfoldable pub scalar_value : Value → Result RowError Converted
  scalar_value null = ok nil
  scalar_value (boolean b) = ok (bool b)
  scalar_value (int8 v) = ok (int (signed (2 ^ 7) v))
  scalar_value (int16 v) = ok (int (signed (2 ^ 15) v))
  scalar_value (int32 v) = ok (int (signed (2 ^ 31) v))
  scalar_value (int64 v) = ok (int (signed (2 ^ 63) v))
  scalar_value (uint8 v) = ok (int (pos v))
  scalar_value (uint16 v) = ok (int (pos v))
  scalar_value (uint32 v) = ok (int (pos v))
  scalar_value (uint64 v) =
      if ltb v (2 ^ 63) then ok (int (pos v)) else ok (string (format_int (pos v)))
  scalar_value (float32 v) = ok (float (widen v))
  scalar_value (float64 v) = ok (float v)
  scalar_value (big_int z) = if is_int64 z then ok (int z) else ok (string (format_int z))
  scalar_value (decimal w s hi lo) = ok (string (decimal_text s hi lo))
  scalar_value (time t) = ok (string (time_text t))
  scalar_value (time_ns t) = ok (string (time_ns_text t))
  scalar_value (time_tz t o) = ok (string (time_tz_text t o))
  scalar_value (interval m d u) = ok (string (interval_text m d u))
  scalar_value (uuid u) = ok (string (uuid_text u))
  scalar_value (instant t u) = ok (moment t u)
  scalar_value (text s) = ok (string s)
  scalar_value (blob s) = ok (bytes s)
  scalar_value _ = err no_mapping

  unfoldable pub json_float : ℕ → List ℕ
  json_float x = if is_special x then json_string (float_text x) else float_text x

  abbrev pub bool_text : Bool → List ℕ
  bool_text true = codes "true"
  bool_text false = codes "false"

  -- The scalar leaf of appendJSON.
  unfoldable pub json_leaf : ℕ → Result RowError Converted → Result RowError (List ℕ)
  json_leaf id (err e) = err e
  json_leaf id (ok nil) = err no_json
  json_leaf id (ok (bool b)) = ok (bool_text b)
  json_leaf id (ok (int z)) = ok (format_int z)
  json_leaf id (ok (float x)) = ok (json_float x)
  json_leaf id (ok (string s)) = if json_number_safe id then ok s else ok (json_string s)
  json_leaf id (ok (bytes s)) = ok (json_string s)
  json_leaf id (ok (moment t u)) = ok (json_string (moment_text id t u))

  unfoldable pub key_string : Converted → List ℕ
  key_string (string s) = s
  key_string (bytes s) = s
  key_string (int z) = format_int z
  key_string (float x) = float_text x
  key_string (bool b) = bool_text b
  key_string nil = codes "null"
  key_string (moment t u) = key_moment t u

  abbrev pub key_json : Result RowError Converted → Result RowError (List ℕ)
  key_json (err e) = err e
  key_json (ok x) = ok (json_string (key_string x))

  -- A nested value in toDriverValue, by its JSON.
  abbrev pub nested_value : Value → Result RowError (List ℕ) → Result RowError Converted
  nested_value null json = ok nil
  nested_value v json = as_string json

  abbrev pub json_key : LogicalType → Value → Result RowError (List ℕ) → Result RowError (List ℕ)
  json_key t k json =
      if is_nested (id_of t) then key_json (nested_value k json) else key_json (scalar_value k)

  abbrev pub json_entry : List ℕ → Result RowError (List ℕ) → Result RowError (List ℕ)
  json_entry name v = joined (58 ∷ []) (ok (json_string name)) v

  unfoldable mutual
    -- appendJSON, by the value; what is no value of its type is refused, and a leaf is a leaf for any type
    -- that is not nested.
    pub append_json : LogicalType → Value → Result RowError (List ℕ)
    append_json t null = ok (codes "null")
    append_json t (items vs) =
        if (id_of t == type_list) || (id_of t == type_array)
        then wrapped 91 93 (json_items (child_type (child_of t)) vs)
        else if is_nested (id_of t)
        then err (misfit t)
        else err no_mapping
    append_json t (struct es) =
        if id_of t == type_struct
        then if count_entries es == count_fields (fields_of t)
          then wrapped 123 125 (json_entries t (fields_of t) es)
          else err (misfit t)
        else if is_nested (id_of t)
        then err (misfit t)
        else err no_mapping
    append_json t (entries ps) =
        if id_of t == type_map
        then elim (pair_types (child_of t)) [
          | none ↦ err (misfit t)
          | some ts ↦ wrapped 123 125 (json_pairs ts ps)
        ]
        else if is_nested (id_of t)
        then err (misfit t)
        else err no_mapping
    append_json t v =
        if is_nested (id_of t) then err (misfit t) else json_leaf (id_of t) (scalar_value v)

    pub json_items : Option LogicalType → Values → Result RowError (List ℕ)
    json_items t no_values = ok []
    json_items none (value v vs) = err nil_child
    json_items (some t) (value v no_values) = append_json t v
    json_items (some t) (value v (value w vs)) =
        joined (44 ∷ []) (append_json t v) (json_items (some t) (value w vs))

    pub json_entries : LogicalType → Fields → Entries → Result RowError (List ℕ)
    json_entries t no_fields no_entries = ok []
    json_entries t (field n u no_fields) (entry k v no_entries) = json_entry k (append_json u v)
    json_entries t (field n u fs) (entry k v (entry l w es)) =
        joined (44 ∷ []) (json_entry k (append_json u v)) (json_entries t fs (entry l w es))
    json_entries t _ _ = err (misfit t)

    pub json_pairs : LogicalType × LogicalType → Pairs → Result RowError (List ℕ)
    json_pairs ts no_pairs = ok []
    json_pairs (t, u) (pair k v no_pairs) =
        joined (58 ∷ []) (json_key t k (append_json t k)) (append_json u v)
    json_pairs (t, u) (pair k v (pair l w ps)) =
        joined (44 ∷ []) (joined (58 ∷ []) (json_key t k (append_json t k)) (append_json u v))
          (json_pairs (t, u) (pair l w ps))

  unfoldable pub to_driver_value : LogicalType → Value → Result RowError Converted
  to_driver_value t v =
      if is_nested (id_of t) then nested_value v (append_json t v) else scalar_value v

-- rows.Columns, and ColumnTypeDatabaseTypeName: `none` is an index that Go's slice panics on, or a nil
-- child inside the type.
unfoldable pub columns : List SchemaColumn → List (List ℕ)
columns [] = []
columns (c ∷ cs) = c.name ∷ columns cs

unfoldable pub column_type_name : List SchemaColumn → ℕ → Option (List ℕ)
column_type_name cs index = elim (get_elem? cs index) [ none ↦ none | some c ↦ type_text c.of_type ]

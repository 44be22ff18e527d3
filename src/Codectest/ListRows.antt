-- ===== src/Codectest/ListRows.antt =====
-- The rows of LIST and MAP values in codec/codectest/codectest.go.
use duckcall.Base.{
  ℕ, zero, suc, ◌≡◌, refl, subst, sym, false, List, [], ◌∷◌, Option, none, some, length, get_elem?,
  All, map,
}
use duckcall.Codec.Types.{
  type_list, type_map, LogicalType, Child, child, no_fields, field, fields_of, Value, null, items,
  struct, entries, Values, no_values, value, no_entries, entry, Pairs, no_pairs, pair,
}
use duckcall.Codec.Vectors.{to_values, map_pairs}
use duckcall.Codectest.VectorWriter.{
  is_null, collect, list_values, map_entry, map_values, row_elements,
}
use duckcall.Codectest.ListVectors.{RowsOf, row_value}
use duckcall.Codectest.Rows.{first_is}

abbrev pub or_empty : Option (List Value) → List Value
or_empty none = []
or_empty (some row) = row

-- The elements of a row.
abbrev pub elements_of : Child → Value → List Value
elements_of c v = or_empty (row_elements c v)

-- A value whose elements can be written, and make it again.
record IsRow (id : ℕ) (c : Child) (v : Value) : Type 0 where
  taken : row_elements c v ≡ some (elements_of c v)
  again : is_null v ≡ false → row_value id (elements_of c v) ≡ v

module _ (id : ℕ) (c : Child) where
  collect-elements :
      (vals : List Value)
      → All (IsRow id c) vals
      → collect (row_elements c) vals ≡ some (map (elements_of c) vals)
  unfolding collect
  collect-elements [] h = refl
  collect-elements (v ∷ vals) (h, hs) = rw (h.taken, collect-elements vals hs)

  length-elements : (vals : List Value) → length (map (elements_of c) vals) ≡ length vals
  length-elements [] = refl
  length-elements (v ∷ vals) = λ i. suc (length-elements vals i)

  row_of :
      (vals : List Value) (i : ℕ) (v : Value)
      → All (IsRow id c) vals
      → get_elem? vals i ≡ some v
      → (row : List Value) × ((get_elem? (map (elements_of c) vals) i ≡ some row)
          × (is_null v ≡ false → row_value id row ≡ v))
  row_of [] i v h e = absurd cc
  row_of (x ∷ vals) zero v (h, hs) e = (
    elements_of c x,
    (
      refl,
      subst (λ y. is_null y ≡ false → row_value id (elements_of c x) ≡ y) (first_is x vals v e)
          h.again,
    ),
  )
  row_of (x ∷ vals) (suc i) v (h, hs) e = row_of vals i v hs e

  rows-RowsOf :
      (vals : List Value) → All (IsRow id c) vals → RowsOf id c vals (map (elements_of c) vals)
  rows-RowsOf vals h = record {
    collected = collect-elements vals h;
    counted = length-elements vals;
    each = λ i v e. row_of vals i v h e;
  }

-- LIST: NULL or a slice.
pub data IsList : Value → Type 0 where
  null_list : IsList null
  is_items : (vs : Values) → IsList (items vs)

pub to_values-list_values : (vs : Values) → to_values (list_values vs) ≡ vs
unfolding to_values list_values
to_values-list_values no_values = refl
to_values-list_values (value v vs) = λ i. value v (to_values-list_values vs i)

list-IsRow : (c : Child) (v : Value) → IsList v → IsRow type_list c v
unfolding row_elements
list-IsRow c _ null_list = record { taken = refl; again = λ h. absurd cc }
list-IsRow c _ (is_items vs) = record {
  taken = refl;
  again = λ h i. items (to_values-list_values vs i);
}

lists-IsRow : (c : Child) (vals : List Value) → All IsList vals → All (IsRow type_list c) vals
lists-IsRow c [] h = tt
lists-IsRow c (v ∷ vals) (h, hs) = (list-IsRow c v h, lists-IsRow c vals hs)

pub lists-RowsOf :
    (c : Child) (vals : List Value)
    → All IsList vals
    → RowsOf type_list c vals (map (elements_of c) vals)
lists-RowsOf c vals h = rows-RowsOf type_list c vals (lists-IsRow c vals h)

-- MAP: NULL or a slice of entries, under a child with a field for the key and one for the value.
pub data IsMap : Value → Type 0 where
  null_map : IsMap null
  is_entries : (ps : Pairs) → IsMap (entries ps)

module _ (c : LogicalType) (k n : List ℕ) (kt nt : LogicalType)
    (two : fields_of c ≡ field k kt (field n nt no_fields)) where
  structs : Pairs → List Value
  structs no_pairs = []
  structs (pair key val ps) = struct (entry k key (entry n val no_entries)) ∷ structs ps

  map_values-structs :
      (ps : Pairs) → map_values (field k kt (field n nt no_fields)) ps ≡ some (structs ps)
  unfolding map_values map_entry structs
  map_values-structs no_pairs = refl
  map_values-structs (pair key val ps) = rw (map_values-structs ps)

  map_pairs-structs : (ps : Pairs) → map_pairs (structs ps) ≡ ps
  unfolding map_pairs structs
  map_pairs-structs no_pairs = refl
  map_pairs-structs (pair key val ps) = λ i. pair key val (map_pairs-structs ps i)

  entries_taken : (ps : Pairs) → row_elements (child c) (entries ps) ≡ some (structs ps)
  unfolding row_elements
  entries_taken ps =
      subst (λ fs. map_values fs ps ≡ some (structs ps)) (sym two) (map_values-structs ps)

  map-IsRow : (v : Value) → IsMap v → IsRow type_map (child c) v
  unfolding row_elements
  map-IsRow _ null_map = record { taken = refl; again = λ h. absurd cc }
  map-IsRow _ (is_entries ps) = record {
    taken = rw (entries_taken ps);
    again = λ h. rw (entries_taken ps, map_pairs-structs ps);
  }

  maps-IsRow : (vals : List Value) → All IsMap vals → All (IsRow type_map (child c)) vals
  maps-IsRow [] h = tt
  maps-IsRow (v ∷ vals) (h, hs) = (map-IsRow v h, maps-IsRow vals hs)

  pub maps-RowsOf :
      (vals : List Value)
      → All IsMap vals
      → RowsOf type_map (child c) vals (map (elements_of (child c)) vals)
  maps-RowsOf vals h = rows-RowsOf type_map (child c) vals (maps-IsRow vals h)

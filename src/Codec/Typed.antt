-- ===== src/Codec/Typed.antt =====
-- codec/chunk.go: the types of the values of a decoded vector.
use duckcall.Base.{
  ℕ, zero, suc, ◌*◌, ◌≡◌, ◌==◌, ◌||◌, not, refl, Bool, true, false, List, [], ◌∷◌, All, Option,
  Result, ok, err, get_elem?, arith,
}
use duckcall.Qser.Reader.{Reader, end_object}
use duckcall.Codec.Types.{
  type_struct, type_list, type_map, type_array, id_of, child_of, fields_of, LogicalType, Child,
  no_child, child, Fields, no_fields, field, child_type, CodecError, missing, vector_too_deep,
  list_entry_outside, Value, null,
}
use duckcall.Codec.Decode.{Decode, ◌>>=◌, read}
use duckcall.Codec.Cells.{one_of, valid}
use duckcall.Codec.Vectors.{
  lift, tolerate, tabulate, rows_or_unsupported, struct_child, struct_children, any_unsupported,
  struct_row, struct_vector, with_child, nested_rows, list_row, list_vector, array_row,
  array_vector, scalar_cell, sized_vector, unsized_vector, scalar_vector, nested_or_scalar_vector,
  vector_of_type, decode_flat_vector, repeated, constant_vector, dictionary_cell, dictionary_vector,
  sequence_vector, vector_of_kind, vector_object, decode_vector,
}
use duckcall.Codec.Ensures.{
  ok-OkHas, err-OkHas, split_ok, split_decode, if-OkHas, elim-OkHas, OkHas, OkHas-ok, bind-Ensures,
  then-Ensures, lift-Ensures, done-Ensures, framing_or-Ensures, throw-Ensures, if-Ensures, Ensures,
}
use duckcall.Codec.GoTypes.{Fits}
use duckcall.Codec.CellTypes.{decode_cell-Fits, sequence_value-Fits}
use duckcall.Codec.Fitting.{
  take-All, drop-All, tabulate-All, element-Fits, items-Fit, entries-Fit, ChildrenFit,
  struct_entries-Fit,
}
use duckcall.Codec.TypedStrings.{
  tolerate-Ensures, replicate-Fits, Typed, null-Fits, rows_or_unsupported-Typed,
  string_vector-Typed,
}

a_list :
    (id : ℕ)
    → one_of id (type_list ∷ type_map ∷ []) ≡ true
    → (id == type_map) ≡ false
    → one_of id (type_list ∷ type_array ∷ []) ≡ true
a_list id h e = one_two (id == type_list) (id == type_map) (id == type_array) h e
  where
    one_two : (l m a : Bool) → (l || (m || false)) ≡ true → m ≡ false → (l || (a || false)) ≡ true
    one_two l m a h e = ground arith

an_array : (id : ℕ) → (id == type_array) ≡ true → one_of id (type_list ∷ type_array ∷ []) ≡ true
an_array id e = last_one (id == type_list) (id == type_array) e
  where
    last_one : (l a : Bool) → a ≡ true → (l || (a || false)) ≡ true
    last_one l a e = ground arith

struct_shown :
    (unsupported_yet a_child is_struct : Bool)
    → (unsupported_yet || a_child || not is_struct) ≡ false
    → (a_child ≡ false) × (is_struct ≡ true)
struct_shown unsupported_yet a_child is_struct e = (ground arith, ground arith)

module _ (rec : LogicalType → ℕ → Decode (List Value))
    (rec-Typed : (t : LogicalType) (n : ℕ) → Ensures (All (Fits t)) (rec t n)) (t : LogicalType)
    (count : ℕ) where
  null-OkHas : OkHas (Fits t) (ok null)
  null-OkHas = ok-OkHas (Fits t) null (null-Fits rec t count)

  module _ (b : Bool) (validity : Option (List ℕ)) where
    struct_children-Ensures :
        (fs : Fields) → Ensures (ChildrenFit fs) (struct_children rec t count b validity fs)
    unfolding struct_children struct_child ChildrenFit OkHas
    struct_children-Ensures no_fields = record { holds = λ r. tt }
    struct_children-Ensures (field name ft fs) =
        bind-Ensures (OkHas (All (Fits ft))) (ChildrenFit (field name ft fs))
          (tolerate (rec ft count)) _
          (tolerate-Ensures (All (Fits ft)) (rec ft count) (rec-Typed ft count))
          λ c p. then-Ensures (ChildrenFit (field name ft fs)) (read end_object) _ λ e.
            bind-Ensures (ChildrenFit fs) (ChildrenFit (field name ft fs))
              (struct_children rec t count b validity fs) _ (struct_children-Ensures fs)
              λ cs ps. done-Ensures (ChildrenFit (field name ft fs)) (c ∷ cs) (p, ps)

    struct_row-OkHas :
        (cs : List (Result CodecError (List Value))) (i : ℕ)
        → ChildrenFit (fields_of t) cs
        → (b || any_unsupported rec t count b validity cs || not (id_of t == type_struct)) ≡ false
        → OkHas (Fits t) (struct_row rec t count b validity cs i)
    unfolding struct_row Fits
    struct_row-OkHas cs i h e =
        let (none_left, is_struct) = struct_shown b _ (id_of t == type_struct) e in
        if-OkHas (Fits t) (valid validity i) _ _
          (ok-OkHas (Fits t) _
            (is_struct, struct_entries-Fit rec t count b validity (fields_of t) cs i h none_left))
          null-OkHas

    struct_rows-Typed : Typed rec t count (
        struct_children rec t count b validity (fields_of t) >>= λ cs.
        rows_or_unsupported rec t count
          (b || any_unsupported rec t count b validity cs || not (id_of t == type_struct))
          (struct_row rec t count b validity cs))
    struct_rows-Typed =
        bind-Ensures (ChildrenFit (fields_of t)) (All (Fits t))
          (struct_children rec t count b validity (fields_of t)) _
          (struct_children-Ensures (fields_of t))
          λ cs h. rows_or_unsupported-Typed rec t count _ _ λ e i. struct_row-OkHas cs i h e

    struct_vector-Typed : Typed rec t count (struct_vector rec t count b validity)
    unfolding struct_vector
    struct_vector-Typed = search (then-Ensures, struct_rows-Typed) depth 8

    -- What LIST, MAP and ARRAY do with a child vector whose rows fit.
    nested_rows-Typed :
        (c : LogicalType) (x : Result CodecError (List Value))
        (row : List Value → ℕ → Result CodecError Value)
        → OkHas (All (Fits c)) x
        → ((vals : List Value) (i : ℕ) → All (Fits c) vals → OkHas (Fits t) (row vals i))
        → Typed rec t count (nested_rows rec t count b validity x row)
    unfolding OkHas
    nested_rows-Typed c (ok vals) row h f =
        rows_or_unsupported-Typed rec t count b (row vals) λ e i. f vals i h
    nested_rows-Typed c (err e) row h f =
        if-Ensures (All (Fits t)) b _ _ (framing_or-Ensures (All (Fits t)) _)
          (framing_or-Ensures (All (Fits t)) e)

    child_rows-Typed :
        (size : ℕ) (row : List Value → ℕ → Result CodecError Value)
        → ((c : LogicalType)
            → child_of t ≡ child c
            → (vals : List Value) (i : ℕ) → All (Fits c) vals
            → OkHas (Fits t) (row vals i))
        → (c : Child) → child_of t ≡ c
        → Typed rec t count (
            with_child rec t count b validity
              (λ c. do
                kept ← tolerate (rec c size)
                e ← read end_object
                nested_rows rec t count b validity kept row)
              c)
    child_rows-Typed size row f no_child same = record {
      holds = (throw-Ensures (All (Fits t)) (missing child_type)).holds;
    }
    child_rows-Typed size row f (child c) same = record {
      holds =
          (bind-Ensures (OkHas (All (Fits c))) (All (Fits t)) (tolerate (rec c size)) _
            (tolerate-Ensures (All (Fits c)) (rec c size) (rec-Typed c size))
            λ kept h.
              then-Ensures (All (Fits t)) (read end_object) _
                λ e. nested_rows-Typed c kept row h (f c same)).holds;
    }

    list_row-OkHas :
        (size : ℕ) (windows : List (ℕ × ℕ)) (c : LogicalType)
        → one_of (id_of t) (type_list ∷ type_map ∷ []) ≡ true
        → child_of t ≡ child c
        → (vals : List Value) (i : ℕ) → All (Fits c) vals
        → OkHas (Fits t) (list_row rec t count b validity size vals windows i)
    unfolding list_row Fits
    list_row-OkHas size windows c nested same vals i h =
        elim-OkHas (Fits t) (get_elem? windows i) _ _ null-OkHas λ w.
          let fits = take-All (Fits c) w.1 _ (drop-All (Fits c) w.0 vals h) in
          if-OkHas (Fits t) _ _ _ null-OkHas (
            if-OkHas (Fits t) _ _ _ (err-OkHas (Fits t) list_entry_outside) (
              split_ok (Fits t) (id_of t == type_map) _ _
                (λ a_map. ok-OkHas (Fits t) _ (entries-Fit t c _ a_map same fits))
                (λ no_map.
                  ok-OkHas (Fits t) _
                    (items-Fit t c _ (a_list (id_of t) nested no_map) same fits))))

    array_row-OkHas :
        (size : ℕ) (c : LogicalType)
        → (id_of t == type_array) ≡ true
        → child_of t ≡ child c
        → (vals : List Value) (i : ℕ) → All (Fits c) vals
        → OkHas (Fits t) (array_row rec t count b validity size vals i)
    unfolding array_row Fits
    array_row-OkHas size c named same vals i h =
        if-OkHas (Fits t) (valid validity i) _ _
          (ok-OkHas (Fits t) _ (
            items-Fit t c _ (an_array (id_of t) named) same
              (take-All (Fits c) size _ (drop-All (Fits c) (i * size) vals h))))
          null-OkHas

    list_vector-Typed :
        one_of (id_of t) (type_list ∷ type_map ∷ []) ≡ true
        → Typed rec t count (list_vector rec t count b validity)
    unfolding list_vector
    list_vector-Typed nested =
        search
          (
            then-Ensures,
            λ (size : ℕ) (windows : List (ℕ × ℕ)).
                child_rows-Typed size
                  (λ vals i. list_row rec t count b validity size vals windows i)
                  (λ c. list_row-OkHas size windows c nested) (child_of t) refl,
          )
          depth 14

    array_vector-Typed :
        (id_of t == type_array) ≡ true → Typed rec t count (array_vector rec t count b validity)
    unfolding array_vector
    array_vector-Typed named =
        search
          (
            then-Ensures,
            λ (size : ℕ).
                child_rows-Typed (size * count) (array_row rec t count b validity size)
                  (λ c. array_row-OkHas size c named) (child_of t) refl,
          )
          depth 14

    scalar_cell-OkHas :
        (w : ℕ) (cells : List ℕ) (i : ℕ)
        → OkHas (Fits t) (scalar_cell rec t count b validity w cells i)
    unfolding scalar_cell
    scalar_cell-OkHas w cells i =
        if-OkHas (Fits t) (valid validity i) _ _ (decode_cell-Fits t _) null-OkHas

    scalar_vector-Typed : Typed rec t count (scalar_vector rec t count b validity)
    unfolding scalar_vector sized_vector unsized_vector
    scalar_vector-Typed =
        search
          (
            if-Ensures, then-Ensures, framing_or-Ensures, rows_or_unsupported-Typed,
            scalar_cell-OkHas,
          )
          depth 12

    nested_or_scalar_vector-Typed :
        Typed rec t count (nested_or_scalar_vector rec t count b validity)
    unfolding nested_or_scalar_vector
    nested_or_scalar_vector-Typed =
        search
          (
            split_decode, struct_vector-Typed, list_vector-Typed, array_vector-Typed,
            scalar_vector-Typed,
          )
          depth 12

  vector_of_type-Typed :
      (tagged : Bool) (validity : Option (List ℕ))
      → Typed rec t count (vector_of_type rec t count tagged validity)
  unfolding vector_of_type
  vector_of_type-Typed tagged validity =
      split_decode (All (Fits t)) _ _ _ (string_vector-Typed rec t count tagged validity)
        λ _. nested_or_scalar_vector-Typed tagged validity

  decode_flat_vector-Typed : Typed rec t count (decode_flat_vector rec t count)
  unfolding decode_flat_vector
  decode_flat_vector-Typed = search (then-Ensures, vector_of_type-Typed) depth 10

  repeated-Fits : (vals : List Value) → All (Fits t) vals → All (Fits t) (repeated rec t count vals)
  repeated-Fits [] h = tt
  repeated-Fits (v ∷ vals) (p, h) = replicate-Fits t count v p

  constant_vector-Typed : Typed rec t count (constant_vector rec t count)
  unfolding constant_vector
  constant_vector-Typed =
      bind-Ensures (All (Fits t)) (All (Fits t)) (rec t 1) _ (rec-Typed t 1)
        λ vals h. done-Ensures (All (Fits t)) (repeated rec t count vals) (repeated-Fits vals h)

  dictionary_cell-OkHas :
      (sel : List ℕ) (dict : List Value) (i : ℕ)
      → All (Fits t) dict
      → OkHas (Fits t) (dictionary_cell rec t count sel dict i)
  unfolding dictionary_cell
  dictionary_cell-OkHas sel dict i h =
      if-OkHas (Fits t) _ _ _ (ok-OkHas (Fits t) _ (element-Fits t dict _ h)) (err-OkHas (Fits t) _)

  dictionary_rows-Typed :
      (sel : List ℕ) (n : ℕ)
      → Typed rec t count
          (rec t n >>= λ dict. lift (tabulate (dictionary_cell rec t count sel dict) count 0))
  dictionary_rows-Typed sel n =
      bind-Ensures (All (Fits t)) (All (Fits t)) (rec t n) _ (rec-Typed t n) λ dict h.
        lift-Ensures _ _ (
          tabulate-All (Fits t) (dictionary_cell rec t count sel dict)
            (λ i. dictionary_cell-OkHas sel dict i h) count 0)

  dictionary_vector-Typed : Typed rec t count (dictionary_vector rec t count)
  unfolding dictionary_vector
  dictionary_vector-Typed = search (then-Ensures, dictionary_rows-Typed) depth 12

  sequence_vector-Typed : Typed rec t count (sequence_vector rec t count)
  unfolding sequence_vector
  sequence_vector-Typed =
      search (then-Ensures, lift-Ensures, tabulate-All (Fits t), sequence_value-Fits) depth 14

  vector_object-Typed : Typed rec t count (vector_object rec t count)
  unfolding vector_object vector_of_kind
  vector_object-Typed =
      search
        (
          then-Ensures, if-Ensures, throw-Ensures, decode_flat_vector-Typed, constant_vector-Typed,
          dictionary_vector-Typed, sequence_vector-Typed,
        )
        depth 12

decode_vector-Typed :
    (levels : ℕ) (t : LogicalType) (count : ℕ)
    → Ensures (All (Fits t)) (decode_vector levels t count)
unfolding decode_vector
decode_vector-Typed zero t count = throw-Ensures (All (Fits t)) vector_too_deep
decode_vector-Typed (suc levels) t count = record {
  holds = (vector_object-Typed (decode_vector levels) (decode_vector-Typed levels) t count).holds;
}

-- Whatever the input, every value of a vector that decodes is nil or of its column type's Go type,
-- at every level: a decimal has the type's width and scale, an ENUM's text is a label of its
-- dictionary, a struct has the type's fields in their order, and the elements of lists, arrays and
-- maps fit the types below.
pub decode_vector-Fits :
    (levels : ℕ) (t : LogicalType) (count : ℕ) (r : Reader) (vals : List Value)
    → (decode_vector levels t count r).0 ≡ ok vals
    → All (Fits t) vals
decode_vector-Fits levels t count r vals e =
    OkHas-ok (All (Fits t)) (decode_vector levels t count r).0 vals
      ((decode_vector-Typed levels t count).holds r) e

-- ===== src/Codec/Lengths.antt =====
-- codec/chunk.go: the number of values of a decoded vector.
use duckcall.Base.{
  arith, ℕ, ap, zero, suc, ◌+◌, ◌≡◌, refl, Bool, true, false, List, [], ◌∷◌, Option, Result, ok,
  err, if◌then◌else◌, length,
}
use duckcall.Qser.Reader.{Reader}
use duckcall.Codec.Types.{
  LogicalType, Child, no_child, child, child_type, CodecError, missing, vector_too_deep, Value,
}
use duckcall.Codec.Decode.{Decode, ◌>>=◌, check, for_range}
use duckcall.Codec.Vectors.{
  lift, unsupported_but_parsed, push_round, tabulate, replicate, rows_or_unsupported, string_cell,
  string_vector, struct_vector, with_child, nested_rows, list_vector, array_vector, sized_vector,
  unsized_vector, scalar_vector, nested_or_scalar_vector, vector_of_type, decode_flat_vector,
  repeated, constant_vector, dictionary_vector, sequence_vector, vector_of_kind, vector_object,
  decode_vector,
}
use duckcall.Codec.Ensures.{
  OkHas, OkHas-ok, bind-Ensures, then-Ensures, lift-Ensures, done-Ensures, check-Ensures,
  framing_or-Ensures, throw-Ensures, if-Ensures, Sized,
}

module _ {ℓ} {A : Type ℓ} (f : ℕ → Result CodecError A) where
  push_round-length :
      (n : ℕ) (x : Result CodecError A) (xs : Result CodecError (List A))
      → OkHas (λ vals. length vals ≡ n) xs
      → OkHas (λ vals. length vals ≡ suc n) (push_round x xs)
  unfolding OkHas
  push_round-length n (err e) xs h = tt
  push_round-length n (ok a) (err e) h = tt
  push_round-length n (ok a) (ok vals) h = ap suc h

  tabulate-length : (n i : ℕ) → OkHas (λ vals. length vals ≡ n) (tabulate f n i)
  unfolding OkHas tabulate
  tabulate-length zero i = refl
  tabulate-length (suc n) i =
      push_round-length n (f i) (tabulate f n (i + 1)) (tabulate-length n (i + 1))

pub tabulate-Sized : (f : ℕ → Result CodecError Value) (n : ℕ) → Sized n (lift (tabulate f n 0))
tabulate-Sized f n = lift-Ensures _ (tabulate f n 0) (tabulate-length f n 0)

check-Sized : (n : ℕ) (vals : List Value) → length vals ≡ n → Sized n (check vals)
check-Sized n vals h = check-Ensures (λ vs. length vs ≡ n) vals h

replicate-length : (n : ℕ) (v : Value) → length (replicate n v) ≡ n
unfolding replicate
replicate-length zero v = refl
replicate-length (suc n) v = ap suc (replicate-length n v)

for_range-length : (body : ℕ → Decode Value) (n i : ℕ) → Sized n (for_range body n i)
unfolding for_range OkHas
for_range-length body zero i = record { holds = λ r. refl }
for_range-length body (suc n) i =
    then-Ensures (λ vs. length vs ≡ suc n) (body i) _
      λ a.
        bind-Ensures (λ vs. length vs ≡ n) (λ vs. length vs ≡ suc n) (for_range body n (i + 1)) _
          (for_range-length body n (i + 1))
          λ vs h. done-Ensures (λ vs'. length vs' ≡ suc n) (a ∷ vs) (ap suc h)

module _ (rec : LogicalType → ℕ → Decode (List Value)) (t : LogicalType) (count : ℕ) where
  abbrev Rows : List Value → Type 0
  Rows vals = length vals ≡ count

  rows_or_unsupported-Sized :
      (b : Bool) (row : ℕ → Result CodecError Value)
      → Sized count (rows_or_unsupported rec t count b row)
  unfolding rows_or_unsupported
  rows_or_unsupported-Sized true row = framing_or-Ensures Rows _
  rows_or_unsupported-Sized false row =
      bind-Ensures Rows Rows (lift (tabulate row count 0)) check (tabulate-Sized row count)
        λ vals h. check-Sized count vals h

  repeated-length : (vals : List Value) → length vals ≡ 1 → Rows (repeated rec t count vals)
  repeated-length [] h = grind arith
  repeated-length (v ∷ vs) h = replicate-length count v

  module _ (rec-Sized : (t : LogicalType) (n : ℕ) → Sized n (rec t n)) where
    module _ (b : Bool) (validity : Option (List ℕ)) where
      string_rows-Sized : Sized count (
          for_range (string_cell rec t count b validity) count 0 >>= λ vals.
          if b then unsupported_but_parsed t else check vals)
      string_rows-Sized =
          bind-Ensures Rows Rows (for_range (string_cell rec t count b validity) count 0)
            (λ vals. if b then unsupported_but_parsed t else check vals)
            (for_range-length (string_cell rec t count b validity) count 0)
            λ vals h. if-Ensures Rows b _ _ (framing_or-Ensures Rows _) (check-Sized count vals h)

      string_vector-Sized : Sized count (string_vector rec t count b validity)
      unfolding string_vector
      string_vector-Sized = search (then-Ensures, string_rows-Sized) depth 8

      struct_vector-Sized : Sized count (struct_vector rec t count b validity)
      unfolding struct_vector
      struct_vector-Sized = search (then-Ensures, rows_or_unsupported-Sized) depth 8

      with_child-Sized :
          (f : LogicalType → Decode (List Value))
          → ((c : LogicalType) → Sized count (f c))
          → (c : Child) → Sized count (with_child rec t count b validity f c)
      with_child-Sized f h no_child = throw-Ensures Rows (missing child_type)
      with_child-Sized f h (child c) = record { holds = (h c).holds }

      nested_rows-Sized :
          (x : Result CodecError (List Value)) (row : List Value → ℕ → Result CodecError Value)
          → Sized count (nested_rows rec t count b validity x row)
      nested_rows-Sized (ok vals) row = rows_or_unsupported-Sized b (row vals)
      nested_rows-Sized (err e) row =
          if-Ensures Rows b _ _ (framing_or-Ensures Rows _) (framing_or-Ensures Rows e)

      list_vector-Sized : Sized count (list_vector rec t count b validity)
      unfolding list_vector
      list_vector-Sized = search (then-Ensures, with_child-Sized, nested_rows-Sized) depth 14

      array_vector-Sized : Sized count (array_vector rec t count b validity)
      unfolding array_vector
      array_vector-Sized = search (then-Ensures, with_child-Sized, nested_rows-Sized) depth 14

      sized_vector-Sized : (w : ℕ) → Sized count (sized_vector rec t count b validity w)
      unfolding sized_vector
      sized_vector-Sized w = search (then-Ensures, rows_or_unsupported-Sized) depth 8

      unsized_vector-Sized : Sized count (unsized_vector rec t count b validity)
      unfolding unsized_vector
      unsized_vector-Sized = search (then-Ensures, framing_or-Ensures) depth 8

      nested_or_scalar_vector-Sized : Sized count (nested_or_scalar_vector rec t count b validity)
      unfolding nested_or_scalar_vector scalar_vector
      nested_or_scalar_vector-Sized =
          search
            (
              if-Ensures, struct_vector-Sized, list_vector-Sized, array_vector-Sized,
              sized_vector-Sized, unsized_vector-Sized,
            )
            depth 8

    vector_of_type-Sized :
        (b : Bool) (validity : Option (List ℕ))
        → Sized count (vector_of_type rec t count b validity)
    unfolding vector_of_type
    vector_of_type-Sized b validity =
        search (if-Ensures, string_vector-Sized, nested_or_scalar_vector-Sized) depth 8

    decode_flat_vector-Sized : Sized count (decode_flat_vector rec t count)
    unfolding decode_flat_vector
    decode_flat_vector-Sized = search (then-Ensures, vector_of_type-Sized) depth 10

    constant_vector-Sized : Sized count (constant_vector rec t count)
    unfolding constant_vector
    constant_vector-Sized =
        bind-Ensures (λ vals. length vals ≡ 1) Rows (rec t 1) _ (rec-Sized t 1)
          λ vals h. done-Ensures Rows (repeated rec t count vals) (repeated-length vals h)

    dictionary_vector-Sized : Sized count (dictionary_vector rec t count)
    unfolding dictionary_vector
    dictionary_vector-Sized = search (then-Ensures, tabulate-Sized) depth 12

    sequence_vector-Sized : Sized count (sequence_vector rec t count)
    unfolding sequence_vector
    sequence_vector-Sized = search (then-Ensures, tabulate-Sized) depth 12

    vector_object-Sized : Sized count (vector_object rec t count)
    unfolding vector_object vector_of_kind
    vector_object-Sized =
        search
          (
            then-Ensures, if-Ensures, throw-Ensures, decode_flat_vector-Sized,
            constant_vector-Sized, dictionary_vector-Sized, sequence_vector-Sized,
          )
          depth 12

pub decode_vector-Sized :
    (levels : ℕ) (t : LogicalType) (count : ℕ) → Sized count (decode_vector levels t count)
unfolding decode_vector
decode_vector-Sized zero t count = throw-Ensures (λ vals. length vals ≡ count) vector_too_deep
decode_vector-Sized (suc levels) t count = record {
  holds = (vector_object-Sized (decode_vector levels) t count (decode_vector-Sized levels)).holds;
}

-- Whatever the input, a vector that decodes has one value for each of the rows that were asked for.
decode_vector-length :
    (levels : ℕ) (t : LogicalType) (count : ℕ) (r : Reader) (vals : List Value)
    → (decode_vector levels t count r).0 ≡ ok vals
    → length vals ≡ count
decode_vector-length levels t count r vals e =
    OkHas-ok (λ vs. length vs ≡ count) (decode_vector levels t count r).0 vals
      ((decode_vector-Sized levels t count).holds r) e

-- ===== src/Codectest/StructVectors.antt =====
-- The STRUCT vectors of codec/codectest/codectest.go against those of codec/chunk.go.
use duckcall.Base.{
  ℕ, zero, suc, ◌+◌, ◌≡◌, refl, ap, ◌∙◌, subst, false, List, [], ◌∷◌, ◌++◌, Option, some, ok,
  length, get_elem?, eq→==, arith, append_assoc, append-nil, length-append, map, All,
}
use duckcall.Qser.Varint.{IsU64, id_bytes}
use duckcall.Qser.Bytes.{uvarint_bytes}
use duckcall.Qser.Reader.{end_id}
use duckcall.Qser.Writer.{put_field, put_end}
use duckcall.Qser.Optional.{end_object-end}
use duckcall.Qser.RoundTrip.{put_uvarint-wrote, list_count-at}
use duckcall.Codec.Types.{
  type_struct, id_of, fields_of, count_fields, LogicalType, Fields, no_fields, field, Value, null,
  struct, Entries, entry,
}
use duckcall.Codec.Decode.{Decode, require, refuse}
use duckcall.Codec.Vectors.{
  element, struct_child, struct_children, struct_entries, struct_row, struct_vector, tolerate,
}
use duckcall.Codectest.VectorWriter.{
  validity_mask, nth_entry, field_value, write_field_vector, write_vector, write_field_vectors,
  write_struct_vector,
}
use duckcall.Codectest.Encodes.{Encodes, try_field-same}
use duckcall.Codectest.Rows.{rows-at, first_is}
use duckcall.Codectest.Validity.{valid-validity_mask}
use duckcall.Codectest.StructColumns.{
  Named, named, no_more, IsStruct, null_struct, is_named, IsFrom, IsFrom-start, column, cell_of,
  oks, any_unsupported-oks, head_entry, tail_entries, all_next, collect-column,
}

get_elem?-map :
    (f : Value → Value) (vals : List Value) (i : ℕ) (v : Value)
    → get_elem? vals i ≡ some v
    → element (map f vals) i ≡ f v
get_elem?-map f [] i v e = absurd cc
get_elem?-map f (x ∷ vals) zero v e = ap f cc
get_elem?-map f (x ∷ vals) (suc i) v e = get_elem?-map f vals i v e

cell_is :
    (name : List ℕ) (t : LogicalType) (fs : Fields) (j : ℕ) (es rest : Entries) (v : Value)
    → ((k : ℕ) → nth_entry (j + k) es ≡ nth_entry k (entry name v rest))
    → cell_of j (struct es) ≡ v
unfolding field_value nth_entry
cell_is name t fs j es rest v h = rw (head_entry name t fs j es (entry name v rest) h)

All-at :
    (P : Value → Type 0) (vals : List Value) (i : ℕ) (v : Value)
    → All P vals
    → get_elem? vals i ≡ some v
    → P v
All-at P [] i v h e = absurd cc
All-at P (x ∷ vals) zero v (h, hs) e = subst P (first_is x vals v e) h
All-at P (x ∷ vals) (suc i) v (h, hs) e = All-at P vals i v hs e

all-IsFrom : (fs : Fields) (vals : List Value) → All (IsStruct fs) vals → All (IsFrom fs 0) vals
all-IsFrom fs [] h = tt
all-IsFrom fs (v ∷ vals) (h, hs) = (IsFrom-start fs v h, all-IsFrom fs vals hs)

pub length-column : (j : ℕ) (vals : List Value) → length (column j vals) ≡ length vals
length-column j [] = refl
length-column j (v ∷ vals) = λ i. suc (length-column j vals i)

module _ (rec : LogicalType → ℕ → Decode (List Value)) (u : LogicalType) (vals : List Value) where
  abbrev mask : Option (List ℕ)
  mask = validity_mask vals

  -- The entries of a row, from the j-th on.
  entries_at :
      (fs : Fields) (j i : ℕ) (es rest : Entries)
      → get_elem? vals i ≡ some (struct es)
      → ((k : ℕ) → nth_entry (j + k) es ≡ nth_entry k rest)
      → Named fs rest
      → struct_entries rec u (length vals) false mask fs (oks fs j vals) i ≡ rest
  unfolding struct_entries
  entries_at _ j i es _ e h no_more = refl
  entries_at _ j i es _ e h (named name t v fs rest n) = λ k.
      entry name (first k)
        (entries_at fs (suc j) i es rest e (tail_entries name t fs j es rest v h) n k)
    where
      first : element (column j vals) i ≡ v
      first = get_elem?-map (cell_of j) vals i (struct es) e ∙ cell_is name t fs j es rest v h

  row_is :
      (fs : Fields) (i : ℕ) (v : Value)
      → fields_of u ≡ fs
      → IsStruct fs v
      → get_elem? vals i ≡ some v
      → struct_row rec u (length vals) false mask (oks fs 0 vals) i ≡ ok v
  unfolding struct_row
  row_is fs i _ same null_struct e = rw (valid-validity_mask vals i null e)
  row_is fs i _ same (is_named es n) e = rw (
    valid-validity_mask vals i (struct es) e,
    same,
    entries_at fs 0 i es es e (λ k. ap (λ (m : ℕ). nth_entry m es) (omega arith)) n,
  )

  -- Each field's vector encodes.
  abbrev pub ColumnsEncode : Fields → ℕ → Type 0
  ColumnsEncode no_fields j = Unit {0}
  ColumnsEncode (field name t fs) j =
      Encodes 1 (write_vector t (column j vals)) (rec t (length vals)) (column j vals)
      × ColumnsEncode fs (suc j)

  children-Encodes :
      (fs : Fields) (j : ℕ)
      → All (IsFrom fs j) vals
      → ColumnsEncode fs j
      → Encodes
          (count_fields fs)
          (write_field_vectors fs j vals)
          (struct_children rec u (length vals) false mask fs)
          (oks fs j vals)
  unfolding write_field_vectors write_field_vector struct_children struct_child tolerate put_end
      put_field
  children-Encodes no_fields j all es = record {
    bytes = [];
    writes = λ w. rw append-nil;
    reads = λ pre more. rw append-nil;
    long = omega arith;
  }
  children-Encodes (field name t fs) j all (x, xs) =
      let rest = children-Encodes fs (suc j) (all_next name t fs j vals all) xs in
      record {
        bytes = x.bytes ++ (id_bytes end_id ++ rest.bytes);
        writes = λ w.
            rw (collect-column name t fs j vals all, x.writes, rest.writes) (simp append_assoc);
        reads = λ pre more.
            simp append_assoc (rw (x.reads, end_object-end, rest.reads) (simp append_assoc));
        long =
            omega (arith, x.long, rest.long, length-append x.bytes (id_bytes end_id ++ rest.bytes));
      }

  pub structs-Encodes :
      (fs : Fields)
      → fields_of u ≡ fs
      → id_of u ≡ type_struct
      → IsU64 (count_fields fs)
      → All (IsStruct fs) vals
      → ColumnsEncode fs 0
      → Encodes 1
          (write_struct_vector (count_fields fs) (write_field_vectors fs) vals)
          (struct_vector rec u (length vals) false mask)
          vals
  unfolding write_struct_vector struct_vector require refuse put_field
  structs-Encodes fs same is_struct small are es =
      let cs = children-Encodes fs 0 (all-IsFrom fs vals are) es in
      record {
        bytes = id_bytes 103 ++ (uvarint_bytes 9 (count_fields fs) ++ cs.bytes);
        writes =
            λ w. rw (put_uvarint-wrote (count_fields fs) _ small, cs.writes) (simp append_assoc);
        reads = λ pre more. simp append_assoc (
            rw
              (
                try_field-same 103 pre (uvarint_bytes 9 (count_fields fs) ++ (cs.bytes ++ more))
                    refl,
                list_count-at (count_fields fs) _ (cs.bytes ++ more) small
                    (omega (arith, cs.long, length-append cs.bytes more)),
                same,
                eq→== (count_fields fs) (count_fields fs) refl,
                cs.reads,
                any_unsupported-oks rec u (length vals) mask fs 0 vals,
                is_struct,
                rows-at rec u vals (struct_row rec u (length vals) false mask (oks fs 0 vals)) _
                    more (λ i v e. row_is fs i v same (All-at (IsStruct fs) vals i v are e) e),
              )
              (simp append_assoc));
        long = omega arith;
      }

-- ===== src/Codectest/StructColumns.antt =====
-- The values of the fields of a struct column in codec/codectest/codectest.go.
use duckcall.Base.{
  ℕ, suc, ◌+◌, ◌≡◌, refl, ap, ◌∙◌, false, List, [], ◌∷◌, Option, none, some, Result, ok, arith, map,
  All,
}
use duckcall.Codec.Types.{
  LogicalType, Fields, no_fields, field, CodecError, Value, null, struct, Entries, no_entries,
  entry,
}
use duckcall.Codec.Decode.{Decode}
use duckcall.Codec.Vectors.{any_unsupported}
use duckcall.Codectest.VectorWriter.{collect, nth_entry, field_value}

-- Entries with the names of the fields.
pub data Named : Fields → Entries → Type 0 where
  no_more : Named no_fields no_entries
  named :
      (name : List ℕ) (t : LogicalType) (v : Value) (fs : Fields) (es : Entries)
      → Named fs es
      → Named (field name t fs) (entry name v es)

-- NULL or a struct with the names of the fields.
pub data IsStruct (fs : Fields) : Value → Type 0 where
  null_struct : IsStruct fs null
  is_named : (es : Entries) → Named fs es → IsStruct fs (struct es)

-- The same of the fields from the j-th on, with `rest` the entries from there on.
pub data IsFrom (fs : Fields) (j : ℕ) : Value → Type 0 where
  null_from : IsFrom fs j null
  struct_from :
      (es rest : Entries)
      → ((k : ℕ) → nth_entry (j + k) es ≡ nth_entry k rest)
      → Named fs rest
      → IsFrom fs j (struct es)

pub IsFrom-start : (fs : Fields) (v : Value) → IsStruct fs v → IsFrom fs 0 v
IsFrom-start fs _ null_struct = null_from
IsFrom-start fs _ (is_named es h) =
    struct_from es es (λ k. ap (λ (n : ℕ). nth_entry n es) (omega arith)) h

abbrev pub or_null : Option Value → Value
or_null none = null
or_null (some v) = v

abbrev pub cell_of : ℕ → Value → Value
cell_of j v = or_null (field_value j v)

-- The values of the j-th field.
abbrev pub column : ℕ → List Value → List Value
column j vals = map (cell_of j) vals

module _ (name : List ℕ) (t : LogicalType) (fs : Fields) (j : ℕ) where
  pub head_entry :
      (es rest : Entries)
      → ((k : ℕ) → nth_entry (j + k) es ≡ nth_entry k rest)
      → nth_entry j es ≡ nth_entry 0 rest
  head_entry es rest h = ap (λ (n : ℕ). nth_entry n es) (omega arith) ∙ h 0

  pub tail_entries :
      (es rest : Entries) (v : Value)
      → ((k : ℕ) → nth_entry (j + k) es ≡ nth_entry k (entry name v rest))
      → (k : ℕ) → nth_entry (suc j + k) es ≡ nth_entry k rest
  unfolding nth_entry
  tail_entries es rest v h k = ap (λ (n : ℕ). nth_entry n es) (omega arith) ∙ h (suc k)

  next-IsFrom : (v : Value) → IsFrom (field name t fs) j v → IsFrom fs (suc j) v
  next-IsFrom _ null_from = null_from
  next-IsFrom _ (struct_from es _ h (named _ _ v _ rest n)) =
      struct_from es rest (tail_entries es rest v h) n

  field_there : (v : Value) → IsFrom (field name t fs) j v → field_value j v ≡ some (cell_of j v)
  unfolding field_value nth_entry
  field_there _ null_from = refl
  field_there _ (struct_from es _ h (named _ _ v _ rest n)) =
      rw (head_entry es (entry name v rest) h)

  pub all_next :
      (vals : List Value) → All (IsFrom (field name t fs) j) vals → All (IsFrom fs (suc j)) vals
  all_next [] h = tt
  all_next (v ∷ vals) (h, hs) = (next-IsFrom v h, all_next vals hs)

  pub collect-column :
      (vals : List Value)
      → All (IsFrom (field name t fs) j) vals
      → collect (field_value j) vals ≡ some (column j vals)
  unfolding collect
  collect-column [] h = refl
  collect-column (v ∷ vals) (h, hs) = rw (field_there v h, collect-column vals hs)

abbrev pub oks : Fields → ℕ → List Value → List (Result CodecError (List Value))
oks no_fields j vals = []
oks (field name t fs) j vals = ok (column j vals) ∷ oks fs (suc j) vals

pub any_unsupported-oks :
    (rec : LogicalType → ℕ → Decode (List Value)) (u : LogicalType) (count : ℕ)
    (mask : Option (List ℕ)) (fs : Fields) (j : ℕ) (vals : List Value)
    → any_unsupported rec u count false mask (oks fs j vals) ≡ false
unfolding any_unsupported
any_unsupported-oks rec u count mask no_fields j vals = refl
any_unsupported-oks rec u count mask (field name t fs) j vals =
    any_unsupported-oks rec u count mask fs (suc j) vals

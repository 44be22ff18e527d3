-- ===== src/Codec/Vectors/Outcomes.antt =====
-- What decodeVector of codec/chunk.go does with values and errors.
use duckcall.Base.{
  ℕ, zero, suc, ◌+◌, ◌^◌, List, [], ◌∷◌, Option, none, some, Result, ok, err, get_elem?,
}
use duckcall.Qser.Reader.{Error, Reader}
use duckcall.Codec.Types.{
  LogicalType, CodecError, framing, unsupported, Value, null, struct, Values, no_values, value,
  no_entries, entry, Pairs, no_pairs, pair,
}
use duckcall.Codec.Decode.{Decode}

abbrev pub max_chunk_rows : ℕ
max_chunk_rows = 2 ^ 16

abbrev pub max_vector_rows : ℕ
max_vector_rows = 2 ^ 24

-- A (value, error) pair that needs no reader.
abbrev pub lift {ℓ} : {A : Type ℓ} → Result CodecError A → Decode A
lift x r = (x, r)

abbrev pub no_error : CodecError → Option Error → CodecError
no_error e none = e
no_error e (some f) = framing f

-- `if err := r.Err(); err != nil { return nil, err }; return nil, e`
unfoldable pub framing_or {ℓ} : {A : Type ℓ} → CodecError → Decode A
framing_or e r = (err (no_error e r.err), r)

abbrev pub unsupported_but_parsed {ℓ} : {A : Type ℓ} → LogicalType → Decode A
unsupported_but_parsed t = framing_or (unsupported t)

-- `err != nil && !isUnsupported(err)` returns; another outcome is kept for later.
abbrev pub outcome {ℓ} :
    {A : Type ℓ} → Result CodecError A → Result CodecError (Result CodecError A)
outcome (ok a) = ok (ok a)
outcome (err (unsupported t)) = ok (err (unsupported t))
outcome (err e) = err e

abbrev pub outcome_of {ℓ} :
    {A : Type ℓ} → Result CodecError A × Reader → Result CodecError (Result CodecError A) × Reader
outcome_of (x, r) = (outcome x, r)

unfoldable pub tolerate {ℓ} : {A : Type ℓ} → Decode A → Decode (Result CodecError A)
tolerate m r = outcome_of (m r)

abbrev pub element : List Value → ℕ → Value
element vals i = elim (get_elem? vals i) [ none ↦ null | some v ↦ v ]

abbrev pub push_round {ℓ} :
    {A : Type ℓ} → Result CodecError A → Result CodecError (List A) → Result CodecError (List A)
push_round (err e) rounds = err e
push_round (ok a) (err e) = err e
push_round (ok a) (ok rest) = ok (a ∷ rest)

-- `for i := range n` over a pure body, from round `i` with `left` rounds to go.
unfoldable pub tabulate {ℓ} :
    {A : Type ℓ} → (ℕ → Result CodecError A) → ℕ → ℕ → Result CodecError (List A)
tabulate f zero i = ok []
tabulate f (suc left) i = push_round (f i) (tabulate f left (i + 1))

-- `make([]any, n)` holding `v` throughout.
unfoldable pub replicate : ℕ → Value → List Value
replicate zero v = []
replicate (suc n) v = v ∷ replicate n v

unfoldable pub to_values : List Value → Values
to_values [] = no_values
to_values (v ∷ vs) = value v (to_values vs)

unfoldable pub map_pairs : List Value → Pairs
map_pairs [] = no_pairs
map_pairs (struct (entry _ k (entry _ v no_entries)) ∷ vs) = pair k v (map_pairs vs)
map_pairs (_ ∷ vs) = pair null null (map_pairs vs)

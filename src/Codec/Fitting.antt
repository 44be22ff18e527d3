-- ===== src/Codec/Fitting.antt =====
-- codec/chunk.go: the rows of nested vectors and the types of their child rows.
use duckcall.Base.{
  ℕ, zero, suc, ◌+◌, ◌≡◌, refl, Bool, true, false, List, [], ◌∷◌, All, Option, Result, ok, err,
  take, drop, arith, ◌==◌, subst, sym,
}
use duckcall.Codec.Types.{
  LogicalType, child, Fields, no_fields, field, fields_of, id_of, child_of, type_list, type_array,
  type_map, items, entries, Value, struct, no_entries, entry, CodecError,
}
use duckcall.Codec.Decode.{Decode}
use duckcall.Codec.Vectors.{
  to_values, map_pairs, element, struct_entries, any_unsupported, push_round, tabulate,
}
use duckcall.Codec.Cells.{one_of}
use duckcall.Codec.Ensures.{OkHas}
use duckcall.Codec.GoTypes.{Fits, ValuesFit, EntriesFit, PairsFit, key_type, value_type}

module _ {A : Type 0} (P : A → Type 0) where
  pub take-All : (n : ℕ) (vals : List A) → All P vals → All P (take n vals)
  take-All zero vals h = tt
  take-All (suc n) [] h = tt
  take-All (suc n) (v ∷ vals) (p, h) = (p, take-All n vals h)

  pub drop-All : (n : ℕ) (vals : List A) → All P vals → All P (drop n vals)
  drop-All zero vals h = h
  drop-All (suc n) [] h = tt
  drop-All (suc n) (v ∷ vals) (p, h) = drop-All n vals h

  push_round-All :
      (x : Result CodecError A) (xs : Result CodecError (List A))
      → OkHas P x
      → OkHas (All P) xs
      → OkHas (All P) (push_round x xs)
  unfolding OkHas
  push_round-All (err e) xs p ps = tt
  push_round-All (ok a) (err e) p ps = tt
  push_round-All (ok a) (ok vals) p ps = (p, ps)

  pub tabulate-All :
      (f : ℕ → Result CodecError A)
      → ((i : ℕ) → OkHas P (f i))
      → (n i : ℕ) → OkHas (All P) (tabulate f n i)
  unfolding OkHas tabulate
  tabulate-All f h zero i = tt
  tabulate-All f h (suc n) i =
      push_round-All (f i) (tabulate f n (i + 1)) (h i) (tabulate-All f h n (i + 1))

pub element-Fits :
    (t : LogicalType) (vals : List Value) (i : ℕ) → All (Fits t) vals → Fits t (element vals i)
unfolding Fits
element-Fits t [] i h = tt
element-Fits t (v ∷ vals) zero (p, h) = p
element-Fits t (v ∷ vals) (suc i) (p, h) = element-Fits t vals i h

to_values-Fit :
    (t : LogicalType) (vals : List Value) → All (Fits t) vals → ValuesFit (child t) (to_values vals)
unfolding to_values Fits
to_values-Fit t [] h = tt
to_values-Fit t (v ∷ vals) (p, h) = (p, to_values-Fit t vals h)

two_fields :
    (fs : Fields) (key name : List ℕ) (k v : Value)
    → EntriesFit fs (entry key k (entry name v no_entries))
    → Fits (key_type fs) k × Fits (value_type fs) v
unfolding Fits
two_fields no_fields key name k v h = absurd h
two_fields (field a t no_fields) key name k v (e, p, h) = absurd h
two_fields (field a t (field b u no_fields)) key name k v (e, p, (e', q, h)) = (p, q)
two_fields (field a t (field b u (field c w fs))) key name k v (e, p, (e', q, h)) = absurd h

map_pairs-Fit :
    (t : LogicalType) (vals : List Value) → All (Fits t) vals → PairsFit (child t) (map_pairs vals)
unfolding map_pairs Fits
map_pairs-Fit t [] h = tt
map_pairs-Fit t (struct (entry key k (entry name v no_entries)) ∷ vals) ((e, p), h) =
    let (a, b) = two_fields (fields_of t) key name k v p in (a, b, map_pairs-Fit t vals h)
map_pairs-Fit t (_ ∷ vals) (p, h) = (tt, tt, map_pairs-Fit t vals h)

pub items-Fit :
    (t c : LogicalType) (vals : List Value)
    → one_of (id_of t) (type_list ∷ type_array ∷ []) ≡ true
    → child_of t ≡ child c
    → All (Fits c) vals
    → Fits t (items (to_values vals))
unfolding Fits
items-Fit t c vals nested same h =
    (nested, subst (λ x. ValuesFit x (to_values vals)) (sym same) (to_values-Fit c vals h))

pub entries-Fit :
    (t c : LogicalType) (vals : List Value)
    → (id_of t == type_map) ≡ true
    → child_of t ≡ child c
    → All (Fits c) vals
    → Fits t (entries (map_pairs vals))
unfolding Fits
entries-Fit t c vals a_map same h =
    (a_map, subst (λ x. PairsFit x (map_pairs vals)) (sym same) (map_pairs-Fit c vals h))

-- The child vectors of a struct fit its fields, each where it decodes.
unfoldable pub ChildrenFit : Fields → List (Result CodecError (List Value)) → Type 0
ChildrenFit no_fields cs = Unit
ChildrenFit (field name t fs) [] = ⊥
ChildrenFit (field name t fs) (c ∷ cs) = OkHas (All (Fits t)) c × ChildrenFit fs cs

pub struct_entries-Fit :
    (rec : LogicalType → ℕ → Decode (List Value)) (t : LogicalType) (count : ℕ) (u : Bool)
    (validity : Option (List ℕ)) (fs : Fields) (cs : List (Result CodecError (List Value))) (i : ℕ)
    → ChildrenFit fs cs
    → any_unsupported rec t count u validity cs ≡ false
    → EntriesFit fs (struct_entries rec t count u validity fs cs i)
unfolding ChildrenFit OkHas any_unsupported struct_entries Fits
struct_entries-Fit rec t count u validity no_fields cs i h e = tt
struct_entries-Fit rec t count u validity (field name ft fs) [] i h e = absurd h
struct_entries-Fit rec t count u validity (field name ft fs) (ok vals ∷ cs) i (p, h) e =
    (refl, element-Fits ft vals i p, struct_entries-Fit rec t count u validity fs cs i h e)
struct_entries-Fit rec t count u validity (field name ft fs) (err x ∷ cs) i (p, h) e =
    absurd (ground arith)

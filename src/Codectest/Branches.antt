-- ===== src/Codectest/Branches.antt =====
-- Which branch of writeVector in codec/codectest/codectest.go and of decodeFlatVector in codec/chunk.go
-- a type takes.
use duckcall.Base.{ℕ, ◌≡◌, true, false, List, [], ◌∷◌, Option, arith}
use duckcall.Codec.Types.{
  type_varchar, type_blob, type_bit, type_list, type_map, LogicalType, logical_type, child,
  no_fields, scalar_type, Value,
}
use duckcall.Codec.Decode.{Decode}
use duckcall.Codec.Cells.{one_of, supported_scalar}
use duckcall.Codec.Vectors.{
  vector_of_type, nested_or_scalar_vector, scalar_vector, string_vector, list_vector,
}
use duckcall.Codectest.Write.{Write}
use duckcall.Codectest.VectorWriter.{write_data, write_strings, write_scalars, write_list_vector}

pub write_cells :
    (t : LogicalType) (p : List Value → Write) (q : ℕ → List Value → Write) (vals : List Value)
    → supported_scalar t ≡ true
    → write_data t p q vals ≡ write_scalars t vals
unfolding write_data supported_scalar
write_cells (logical_type id w s c fs e n) p q vals h = ground arith

pub read_cells :
    (rec : LogicalType → ℕ → Decode (List Value)) (t : LogicalType) (count : ℕ)
    (mask : Option (List ℕ))
    → supported_scalar t ≡ true
    → vector_of_type rec t count false mask ≡ scalar_vector rec t count false mask
unfolding vector_of_type nested_or_scalar_vector supported_scalar
read_cells rec (logical_type id w s c fs e n) count mask h = ground arith

pub write_string_type :
    (id : ℕ) (p : List Value → Write) (q : ℕ → List Value → Write) (vals : List Value)
    → one_of id (type_varchar ∷ type_blob ∷ type_bit ∷ []) ≡ true
    → write_data (scalar_type id) p q vals ≡ write_strings id vals
unfolding write_data
write_string_type id p q vals h = ground arith

pub read_string_type :
    (rec : LogicalType → ℕ → Decode (List Value)) (id count : ℕ) (mask : Option (List ℕ))
    → one_of id (type_varchar ∷ type_blob ∷ type_bit ∷ []) ≡ true
    → vector_of_type rec (scalar_type id) count false mask
      ≡ string_vector rec (scalar_type id) count false mask
unfolding vector_of_type
read_string_type rec id count mask h = ground arith

-- The nested types.
module _ (rec : LogicalType → ℕ → Decode (List Value)) (count : ℕ) (mask : Option (List ℕ)) where
  pub read_list_type :
      (id : ℕ) (c : LogicalType)
      → one_of id (type_list ∷ type_map ∷ []) ≡ true
      → let t = logical_type id 0 0 (child c) no_fields [] 0 in
        vector_of_type rec t count false mask ≡ list_vector rec t count false mask
  unfolding vector_of_type nested_or_scalar_vector
  read_list_type id c h = ground arith

pub write_list_type :
    (id : ℕ) (c : LogicalType) (p : List Value → Write) (q : ℕ → List Value → Write)
    (vals : List Value)
    → one_of id (type_list ∷ type_map ∷ []) ≡ true
    → write_data (logical_type id 0 0 (child c) no_fields [] 0) p q vals
      ≡ write_list_vector (child c) p vals
unfolding write_data
write_list_type id c p q vals h = ground arith

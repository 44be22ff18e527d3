-- ===== src/Codectest/TypeRoundTrip.antt =====
-- WriteType of codec/codectest/codectest.go against decodeType of codec/logicaltype.go.
use duckcall.Base.{
  ℕ, suc, ◌+◌, ◌^◌, ◌<◌, ◌≡◌, refl, true, false, List, [], ◌∷◌, ◌++◌, some, ok, length,
  append_assoc, arith, All, subst, sym,
}
use duckcall.Qser.Varint.{IsU64, id_bytes}
use duckcall.Qser.Bytes.{uvarint_bytes}
use duckcall.Qser.Reader.{end_id}
use duckcall.Qser.Writer.{new_writer, put_field, put_end, put_field_string}
use duckcall.Qser.RoundTrip.{string_bytes, put_string-wrote}
use duckcall.Qser.Optional.{end_object-end}
use duckcall.Codec.Types.{
  LogicalType, logical_type, no_child, child, Fields, no_fields, field, scalar_type, count_fields,
  type_list, type_map, type_struct, type_union, type_variant, type_enum, type_array, type_decimal,
}
use duckcall.Codec.Decode.{Decode, require, for_range}
use duckcall.Codec.Cells.{one_of}
use duckcall.Codec.TypeTree.{decode_type, type_levels, to_fields, struct_field, type_object}
use duckcall.Codectest.Write.{Write, skip}
use duckcall.Codectest.TypeWriter.{
  write_type, write_field_types, write_field, decimal_type, write_type_object, write_type_info,
  write_decimal_info, write_list_info, write_struct_info, write_enum_info, write_array_info,
}
use duckcall.Codectest.Encodes.{decoded, Encodes-decoded, Encodes, try_field-same, string-at_apart}
use duckcall.Codectest.Objects.{info-Encodes, scalar-Encodes}
use duckcall.Codectest.Lists.{none-Encodes, one_more-Encodes}
use duckcall.Codectest.Infos.{
  decimal_info-Encodes, list_info-Encodes, array_info-Encodes, struct_info-Encodes,
  enum_info-Encodes,
}

-- The types with type info that the encoder writes.
abbrev pub has_info : List ℕ
has_info =
    type_decimal ∷ type_list ∷ type_map ∷ type_struct ∷ type_union ∷ type_variant ∷ type_enum
    ∷ type_array ∷ []

-- A type whose parts are those its id asks for, at most `levels` deep, with sizes in range.
mutual
  pub data IsType : ℕ → LogicalType → Type 0 where
    is_scalar :
        (l id : ℕ) → one_of id has_info ≡ false → id < 2 ^ 32 → IsType (suc l) (scalar_type id)
    is_decimal :
        (l width scale : ℕ) → width < 256 → scale < 256 → IsType (suc l) (decimal_type width scale)
    is_list :
        (l id : ℕ) (t : LogicalType)
        → one_of id (type_list ∷ type_map ∷ []) ≡ true
        → IsType l t
        → IsType (suc l) (logical_type id 0 0 (child t) no_fields [] 0)
    is_struct :
        (l id : ℕ) (fs : Fields)
        → one_of id (type_struct ∷ type_union ∷ type_variant ∷ []) ≡ true
        → IsU64 (count_fields fs)
        → AreFields l fs
        → IsType (suc l) (logical_type id 0 0 no_child fs [] 0)
    is_enum :
        (l : ℕ) (values : List (List ℕ))
        → IsU64 (length values)
        → All (λ s. IsU64 (length s)) values
        → IsType (suc l) (logical_type type_enum 0 0 no_child no_fields values 0)
    is_array :
        (l : ℕ) (t : LogicalType) (size : ℕ)
        → size < 2 ^ 32
        → IsType l t
        → IsType (suc l) (logical_type type_array 0 0 (child t) no_fields [] size)

  pub data AreFields : ℕ → Fields → Type 0 where
    nothing_more : (l : ℕ) → AreFields l no_fields
    one_field :
        (l : ℕ) (name : List ℕ) (t : LogicalType) (fs : Fields)
        → IsU64 (length name)
        → IsType l t
        → AreFields l fs
        → AreFields l (field name t fs)

unfoldable from_fields : Fields → List (List ℕ × LogicalType)
from_fields no_fields = []
from_fields (field name t fs) = (name, t) ∷ from_fields fs

to_fields-from_fields : (fs : Fields) → to_fields (from_fields fs) ≡ fs
unfolding to_fields from_fields
to_fields-from_fields no_fields = refl
to_fields-from_fields (field name t fs) = λ i. field name t (to_fields-from_fields fs i)

length-from_fields : (fs : Fields) → length (from_fields fs) ≡ count_fields fs
unfolding from_fields
length-from_fields no_fields = refl
length-from_fields (field name t fs) = λ i. suc (length-from_fields fs i)

field-Encodes :
    (id i : ℕ) (rec : Decode LogicalType) (name : List ℕ) (p : Write) (t : LogicalType)
    → IsU64 (length name)
    → Encodes 1 p rec t
    → Encodes 1 (write_field name p) (struct_field id rec i) (name, t)
unfolding write_field struct_field require put_field put_field_string put_end
field-Encodes id i rec name p t h e = record {
  bytes = id_bytes 0 ++ (string_bytes name ++ (id_bytes 1 ++ (e.bytes ++ id_bytes end_id)));
  writes = λ w. rw (put_string-wrote name _ h, e.writes) (simp append_assoc);
  reads = λ pre more. simp append_assoc (
      rw
        (
          try_field-same 0 pre
              (uvarint_bytes 9 (length name)
                ++ (name ++ (id_bytes 1 ++ (e.bytes ++ (id_bytes end_id ++ more)))))
              refl,
          string-at_apart name _ (id_bytes 1 ++ (e.bytes ++ (id_bytes end_id ++ more))) h,
          try_field-same 1 _ (e.bytes ++ (id_bytes end_id ++ more)) refl,
          e.reads,
          end_object-end,
        )
        (simp append_assoc));
  long = omega arith;
}

-- What WriteType does for each kind of type.
module _ (id : ℕ) where
  write_scalar :
      one_of id has_info ≡ false → (p q : Write) → write_type_info (scalar_type id) p q ≡ skip
  unfolding write_type_info
  write_scalar h p q = ground arith

  write_list_type :
      one_of id (type_list ∷ type_map ∷ []) ≡ true
      → (t : LogicalType) (p q : Write)
      → write_type_info (logical_type id 0 0 (child t) no_fields [] 0) p q ≡ write_list_info p
  unfolding write_type_info
  write_list_type h t p q = ground arith

  write_struct_type :
      one_of id (type_struct ∷ type_union ∷ type_variant ∷ []) ≡ true
      → (fs : Fields) (p q : Write)
      → write_type_info (logical_type id 0 0 no_child fs [] 0) p q
        ≡ write_struct_info (count_fields fs) q
  unfolding write_type_info
  write_struct_type h fs p q = ground arith

  small_list : one_of id (type_list ∷ type_map ∷ []) ≡ true → id < 2 ^ 32
  small_list h = ground arith

  small_struct : one_of id (type_struct ∷ type_union ∷ type_variant ∷ []) ≡ true → id < 2 ^ 32
  small_struct h = ground arith

-- The kinds of type, given what their parts do.
module _ (l : ℕ) where
  abbrev ObjectEncodes : ℕ → Write → LogicalType → Type 0
  ObjectEncodes id info t = Encodes 1 (write_type_object id info) (type_object (decode_type l)) t

  scalar-ObjectEncodes :
      (id : ℕ) (p q : Write)
      → one_of id has_info ≡ false
      → id < 2 ^ 32
      → ObjectEncodes id (write_type_info (scalar_type id) p q) (scalar_type id)
  scalar-ObjectEncodes id p q h small =
      subst (λ info. ObjectEncodes id info (scalar_type id)) (sym (write_scalar id h p q))
        (scalar-Encodes id (decode_type l) small)

  list-ObjectEncodes :
      (id : ℕ) (t : LogicalType) (p q : Write)
      → one_of id (type_list ∷ type_map ∷ []) ≡ true
      → Encodes 1 p (decode_type l) t
      → ObjectEncodes id
          (write_type_info (logical_type id 0 0 (child t) no_fields [] 0) p q)
          (logical_type id 0 0 (child t) no_fields [] 0)
  unfolding write_list_info
  list-ObjectEncodes id t p q h e =
      subst (λ info. ObjectEncodes id info (logical_type id 0 0 (child t) no_fields [] 0))
        (sym (write_list_type id h t p q))
        (info-Encodes id 4 _ (decode_type l) _ (small_list id h) (omega arith)
          (list_info-Encodes id (decode_type l) p t e))

  struct-ObjectEncodes :
      (id : ℕ) (fs : Fields) (p q : Write)
      → one_of id (type_struct ∷ type_union ∷ type_variant ∷ []) ≡ true
      → IsU64 (count_fields fs)
      → Encodes
          (length (from_fields fs))
          q
          (for_range (struct_field id (decode_type l)) (length (from_fields fs)) 0)
          (from_fields fs)
      → ObjectEncodes id
          (write_type_info (logical_type id 0 0 no_child fs [] 0) p q)
          (logical_type id 0 0 no_child fs [] 0)
  unfolding write_struct_info
  struct-ObjectEncodes id fs p q h n e =
      subst (λ info. ObjectEncodes id info (logical_type id 0 0 no_child fs [] 0))
        (sym (write_struct_type id h fs p q))
        (subst
          (λ k. ObjectEncodes id (write_struct_info k q) (logical_type id 0 0 no_child fs [] 0))
          (length-from_fields fs)
          (subst
            (λ gs.
              ObjectEncodes id (write_struct_info (length (from_fields fs)) q)
                (logical_type id 0 0 no_child gs [] 0))
            (to_fields-from_fields fs)
            (info-Encodes id 5 _ (decode_type l) _ (small_struct id h) (omega arith) (
              struct_info-Encodes id (decode_type l) q (from_fields fs)
                (omega (arith, length-from_fields fs)) e))))

mutual
  unfolding write_type decode_type write_type_info from_fields decimal_type write_decimal_info
      write_enum_info write_array_info

  pub type-Encodes :
      (l : ℕ) (t : LogicalType) → IsType l t → Encodes 1 (write_type t) (decode_type l) t
  type-Encodes _ _ (is_scalar l id h small) = scalar-ObjectEncodes l id _ _ h small
  type-Encodes _ _ (is_decimal l width scale hw hs) =
      info-Encodes type_decimal 2 _ (decode_type l) _ (omega arith) (omega arith)
        (decimal_info-Encodes type_decimal (decode_type l) width scale hw hs)
  type-Encodes _ _ (is_list l id t h is) = list-ObjectEncodes l id t _ _ h (type-Encodes l t is)
  type-Encodes _ _ (is_struct l id fs h n is) =
      struct-ObjectEncodes l id fs _ _ h n (fields-Encodes id 0 l fs is)
  type-Encodes _ _ (is_enum l values h hs) =
      info-Encodes type_enum 6 _ (decode_type l) _ (omega arith) (omega arith)
        (enum_info-Encodes type_enum (decode_type l) values h hs)
  type-Encodes _ _ (is_array l t size h is) =
      info-Encodes type_array 9 _ (decode_type l) _ (omega arith) (omega arith) (
        array_info-Encodes type_array (decode_type l) (write_type t) t size h (type-Encodes l t is))

  fields-Encodes :
      (id i l : ℕ) (fs : Fields)
      → AreFields l fs
      → Encodes
          (length (from_fields fs))
          (write_field_types fs)
          (for_range (struct_field id (decode_type l)) (length (from_fields fs)) i)
          (from_fields fs)
  fields-Encodes id i _ _ (nothing_more l) = none-Encodes _ i
  fields-Encodes id i _ _ (one_field l name t fs h is are) =
      one_more-Encodes _ i (length (from_fields fs)) (length (from_fields fs)) _ _ (name, t)
        (from_fields fs) (field-Encodes id i (decode_type l) name _ t h (type-Encodes l t is))
        (fields-Encodes id (i + 1) l fs are)

-- A type at most 65 deep that has the parts its id asks for, with sizes in range, is written without
-- a panic. Whatever bytes follow, decodeType reads the same type back, without an error, and stops
-- where they start.
pub decode_type-write_type :
    (t : LogicalType) (more : List ℕ)
    → IsType type_levels t
    → decoded (decode_type type_levels) more (write_type t new_writer) ≡ some (ok t, more)
decode_type-write_type t more is =
    Encodes-decoded 1 (write_type t) (decode_type type_levels) t more
      (type-Encodes type_levels t is)

-- ===== src/Codectest/Objects.antt =====
-- WriteType of codec/codectest/codectest.go against decodeType of codec/logicaltype.go.
use duckcall.Base.{
  ℕ, ◌%◌, ◌^◌, ◌<◌, ◌≡◌, refl, true, List, ◌∷◌, ◌++◌, some, ok, append_assoc, arith,
}
use duckcall.Qser.Varint.{IsU64, id_bytes}
use duckcall.Qser.Reader.{end_id}
use duckcall.Qser.Writer.{Writer, put_field, put_end, put_bool}
use duckcall.Qser.At.{at}
use duckcall.Qser.Groups.{uvarint-at}
use duckcall.Qser.RoundTrip.{wrote, present-at, put_end-wrote}
use duckcall.Qser.Optional.{
  NotNext, field-NotNext, uvarint_field, put_field_uvarint-wrote, end_object-end,
}
use duckcall.Codec.Types.{LogicalType, scalar_type}
use duckcall.Codec.Decode.{Decode, require, refuse}
use duckcall.Codec.TypeTree.{decode_type_info, type_object, info_of_kind}
use duckcall.Codectest.Write.{Write, skip}
use duckcall.Codectest.TypeWriter.{write_info, write_type_object}
use duckcall.Codectest.Encodes.{check-at, Encodes, try_field-same}

-- The info object of a kind around its fields in `body`, after the presence flag.
abbrev info_bytes : ℕ → List ℕ → List ℕ
info_bytes kind body = id_bytes 101 ++ (1 ∷ (uvarint_field 100 kind ++ (body ++ id_bytes end_id)))

write_info-wrote :
    (kind : ℕ) (p : Write) (body : List ℕ) (w : Writer)
    → IsU64 kind
    → ((w : Writer) → p w ≡ some (wrote w body))
    → write_info kind p w ≡ some (wrote w (info_bytes kind body))
unfolding write_info put_bool put_field put_end
write_info-wrote kind p body w h writes =
    rw (put_field_uvarint-wrote 100 kind _ h, writes) (simp append_assoc)

-- An info object that a decoder of the kind's fields reads.
decode_type_info-at :
    (id kind : ℕ) (rec : Decode LogicalType) (t : LogicalType) (body pre more : List ℕ)
    → IsU64 kind
    → NotNext 101 (body ++ (id_bytes end_id ++ more))
    → NotNext 103 (body ++ (id_bytes end_id ++ more))
    → ((before : List ℕ)
        → info_of_kind id rec kind (at before (body ++ (id_bytes end_id ++ more)))
          ≡ (ok t, at (before ++ body) (id_bytes end_id ++ more)))
    → decode_type_info id rec
        (at pre ((uvarint_field 100 kind ++ (body ++ id_bytes end_id)) ++ more))
      ≡ (ok t, at (pre ++ (uvarint_field 100 kind ++ (body ++ id_bytes end_id))) more)
unfolding decode_type_info require refuse
decode_type_info-at id kind rec t body pre more h n101 n103 reads = simp append_assoc (
    rw
      (
        try_field-same 100 pre _ refl,
        uvarint-at kind _ _ h,
        n101,
        n103,
        reads _,
        end_object-end,
        check-at,
      )
      (simp append_assoc))

-- A type object whose info, if it has one, a decoder reads.
type_object-at :
    (id : ℕ) (rec : Decode LogicalType) (t : LogicalType) (info pre more : List ℕ)
    → id < 2 ^ 32
    → ((before : List ℕ)
        → decode_type_info id rec (at before (info ++ (id_bytes end_id ++ more)))
          ≡ (ok t, at (before ++ info) (id_bytes end_id ++ more)))
    → type_object rec (
        at pre
          ((uvarint_field 100 id ++ (id_bytes 101 ++ (1 ∷ (info ++ id_bytes end_id)))) ++ more))
      ≡ (
        ok t,
        at
            (pre ++ (uvarint_field 100 id ++ (id_bytes 101 ++ (1 ∷ (info ++ id_bytes end_id)))))
            more,
      )
unfolding type_object require
type_object-at id rec t info pre more small reads = simp append_assoc (
    rw
      (
        try_field-same 100 pre _ refl,
        uvarint-at id _ _ (omega arith),
        try_field-same 101 _ _ refl,
        present-at true _ (info ++ (id_bytes end_id ++ more)),
        small_id,
        reads _,
        end_object-end,
        check-at,
      )
      (simp append_assoc))
  where
    small_id : id % 2 ^ 32 ≡ id
    small_id = omega arith

scalar_object-at :
    (id : ℕ) (rec : Decode LogicalType) (pre more : List ℕ)
    → id < 2 ^ 32
    → type_object rec (at pre ((uvarint_field 100 id ++ id_bytes end_id) ++ more))
      ≡ (ok (scalar_type id), at (pre ++ (uvarint_field 100 id ++ id_bytes end_id)) more)
unfolding type_object require
scalar_object-at id rec pre more small = simp append_assoc (
    rw
      (
        try_field-same 100 pre _ refl,
        uvarint-at id _ _ (omega arith),
        field-NotNext 101 end_id more (omega arith),
        small_id,
        end_object-end,
        check-at,
      )
      (simp append_assoc))
  where
    small_id : id % 2 ^ 32 ≡ id
    small_id = omega arith

-- The fields of an info object, which start with none of the fields in front of them.
pub record InfoEncodes (id kind : ℕ) (p : Write) (rec : Decode LogicalType) (t : LogicalType)
    : Type 0 where
  pub bytes : List ℕ
  pub writes : (w : Writer) → p w ≡ some (wrote w bytes)
  pub reads :
      (before more : List ℕ)
      → info_of_kind id rec kind (at before (bytes ++ (id_bytes end_id ++ more)))
        ≡ (ok t, at (before ++ bytes) (id_bytes end_id ++ more))
  pub no_alias : (more : List ℕ) → NotNext 101 (bytes ++ (id_bytes end_id ++ more))
  pub no_extension : (more : List ℕ) → NotNext 103 (bytes ++ (id_bytes end_id ++ more))

pub info-Encodes :
    (id kind : ℕ) (p : Write) (rec : Decode LogicalType) (t : LogicalType)
    → id < 2 ^ 32
    → IsU64 kind
    → InfoEncodes id kind p rec t
    → Encodes 1 (write_type_object id (write_info kind p)) (type_object rec) t
unfolding write_type_object
info-Encodes id kind p rec t small h e = record {
  bytes =
      uvarint_field 100 id
      ++ (id_bytes 101
          ++ (1 ∷ ((uvarint_field 100 kind ++ (e.bytes ++ id_bytes end_id)) ++ id_bytes end_id)));
  writes = λ w.
      rw
        (
          put_field_uvarint-wrote 100 id w (omega arith),
          write_info-wrote kind p e.bytes _ h e.writes,
          put_end-wrote,
        )
        (simp append_assoc);
  reads = λ pre more. type_object-at id rec t _ pre more small (λ before.
      decode_type_info-at id kind rec t e.bytes before (id_bytes end_id ++ more) h (e.no_alias _)
        (e.no_extension _) (λ b. e.reads b _));
  long = omega arith;
}

pub scalar-Encodes :
    (id : ℕ) (rec : Decode LogicalType)
    → id < 2 ^ 32
    → Encodes 1 (write_type_object id skip) (type_object rec) (scalar_type id)
unfolding write_type_object
scalar-Encodes id rec small = record {
  bytes = uvarint_field 100 id ++ id_bytes end_id;
  writes =
      λ w. rw (put_field_uvarint-wrote 100 id w (omega arith), put_end-wrote) (simp append_assoc);
  reads = λ pre more. scalar_object-at id rec pre more small;
  long = omega arith;
}

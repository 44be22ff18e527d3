-- ===== src/Codectest/Infos.antt =====
-- The info objects that WriteType of codec/codectest/codectest.go writes, kind by kind.
use duckcall.Base.{
  ℕ, ◌+◌, ◌%◌, ◌^◌, ◌<◌, ◌≡◌, refl, List, [], ◌∷◌, ◌++◌, length, append_assoc, length-append, arith,
  eq→==, ◌≢◌, subst, All,
}
use duckcall.Qser.Varint.{IsU64, id_bytes}
use duckcall.Qser.Bytes.{uvarint_bytes}
use duckcall.Qser.Reader.{string, list_count, end_id}
use duckcall.Qser.Writer.{put_field, put_uvarint, put_string, put_field_uvarint}
use duckcall.Qser.Groups.{uvarint-at}
use duckcall.Qser.RoundTrip.{
  string_bytes, string-at, list_count-at, put_uvarint-wrote, put_string-wrote,
}
use duckcall.Qser.Optional.{NotNext, field-NotNext, uvarint_field, put_field_uvarint-wrote}
use duckcall.Codec.Types.{LogicalType, logical_type, no_child, child, no_fields}
use duckcall.Codec.Decode.{Decode, read, require, refuse, for_range, ◌>>=◌}
use duckcall.Codec.TypeTree.{
  to_fields, decimal_info, list_info, struct_info, struct_field, enum_info, array_info,
  info_of_kind,
}
use duckcall.Codectest.Write.{Write, put, ◌then◌, write_list}
use duckcall.Codectest.TypeWriter.{write_nonzero}
use duckcall.Codectest.Encodes.{
  long_string, Encodes, try_field-same, nonzero_bytes, write_nonzero-wrote, nonzero-NotNext,
  optional-nonzero,
}
use duckcall.Codectest.Objects.{InfoEncodes}
use duckcall.Codectest.Lists.{EachEncodes, list-Encodes, map-same}

module _ (id : ℕ) (rec : Decode LogicalType) where
  pub decimal_info-Encodes :
      (width scale : ℕ)
      → width < 256
      → scale < 256
      → InfoEncodes id 2
          (write_nonzero 200 width then write_nonzero 201 scale)
          rec
          (logical_type id width scale no_child no_fields [] 0)
  unfolding info_of_kind decimal_info
  decimal_info-Encodes width scale hw hs = record {
    bytes = nonzero_bytes 200 width ++ nonzero_bytes 201 scale;
    writes = λ w.
        rw
          (
            write_nonzero-wrote 200 width w (omega arith),
            write_nonzero-wrote 201 scale _ (omega arith),
          )
          (simp append_assoc);
    reads = λ pre more. simp append_assoc (
        rw
          (
            optional-nonzero 200 width pre _ refl (omega arith)
                (skip_scale more 200 (omega arith) (omega arith)),
            optional-nonzero 201 scale _ _ refl (omega arith)
                (field-NotNext 201 end_id more (omega arith)),
            small_width,
            small_scale,
          )
          (simp append_assoc));
    no_alias = λ more. rw append_assoc (
        nonzero-NotNext 101 200 width _ (omega arith)
          (skip_scale more 101 (omega arith) (omega arith)));
    no_extension = λ more. rw append_assoc (
        nonzero-NotNext 103 200 width _ (omega arith)
          (skip_scale more 103 (omega arith) (omega arith)));
  }
    where
      small_width : width % 256 ≡ width
      small_width = omega arith

      small_scale : scale % 256 ≡ scale
      small_scale = omega arith

      skip_scale :
          (more : List ℕ) (id : ℕ)
          → 201 ≢ id
          → 65535 ≢ id
          → NotNext id (nonzero_bytes 201 scale ++ (id_bytes end_id ++ more))
      skip_scale more id h k = nonzero-NotNext id 201 scale _ h (field-NotNext id end_id more k)

  pub list_info-Encodes :
      (p : Write) (c : LogicalType)
      → Encodes 1 p rec c
      → InfoEncodes id 4
          (put (put_field 200) then p)
          rec
          (logical_type id 0 0 (child c) no_fields [] 0)
  unfolding info_of_kind list_info require put_field
  list_info-Encodes p c e = record {
    bytes = id_bytes 200 ++ e.bytes;
    writes = λ w. rw e.writes (simp append_assoc);
    reads = λ pre more. simp append_assoc (
        rw (try_field-same 200 pre (e.bytes ++ (id_bytes end_id ++ more)) refl, e.reads)
          (simp append_assoc));
    no_alias = λ more. field-NotNext 101 200 _ (omega arith);
    no_extension = λ more. field-NotNext 103 200 _ (omega arith);
  }

  pub array_info-Encodes :
      (p : Write) (c : LogicalType) (size : ℕ)
      → size < 2 ^ 32
      → Encodes 1 p rec c
      → InfoEncodes id 9
          (put (put_field 200) then p then write_nonzero 201 size)
          rec
          (logical_type id 0 0 (child c) no_fields [] size)
  unfolding info_of_kind array_info require put_field
  array_info-Encodes p c size h e = record {
    bytes = id_bytes 200 ++ (e.bytes ++ nonzero_bytes 201 size);
    writes = λ w. rw (e.writes, write_nonzero-wrote 201 size _ (omega arith)) (simp append_assoc);
    reads = λ pre more. simp append_assoc (
        rw
          (
            try_field-same 200 pre
                (e.bytes ++ (nonzero_bytes 201 size ++ (id_bytes end_id ++ more))) refl,
            e.reads,
            optional-nonzero 201 size _ _ refl (omega arith)
                (field-NotNext 201 end_id more (omega arith)),
            small_size,
          )
          (simp append_assoc));
    no_alias = λ more. field-NotNext 101 200 _ (omega arith);
    no_extension = λ more. field-NotNext 103 200 _ (omega arith);
  }
    where
      small_size : size % 2 ^ 32 ≡ size
      small_size = omega arith

  pub struct_info-Encodes :
      (p : Write) (fs : List (List ℕ × LogicalType))
      → IsU64 (length fs)
      → Encodes (length fs) p (for_range (struct_field id rec) (length fs) 0) fs
      → InfoEncodes id 5
          (put (put_field 200) then put (put_uvarint (length fs)) then p)
          rec
          (logical_type id 0 0 no_child (to_fields fs) [] 0)
  unfolding info_of_kind struct_info put_field
  struct_info-Encodes p fs h e = record {
    bytes = id_bytes 200 ++ (uvarint_bytes 9 (length fs) ++ e.bytes);
    writes = λ w. rw (put_uvarint-wrote (length fs) _ h, e.writes) (simp append_assoc);
    reads = λ pre more. simp append_assoc (
        rw
          (
            try_field-same 200 pre
                (uvarint_bytes 9 (length fs) ++ (e.bytes ++ (id_bytes end_id ++ more))) refl,
            list_count-at (length fs) _ (e.bytes ++ (id_bytes end_id ++ more)) h
                (omega (arith, e.long, length-append e.bytes (id_bytes end_id ++ more))),
            e.reads,
          )
          (simp append_assoc));
    no_alias = λ more. field-NotNext 101 200 _ (omega arith);
    no_extension = λ more. field-NotNext 103 200 _ (omega arith);
  }

pub string-Encodes :
    (s : List ℕ) → IsU64 (length s) → Encodes 1 (put (put_string s)) (read string) s
string-Encodes s h = record {
  bytes = string_bytes s;
  writes = λ w. rw (put_string-wrote s w h);
  reads = λ pre more. rw (string-at s pre more h);
  long = long_string s;
}

pub strings-EachEncodes :
    (i : ℕ) (ss : List (List ℕ))
    → All (λ s. IsU64 (length s)) ss
    → EachEncodes (λ i. read string) (λ s. put (put_string s)) (λ s. s) i ss
strings-EachEncodes i [] h = tt
strings-EachEncodes i (s ∷ ss) (h, hs) = (string-Encodes s h, strings-EachEncodes (i + 1) ss hs)

pub strings-Encodes :
    (ss : List (List ℕ))
    → IsU64 (length ss)
    → All (λ s. IsU64 (length s)) ss
    → Encodes 1
        (write_list (λ s. put (put_string s)) ss)
        (do n ← read list_count; for_range (λ i. read string) n 0)
        ss
strings-Encodes ss h hs =
    subst
      (λ ys.
        Encodes 1 (write_list (λ s. put (put_string s)) ss)
          (do n ← read list_count; for_range (λ i. read string) n 0) ys)
      (map-same ss)
      (list-Encodes (λ i. read string) (λ s. put (put_string s)) (λ s. s) _ ss refl h
        (strings-EachEncodes 0 ss hs))

pub enum_info-Encodes :
    (id : ℕ) (rec : Decode LogicalType) (values : List (List ℕ))
    → IsU64 (length values)
    → All (λ s. IsU64 (length s)) values
    → InfoEncodes id 6
        (put (put_field_uvarint 200 (length values))
          then put (put_field 201)
          then write_list (λ v. put (put_string v)) values)
        rec
        (logical_type id 0 0 no_child no_fields values 0)
unfolding info_of_kind enum_info require refuse put_field
enum_info-Encodes id rec values h hs =
    let e = strings-Encodes values h hs in
    record {
      bytes = uvarint_field 200 (length values) ++ (id_bytes 201 ++ e.bytes);
      writes =
          λ w. rw (put_field_uvarint-wrote 200 (length values) w h, e.writes) (simp append_assoc);
      reads = λ pre more. simp append_assoc (
          rw
            (
              try_field-same 200 pre
                  (uvarint_bytes 9 (length values)
                    ++ (id_bytes 201 ++ (e.bytes ++ (id_bytes end_id ++ more))))
                  refl,
              uvarint-at (length values) _ _ h,
              try_field-same 201 _ (e.bytes ++ (id_bytes end_id ++ more)) refl,
              e.reads,
              eq→== (length values) (length values) refl,
            )
            (simp append_assoc));
      no_alias = λ more. field-NotNext 101 200 _ (omega arith);
      no_extension = λ more. field-NotNext 103 200 _ (omega arith);
    }

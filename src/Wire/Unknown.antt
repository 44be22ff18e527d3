-- ===== src/Wire/Unknown.antt =====
-- wire/messages.go: SplitEnvelope on headers that it has no schema for.
use duckcall.Base.{ℕ, ◌%◌, ◌<◌, ◌≡◌, refl, List, [], ◌++◌, some, err, ne→==, append_assoc, arith}
use duckcall.Qser.Varint.{id_bytes}
use duckcall.Qser.Reader.{unexpected_field, optional_idx, end_object, end_id}
use duckcall.Qser.Writer.{Writer, new_writer, put_field, put_field_uvarint, put_raw}
use duckcall.Qser.Bytes.{uvarint_bytes}
use duckcall.Qser.At.{at}
use duckcall.Qser.Groups.{uvarint-at}
use duckcall.Qser.RoundTrip.{end_object-at, try_field-at}
use duckcall.Qser.Optional.{
  field-NotNext, optional_string_bytes, put_optional_string, put_optional_string-wrote,
  put_field_uvarint-wrote, optional_string-at, uvarint_field, field_or-uvarint, new_reader-at,
}
use duckcall.Qser.Unfinished.{fail-at}
use duckcall.Wire.Messages.{Header, bad_header, header_fields, split_envelope, query_id_absent}
use duckcall.Wire.Encodings.{IsHeader}

-- The header document as `EncodeEnvelope` writes it, cut before its terminator.
unfoldable pub open_header : Header → Writer
open_header h =
    put_field_uvarint 3 h.query_id
      (put_optional_string 2 h.connection_id (put_field_uvarint 1 h.msg_type new_writer))

abbrev fields_bytes : Header → List ℕ → List ℕ
fields_bytes h more =
    uvarint_bytes 9 h.msg_type
    ++ (optional_string_bytes 2 h.connection_id ++ (uvarint_field 3 h.query_id ++ more))

open_header-bytes :
    (h : Header) (id : ℕ) (more : List ℕ)
    → IsHeader h
    → (put_raw more (put_field id (open_header h))).buf
      ≡ id_bytes 1 ++ fields_bytes h (id_bytes id ++ more)
unfolding open_header put_raw put_field
open_header-bytes h id more v =
    rw
      (
        put_field_uvarint-wrote 1 h.msg_type new_writer (omega (arith, v.type_byte)),
        put_optional_string-wrote 2 h.connection_id _ v.id_length,
        put_field_uvarint-wrote 3 h.query_id _ v.query_u64,
      )
      (simp append_assoc)

unexpected_end :
    (id : ℕ) (pre more : List ℕ)
    → id < end_id
    → (end_object (at pre (id_bytes id ++ more))).1.err ≡ some (unexpected_field id)
unexpected_end id pre more h =
    let small : id % 65536 ≡ id = omega arith in
    rw (end_object-at id pre more, small, ne→== id end_id (omega arith), fail-at)

header_fields-unknown :
    (h : Header) (id : ℕ) (pre more : List ℕ)
    → IsHeader h
    → id < end_id
    → (header_fields (at pre (fields_bytes h (id_bytes id ++ more)))).1.err
      ≡ some (unexpected_field id)
unfolding header_fields optional_idx
header_fields-unknown h id pre more v hid = rw (
  uvarint-at h.msg_type pre _ (omega (arith, v.type_byte)),
  optional_string-at 2 h.connection_id _ (uvarint_field 3 h.query_id ++ (id_bytes id ++ more)) refl
      v.id_length (field-NotNext 2 3 _ (omega arith)),
  field_or-uvarint 3 query_id_absent h.query_id _ (id_bytes id ++ more) refl v.query_u64,
  unexpected_end id _ more hid,
)

-- A header with any further field in front of its terminator is refused, and the error names the
-- field.
pub split_envelope-unknown :
    (h : Header) (id : ℕ) (more : List ℕ)
    → IsHeader h
    → id < end_id
    → split_envelope (put_raw more (put_field id (open_header h))).buf
      ≡ err (bad_header (unexpected_field id))
unfolding split_envelope
split_envelope-unknown h id more v hid = rw (
  open_header-bytes h id more v,
  new_reader-at,
  try_field-at 1 1 [] (fields_bytes h (id_bytes id ++ more)),
  header_fields-unknown h id (id_bytes 1) more v hid,
)

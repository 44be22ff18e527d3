-- ===== src/Wire/Encodings.antt =====
-- wire/messages.go: each decoder in front of what the matching encoder wrote.
use duckcall.Base.{ℕ, ◌<◌, ◌≡◌, refl, List, [], ◌++◌, ok, length, append_assoc, arith}
use duckcall.Qser.Varint.{IsU64, id_bytes}
use duckcall.Qser.Reader.{optional_idx, end_id}
use duckcall.Qser.Writer.{new_writer, put_raw}
use duckcall.Qser.Bytes.{uvarint_bytes}
use duckcall.Qser.At.{at, rest-at, err-at}
use duckcall.Qser.Groups.{uvarint-at}
use duckcall.Qser.RoundTrip.{try_field-at, put_end-wrote}
use duckcall.Qser.Optional.{
  field-NotNext, optional_string_bytes, put_optional_string-wrote, put_field_uvarint-wrote,
  optional_string-at, uvarint_field, field_or-uvarint, end_object-end, new_reader-at,
}
use duckcall.Wire.Messages.{Header, encode_envelope, header_fields, split_envelope, query_id_absent}

abbrev header_bytes : Header → List ℕ → List ℕ
header_bytes h body =
    uvarint_field 1 h.msg_type
    ++ (optional_string_bytes 2 h.connection_id
        ++ (uvarint_field 3 h.query_id ++ (id_bytes end_id ++ body)))

pub record IsHeader (h : Header) : Type 0 where
  pub type_byte : h.msg_type < 256
  pub id_length : IsU64 (length h.connection_id)
  pub query_u64 : IsU64 h.query_id

encode_envelope-bytes :
    (h : Header) (body : List ℕ) → IsHeader h → encode_envelope h body ≡ header_bytes h body
unfolding encode_envelope put_raw
encode_envelope-bytes h body v =
    rw
      (
        put_field_uvarint-wrote 1 h.msg_type new_writer (omega (arith, v.type_byte)),
        put_optional_string-wrote 2 h.connection_id _ v.id_length,
        put_field_uvarint-wrote 3 h.query_id _ v.query_u64,
        put_end-wrote,
      )
      (simp append_assoc)

header_fields-at :
    (h : Header) (pre body : List ℕ)
    → IsHeader h
    → header_fields (
        at pre (
          uvarint_bytes 9 h.msg_type
          ++ (optional_string_bytes 2 h.connection_id
              ++ (uvarint_field 3 h.query_id ++ (id_bytes end_id ++ body)))))
      ≡ (
        h,
        at
            (((pre ++ uvarint_bytes 9 h.msg_type) ++ optional_string_bytes 2 h.connection_id)
              ++ uvarint_field 3 h.query_id
              ++ id_bytes end_id)
            body,
      )
unfolding header_fields optional_idx
header_fields-at h pre body v =
    rw
      (
        uvarint-at h.msg_type pre _ (omega (arith, v.type_byte)),
        optional_string-at 2 h.connection_id _
            (uvarint_field 3 h.query_id ++ (id_bytes end_id ++ body)) refl v.id_length
            (field-NotNext 2 3 _ (omega arith)),
        field_or-uvarint 3 query_id_absent h.query_id _ (id_bytes end_id ++ body) refl v.query_u64,
        end_object-end _ body,
      )
      (ground (arith, v.type_byte))

-- The envelope: `SplitEnvelope` gives back the header and the body, whatever the body is.
pub split_envelope-encode_envelope :
    (h : Header) (body : List ℕ)
    → IsHeader h
    → split_envelope (encode_envelope h body) ≡ ok (h, body)
unfolding split_envelope
split_envelope-encode_envelope h body v = rw (
  encode_envelope-bytes h body v,
  new_reader-at,
  try_field-at 1 1 [] (
      uvarint_bytes 9 h.msg_type
      ++ (optional_string_bytes 2 h.connection_id
          ++ (uvarint_field 3 h.query_id ++ (id_bytes end_id ++ body)))),
  header_fields-at h (id_bytes 1) body v,
  rest-at,
  err-at,
)

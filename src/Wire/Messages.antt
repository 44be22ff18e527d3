-- ===== src/Wire/Messages.antt =====
-- wire/messages.go: the envelope of a message and its typed bodies. Strings are lists of bytes; a
-- message type is a byte and an int64 its pattern.
use duckcall.Base.{ℕ, ◌%◌, Option, none, some, List, [], Result, ok, err, if◌then◌else◌}
use duckcall.Qser.Reader.{
  Error, Reader, Read, Hugeint, ◌>>=◌, return, new_reader, rest, uvarint, string, hugeint,
  optional_idx, try_field, end_object, optional_idx_absent,
}
use duckcall.Qser.Writer.{new_writer, put_raw, put_end, put_field_uvarint, put_field_hugeint}
use duckcall.Qser.Optional.{field_or, put_optional_string}

abbrev pub msg_invalid : ℕ
msg_invalid = 0

abbrev pub msg_connection_request : ℕ
msg_connection_request = 1

abbrev pub msg_connection_response : ℕ
msg_connection_response = 2

abbrev pub msg_prepare_request : ℕ
msg_prepare_request = 3

abbrev pub msg_prepare_response : ℕ
msg_prepare_response = 4

abbrev pub msg_fetch_request : ℕ
msg_fetch_request = 7

abbrev pub msg_fetch_response : ℕ
msg_fetch_response = 8

abbrev pub msg_success : ℕ
msg_success = 10

abbrev pub msg_disconnect : ℕ
msg_disconnect = 11

abbrev pub msg_error : ℕ
msg_error = 100

abbrev pub query_id_absent : ℕ
query_id_absent = optional_idx_absent

-- Which decoder `wrapErr` names.
pub data Body : Type 0 where
  connection_request connection_response prepare_request fetch_request error_response : Body

pub data WireError : Type 0 where
  missing_type : WireError
  bad_header : Error → WireError
  bad : Body → Error → WireError

pub record Header : Type 0 where
  pub msg_type : ℕ
  pub connection_id : List ℕ
  pub query_id : ℕ

unfoldable pub encode_envelope : Header → List ℕ → List ℕ
encode_envelope h body =
    let w1 = put_field_uvarint 1 h.msg_type new_writer in
    let w2 = put_optional_string 2 h.connection_id w1 in
    let w3 = put_field_uvarint 3 h.query_id w2 in (put_raw body (put_end w3)).buf

-- `return t, r.Err()`, with the reader's error wrapped.
abbrev pub finish {ℓ} : {E : Type 0} {A : Type ℓ} → (Error → E) → A → Option Error → Result E A
finish wrap a none = ok a
finish wrap a (some e) = err (wrap e)

-- The fields of the header document behind its type.
unfoldable pub header_fields : Read Header
header_fields = do
  t ← uvarint
  id ← field_or 2 [] string
  q ← field_or 3 query_id_absent optional_idx
  done ← end_object
  return (record { msg_type = t % 256; connection_id = id; query_id = q })

unfoldable pub split_envelope : List ℕ → Result WireError (Header × List ℕ)
split_envelope buf =
    let (found, r) = try_field 1 (new_reader buf) in
    let (h, r') = header_fields r in
    if found then finish bad_header (h, rest r') r'.err else err missing_type

pub record ConnectionRequest : Type 0 where
  pub auth_string : List ℕ
  pub client_version : List ℕ
  pub platform : List ℕ
  pub min_version : ℕ
  pub max_version : ℕ

abbrev pub wrap_err : {A : Type 0} → Body → A × Reader → Result WireError A
wrap_err what (a, r) = finish (bad what) a r.err

abbrev pub decode_body : {A : Type 0} → Body → Read A → List ℕ → Result WireError A
decode_body what m buf = wrap_err what (m (new_reader buf))

unfoldable pub encode_connection_request : ConnectionRequest → List ℕ
encode_connection_request m =
    let w1 = put_optional_string 1 m.auth_string new_writer in
    let w2 = put_optional_string 2 m.client_version w1 in
    let w3 = put_optional_string 3 m.platform w2 in
    (put_end (put_field_uvarint 5 m.max_version (put_field_uvarint 4 m.min_version w3))).buf

unfoldable pub read_connection_request : Read ConnectionRequest
read_connection_request = do
  a ← field_or 1 [] string
  c ← field_or 2 [] string
  p ← field_or 3 [] string
  lo ← field_or 4 0 uvarint
  hi ← field_or 5 0 uvarint
  done ← end_object
  return (record {
    auth_string = a;
    client_version = c;
    platform = p;
    min_version = lo;
    max_version = hi;
  })

unfoldable pub decode_connection_request : List ℕ → Result WireError ConnectionRequest
decode_connection_request = decode_body connection_request read_connection_request

pub record ConnectionResponse : Type 0 where
  pub server_version : List ℕ
  pub platform : List ℕ
  pub quack_version : ℕ

unfoldable pub encode_connection_response : ConnectionResponse → List ℕ
encode_connection_response m =
    let w1 = put_optional_string 1 m.server_version new_writer in
    let w2 = put_optional_string 2 m.platform w1 in
    (put_end (put_field_uvarint 3 m.quack_version w2)).buf

unfoldable pub read_connection_response : Read ConnectionResponse
read_connection_response = do
  s ← field_or 1 [] string
  p ← field_or 2 [] string
  q ← field_or 3 0 uvarint
  done ← end_object
  return (record { server_version = s; platform = p; quack_version = q })

unfoldable pub decode_connection_response : List ℕ → Result WireError ConnectionResponse
decode_connection_response = decode_body connection_response read_connection_response

pub record PrepareRequest : Type 0 where
  pub sql : List ℕ

unfoldable pub encode_prepare_request : PrepareRequest → List ℕ
encode_prepare_request m = (put_end (put_optional_string 1 m.sql new_writer)).buf

unfoldable pub read_prepare_request : Read PrepareRequest
read_prepare_request = do s ← field_or 1 [] string; done ← end_object; return (record { sql = s })

unfoldable pub decode_prepare_request : List ℕ → Result WireError PrepareRequest
decode_prepare_request = decode_body prepare_request read_prepare_request

pub record FetchRequest : Type 0 where
  pub uuid : Hugeint

unfoldable pub encode_fetch_request : FetchRequest → List ℕ
encode_fetch_request m = (put_end (put_field_hugeint 1 m.uuid new_writer)).buf

unfoldable pub read_fetch_request : Read FetchRequest
read_fetch_request = do
  u ← field_or 1 (record { upper = 0; lower = 0 }) hugeint
  done ← end_object
  return (record { uuid = u })

unfoldable pub decode_fetch_request : List ℕ → Result WireError FetchRequest
decode_fetch_request = decode_body fetch_request read_fetch_request

unfoldable pub encode_empty_body : List ℕ
encode_empty_body = (put_end new_writer).buf

pub record ErrorMessage : Type 0 where
  pub message : List ℕ

unfoldable pub encode_error_message : ErrorMessage → List ℕ
encode_error_message m = (put_end (put_optional_string 1 m.message new_writer)).buf

unfoldable pub read_error_message : Read ErrorMessage
read_error_message = do s ← field_or 1 [] string; done ← end_object; return (record { message = s })

unfoldable pub decode_error_message : List ℕ → Result WireError ErrorMessage
decode_error_message = decode_body error_response read_error_message

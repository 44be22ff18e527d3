-- ===== src/Wire/Bodies.antt =====
-- wire/messages.go: each decoder of a typed body against the matching encoder.
use duckcall.Base.{ℕ, ◌≡◌, refl, List, [], ◌++◌, ok, length, append_assoc, append-nil, arith}
use duckcall.Qser.Varint.{IsU64, id_bytes}
use duckcall.Qser.Reader.{hugeint, end_id}
use duckcall.Qser.Writer.{new_writer, put_field_hugeint, put_end, put_field}
use duckcall.Qser.At.{err-at}
use duckcall.Qser.RoundTrip.{hugeint_bytes, hugeint-at, put_end-wrote, put_hugeint-wrote}
use duckcall.Qser.Optional.{
  field-NotNext, optional-NotNext, optional_string_bytes, put_optional_string-wrote,
  put_field_uvarint-wrote, field_or-present, optional_string-at, uvarint_field, field_or-uvarint,
  put_optional_string, end_object-end, new_reader-at,
}
use duckcall.Wire.Messages.{
  ConnectionRequest, ConnectionResponse, FetchRequest, encode_connection_request,
  decode_connection_request, read_connection_request, encode_connection_response,
  decode_connection_response, read_connection_response, encode_prepare_request,
  decode_prepare_request, read_prepare_request, encode_fetch_request, decode_fetch_request,
  read_fetch_request, encode_error_message, decode_error_message, read_error_message,
}

pub record IsConnectionRequest (m : ConnectionRequest) : Type 0 where
  pub auth_length : IsU64 (length m.auth_string)
  pub version_length : IsU64 (length m.client_version)
  pub platform_length : IsU64 (length m.platform)
  pub min_u64 : IsU64 m.min_version
  pub max_u64 : IsU64 m.max_version

module _ (m : ConnectionRequest) where
  abbrev after_min : List ℕ → List ℕ
  after_min more = uvarint_field 5 m.max_version ++ (id_bytes end_id ++ more)

  abbrev after_platform : List ℕ → List ℕ
  after_platform more = uvarint_field 4 m.min_version ++ after_min more

  abbrev after_version : List ℕ → List ℕ
  after_version more = optional_string_bytes 3 m.platform ++ after_platform more

  abbrev after_auth : List ℕ → List ℕ
  after_auth more = optional_string_bytes 2 m.client_version ++ after_version more

  after_auth-append : (more : List ℕ) → after_auth [] ++ more ≡ after_auth more
  after_auth-append more = simp (append_assoc, append-nil)

  encode_connection_request-bytes :
      IsConnectionRequest m
      → encode_connection_request m ≡ optional_string_bytes 1 m.auth_string ++ after_auth []
  unfolding encode_connection_request put_end put_field
  encode_connection_request-bytes v =
      rw
        (
          put_optional_string-wrote 1 m.auth_string new_writer v.auth_length,
          put_optional_string-wrote 2 m.client_version _ v.version_length,
          put_optional_string-wrote 3 m.platform _ v.platform_length,
          put_field_uvarint-wrote 4 m.min_version _ v.min_u64,
          put_field_uvarint-wrote 5 m.max_version _ v.max_u64,
        )
        (simp append_assoc)

  -- A connection request whose string lengths and versions fit a uint64 decodes from its
  -- encoding to itself, whatever bytes follow.
  pub decode-encode_connection_request :
      (more : List ℕ)
      → IsConnectionRequest m
      → decode_connection_request (encode_connection_request m ++ more) ≡ ok m
  unfolding decode_connection_request read_connection_request
  decode-encode_connection_request more v = rw (
    encode_connection_request-bytes v,
    append_assoc (optional_string_bytes 1 m.auth_string) (after_auth []) more,
    after_auth-append more,
    new_reader-at,
    optional_string-at 1 m.auth_string [] (after_auth more) refl v.auth_length (
        optional-NotNext 1 2 m.client_version (after_version more) (omega arith) (
          optional-NotNext 1 3 m.platform (after_platform more) (omega arith)
            (field-NotNext 1 4 _ (omega arith)))),
    optional_string-at 2 m.client_version _ (after_version more) refl v.version_length (
        optional-NotNext 2 3 m.platform (after_platform more) (omega arith)
          (field-NotNext 2 4 _ (omega arith))),
    optional_string-at 3 m.platform _ (after_platform more) refl v.platform_length
        (field-NotNext 3 4 _ (omega arith)),
    field_or-uvarint 4 0 m.min_version _ (after_min more) refl v.min_u64,
    field_or-uvarint 5 0 m.max_version _ (id_bytes end_id ++ more) refl v.max_u64,
    end_object-end _ more,
    err-at,
  )

pub record IsConnectionResponse (m : ConnectionResponse) : Type 0 where
  pub server_length : IsU64 (length m.server_version)
  pub platform_length : IsU64 (length m.platform)
  pub quack_u64 : IsU64 m.quack_version

module _ (m : ConnectionResponse) where
  abbrev after_names : List ℕ → List ℕ
  after_names more = uvarint_field 3 m.quack_version ++ (id_bytes end_id ++ more)

  abbrev after_server : List ℕ → List ℕ
  after_server more = optional_string_bytes 2 m.platform ++ after_names more

  after_server-append : (more : List ℕ) → after_server [] ++ more ≡ after_server more
  after_server-append more = simp (append_assoc, append-nil)

  encode_connection_response-bytes :
      IsConnectionResponse m
      → encode_connection_response m ≡ optional_string_bytes 1 m.server_version ++ after_server []
  unfolding encode_connection_response put_end put_field
  encode_connection_response-bytes v =
      rw
        (
          put_optional_string-wrote 1 m.server_version new_writer v.server_length,
          put_optional_string-wrote 2 m.platform _ v.platform_length,
          put_field_uvarint-wrote 3 m.quack_version _ v.quack_u64,
        )
        (simp append_assoc)

  -- A connection response whose string lengths and version fit a uint64 decodes from its
  -- encoding to itself, whatever bytes follow.
  pub decode-encode_connection_response :
      (more : List ℕ)
      → IsConnectionResponse m
      → decode_connection_response (encode_connection_response m ++ more) ≡ ok m
  unfolding decode_connection_response read_connection_response
  decode-encode_connection_response more v = rw (
    encode_connection_response-bytes v,
    append_assoc (optional_string_bytes 1 m.server_version) (after_server []) more,
    after_server-append more,
    new_reader-at,
    optional_string-at 1 m.server_version [] (after_server more) refl v.server_length (
        optional-NotNext 1 2 m.platform (after_names more) (omega arith)
          (field-NotNext 1 3 _ (omega arith))),
    optional_string-at 2 m.platform _ (after_names more) refl v.platform_length
        (field-NotNext 2 3 _ (omega arith)),
    field_or-uvarint 3 0 m.quack_version _ (id_bytes end_id ++ more) refl v.quack_u64,
    end_object-end _ more,
    err-at,
  )

-- The two bodies with one optional string.
module _ (s more : List ℕ) (fits : IsU64 (length s)) where
  put_end_string :
      (put_end (put_optional_string 1 s new_writer)).buf ++ more
      ≡ optional_string_bytes 1 s ++ (id_bytes end_id ++ more)
  put_end_string =
      rw (put_optional_string-wrote 1 s new_writer fits, put_end-wrote) (simp append_assoc)

  -- SQL whose length fits a uint64 decodes from its prepare request to itself, whatever bytes
  -- follow.
  pub decode-encode_prepare_request :
      decode_prepare_request (encode_prepare_request (record { sql = s }) ++ more)
      ≡ ok (record { sql = s })
  unfolding encode_prepare_request decode_prepare_request read_prepare_request
  decode-encode_prepare_request = rw (
    put_end_string,
    new_reader-at,
    optional_string-at 1 s [] (id_bytes end_id ++ more) refl fits
        (field-NotNext 1 end_id _ (omega arith)),
    end_object-end _ more,
    err-at,
  )

  -- A message whose length fits a uint64 decodes from its error response to itself, whatever
  -- bytes follow.
  pub decode-encode_error_message :
      decode_error_message (encode_error_message (record { message = s }) ++ more)
      ≡ ok (record { message = s })
  unfolding encode_error_message decode_error_message read_error_message
  decode-encode_error_message = rw (
    put_end_string,
    new_reader-at,
    optional_string-at 1 s [] (id_bytes end_id ++ more) refl fits
        (field-NotNext 1 end_id _ (omega arith)),
    end_object-end _ more,
    err-at,
  )

encode_fetch_request-bytes :
    (m : FetchRequest)
    → IsU64 m.uuid.upper
    → IsU64 m.uuid.lower
    → encode_fetch_request m ≡ (id_bytes 1 ++ hugeint_bytes m.uuid) ++ id_bytes end_id
unfolding encode_fetch_request put_field_hugeint put_end put_field
encode_fetch_request-bytes m hu hl = rw (put_hugeint-wrote m.uuid _ hu hl)

-- A fetch request whose uuid halves are 64-bit patterns decodes from its encoding to itself,
-- whatever bytes follow.
pub decode-encode_fetch_request :
    (m : FetchRequest) (more : List ℕ)
    → IsU64 m.uuid.upper
    → IsU64 m.uuid.lower
    → decode_fetch_request (encode_fetch_request m ++ more) ≡ ok m
unfolding decode_fetch_request read_fetch_request
decode-encode_fetch_request m more hu hl = rw (
  encode_fetch_request-bytes m hu hl,
  append_assoc (id_bytes 1 ++ hugeint_bytes m.uuid) (id_bytes end_id) more,
  new_reader-at,
  field_or-present 1 (record { upper = 0; lower = 0 }) m.uuid hugeint (hugeint_bytes m.uuid) []
      (id_bytes end_id ++ more) refl
      (λ before. hugeint-at m.uuid before (id_bytes end_id ++ more) hu hl),
  end_object-end _ more,
  err-at,
)

-- ===== src/Wire/Tests.antt =====
-- The theorems about wire/messages.go at concrete messages.
use duckcall.Base.{◌-◌, ◌^◌, ◌≡◌, [], ◌∷◌, ◌++◌, ok, err, arith}
use duckcall.Qser.Reader.{unexpected_field}
use duckcall.Qser.Writer.{put_raw, put_field}
use duckcall.Wire.Messages.{
  Header, ConnectionRequest, ConnectionResponse, FetchRequest, bad_header, msg_prepare_request,
  encode_envelope, split_envelope, encode_connection_request, decode_connection_request,
}
use duckcall.Wire.Encodings.{split_envelope-encode_envelope}
use duckcall.Wire.Bodies.{decode-encode_connection_request}
use duckcall.Wire.Unknown.{open_header, split_envelope-unknown}

abbrev query_header : Header
query_header = record { msg_type = msg_prepare_request; connection_id = 99 ∷ 49 ∷ []; query_id = 7 }

split_envelope-encode_envelope_example :
    split_envelope (encode_envelope query_header (1 ∷ 2 ∷ 3 ∷ []))
    ≡ ok (query_header, 1 ∷ 2 ∷ 3 ∷ [])
split_envelope-encode_envelope_example =
    split_envelope-encode_envelope query_header (1 ∷ 2 ∷ 3 ∷ []) (omega arith)

split_envelope-unknown_example :
    split_envelope (put_raw (1 ∷ []) (put_field 4 (open_header query_header))).buf
    ≡ err (bad_header (unexpected_field 4))
split_envelope-unknown_example =
    split_envelope-unknown query_header 4 (1 ∷ []) (omega arith) (omega arith)

abbrev hello : ConnectionRequest
hello = record {
  auth_string = 115 ∷ 51 ∷ [];
  client_version = [];
  platform = 108 ∷ [];
  min_version = 1;
  max_version = 1;
}

decode-encode_connection_request_example :
    decode_connection_request (encode_connection_request hello ++ (9 ∷ [])) ≡ ok hello
decode-encode_connection_request_example =
    decode-encode_connection_request hello (9 ∷ []) (omega arith)

abbrev welcome : ConnectionResponse
welcome = record { server_version = 118 ∷ []; platform = []; quack_version = 1 }

abbrev batch : FetchRequest
batch = record { uuid = record { upper = 2 ^ 64 - 3; lower = 12 } }

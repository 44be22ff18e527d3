-- ===== src/Driver/SessionTests.antt =====
-- driver/driver.go: a query on a session that the server has forgotten.
use duckcall.Base.{true, ℕ, ◌≡◌, refl, false, List, [], ◌++◌, some, ok, err, arith, if◌then◌else◌}
use duckcall.Base.Int.{pos}
use duckcall.Base.Strings.{codes, contains, replace_all, replace_from}
use duckcall.Wire.Messages.{Header, encode_envelope, encode_error_message, msg_error}
use duckcall.Wire.Errors.{server, redact_token, connection_expired}
use duckcall.Wire.Client.{Exchange, answered}
use duckcall.Conn.Dial.{wire, Conn}
use duckcall.Driver.Interpolate.{interpolate}
use duckcall.Driver.Session.{connection, bad_conn, query_context}
use duckcall.Driver.Retire.{query_context-refused}

abbrev no_text : ℕ → List ℕ
no_text _ = []

abbrev forgotten : Conn ℕ
forgotten = record {
  client = record {
    cfg = record {
      endpoint = codes "http://quack:8888";
      token = codes "s3cret";
      fetch_workers = pos 4;
      connect_timeout = pos 1;
      max_retries = pos 1;
      retry_base_delay = pos 1;
      http_client = some 7;
    };
    conn_id = codes "abc";
    qid = 0;
    is_closed = false;
    hello = record { server_version = []; platform = []; quack_version = 1 };
  };
  version = 1;
}

abbrev refusal : Header
refusal = record { msg_type = msg_error; connection_id = []; query_id = 1 }

abbrev complaint : List ℕ
complaint = codes "Invalid connection id"

abbrev quack : List ℕ → Exchange
quack m =
    answered 200
      (encode_envelope refusal (encode_error_message (record { message = complaint }) ++ []))

as_written : interpolate no_text no_text (codes "SELECT 1") [] ≡ ok (codes "SELECT 1")
unfolding interpolate
as_written = refl

is_retired : connection_expired (redact_token (codes "s3cret") complaint) ≡ true
unfolding contains redact_token replace_all replace_from
is_retired = refl

query_context-refused_example :
    (query_context no_text no_text quack forgotten (codes "SELECT 1") []).0
    ≡ err (
        if connection_expired (redact_token (codes "s3cret") complaint)
        then bad_conn
        else connection (
            wire
              (server (record { status = 0; message = redact_token (codes "s3cret") complaint }))))
query_context-refused_example =
    query_context-refused no_text no_text quack forgotten (codes "SELECT 1") [] (codes "SELECT 1")
      complaint [] refusal as_written refl
      (record { type_byte = omega arith; id_length = omega arith; query_u64 = omega arith }) refl
      (omega arith) refl

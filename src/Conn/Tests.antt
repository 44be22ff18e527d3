-- ===== src/Conn/Tests.antt =====
-- duckcall.go: Dial and Query on small inputs.
use duckcall.Base.{ℕ, ◌≡◌, refl, inl, inr, false, List, [], some, Result, ok, arith}
use duckcall.Base.Int.{pos}
use duckcall.Base.Strings.{codes}
use duckcall.Codec.Results.{PrepareResult}
use duckcall.Codec.Tests.{prepare_bytes, prepared, two_rows-prepared}
use duckcall.Wire.Messages.{Header, encode_envelope, msg_prepare_response}
use duckcall.Wire.Config.{Config}
use duckcall.Wire.Client.{Exchange, answered, unsent}
use duckcall.Conn.Dial.{DialError, Conn, dial, query}
use duckcall.Conn.Laws.{IsDialed, dial_returns, query_answered, query-IsResult, IsDecoded, IsResult}

abbrev settings : Config ℕ
settings = record {
  endpoint = codes "http://quack:8888";
  token = [];
  fetch_workers = pos 4;
  connect_timeout = pos 1;
  max_retries = pos 1;
  retry_base_delay = pos 1;
  http_client = some 7;
}

dial_returns_example :
    (x : Result DialError (Conn ℕ)) × (dial 7
        (λ _. some (codes "http"))
        []
        (λ _ _. unsent [])
        (λ _. unsent [])
        (λ _. false)
        (λ _. false)
        settings
      ≡ some x)
    × IsDialed x
dial_returns_example =
    dial_returns 7 (λ _. some (codes "http")) [] (λ _ _. unsent []) (λ _. unsent []) (λ _. false)
      (λ _. false) settings

abbrev connection : Conn ℕ
connection = record {
  client = record {
    cfg = settings;
    conn_id = codes "abc";
    qid = 0;
    is_closed = false;
    hello = record { server_version = []; platform = []; quack_version = 1 };
  };
  version = 1;
}

abbrev answer : Header
answer = record { msg_type = msg_prepare_response; connection_id = codes "abc"; query_id = 1 }

abbrev server_of : List ℕ → List ℕ → Exchange
server_of body m = answered 200 (encode_envelope answer body)

query_answered_example :
    IsDecoded prepare_bytes (query (server_of prepare_bytes) connection (codes "SELECT 1")).0
query_answered_example =
    query_answered (server_of prepare_bytes) connection (codes "SELECT 1") prepare_bytes answer refl
      (record { type_byte = omega arith; id_length = omega arith; query_u64 = omega arith }) refl
      refl

-- The body of the test is one that decodes.
decoded_two_rows :
    (x : Result DialError PrepareResult) → IsDecoded prepare_bytes x → x ≡ ok prepared
decoded_two_rows x (inl (pr, d, e)) = ground (arith, two_rows-prepared)
decoded_two_rows x (inr (f, d, e)) = absurd (ground (arith, two_rows-prepared))

query_two_rows : (query (server_of prepare_bytes) connection (codes "SELECT 1")).0 ≡ ok prepared
query_two_rows =
    decoded_two_rows (query (server_of prepare_bytes) connection (codes "SELECT 1")).0 (
      query_answered (server_of prepare_bytes) connection (codes "SELECT 1") prepare_bytes answer
        refl (record { type_byte = omega arith; id_length = omega arith; query_u64 = omega arith })
        refl refl)

query-IsResult_example : IsResult (server_of prepare_bytes) connection (codes "SELECT 1") prepared
query-IsResult_example =
    query-IsResult (server_of prepare_bytes) connection (codes "SELECT 1") prepared query_two_rows

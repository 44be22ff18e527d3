-- ===== src/Wire/SessionTests.antt =====
-- wire/client.go, wire/config.go and wire/retry.go on small inputs.
use duckcall.Base.{
  ℕ, ◌+◌, ◌%◌, ◌^◌, ◌≡◌, refl, Bool, true, false, List, [], ◌∷◌, none, some, Result, ok, err, ◌==◌,
  bytes_eq, arith, if◌then◌else◌,
}
use duckcall.Base.Int.{pos, negsuc}
use duckcall.Base.Strings.{codes, replace_all, replace_from}
use duckcall.Wire.Messages.{
  Header, encode_envelope, encode_error_message, msg_error, msg_fetch_request, msg_fetch_response,
}
use duckcall.Wire.Config.{Config, with_defaults, fill, check_scheme}
use duckcall.Wire.Errors.{ClientError, closed, redact_token}
use duckcall.Wire.Retry.{Retried, retry, retry_loop, gives_up}
use duckcall.Wire.Attempts.{Promise, retry-Promise}
use duckcall.Wire.Client.{answered, unsent, Client, call, close, round_trip_raw, connect}
use duckcall.Wire.Replies.{IsReply}
use duckcall.Wire.Sessions.{IsOpen, close_final, call_answered, connect_returns}

abbrev bare : Config ℕ
bare = record {
  endpoint = codes "http://quack:8888";
  token = codes "s3cret";
  fetch_workers = pos 0;
  connect_timeout = negsuc 4;
  max_retries = pos 0;
  retry_base_delay = pos 0;
  http_client = none;
}

abbrev filled : Config ℕ
filled = record {
  endpoint = codes "http://quack:8888";
  token = codes "s3cret";
  fetch_workers = pos 4;
  connect_timeout = pos 10000000000;
  max_retries = pos 3;
  retry_base_delay = pos 100000000;
  http_client = some 7;
}

bare-filled : with_defaults 7 (λ _. some (codes "http")) bare ≡ ok filled
unfolding with_defaults check_scheme fill bytes_eq
bare-filled = refl

redacted : redact_token (codes "s3cret") (codes "bad token s3cret!") ≡ codes "bad token [redacted]!"
unfolding redact_token replace_all replace_from
redacted = refl

-- A server that fails twice.
abbrev third_time : ℕ → Result (Bool × ℕ) ℕ
third_time i = if i == 2 then ok 9 else err (true, i)

third_time_retried :
    retry (pos 3) 0 third_time (λ _. false) (λ _. false) 100
    ≡ some (record { result = ok 9; calls = 3; delays = 200 ∷ 100 ∷ [] })
unfolding retry retry_loop gives_up
third_time_retried = refl

retry-Promise_example :
    (r : Retried ℕ ℕ) × (retry (pos 3) 0 third_time (λ _. false) (λ _. false) 100 ≡ some r)
    × Promise (pos 3) 0 third_time (λ _. false) (λ _. false) 0 r
retry-Promise_example = retry-Promise (pos 3) 0 third_time (λ _. false) (λ _. false) 100

abbrev session : Client ℕ
session = record {
  cfg = filled;
  conn_id = codes "abc";
  qid = 4;
  is_closed = false;
  hello = record { server_version = []; platform = []; quack_version = 1 };
}

close_final_example :
    (call (λ _. unsent []) (close (λ _. unsent []) session).1 7 [] 8
      ≡ (err closed, (close (λ _. unsent []) session).1))
    × (round_trip_raw (λ _. unsent []) (close (λ _. unsent []) session).1 [] ≡ err closed)
    × (close (λ _. unsent []) (close (λ _. unsent []) session).1
        ≡ (ok tt, (close (λ _. unsent []) session).1))
close_final_example = close_final (λ _. unsent []) (λ _. unsent []) session 7 8 []

abbrev answer : Header
answer = record { msg_type = msg_error; connection_id = codes "abc"; query_id = 5 }

-- An ERROR_RESPONSE that repeats the token.
abbrev complaint : List ℕ
complaint = encode_error_message (record { message = codes "bad s3cret" })

call_answered_example :
    IsReply
      (codes "s3cret")
      msg_fetch_response
      answer
      complaint
      (call
        (λ _. answered 200 (encode_envelope answer complaint))
        session
        msg_fetch_request
        []
        msg_fetch_response).0
    × ((call
          (λ _. answered 200 (encode_envelope answer complaint))
          session
          msg_fetch_request
          []
          msg_fetch_response).1
        ≡ record session { qid = (session.qid + 1) % 2 ^ 64 })
call_answered_example =
    call_answered (λ _. answered 200 (encode_envelope answer complaint)) session msg_fetch_request
      msg_fetch_response [] answer complaint refl
      (record { type_byte = omega arith; id_length = omega arith; query_u64 = omega arith }) refl

connect_returns_example :
    (x : Result ClientError (Client ℕ)) × (connect 7
        (λ _. some (codes "http"))
        (codes "linux_amd64")
        (λ _ _. unsent [])
        (λ _. false)
        (λ _. false)
        bare
      ≡ some x)
    × ((s : Client ℕ) → x ≡ ok s → IsOpen s)
connect_returns_example =
    connect_returns 7 (λ _. some (codes "http")) (codes "linux_amd64") (λ _ _. unsent [])
      (λ _. false) (λ _. false) bare

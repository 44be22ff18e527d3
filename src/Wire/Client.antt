-- ===== src/Wire/Client.antt =====
-- wire/client.go. net/http enters as a function from the posted bytes to what came of the request.
use duckcall.Base.{
  ℕ, ◌+◌, ◌-◌, ◌%◌, ◌^◌, Bool, true, false, not, ◌&&◌, ◌||◌, ◌==◌, ltb, leb, List, [], Option, none,
  some, Result, ok, err, is_empty, take, if◌then◌else◌,
}
use duckcall.Base.Int.{ℤ, pos, negsuc}
use duckcall.Qser.Reader.{Hugeint}
use duckcall.Wire.Messages.{
  Header, encode_envelope, split_envelope, encode_connection_request, ConnectionResponse,
  decode_connection_response, encode_prepare_request, encode_fetch_request, encode_empty_body,
  ErrorMessage, decode_error_message, WireError, query_id_absent, msg_connection_request,
  msg_connection_response, msg_prepare_request, msg_prepare_response, msg_fetch_request,
  msg_fetch_response, msg_success, msg_disconnect, msg_error,
}
use duckcall.Wire.Config.{
  Config, with_defaults, client_version, quack_version_min, quack_version_max,
}
use duckcall.Wire.Errors.{
  ClientError, config, transport, server, garbled, closed, missing_connection_id, cancelled,
  unexpected_answer, bad_version, redact_token,
}
use duckcall.Wire.Retry.{Retried, retry}

-- The request could not be built or sent; a response with its status and body; a response with status
-- 200 whose body could not be read.
pub data Exchange : Type 0 where
  unsent : List ℕ → Exchange
  answered : ℕ → List ℕ → Exchange
  broken : List ℕ → Exchange

pub record Client (Http : Type 0) : Type 0 where
  pub cfg : Config Http
  pub conn_id : List ℕ
  pub hello : ConnectionResponse
  pub qid : ℕ
  pub is_closed : Bool

abbrev pub Answer : Type 0
Answer = Result ClientError (Header × List ℕ)

abbrev pub garble : Result WireError (Header × List ℕ) → Answer
garble (ok a) = ok a
garble (err e) = err (garbled e)

-- The answer, and the HTTP status, 0 if the server did not answer at all.
unfoldable pub round_trip : List ℕ → Exchange → Answer × ℕ
round_trip token (unsent text) = (err (transport (redact_token token text)), 0)
round_trip token (broken text) = (err (transport (redact_token token text)), 200)
round_trip token (answered status body) =
    if status == 200 then (garble (split_envelope body), 200) else (
      err (server (record { status = status; message = redact_token token (take 4096 body) })),
      status,
    )

abbrev pub in_band : List ℕ → Result WireError ErrorMessage → ClientError
in_band token (err e) = garbled e
in_band token (ok m) = server (record { status = 0; message = redact_token token m.message })

unfoldable pub server_error : List ℕ → List ℕ → ClientError
server_error token body = in_band token (decode_error_message body)

unfoldable pub retryable_status : ℕ → Bool
retryable_status code = (code == 429) || (leb 500 code && not (code == 501))

-- `switch hdr.Type { case want: …; case MsgError: …; default: … }`
abbrev pub expect : List ℕ → ℕ → Answer → Result ClientError (Header × List ℕ)
expect token want (err e) = err e
expect token want (ok (h, body)) =
    if h.msg_type == want
    then ok (h, body)
    else if h.msg_type == msg_error
    then err (server_error token body)
    else err (unexpected_answer h.msg_type)

abbrev pub body_of : Answer → Result ClientError (List ℕ)
body_of (err e) = err e
body_of (ok (h, body)) = ok body

abbrev pub succeeded : Answer → Result ClientError (Unit {0})
succeeded (err e) = err e
succeeded (ok a) = ok tt

abbrev pub attempt_of : Answer × ℕ → Result (Bool × ClientError) (Header × List ℕ)
attempt_of (ok a, status) = ok a
attempt_of (err e, status) = err ((status == 0) || retryable_status status, e)

abbrev pub base_delay : ℤ → ℕ
base_delay (pos n) = n
base_delay (negsuc n) = 2 ^ 64 - 1 - n

module _ {Http : Type 0} where
  -- The message of `call`, and the client after it.
  unfoldable pub call_message : Client Http → ℕ → List ℕ → List ℕ
  call_message c req body =
      encode_envelope
        (record { msg_type = req; connection_id = c.conn_id; query_id = (c.qid + 1) % 2 ^ 64 }) body

  unfoldable pub call :
      (List ℕ → Exchange) → Client Http → ℕ → List ℕ → ℕ → Result ClientError (List ℕ) × Client Http
  call http c req body want = if c.is_closed then (err closed, c) else (
    body_of (expect c.cfg.token want (round_trip c.cfg.token (http (call_message c req body))).0),
    record c { qid = (c.qid + 1) % 2 ^ 64 },
  )

  unfoldable pub prepare :
      (List ℕ → Exchange) → Client Http → List ℕ → Result ClientError (List ℕ) × Client Http
  prepare http c sql =
      call http c msg_prepare_request (encode_prepare_request (record { sql = sql }))
        msg_prepare_response

  unfoldable pub fetch :
      (List ℕ → Exchange) → Client Http → Hugeint → Result ClientError (List ℕ) × Client Http
  fetch http c uuid =
      call http c msg_fetch_request (encode_fetch_request (record { uuid = uuid }))
        msg_fetch_response

  abbrev pub disconnect_message : Client Http → List ℕ
  disconnect_message c =
      encode_envelope
        (record {
          msg_type = msg_disconnect;
          connection_id = c.conn_id;
          query_id = query_id_absent;
        })
        encode_empty_body

  unfoldable pub close :
      (List ℕ → Exchange) → Client Http → Result ClientError (Unit {0}) × Client Http
  close http c = if c.is_closed then (ok tt, c) else (
    succeeded
        (expect c.cfg.token msg_success (round_trip c.cfg.token (http (disconnect_message c))).0),
    record c { is_closed = true },
  )

  unfoldable pub round_trip_raw : (List ℕ → Exchange) → Client Http → List ℕ → Answer
  round_trip_raw http c msg =
      if c.is_closed then err closed else (round_trip c.cfg.token (http msg)).0

  -- `platform` is runtime.GOOS and runtime.GOARCH.
  unfoldable pub connect_message : List ℕ → Config Http → List ℕ
  connect_message platform cfg =
      encode_envelope
        (record {
          msg_type = msg_connection_request;
          connection_id = [];
          query_id = query_id_absent;
        })
        (encode_connection_request (record {
          auth_string = cfg.token;
          client_version = client_version;
          platform = platform;
          min_version = quack_version_min;
          max_version = quack_version_max;
        }))

  abbrev pub checked_version :
      Config Http → List ℕ → Result WireError ConnectionResponse → Result ClientError (Client Http)
  checked_version cfg id (err e) = err (garbled e)
  checked_version cfg id (ok resp) =
      if ltb resp.quack_version quack_version_min || ltb quack_version_max resp.quack_version
      then err (bad_version resp.quack_version)
      else ok (record { cfg = cfg; conn_id = id; hello = resp; qid = 0; is_closed = false })

  -- What Connect does with the answer.
  unfoldable pub connected : Config Http → Answer → Result ClientError (Client Http)
  connected cfg (err e) = err e
  connected cfg (ok (h, body)) =
      if is_empty h.connection_id
      then err missing_connection_id
      else checked_version cfg h.connection_id (decode_connection_response body)

  -- The handshake: `http i` is the server at attempt `i`. `none` means that the retries ran out of
  -- fuel.
  unfoldable pub handshake :
      List ℕ
      → (ℕ → List ℕ → Exchange)
      → (ℕ → Bool)
      → (ℕ → Bool)
      → Config Http
      → Option (Retried ClientError (Header × List ℕ))
  handshake platform http dead dies cfg =
      retry cfg.max_retries cancelled
        (λ i. attempt_of (round_trip cfg.token (http i (connect_message platform cfg)))) dead dies
        (base_delay cfg.retry_base_delay)

  abbrev pub connect_result :
      Config Http
      → Option (Retried ClientError (Header × List ℕ))
      → Option (Result ClientError (Client Http))
  connect_result cfg none = none
  connect_result cfg (some r) =
      some (connected cfg (expect cfg.token msg_connection_response r.result))

  unfoldable pub connect :
      Http
      → (List ℕ → Option (List ℕ))
      → List ℕ
      → (ℕ → List ℕ → Exchange)
      → (ℕ → Bool)
      → (ℕ → Bool)
      → Config Http
      → Option (Result ClientError (Client Http))
  connect default_client parse platform http dead dies c =
      elim (with_defaults default_client parse c) [
        | err e ↦ some (err (config e))
        | ok cfg ↦ connect_result cfg (handshake platform http dead dies cfg)
      ]

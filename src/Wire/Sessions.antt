-- ===== src/Wire/Sessions.antt =====
-- wire/client.go: what a session promises, from Connect to Close.
use duckcall.Base.{
  ℕ, ◌+◌, ◌%◌, ◌^◌, ◌<◌, ◌≡◌, sym, subst, ap, ◌∙◌, inl, inr, Bool, true, false, ◌==◌, List, Option,
  some, Result, ok, err, Result-cases, Bool-cases, is_empty, length, arith, if◌then◌else◌,
}
use duckcall.Qser.Varint.{IsU64}
use duckcall.Wire.Messages.{
  Header, encode_envelope, split_envelope, ConnectionResponse, decode_connection_response,
  WireError, msg_error, msg_connection_response,
}
use duckcall.Wire.Encodings.{IsHeader, split_envelope-encode_envelope}
use duckcall.Wire.Config.{ConfigError, Config, with_defaults}
use duckcall.Wire.Errors.{ClientError, closed, cancelled, unexpected_answer, config}
use duckcall.Wire.Replies.{outcome, IsReply, reply}
use duckcall.Wire.Retry.{Retried}
use duckcall.Wire.Attempts.{retry-Promise}
use duckcall.Wire.Client.{
  Exchange, answered, Client, Answer, body_of, round_trip, server_error, call_message, call, close,
  round_trip_raw, expect, checked_version, connected, connect, handshake, attempt_of,
  connect_message, base_delay,
}

expect-outcome :
    (token : List ℕ) (want : ℕ) (h : Header) (resp : List ℕ)
    → body_of (expect token want (ok (h, resp))) ≡ outcome token want h resp
expect-outcome token want h resp = ground arith

pub answer_read :
    (token : List ℕ) (h : Header) (resp : List ℕ)
    → IsHeader h
    → (round_trip token (answered 200 (encode_envelope h resp))).0 ≡ ok (h, resp)
unfolding round_trip
answer_read token h resp v = rw (split_envelope-encode_envelope h resp v)

module _ {Http : Type 0} where
  -- What a session is when Connect returns it.
  pub record IsOpen (c : Client Http) : Type 0 where
    pub named : is_empty c.conn_id ≡ false
    pub spoken : c.hello.quack_version ≡ 1
    pub open_now : c.is_closed ≡ false

  version_one :
      (cfg : Config Http) (id : List ℕ) (r : Result WireError ConnectionResponse) (c : Client Http)
      → is_empty id ≡ false
      → checked_version cfg id r ≡ ok c
      → IsOpen c
  version_one cfg id (err e) c n h = cc
  version_one cfg id (ok resp) c n h = ground arith

  connected-IsOpen :
      (cfg : Config Http) (a : Answer) (c : Client Http) → connected cfg a ≡ ok c → IsOpen c
  unfolding connected
  connected-IsOpen cfg (err e) c h = cc
  connected-IsOpen cfg (ok (hd, body)) c h = elim (Bool-cases (is_empty hd.connection_id)) [
    | inl e ↦ ground arith
    | inr e ↦ version_one cfg hd.connection_id (decode_connection_response body) c e (ground arith)
  ]

  close_marks : (http : List ℕ → Exchange) (c : Client Http) → (close http c).1.is_closed ≡ true
  unfolding close
  close_marks http c = elim (Bool-cases c.is_closed) [ inl e ↦ ground arith | inr e ↦ ground arith ]

  closed_refuses :
      (http : List ℕ → Exchange) (c : Client Http) (req want : ℕ) (body : List ℕ)
      → c.is_closed ≡ true
      → (call http c req body want ≡ (err closed, c))
        × (round_trip_raw http c body ≡ err closed)
        × (close http c ≡ (ok tt, c))
  unfolding close call round_trip_raw
  closed_refuses http c req want body e = (ground arith, ground arith, ground arith)

  -- After Close a session refuses every request, whatever the server would say, and closing it again
  -- does nothing.
  pub close_final :
      (http http' : List ℕ → Exchange) (c : Client Http) (req want : ℕ) (body : List ℕ)
      → (call http' (close http c).1 req body want ≡ (err closed, (close http c).1))
        × (round_trip_raw http' (close http c).1 body ≡ err closed)
        × (close http' (close http c).1 ≡ (ok tt, (close http c).1))
  close_final http http' c req want body =
      closed_refuses http' (close http c).1 req want body (close_marks http c)

  -- A request reaches the server as it was meant: its envelope holds the type, the session's id and
  -- the next query id, and its body is untouched.
  pub call_received :
      (c : Client Http) (req : ℕ) (body : List ℕ)
      → req < 256
      → IsU64 (length c.conn_id)
      → split_envelope (call_message c req body)
        ≡ ok (
          record { msg_type = req; connection_id = c.conn_id; query_id = (c.qid + 1) % 2 ^ 64 },
          body,
        )
  unfolding call_message
  call_received c req body small fits =
      split_envelope-encode_envelope
        (record { msg_type = req; connection_id = c.conn_id; query_id = (c.qid + 1) % 2 ^ 64 }) body
        (record { type_byte = small; id_length = fits; query_u64 = omega arith })

  call_counts :
      (http : List ℕ → Exchange) (c : Client Http) (req want : ℕ) (body : List ℕ)
      → c.is_closed ≡ false
      → (call http c req body want).1 ≡ record c { qid = (c.qid + 1) % 2 ^ 64 }
  unfolding call
  call_counts http c req want body o = ground arith

  open_call :
      (http : List ℕ → Exchange) (c : Client Http) (req want : ℕ) (body : List ℕ)
      → c.is_closed ≡ false
      → (call http c req body want).0
        ≡ body_of
            (expect c.cfg.token want (round_trip c.cfg.token (http (call_message c req body))).0)
  unfolding call
  open_call http c req want body o = ground arith

  pub call_outcome :
      (http : List ℕ → Exchange) (c : Client Http) (req want : ℕ) (body : List ℕ) (h : Header)
      (resp : List ℕ)
      → c.is_closed ≡ false
      → IsHeader h
      → http (call_message c req body) ≡ answered 200 (encode_envelope h resp)
      → (call http c req body want).0 ≡ (
          if h.msg_type == want
          then ok resp
          else if h.msg_type == msg_error
          then err (server_error c.cfg.token resp)
          else err (unexpected_answer h.msg_type))
  call_outcome http c req want body h resp o v e =
      open_call http c req want body o
      ∙ ap (λ (x : Exchange). body_of (expect c.cfg.token want (round_trip c.cfg.token x).0)) e
      ∙ ap (λ (a : Answer). body_of (expect c.cfg.token want a)) (answer_read c.cfg.token h resp v)
      ∙ expect-outcome c.cfg.token want h resp

  -- On an open session, a response in an envelope, answered with status 200: a response of the wanted
  -- type gives its body, whatever it holds; an ERROR_RESPONSE gives the message that its body decodes
  -- to, in which strings.ReplaceAll has put "[redacted]" for the token if there is a token, or the
  -- error of decoding it; and any other is refused by its type. In each case the next query id is used
  -- up and nothing else of the session changes.
  pub call_answered :
      (http : List ℕ → Exchange) (c : Client Http) (req want : ℕ) (body : List ℕ) (h : Header)
      (resp : List ℕ)
      → c.is_closed ≡ false
      → IsHeader h
      → http (call_message c req body) ≡ answered 200 (encode_envelope h resp)
      → IsReply c.cfg.token want h resp (call http c req body want).0
        × ((call http c req body want).1 ≡ record c { qid = (c.qid + 1) % 2 ^ 64 })
  call_answered http c req want body h resp o v e = (
    subst (IsReply c.cfg.token want h resp) (sym (call_outcome http c req want body h resp o v e))
        (reply c.cfg.token want h resp),
    call_counts http c req want body o,
  )

  module _ (default_client : Http) (parse : List ℕ → Option (List ℕ)) (platform : List ℕ)
      (http : ℕ → List ℕ → Exchange) (dead dies : ℕ → Bool) where
    handshake_runs :
        (cfg : Config Http)
        → (r : Retried ClientError (Header × List ℕ)) × (handshake platform http dead dies cfg
            ≡ some r)
    unfolding handshake
    handshake_runs cfg =
        let (r, run, kept) =
          retry-Promise cfg.max_retries cancelled
            (λ i. attempt_of (round_trip cfg.token (http i (connect_message platform cfg)))) dead
            dies (base_delay cfg.retry_base_delay) in
        (r, run)

    connect_runs :
        (c cfg : Config Http) (r : Retried ClientError (Header × List ℕ))
        → with_defaults default_client parse c ≡ ok cfg
        → handshake platform http dead dies cfg ≡ some r
        → connect default_client parse platform http dead dies c
          ≡ some (connected cfg (expect cfg.token msg_connection_response r.result))
    unfolding connect
    connect_runs c cfg r e q = ground arith

    connect_refused :
        (c : Config Http) (e : ConfigError)
        → with_defaults default_client parse c ≡ err e
        → connect default_client parse platform http dead dies c ≡ some (err (config e))
    unfolding connect
    connect_refused c e q = ground arith

    -- Connect returns, whatever the server does; and a session that it returns has a connection id
    -- and speaks version 1, and is open.
    pub connect_returns :
        (c : Config Http)
        → (x : Result ClientError (Client Http)) × (connect default_client parse platform http dead
              dies c
            ≡ some x)
          × ((s : Client Http) → x ≡ ok s → IsOpen s)
    connect_returns c = elim (Result-cases (with_defaults default_client parse c)) [
      | inr (e, q) ↦ (err (config e), connect_refused c e q, λ s h. cc)
      | inl (cfg, q) ↦
          let (r, run) = handshake_runs cfg in
          (
            connected cfg (expect cfg.token msg_connection_response r.result),
            connect_runs c cfg r q run,
            connected-IsOpen cfg (expect cfg.token msg_connection_response r.result),
          )
    ]

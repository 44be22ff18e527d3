-- ===== src/Wire/Replies.antt =====
-- wire/client.go: what a call makes of a response, and where a body that it returns comes from.
use duckcall.Base.{
  ℕ, ◌≡◌, ◌≢◌, refl, ap, ==→eq, ==→ne, inl, inr, Bool, true, false, ◌==◌, List, Result, ok, err,
  Result-cases, Bool-cases, is_empty, arith, if◌then◌else◌,
}
use duckcall.Base.Strings.{codes, replace_all}
use duckcall.Wire.Messages.{
  Header, split_envelope, WireError, ErrorMessage, decode_error_message, msg_error,
}
use duckcall.Wire.Errors.{ClientError, unexpected_answer, server, garbled, redact_token}
use duckcall.Wire.Client.{
  Exchange, answered, Client, Answer, body_of, round_trip, in_band, server_error, call_message,
  call, unsent, broken, expect,
}

abbrev pub outcome : List ℕ → ℕ → Header → List ℕ → Result ClientError (List ℕ)
outcome token want h resp =
    if h.msg_type == want
    then ok resp
    else if h.msg_type == msg_error
    then err (server_error token resp)
    else err (unexpected_answer h.msg_type)

-- The text of an error that came from a server, for a caller.
abbrev pub without_token : List ℕ → List ℕ → List ℕ
without_token token text =
    if is_empty token then text else replace_all token (codes "[redacted]") text

-- What a call that waits for a message of type `want` answers to a response.
pub data IsReply : List ℕ → ℕ → Header → List ℕ → Result ClientError (List ℕ) → Type 0 where
  wanted :
      (token : List ℕ) (want : ℕ) (h : Header) (resp : List ℕ)
      → h.msg_type ≡ want
      → IsReply token want h resp (ok resp)
  failed :
      (token : List ℕ) (want : ℕ) (h : Header) (resp : List ℕ) (m : ErrorMessage)
      → h.msg_type ≢ want
      → h.msg_type ≡ msg_error
      → decode_error_message resp ≡ ok m
      → IsReply token want h resp
          (err (server (record { status = 0; message = without_token token m.message })))
  unreadable :
      (token : List ℕ) (want : ℕ) (h : Header) (resp : List ℕ) (e : WireError)
      → h.msg_type ≢ want
      → h.msg_type ≡ msg_error
      → decode_error_message resp ≡ err e
      → IsReply token want h resp (err (garbled e))
  of_another_type :
      (token : List ℕ) (want : ℕ) (h : Header) (resp : List ℕ)
      → h.msg_type ≢ want
      → h.msg_type ≢ msg_error
      → IsReply token want h resp (err (unexpected_answer h.msg_type))

error_reply :
    (token : List ℕ) (want : ℕ) (h : Header) (resp : List ℕ) (r : Result WireError ErrorMessage)
    → h.msg_type ≢ want
    → h.msg_type ≡ msg_error
    → decode_error_message resp ≡ r
    → IsReply token want h resp (err (in_band token r))
unfolding redact_token
error_reply token want h resp (ok m) n t d = failed token want h resp m n t d
error_reply token want h resp (err e) n t d = unreadable token want h resp e n t d

not_wanted :
    (token : List ℕ) (want : ℕ) (h : Header) (resp : List ℕ) (b : Bool)
    → (h.msg_type == msg_error) ≡ b
    → h.msg_type ≢ want
    → IsReply token want h resp
        (if b then err (server_error token resp) else err (unexpected_answer h.msg_type))
unfolding server_error
not_wanted token want h resp true e n =
    error_reply token want h resp (decode_error_message resp) n (==→eq h.msg_type msg_error e) refl
not_wanted token want h resp false e n =
    of_another_type token want h resp n (==→ne h.msg_type msg_error e)

reply_by :
    (token : List ℕ) (want : ℕ) (h : Header) (resp : List ℕ) (b : Bool)
    → (h.msg_type == want) ≡ b
    → IsReply token want h resp (
        if b
        then ok resp
        else if h.msg_type == msg_error
        then err (server_error token resp)
        else err (unexpected_answer h.msg_type))
reply_by token want h resp true e = wanted token want h resp (==→eq h.msg_type want e)
reply_by token want h resp false e =
    not_wanted token want h resp (h.msg_type == msg_error) refl (==→ne h.msg_type want e)

pub reply :
    (token : List ℕ) (want : ℕ) (h : Header) (resp : List ℕ)
    → IsReply token want h resp (outcome token want h resp)
reply token want h resp = reply_by token want h resp (h.msg_type == want) refl

-- A response that could be read: status 200 and an envelope.
round_trip_ok :
    (token : List ℕ) (x : Exchange) (h : Header) (body : List ℕ)
    → (round_trip token x).0 ≡ ok (h, body)
    → (bytes : List ℕ) × (x ≡ answered 200 bytes) × (split_envelope bytes ≡ ok (h, body))
unfolding round_trip
round_trip_ok token (unsent text) h body e = cc
round_trip_ok token (broken text) h body e = cc
round_trip_ok token (answered status bytes) h body e = elim (Bool-cases (status == 200)) [
  | inr n ↦ absurd (ground arith)
  | inl t ↦ elim (Result-cases (split_envelope bytes)) [
    | inr (f, q) ↦ absurd (ground arith)
    | inl (a, q) ↦ (bytes, ap (λ n. answered n bytes) (==→eq status 200 t), ground arith)
  ]
]

expect_ok :
    (token : List ℕ) (want : ℕ) (a : Answer) (body : List ℕ)
    → body_of (expect token want a) ≡ ok body
    → (h : Header) × (a ≡ ok (h, body)) × (h.msg_type ≡ want)
expect_ok token want (err e) body q = cc
expect_ok token want (ok (h, b)) body q = elim (Bool-cases (h.msg_type == want)) [
  | inl t ↦ (h, ground arith, ==→eq h.msg_type want t)
  | inr n ↦ absurd (ground arith)
]

module _ {Http : Type 0} where
  -- Where a body that a call returned comes from.
  pub record IsReceived (http : List ℕ → Exchange) (c : Client Http) (req want : ℕ)
      (body resp : List ℕ) : Type 0 where
    pub open_now : c.is_closed ≡ false
    pub bytes : List ℕ
    pub header : Header
    pub answer : http (call_message c req body) ≡ answered 200 bytes
    pub envelope : split_envelope bytes ≡ ok (header, resp)
    pub wanted_type : header.msg_type ≡ want

  pub call_ok :
      (http : List ℕ → Exchange) (c : Client Http) (req want : ℕ) (body resp : List ℕ)
      → (call http c req body want).0 ≡ ok resp
      → IsReceived http c req want body resp
  unfolding call
  call_ok http c req want body resp e = elim (Bool-cases c.is_closed) [
    | inl shut ↦ absurd (ground arith)
    | inr o ↦
        let (h, got, t) =
          expect_ok c.cfg.token want (round_trip c.cfg.token (http (call_message c req body))).0
            resp (ground arith) in
        let (bytes, answer, envelope) =
          round_trip_ok c.cfg.token (http (call_message c req body)) h resp got in
        record {
          open_now = o;
          bytes = bytes;
          header = h;
          answer = answer;
          envelope = envelope;
          wanted_type = t;
        }
  ]

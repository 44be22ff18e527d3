-- ===== src/Driver/Retire.antt =====
-- driver/driver.go: what becomes of a query that the server refuses.
use duckcall.Base.{
  ◌==◌, subst, ℕ, ◌≡◌, refl, ap, ◌∙◌, sym, false, List, ◌++◌, Result, ok, err, length,
  if◌then◌else◌,
}
use duckcall.Qser.Varint.{IsU64}
use duckcall.Wire.Messages.{
  Header, encode_envelope, encode_prepare_request, encode_error_message, msg_prepare_request,
  msg_prepare_response, msg_error,
}
use duckcall.Wire.Encodings.{IsHeader}
use duckcall.Wire.Bodies.{decode-encode_error_message}
use duckcall.Wire.Errors.{
  unexpected_answer, ClientError, server, redact_token, connection_expired, is_connection_expired,
}
use duckcall.Wire.Client.{Exchange, answered, call_message, server_error, in_band}
use duckcall.Wire.Sessions.{call_outcome}
use duckcall.Conn.Dial.{wire, Conn, prepared}
use duckcall.Conn.Laws.{query_is_prepared}
use duckcall.Driver.Literal.{Named, BadQuery}
use duckcall.Driver.Interpolate.{interpolate}
use duckcall.Driver.Session.{
  connection, bad_conn, client_expired, dial_expired, query_result, run_query, query_context,
}

server_error-read :
    (token text more : List ℕ)
    → IsU64 (length text)
    → server_error token (encode_error_message (record { message = text }) ++ more)
      ≡ server (record { status = 0; message = redact_token token text })
unfolding server_error
server_error-read token text more l = ap (in_band token) (decode-encode_error_message text more l)

error_type :
    (ty : ℕ) (resp : List ℕ) (e : ClientError)
    → ty ≡ msg_error
    → ◌≡◌ {A = Result ClientError (List ℕ)}
        (if ty == msg_prepare_response
          then ok resp
          else if ty == msg_error
          then err e
          else err (unexpected_answer ty))
        (err e)
error_type ty resp e t =
    subst
      (λ x.
        ◌≡◌ {A = Result ClientError (List ℕ)}
          (if x == msg_prepare_response
            then ok resp
            else if x == msg_error
            then err e
            else err (unexpected_answer x))
          (err e))
      (sym t) refl

refused :
    (token text : List ℕ)
    → query_result (err (wire (server (record { status = 0; message = redact_token token text }))))
      ≡ err (
          if connection_expired (redact_token token text)
          then bad_conn
          else connection
              (wire (server (record { status = 0; message = redact_token token text }))))
unfolding dial_expired client_expired is_connection_expired
refused token text = refl

module _ (float_text moment_text : ℕ → List ℕ) {Http : Type 0} where
  -- A query on an open connection that the server answers with an in-band error: the caller gets
  -- driver.ErrBadConn, so that database/sql retires the connection and tries again on another one,
  -- exactly if the error's text, with the token taken out, says that the session is gone. Otherwise
  -- it gets the server's error with that text.
  pub query_context-refused :
      (http : List ℕ → Exchange) (c : Conn Http) (q : List ℕ) (args : List Named)
      (sql text more : List ℕ) (h : Header)
      → interpolate float_text moment_text q args ≡ ok sql
      → c.client.is_closed ≡ false
      → IsHeader h
      → h.msg_type ≡ msg_error
      → IsU64 (length text)
      → http (
          call_message c.client msg_prepare_request (encode_prepare_request (record { sql = sql })))
        ≡ answered 200
            (encode_envelope h (encode_error_message (record { message = text }) ++ more))
      → (query_context float_text moment_text http c q args).0
        ≡ err (
            if connection_expired (redact_token c.client.cfg.token text)
            then bad_conn
            else connection (
                wire
                  (server (record { status = 0; message = redact_token c.client.cfg.token text }))))
  unfolding query_context
  query_context-refused http c q args sql text more h i o v t l e =
      ap (λ (r : Result BadQuery (List ℕ)). (run_query float_text moment_text http c r).0) i
      ∙ ap query_result (
          query_is_prepared http c sql
          ∙ ap prepared (
              call_outcome http c.client msg_prepare_request msg_prepare_response
                (encode_prepare_request (record { sql = sql })) h
                (encode_error_message (record { message = text }) ++ more) o v e
              ∙ error_type h.msg_type (encode_error_message (record { message = text }) ++ more)
                  (server_error c.client.cfg.token
                    (encode_error_message (record { message = text }) ++ more))
                  t
              ∙ ap {A = ClientError} {B = Result ClientError (List ℕ)} err
                  (server_error-read c.client.cfg.token text more l)))
      ∙ refused c.client.cfg.token text

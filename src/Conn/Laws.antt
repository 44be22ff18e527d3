-- ===== src/Conn/Laws.antt =====
-- duckcall.go: what Dial and Query promise, over wire/ and codec/.
use duckcall.Base.{
  ℕ, ◌≡◌, refl, ap, sym, subst, ◌∙◌, ◌⊎◌, inl, inr, Bool, false, List, Option, some, Result, ok,
  err, Result-cases, All, arith,
}
use duckcall.Codec.Types.{CodecError}
use duckcall.Codec.Results.{PrepareResult, decode_prepare}
use duckcall.Codec.WellFormed.{IsWellFormed}
use duckcall.Codec.ResultChunks.{decode_prepare-IsWellFormed}
use duckcall.Wire.Messages.{
  Header, encode_envelope, encode_prepare_request, msg_prepare_request, msg_prepare_response,
}
use duckcall.Wire.Encodings.{IsHeader}
use duckcall.Wire.Config.{Config}
use duckcall.Wire.Errors.{ClientError}
use duckcall.Wire.Client.{Exchange, answered, Client, call, call_message, prepare}
use duckcall.Wire.Sessions.{IsOpen, connect_returns, call_outcome}
use duckcall.Wire.Replies.{IsReceived, call_ok}
use duckcall.Conn.Dial.{
  DialError, wire, Conn, codec_for, with_codec, undecodable, decoded, dialed, dial_result, dial,
  prepared, query,
}

prepared_ok :
    (x : Result ClientError (List ℕ)) (pr : PrepareResult)
    → prepared x ≡ ok pr
    → (body : List ℕ) × (x ≡ ok body) × (decode_prepare body ≡ ok pr)
prepared_ok (err e) pr h = cc
prepared_ok (ok body) pr h = elim (Result-cases (decode_prepare body)) [
  | inl (pr', e) ↦ (body, refl, ground arith)
  | inr (f, e) ↦ absurd (ground arith)
]

-- What the body of a PREPARE_RESPONSE makes of a query: its result, or the codec's error.
abbrev pub IsDecoded : List ℕ → Result DialError PrepareResult → Type 0
IsDecoded body x =
    ((pr : PrepareResult) × (decode_prepare body ≡ ok pr) × (x ≡ ok pr))
    ⊎ ((e : CodecError) × (decode_prepare body ≡ err e) × (x ≡ err (undecodable e)))

prepared-IsDecoded : (body : List ℕ) → IsDecoded body (prepared (ok body))
prepared-IsDecoded body = elim (Result-cases (decode_prepare body)) [
  | inl (pr, e) ↦ inl (pr, e, ap decoded e)
  | inr (f, e) ↦ inr (f, e, ap decoded e)
]

module _ {Http : Type 0} where
  -- A connection that Dial may return.
  pub record IsReady (c : Conn Http) : Type 0 where
    pub opened : IsOpen c.client
    pub decoder : c.version ≡ 1

  -- A connection, or the error of the transport: never a server whose version has no decoder.
  abbrev pub IsDialed : Result DialError (Conn Http) → Type 0
  IsDialed x = ((c : Conn Http) × (x ≡ ok c) × IsReady c) ⊎ ((e : ClientError) × (x ≡ err (wire e)))

  version_found : (c : Client Http) → IsOpen c → codec_for c.hello.quack_version ≡ ok 1
  unfolding codec_for
  version_found c o = rw (o.spoken)

  dialed_open :
      (http : List ℕ → Exchange) (c : Client Http)
      → IsOpen c
      → dialed http (ok c) ≡ ok (record { client = c; version = 1 })
  unfolding dialed with_codec
  dialed_open http c o =
      ap (λ (v : Result DialError ℕ). (with_codec http c v).0) (version_found c o)

  dialed-IsDialed :
      (http : List ℕ → Exchange) (x : Result ClientError (Client Http))
      → ((s : Client Http) → x ≡ ok s → IsOpen s)
      → IsDialed (dialed http x)
  unfolding dialed
  dialed-IsDialed http (err e) h = inr (e, refl)
  dialed-IsDialed http (ok s) h =
      inl (_, dialed_open http s (h s refl), record { opened = h s refl; decoder = refl })

  module _ (default_client : Http) (parse : List ℕ → Option (List ℕ)) (platform : List ℕ)
      (handshake : ℕ → List ℕ → Exchange) (http : List ℕ → Exchange) (dead dies : ℕ → Bool) where
    -- Dial returns, whatever the server does: an open connection that speaks version 1, with its
    -- decoder, or an error of the transport. The registry has a decoder for every version that
    -- Connect accepts.
    pub dial_returns :
        (c : Config Http)
        → (x : Result DialError (Conn Http)) × (dial default_client parse platform handshake http
              dead dies c
            ≡ some x)
          × IsDialed x
    unfolding dial
    dial_returns c =
        let (x, e, o) = connect_returns default_client parse platform handshake dead dies c in
        (dialed http x, ap (dial_result http) e, dialed-IsDialed http x o)

  pub query_is_prepared :
      (http : List ℕ → Exchange) (c : Conn Http) (sql : List ℕ)
      → (query http c sql).0
        ≡ prepared
            (call http c.client msg_prepare_request
              (encode_prepare_request (record { sql = sql }))
              msg_prepare_response).0
  unfolding query prepare
  query_is_prepared http c sql = refl

  -- A query on an open connection whose PREPARE_REQUEST the server answers with status 200 and an
  -- envelope of type PREPARE_RESPONSE: if DecodePrepare accepts the body the query gives its result,
  -- and if it refuses the body the query fails with the error of DecodePrepare.
  pub query_answered :
      (http : List ℕ → Exchange) (c : Conn Http) (sql body : List ℕ) (h : Header)
      → c.client.is_closed ≡ false
      → IsHeader h
      → h.msg_type ≡ msg_prepare_response
      → http (
          call_message c.client msg_prepare_request (encode_prepare_request (record { sql = sql })))
        ≡ answered 200 (encode_envelope h body)
      → IsDecoded body (query http c sql).0
  query_answered http c sql body h o v t e =
      subst (IsDecoded body)
        (sym (
          query_is_prepared http c sql
          ∙ ap prepared (
              call_outcome http c.client msg_prepare_request msg_prepare_response
                (encode_prepare_request (record { sql = sql })) h body o v e)
          ∙ rw t))
        (prepared-IsDecoded body)

  -- Where the result of a query comes from.
  pub record IsResult (http : List ℕ → Exchange) (c : Conn Http) (sql : List ℕ) (pr : PrepareResult)
      : Type 0 where
    pub body : List ℕ
    pub received :
        IsReceived http c.client msg_prepare_request msg_prepare_response
          (encode_prepare_request (record { sql = sql }))
          body
    pub decodes : decode_prepare body ≡ ok pr
    pub chunks : All IsWellFormed pr.chunks

  -- A query gives a result only on a connection that is not closed, when the server answered the
  -- envelope of its PREPARE_REQUEST with status 200 and an envelope of type PREPARE_RESPONSE, whose
  -- body DecodePrepare took for that result. The chunks of the result are well formed.
  pub query-IsResult :
      (http : List ℕ → Exchange) (c : Conn Http) (sql : List ℕ) (pr : PrepareResult)
      → (query http c sql).0 ≡ ok pr
      → IsResult http c sql pr
  query-IsResult http c sql pr e =
      let (body, got, d) = prepared_ok _ pr (sym (query_is_prepared http c sql) ∙ e) in
      record {
        body = body;
        received =
            call_ok http c.client msg_prepare_request msg_prepare_response
              (encode_prepare_request (record { sql = sql })) body got;
        decodes = d;
        chunks = decode_prepare-IsWellFormed body pr d;
      }

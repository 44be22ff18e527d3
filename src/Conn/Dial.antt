-- ===== src/Conn/Dial.antt =====
-- duckcall.go: Dial, Query and Conn.Close. A codec is its version; the registry of
-- codec/versions.go has version 1.
use duckcall.Base.{ℕ, Bool, List, Option, none, some, Result, ok, err, ◌==◌, if◌then◌else◌}
use duckcall.Codec.Types.{CodecError}
use duckcall.Codec.Results.{PrepareResult, decode_prepare}
use duckcall.Wire.Config.{Config}
use duckcall.Wire.Errors.{ClientError}
use duckcall.Wire.Client.{Exchange, Client, connect, close, prepare}

pub data DialError : Type 0 where
  wire : ClientError → DialError
  no_decoder : ℕ → DialError
  undecodable : CodecError → DialError

-- The registry, and For.
unfoldable pub codec_for : ℕ → Result DialError ℕ
codec_for version = if version == 1 then ok 1 else err (no_decoder version)

pub record Conn (Http : Type 0) : Type 0 where
  pub client : Client Http
  pub version : ℕ

abbrev pub decoded : Result CodecError PrepareResult → Result DialError PrepareResult
decoded (ok pr) = ok pr
decoded (err e) = err (undecodable e)

abbrev pub prepared : Result ClientError (List ℕ) → Result DialError PrepareResult
prepared (err e) = err (wire e)
prepared (ok body) = decoded (decode_prepare body)

module _ {Http : Type 0} where
  -- Dial after Connect, with the client that it closes when it has no codec.
  unfoldable pub with_codec :
      (List ℕ → Exchange)
      → Client Http
      → Result DialError ℕ
      → Result DialError (Conn Http) × Client Http
  with_codec http c (ok v) = (ok (record { client = c; version = v }), c)
  with_codec http c (err e) = (err e, (close http c).1)

  unfoldable pub dialed :
      (List ℕ → Exchange) → Result ClientError (Client Http) → Result DialError (Conn Http)
  dialed http (err e) = err (wire e)
  dialed http (ok c) = (with_codec http c (codec_for c.hello.quack_version)).0

  abbrev pub dial_result :
      (List ℕ → Exchange)
      → Option (Result ClientError (Client Http))
      → Option (Result DialError (Conn Http))
  dial_result http none = none
  dial_result http (some x) = some (dialed http x)

  -- `handshake` is the server during Connect, and `http` after it.
  unfoldable pub dial :
      Http
      → (List ℕ → Option (List ℕ))
      → List ℕ
      → (ℕ → List ℕ → Exchange)
      → (List ℕ → Exchange)
      → (ℕ → Bool)
      → (ℕ → Bool)
      → Config Http
      → Option (Result DialError (Conn Http))
  dial default_client parse platform handshake http dead dies c =
      dial_result http (connect default_client parse platform handshake dead dies c)

  -- Conn.Query: the result's prepare response, and the connection after it.
  unfoldable pub query :
      (List ℕ → Exchange) → Conn Http → List ℕ → Result DialError PrepareResult × Conn Http
  query http c sql =
      let (x, client') = prepare http c.client sql in (prepared x, record c { client = client' })

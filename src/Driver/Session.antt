-- ===== src/Driver/Session.antt =====
-- driver/driver.go: a connection of database/sql on a duckcall.Conn.
use duckcall.Base.{
  ℕ, Bool, false, List, [], ◌∷◌, Option, none, some, Result, ok, err, if◌then◌else◌,
}
use duckcall.Base.Int.{ℤ}
use duckcall.Codec.Results.{PrepareResult}
use duckcall.Wire.Config.{Config}
use duckcall.Wire.Errors.{ClientError, server, is_connection_expired}
use duckcall.Wire.Client.{Exchange, close}
use duckcall.Conn.Dial.{DialError, wire, Conn, query}
use duckcall.Driver.Literal.{Argument, Named, BadQuery}
use duckcall.Driver.Interpolate.{interpolate}
use duckcall.Driver.Dsn.{Url, DsnError, parse_dsn}

pub data DriverError : Type 0 where
  bad_dsn : DsnError → DriverError
  bad_query : BadQuery → DriverError
  connection : DialError → DriverError
  -- driver.ErrBadConn, ErrReadOnly, and the error of Begin.
  bad_conn read_only no_transactions : DriverError

-- errors.Is(err, wire.ErrConnectionExpired)
unfoldable pub client_expired : ClientError → Bool
client_expired (server e) = is_connection_expired e
client_expired _ = false

unfoldable pub dial_expired : DialError → Bool
dial_expired (wire e) = client_expired e
dial_expired _ = false

abbrev pub query_error : DialError → DriverError
query_error e = if dial_expired e then bad_conn else connection e

abbrev pub query_result : Result DialError PrepareResult → Result DriverError PrepareResult
query_result (ok pr) = ok pr
query_result (err e) = err (query_error e)

abbrev pub close_result : Result ClientError (Unit {0}) → Result DriverError (Unit {0})
close_result (ok u) = ok u
close_result (err e) = if client_expired e then ok tt else err (connection (wire e))

-- Statement.Query numbers its arguments.
unfoldable pub ordinal : List Argument → List Named
ordinal [] = []
ordinal (a ∷ args) = record { name = []; value = a } ∷ ordinal args

unfoldable pub exec_context : List ℕ → List Named → Result DriverError (Unit {0})
exec_context query args = err read_only

unfoldable pub begin : Result DriverError (Unit {0})
begin = err no_transactions

module _ {Http : Type 0} where
  unfoldable pub close_connection :
      (List ℕ → Exchange) → Conn Http → Result DriverError (Unit {0}) × Conn Http
  close_connection http c =
      let (x, client') = close http c.client in (close_result x, record c { client = client' })

  abbrev pub connect_result :
      Option (Result DialError (Conn Http)) → Option (Result DriverError (Conn Http))
  connect_result none = none
  connect_result (some (ok c)) = some (ok c)
  connect_result (some (err e)) = some (err (connection e))

  -- Driver.Open: OpenConnector, and Connect of the connector.
  unfoldable pub open_dsn :
      (List ℕ → List ℕ)
      → (List ℕ → Option ℤ)
      → (Config Http → Option (Result DialError (Conn Http)))
      → Option Url
      → Option (Result DriverError (Conn Http))
  open_dsn getenv parse_duration dial_with u = elim (parse_dsn getenv parse_duration u) [
    | err e ↦ some (err (bad_dsn e))
    | ok cfg ↦ connect_result (dial_with cfg)
  ]

module _ (float_text moment_text : ℕ → List ℕ) {Http : Type 0} where
  abbrev pub run_query :
      (List ℕ → Exchange)
      → Conn Http
      → Result BadQuery (List ℕ)
      → Result DriverError PrepareResult × Conn Http
  run_query http c (err e) = (err (bad_query e), c)
  run_query http c (ok sql) = let (x, c') = query http c sql in (query_result x, c')

  unfoldable pub query_context :
      (List ℕ → Exchange)
      → Conn Http
      → List ℕ
      → List Named
      → Result DriverError PrepareResult × Conn Http
  query_context http c q args = run_query http c (interpolate float_text moment_text q args)

  unfoldable pub statement_query :
      (List ℕ → Exchange)
      → Conn Http
      → List ℕ
      → List Argument
      → Result DriverError PrepareResult × Conn Http
  statement_query http c q args = query_context http c q (ordinal args)

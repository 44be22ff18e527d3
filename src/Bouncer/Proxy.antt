-- ===== src/Bouncer/Proxy.antt =====
-- cmd/quackbouncer/proxy.go. A pooled session is the address of a wire.Client, and `session` has the
-- client at each address. What an error prints enters as `print`.
use duckcall.Base.{
  ◌&&◌, ℕ, Bool, true, false, List, [], ◌∷◌, ◌++◌, Option, none, some, Result, ok, err, ◌==◌,
  bytes_eq, if◌then◌else◌,
}
use duckcall.Base.Strings.{codes}
use duckcall.Wire.Messages.{
  Header, encode_envelope, split_envelope, decode_connection_request, ConnectionRequest,
  encode_connection_response, encode_error_message, encode_empty_body, WireError, query_id_absent,
  msg_connection_request, msg_connection_response, msg_disconnect, msg_success, msg_error,
}
use duckcall.Wire.Errors.{ClientError, garbled}
use duckcall.Wire.Client.{Exchange, Client, Answer, round_trip_raw}
use duckcall.Bouncer.Pool.{Pool, get, put}
use duckcall.Bouncer.Metrics.{Metrics, inc}

-- Go's map from virtual connection ids, as a list that is searched from its front.
abbrev pub Conns : Type 0
Conns = List (List ℕ × ℕ)

unfoldable pub find {ℓ} : {A : Type ℓ} → List ℕ → List (List ℕ × A) → Option A
find vid [] = none
find vid ((k, x) ∷ m) = if bytes_eq k vid then some x else find vid m

-- `delete(m, vid)`
unfoldable pub remove : List ℕ → Conns → Conns
remove vid [] = []
remove vid ((k, x) ∷ m) = if bytes_eq k vid then remove vid m else (k, x) ∷ remove vid m

-- `m[vid] = x`
abbrev pub bind : List ℕ → ℕ → Conns → Conns
bind vid x m = (vid, x) ∷ remove vid m

pub record Proxy : Type 0 where
  pub pool : Pool ℕ
  pub conns : Conns
  pub metrics : Metrics

-- What the handler writes: an HTTP status and the body.
pub record Reply : Type 0 where
  pub status : ℕ
  pub body : List ℕ

abbrev pub labels : List ℕ → List ℕ → List ℕ
labels route code = codes "{route=\"" ++ (route ++ (codes "\",code=\"" ++ (code ++ codes "\"}")))

unfoldable pub count_route : List ℕ → List ℕ → Proxy → Proxy
count_route route code p = record p {
  metrics = inc (codes "quackbouncer_requests_total") (labels route code) p.metrics;
}

-- `reply`: a query id of 0 becomes the absent one.
unfoldable pub reply : Header → List ℕ → Reply
reply h body =
    let q = if h.query_id == 0 then query_id_absent else h.query_id in
    record { status = 200; body = encode_envelope (record h { query_id = q }) body }

unfoldable pub error_reply : List ℕ → List ℕ → Proxy → Reply × Proxy
error_reply route msg p = (
  reply (record { msg_type = msg_error; connection_id = []; query_id = 0 })
      (encode_error_message (record { message = msg })),
  count_route route (codes "200") p,
)

module _ {Http : Type 0} (session : ℕ → Client Http) (tokens : List (List ℕ × List ℕ))
    (print : ClientError → List ℕ) where
  unfoldable pub count_connect : Bool → Proxy → Proxy
  count_connect true p = p
  count_connect false p = record p {
    metrics = inc (codes "quackbouncer_upstream_connects_total") [] p.metrics;
  }

  -- `handleConnect` with a session from the pool; `vid` is what rand.Text returns.
  unfoldable pub connect_with :
      List ℕ → Header → Result ClientError (ℕ × Bool) → Proxy → Reply × Proxy
  connect_with vid h (err e) p =
      error_reply (codes "connect") (codes "quackbouncer: upstream connect failed: " ++ print e) p
  connect_with vid h (ok (up, reused)) p = (
    reply
        (record { msg_type = msg_connection_response; connection_id = vid; query_id = h.query_id })
        (encode_connection_response (record {
          server_version = (session up).hello.server_version ++ codes " via quackbouncer";
          platform = (session up).hello.platform;
          quack_version = (session up).hello.quack_version;
        })),
    (let q = count_connect reused p in
        count_route (codes "connect") (codes "200") (record q { conns = bind vid up q.conns })),
  )

  unfoldable pub connect_known :
      List ℕ → Result ClientError ℕ → Header → Option (List ℕ) → Proxy → Reply × Proxy
  connect_known vid dialed h none p =
      error_reply (codes "connect") (codes "Authentication failed") p
  connect_known vid dialed h (some name) p =
      let (got, pool') = get p.pool dialed in connect_with vid h got (record p { pool = pool' })

  unfoldable pub connect_decoded :
      List ℕ
      → Result ClientError ℕ
      → Header
      → Result WireError ConnectionRequest
      → Proxy
      → Reply × Proxy
  connect_decoded vid dialed h (err e) p =
      error_reply (codes "connect") (codes "quackbouncer: " ++ print (garbled e)) p
  connect_decoded vid dialed h (ok req) p =
      connect_known vid dialed h (find req.auth_string tokens) p

  -- `dialed` is what wire.Connect returns if the pool has no idle session.
  unfoldable pub handle_connect :
      List ℕ → Result ClientError ℕ → Header → List ℕ → Proxy → Reply × Proxy
  handle_connect vid dialed h body p =
      connect_decoded vid dialed h (decode_connection_request body) p

  unfoldable pub disconnect_found : Header → Option ℕ → Proxy → Reply × Proxy
  disconnect_found h none p =
      error_reply (codes "disconnect") (codes "Connection does not exist / already disconnected") p
  disconnect_found h (some up) p = (
    reply (record { msg_type = msg_success; connection_id = []; query_id = h.query_id })
        encode_empty_body,
    count_route (codes "disconnect") (codes "200") (record p { pool = (put up p.pool).1 }),
  )

  unfoldable pub handle_disconnect : Header → Proxy → Reply × Proxy
  handle_disconnect h p =
      disconnect_found h (find h.connection_id p.conns)
        (record p { conns = remove h.connection_id p.conns })

  -- The upstream's id becomes the client's on the way back.
  unfoldable pub answer_reply : Header → ℕ → Answer → Proxy → Reply × Proxy
  answer_reply h up (err e) p =
      error_reply (codes "forward") (codes "quackbouncer: upstream request failed: " ++ print e) p
  answer_reply h up (ok (r, body)) p =
      let id =
        if bytes_eq r.connection_id (session up).conn_id
        then h.connection_id
        else r.connection_id in
      (reply (record r { connection_id = id }) body, count_route (codes "forward") (codes "200") p)

  unfoldable pub forward_message : Header → ℕ → List ℕ → List ℕ
  forward_message h up body =
      encode_envelope (record h { connection_id = (session up).conn_id }) body

  unfoldable pub forward_found :
      (ℕ → List ℕ → Exchange) → Header → List ℕ → Option ℕ → Proxy → Reply × Proxy
  forward_found http h body none p =
      error_reply (codes "forward") (codes "Connection does not exist / already disconnected") p
  forward_found http h body (some up) p =
      answer_reply h up (round_trip_raw (http up) (session up) (forward_message h up body)) p

  unfoldable pub forward : (ℕ → List ℕ → Exchange) → Header → List ℕ → Proxy → Reply × Proxy
  forward http h body p = forward_found http h body (find h.connection_id p.conns) p

  -- The switch on the message type.
  unfoldable pub dispatch :
      List ℕ
      → Result ClientError ℕ
      → (ℕ → List ℕ → Exchange)
      → Header
      → List ℕ
      → Proxy
      → Reply × Proxy
  dispatch vid dialed http h body p =
      if h.msg_type == msg_connection_request
      then handle_connect vid dialed h body p
      else if h.msg_type == msg_disconnect
      then handle_disconnect h p
      else forward http h body p

  unfoldable pub rpc_split :
      List ℕ
      → Result ClientError ℕ
      → (ℕ → List ℕ → Exchange)
      → Result WireError (Header × List ℕ)
      → Proxy
      → Reply × Proxy
  rpc_split vid dialed http (err e) p =
      error_reply (codes "garbled") (codes "quackbouncer: " ++ print (garbled e)) p
  rpc_split vid dialed http (ok (h, body)) p = dispatch vid dialed http h body p

  -- `none` is a request body that could not be read.
  unfoldable pub handle_rpc :
      List ℕ
      → Result ClientError ℕ
      → (ℕ → List ℕ → Exchange)
      → Option (List ℕ)
      → Proxy
      → Reply × Proxy
  handle_rpc vid dialed http none p = (
    record { status = 400; body = codes "read failed\n" },
    count_route (codes "read") (codes "400") p,
  )
  handle_rpc vid dialed http (some raw) p = rpc_split vid dialed http (split_envelope raw) p

  -- A request as ServeHTTP tells them apart; `page` is the text of the metrics.
  unfoldable pub serve_http :
      List ℕ
      → Result ClientError ℕ
      → (ℕ → List ℕ → Exchange)
      → (Proxy → List ℕ)
      → List ℕ
      → List ℕ
      → Option (List ℕ)
      → Proxy
      → Reply × Proxy
  serve_http vid dialed http page method path raw p =
      if bytes_eq path (codes "/metrics")
      then (record { status = 200; body = page p }, p)
      else if bytes_eq method (codes "POST") && bytes_eq path (codes "/quack")
      then handle_rpc vid dialed http raw p
      else if bytes_eq method (codes "GET") && bytes_eq path (codes "/")
      then (
        record {
          status = 200;
          body = codes "quackbouncer: a pooling proxy for DuckDB Quack endpoints.\n";
        },
        count_route (codes "banner") (codes "200") p,
      )
      else (
        record { status = 404; body = codes "no such endpoint\n" },
        count_route (codes "other") (codes "404") p,
      )

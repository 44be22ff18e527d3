-- ===== src/Bouncer/ProxyTests.antt =====
-- The proxy and its counters on small inputs.
use duckcall.Base.{
  ◌++◌, ℕ, ◌≡◌, ◌⊎◌, refl, ap, ◌∙◌, true, false, List, [], ◌∷◌, none, some, ok, err, bytes_eq,
  count, arith, ◌==◌,
}
use duckcall.Base.Int.{pos}
use duckcall.Base.Strings.{codes}
use duckcall.Wire.Messages.{
  Header, ConnectionRequest, encode_envelope, split_envelope, encode_connection_request,
  msg_connection_request, msg_fetch_request, msg_fetch_response,
}
use duckcall.Wire.Encodings.{split_envelope-encode_envelope}
use duckcall.Wire.Bodies.{decode-encode_connection_request}
use duckcall.Wire.Errors.{ClientError, closed}
use duckcall.Wire.Client.{Exchange, answered, Client}
use duckcall.Bouncer.Pool.{get, get_from}
use duckcall.Bouncer.Proxy.{
  count_route, Proxy, find, remove, bind, connect_decoded, connect_known, connect_with,
  count_connect, rpc_split, dispatch, handle_connect, handle_rpc, forward, forward_message,
}
use duckcall.Bouncer.Forward.{seen, forward_transparent}
use duckcall.Bouncer.Places.{Site, Sections, no_more, then_one, reuses, binds, upstreams_apart}
use duckcall.Bouncer.Handlers.{Runs, handle_rpc-Sections}
use duckcall.Bouncer.Admission.{IsLogin, handle_rpc-bound}

-- Session 7 serves a virtual connection, and session 8 is idle.
abbrev proxy : Proxy
proxy = record {
  pool = record { idle = 8 ∷ []; max = 4 };
  conns = (codes "one", 7) ∷ [];
  metrics = [];
}

abbrev upstream : ℕ → Client ℕ
upstream up = record {
  cfg = record {
    endpoint = codes "http://quack:8888";
    token = codes "s3cret";
    fetch_workers = pos 4;
    connect_timeout = pos 10000000000;
    max_retries = pos 3;
    retry_base_delay = pos 100000000;
    http_client = none;
  };
  conn_id = up ∷ [];
  hello = record { server_version = []; platform = []; quack_version = 1 };
  qid = 4;
  is_closed = false;
}

abbrev tokens : List (List ℕ × List ℕ)
tokens = (codes "t1", codes "ann") ∷ []

abbrev text : ClientError → List ℕ
text _ = codes "failed"

abbrev question : Header
question = record { msg_type = msg_fetch_request; connection_id = codes "one"; query_id = 9 }

abbrev answer : Header
answer = record { msg_type = msg_fetch_response; connection_id = 7 ∷ []; query_id = 0 }

abbrev http : ℕ → List ℕ → Exchange
http up msg = answered 200 (encode_envelope answer (5 ∷ 6 ∷ []))

mapped : find (codes "one") proxy.conns ≡ some 7
unfolding find bytes_eq
mapped = refl

forward_transparent_example :
    (split_envelope (forward_message upstream tokens text question 7 (3 ∷ []))
      ≡ ok (record question { connection_id = 7 ∷ [] }, 3 ∷ []))
    × (split_envelope (forward upstream tokens text http question (3 ∷ []) proxy).0.body
        ≡ ok (seen (codes "one") (7 ∷ []) answer, 5 ∷ 6 ∷ []))
    × ((forward upstream tokens text http question (3 ∷ []) proxy).1.conns ≡ proxy.conns)
    × ((forward upstream tokens text http question (3 ∷ []) proxy).1.pool ≡ proxy.pool)
forward_transparent_example =
    forward_transparent upstream tokens text http question answer (3 ∷ []) (5 ∷ 6 ∷ []) proxy 7
      mapped refl
      (record { type_byte = omega arith; id_length = omega arith; query_u64 = omega arith })
      (omega arith)
      (record { type_byte = omega arith; id_length = omega arith; query_u64 = omega arith }) refl

abbrev before : Site
before = record { proxy = proxy; held = []; closed = [] }

abbrev after : Site
after = record {
  proxy = record proxy {
    pool = record { idle = []; max = 4 };
    conns = bind (codes "two") 8 proxy.conns;
  };
  held = [];
  closed = [];
}

-- A handler takes the idle session and binds it.
second_login : Sections before after
unfolding get get_from
second_login =
    then_one (then_one no_more (reuses (err closed) refl)) (binds (codes "two") [] [] refl)

still_mapped : find (codes "one") after.proxy.conns ≡ some 7
unfolding find bytes_eq remove
still_mapped = refl

upstreams_apart_example :
    (count (λ x. x == 7) after.proxy.pool.idle ≡ 0)
    × (count (λ x. x == 7) after.held ≡ 0)
    × (count (λ x. x == 7) after.closed ≡ 0)
    × (find (codes "two") after.proxy.conns ≡ some 7 → bytes_eq (codes "one") (codes "two") ≡ true)
upstreams_apart_example =
    upstreams_apart before after (codes "one") (codes "two") 7 second_login (λ c. ground arith)
      still_mapped

handle_rpc-Sections_example :
    Runs before
      (handle_rpc upstream tokens text
        (codes "two")
        (err closed)
        http
        (some (encode_envelope question []))
        proxy).1
handle_rpc-Sections_example =
    handle_rpc-Sections upstream tokens text before (codes "two") (err closed) http
      (some (encode_envelope question [])) (λ c e. cc)

abbrev login : Header
login = record { msg_type = msg_connection_request; connection_id = []; query_id = 1 }

abbrev hello : ConnectionRequest
hello = record {
  auth_string = codes "t1";
  client_version = [];
  platform = [];
  min_version = 1;
  max_version = 1;
}

abbrev login_body : List ℕ
login_body = encode_connection_request hello ++ []

abbrev login_raw : List ℕ
login_raw = encode_envelope login login_body

logged_in :
    find
      (codes "two")
      (handle_rpc upstream tokens text
        (codes "two")
        (err closed)
        http
        (some login_raw)
        proxy).1.conns
    ≡ some 8
unfolding handle_rpc rpc_split dispatch handle_connect connect_decoded connect_known connect_with
    count_connect count_route get get_from find bytes_eq
logged_in =
    ap
      (λ r.
        find (codes "two")
          (rpc_split upstream tokens text (codes "two") (err closed) http r proxy).1.conns)
      (split_envelope-encode_envelope login login_body
        (record { type_byte = omega arith; id_length = omega arith; query_u64 = omega arith }))
    ∙ ap
        (λ r.
          find (codes "two")
            (connect_decoded upstream tokens text (codes "two") (err closed) login r proxy).1.conns)
        (decode-encode_connection_request hello [] (record {
          auth_length = omega arith;
          version_length = omega arith;
          platform_length = omega arith;
          min_u64 = omega arith;
          max_u64 = omega arith;
        }))

handle_rpc-bound_example :
    (find (codes "two") proxy.conns ≡ some 8)
    ⊎ ((codes "two" ≡ codes "two") × IsLogin tokens login_raw)
handle_rpc-bound_example =
    handle_rpc-bound upstream tokens text (codes "two") (err closed) http login_raw proxy
      (codes "two") 8 logged_in

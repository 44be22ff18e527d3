-- ===== src/Bouncer/Forward.antt =====
-- cmd/quackbouncer/proxy.go: what crosses the proxy, in both directions.
use duckcall.Base.{
  ℕ, ◌≡◌, refl, ap, ◌∙◌, inl, inr, false, List, Option, some, ok, ◌==◌, bytes_eq, Bool-cases,
  length, arith, if◌then◌else◌,
}
use duckcall.Qser.Varint.{IsU64}
use duckcall.Wire.Messages.{Header, encode_envelope, split_envelope, query_id_absent}
use duckcall.Wire.Encodings.{IsHeader, split_envelope-encode_envelope}
use duckcall.Wire.Errors.{ClientError}
use duckcall.Wire.Client.{Exchange, answered, Client, Answer, round_trip, round_trip_raw}
use duckcall.Wire.Sessions.{answer_read}
use duckcall.Bouncer.Proxy.{
  Proxy, Reply, find, reply, count_route, answer_reply, forward_message, forward_found, forward,
}

-- The header that the client sees for the header `r` of the upstream's answer.
abbrev pub seen : List ℕ → List ℕ → Header → Header
seen mine upstream r = record {
  msg_type = r.msg_type;
  connection_id = if bytes_eq r.connection_id upstream then mine else r.connection_id;
  query_id = if r.query_id == 0 then query_id_absent else r.query_id;
}

seen-IsHeader :
    (mine upstream : List ℕ) (r : Header)
    → IsU64 (length mine)
    → IsHeader r
    → IsHeader (seen mine upstream r)
seen-IsHeader mine upstream r m v = record {
  type_byte = v.type_byte;
  id_length = elim (Bool-cases (bytes_eq r.connection_id upstream)) [
    | inl e ↦ rw e m
    | inr e ↦ rw e v.id_length
  ];
  query_u64 = elim (Bool-cases (r.query_id == 0)) [
    | inl e ↦ rw e (omega arith)
    | inr e ↦ rw e v.query_u64
  ];
}

module _ {Http : Type 0} (session : ℕ → Client Http) (tokens : List (List ℕ × List ℕ))
    (print : ClientError → List ℕ) where
  -- What the upstream gets for a message: the same message, with its own connection id.
  pub forward_message-split_envelope :
      (h : Header) (up : ℕ) (body : List ℕ)
      → IsHeader h
      → IsU64 (length (session up).conn_id)
      → split_envelope (forward_message session tokens print h up body)
        ≡ ok (record h { connection_id = (session up).conn_id }, body)
  unfolding forward_message
  forward_message-split_envelope h up body v u =
      split_envelope-encode_envelope (record h { connection_id = (session up).conn_id }) body
        (record { type_byte = v.type_byte; id_length = u; query_u64 = v.query_u64 })

  open_raw :
      (http : List ℕ → Exchange) (c : Client Http) (msg : List ℕ)
      → c.is_closed ≡ false
      → round_trip_raw http c msg ≡ (round_trip c.cfg.token (http msg)).0
  unfolding round_trip_raw
  open_raw http c msg o = rw o

  forward_known :
      (http : ℕ → List ℕ → Exchange) (h : Header) (body : List ℕ) (p : Proxy) (up : ℕ)
      → find h.connection_id p.conns ≡ some up
      → (session up).is_closed ≡ false
      → forward session tokens print http h body p
        ≡ answer_reply session tokens print h up
            (round_trip
              (session up).cfg.token
              (http up (forward_message session tokens print h up body))).0
            p
  unfolding forward forward_found
  forward_known http h body p up f o =
      ap (λ (x : Option ℕ). forward_found session tokens print http h body x p) f
      ∙ ap (λ (a : Answer). answer_reply session tokens print h up a p)
          (open_raw (http up) (session up) (forward_message session tokens print h up body) o)

  reply_read :
      (h : Header) (up : ℕ) (r : Header) (resp : List ℕ) (p : Proxy)
      → IsU64 (length h.connection_id)
      → IsHeader r
      → (split_envelope (answer_reply session tokens print h up (ok (r, resp)) p).0.body
          ≡ ok (seen h.connection_id (session up).conn_id r, resp))
  unfolding answer_reply reply
  reply_read h up r resp p m v =
      split_envelope-encode_envelope (seen h.connection_id (session up).conn_id r) resp
        (seen-IsHeader h.connection_id (session up).conn_id r m v)

  answer_keeps :
      (h : Header) (up : ℕ) (r : Header) (resp : List ℕ) (p : Proxy)
      → ((answer_reply session tokens print h up (ok (r, resp)) p).1.conns ≡ p.conns)
        × ((answer_reply session tokens print h up (ok (r, resp)) p).1.pool ≡ p.pool)
  unfolding answer_reply count_route
  answer_keeps h up r resp p = (refl, refl)

  -- A message on a known virtual connection whose upstream session is open and answers with status
  -- 200: the upstream reads the client's message with its own connection id for the client's, the
  -- client reads the upstream's answer with the client's id for the upstream's and the absent query
  -- id for 0, both bodies cross untouched, and no connection changes.
  pub forward_transparent :
      (http : ℕ → List ℕ → Exchange) (h r : Header) (body resp : List ℕ) (p : Proxy) (up : ℕ)
      → find h.connection_id p.conns ≡ some up
      → (session up).is_closed ≡ false
      → IsHeader h
      → IsU64 (length (session up).conn_id)
      → IsHeader r
      → http up (forward_message session tokens print h up body)
        ≡ answered 200 (encode_envelope r resp)
      → (split_envelope (forward_message session tokens print h up body)
          ≡ ok (record h { connection_id = (session up).conn_id }, body))
        × (split_envelope (forward session tokens print http h body p).0.body
            ≡ ok (seen h.connection_id (session up).conn_id r, resp))
        × ((forward session tokens print http h body p).1.conns ≡ p.conns)
        × ((forward session tokens print http h body p).1.pool ≡ p.pool)
  forward_transparent http h r body resp p up f o v u w e =
      let path =
        forward_known http h body p up f o
        ∙ ap
            (λ (x : Exchange).
              answer_reply session tokens print h up (round_trip (session up).cfg.token x).0 p)
            e
        ∙ ap (λ (a : Answer). answer_reply session tokens print h up a p)
            (answer_read (session up).cfg.token r resp w) in
      (
        forward_message-split_envelope h up body v u,
        ap (λ (x : Reply × Proxy). split_envelope x.0.body) path
            ∙ reply_read h up r resp p v.id_length w,
        ap (λ (x : Reply × Proxy). x.1.conns) path ∙ (answer_keeps h up r resp p).0,
        ap (λ (x : Reply × Proxy). x.1.pool) path ∙ (answer_keeps h up r resp p).1,
      )

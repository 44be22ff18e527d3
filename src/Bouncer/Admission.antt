-- ===== src/Bouncer/Admission.antt =====
-- cmd/quackbouncer/proxy.go: who gets an upstream session.
use duckcall.Base.{
  ==→eq, ℕ, ◌≡◌, ◌⊎◌, refl, ap, sym, ◌∙◌, subst, inl, inr, Bool, true, false, List, [], ◌∷◌, Option,
  none, some, Result, ok, err, ◌==◌, bytes_eq, bytes_eq→eq, Bool-cases, arith, if◌then◌else◌,
}
use duckcall.Wire.Messages.{
  WireError, Header, ConnectionRequest, split_envelope, decode_connection_request,
  msg_connection_request, msg_disconnect,
}
use duckcall.Wire.Errors.{ClientError}
use duckcall.Wire.Client.{Exchange, Client, Answer, round_trip_raw}
use duckcall.Bouncer.Pool.{get}
use duckcall.Bouncer.Proxy.{
  connect_decoded, rpc_split, Reply, Conns, find, remove, bind, Proxy, count_route, error_reply,
  count_connect, connect_with, connect_known, handle_connect, disconnect_found, handle_disconnect,
  answer_reply, forward_found, forward, forward_message, dispatch, handle_rpc,
}
use duckcall.Bouncer.Places.{find-remove}

find-removed : (vid : List ℕ) (m : Conns) → find vid (remove vid m) ≡ none
unfolding find remove
find-removed vid [] = refl
find-removed vid ((k, x) ∷ m) = elim (Bool-cases (bytes_eq k vid)) [
  | inl h ↦ ground (arith, find-removed vid m)
  | inr h ↦ ground (arith, find-removed vid m)
]

still_bound :
    (vid v : List ℕ) (m : Conns) (c : ℕ) → find v (remove vid m) ≡ some c → find v m ≡ some c
still_bound vid v m c e = elim (Bool-cases (bytes_eq vid v)) [
  | inl h ↦
      (let k = sym e ∙ ap (λ y. find v (remove y m)) (bytes_eq→eq vid v h) ∙ find-removed v m in cc)
  | inr h ↦ sym (find-remove vid v m h) ∙ e
]

newly_bound :
    (vid v : List ℕ) (m : Conns) (up c : ℕ)
    → find v (bind vid up m) ≡ some c
    → (find v m ≡ some c) ⊎ (vid ≡ v)
unfolding find
newly_bound vid v m up c e = elim (Bool-cases (bytes_eq vid v)) [
  | inl h ↦ inr (bytes_eq→eq vid v h)
  | inr h ↦ inl (still_bound vid v m c (ground arith))
]

-- The request is a CONNECTION_REQUEST with a token of the table.
abbrev pub IsLogin : List (List ℕ × List ℕ) → List ℕ → Type 0
IsLogin tokens raw =
    (h : Header) × (body : List ℕ) × (req : ConnectionRequest) × (name : List ℕ) × (split_envelope
        raw
      ≡ ok (h, body))
    × (h.msg_type ≡ msg_connection_request)
    × (decode_connection_request body ≡ ok req)
    × (find req.auth_string tokens ≡ some name)

module _ {Http : Type 0} (session : ℕ → Client Http) (tokens : List (List ℕ × List ℕ))
    (print : ClientError → List ℕ) where
  connect_with-bound :
      (vid : List ℕ) (h : Header) (got : Result ClientError (ℕ × Bool)) (p : Proxy) (v : List ℕ)
      (c : ℕ)
      → find v (connect_with session tokens print vid h got p).1.conns ≡ some c
      → (find v p.conns ≡ some c) ⊎ (vid ≡ v)
  unfolding connect_with count_connect count_route error_reply
  connect_with-bound vid h (err e) p v c f = inl f
  connect_with-bound vid h (ok (up, true)) p v c f = newly_bound vid v p.conns up c f
  connect_with-bound vid h (ok (up, false)) p v c f = newly_bound vid v p.conns up c f

  disconnect-bound :
      (h : Header) (o : Option ℕ) (p : Proxy)
      → (disconnect_found session tokens print h o p).1.conns ≡ p.conns
  unfolding disconnect_found count_route error_reply
  disconnect-bound h none p = refl
  disconnect-bound h (some up) p = refl

  answer-bound :
      (h : Header) (up : ℕ) (a : Answer) (p : Proxy)
      → (answer_reply session tokens print h up a p).1.conns ≡ p.conns
  unfolding answer_reply count_route error_reply
  answer-bound h up (err e) p = refl
  answer-bound h up (ok a) p = refl

  forward-bound :
      (http : ℕ → List ℕ → Exchange) (h : Header) (body : List ℕ) (o : Option ℕ) (p : Proxy)
      → (forward_found session tokens print http h body o p).1.conns ≡ p.conns
  unfolding forward_found count_route error_reply
  forward-bound http h body none p = refl
  forward-bound http h body (some up) p =
      answer-bound h up
        (round_trip_raw (http up) (session up) (forward_message session tokens print h up body)) p

  -- The branches of dispatch and of handleConnect, by what their tests find.
  known-bound :
      (raw vid : List ℕ) (dialed : Result ClientError ℕ) (h : Header) (body : List ℕ)
      (req : ConnectionRequest) (p : Proxy) (v : List ℕ) (c : ℕ) (o : Option (List ℕ))
      → split_envelope raw ≡ ok (h, body)
      → h.msg_type ≡ msg_connection_request
      → decode_connection_request body ≡ ok req
      → find req.auth_string tokens ≡ o
      → find v (connect_known session tokens print vid dialed h o p).1.conns ≡ some c
      → (find v p.conns ≡ some c) ⊎ ((vid ≡ v) × IsLogin tokens raw)
  unfolding connect_known count_route error_reply
  known-bound raw vid dialed h body req p v c none s m d o f = inl f
  known-bound raw vid dialed h body req p v c (some name) s m d o f =
      elim (connect_with-bound vid h (get p.pool dialed).0
        (record p { pool = (get p.pool dialed).1 }) v c f) [
          | inl b ↦ inl b
          | inr b ↦ inr (b, (h, body, req, name, s, m, d, o))
        ]

  decoded-bound :
      (raw vid : List ℕ) (dialed : Result ClientError ℕ) (h : Header) (body : List ℕ) (p : Proxy)
      (v : List ℕ) (c : ℕ) (r : Result WireError ConnectionRequest)
      → split_envelope raw ≡ ok (h, body)
      → h.msg_type ≡ msg_connection_request
      → decode_connection_request body ≡ r
      → find v (connect_decoded session tokens print vid dialed h r p).1.conns ≡ some c
      → (find v p.conns ≡ some c) ⊎ ((vid ≡ v) × IsLogin tokens raw)
  unfolding connect_decoded count_route error_reply
  decoded-bound raw vid dialed h body p v c (err e) s m d f = inl f
  decoded-bound raw vid dialed h body p v c (ok req) s m d f =
      known-bound raw vid dialed h body req p v c (find req.auth_string tokens) s m d refl f

  if-bound :
      (raw vid : List ℕ) (p : Proxy) (v : List ℕ) (c : ℕ) (b : Bool) (x y : Reply × Proxy)
      → (b ≡ true
          → find v x.1.conns ≡ some c
          → (find v p.conns ≡ some c) ⊎ ((vid ≡ v) × IsLogin tokens raw))
      → (find v y.1.conns ≡ some c → (find v p.conns ≡ some c) ⊎ ((vid ≡ v) × IsLogin tokens raw))
      → find v (if b then x else y).1.conns ≡ some c
      → (find v p.conns ≡ some c) ⊎ ((vid ≡ v) × IsLogin tokens raw)
  if-bound raw vid p v c true x y l r f = l refl f
  if-bound raw vid p v c false x y l r f = r f

  split-bound :
      (raw vid : List ℕ) (dialed : Result ClientError ℕ) (http : ℕ → List ℕ → Exchange) (p : Proxy)
      (v : List ℕ) (c : ℕ) (r : Result WireError (Header × List ℕ))
      → split_envelope raw ≡ r
      → find v (rpc_split session tokens print vid dialed http r p).1.conns ≡ some c
      → (find v p.conns ≡ some c) ⊎ ((vid ≡ v) × IsLogin tokens raw)
  unfolding rpc_split dispatch handle_connect handle_disconnect forward count_route error_reply
  split-bound raw vid dialed http p v c (err e) s f = inl f
  split-bound raw vid dialed http p v c (ok (h, body)) s f =
      if-bound raw vid p v c (h.msg_type == msg_connection_request) _ _
        (λ m.
          decoded-bound raw vid dialed h body p v c _ s (==→eq h.msg_type msg_connection_request m)
            refl)
        (if-bound raw vid p v c (h.msg_type == msg_disconnect) _ _
          (λ m g. inl (
            still_bound h.connection_id v p.conns c (
              subst (λ l. find v l ≡ some c)
                (disconnect-bound h (find h.connection_id p.conns)
                  (record p { conns = remove h.connection_id p.conns }))
                g)))
          (λ g. inl (
            subst (λ l. find v l ≡ some c)
              (forward-bound http h body (find h.connection_id p.conns) p) g)))
        f

  -- After any request: a virtual connection is mapped to a session only if it was before, or if the
  -- request was a CONNECTION_REQUEST with a token of the table and the connection's id is the one
  -- drawn for it.
  pub handle_rpc-bound :
      (vid : List ℕ) (dialed : Result ClientError ℕ) (http : ℕ → List ℕ → Exchange) (raw : List ℕ)
      (p : Proxy) (v : List ℕ) (c : ℕ)
      → find v (handle_rpc session tokens print vid dialed http (some raw) p).1.conns ≡ some c
      → (find v p.conns ≡ some c) ⊎ ((vid ≡ v) × IsLogin tokens raw)
  unfolding handle_rpc
  handle_rpc-bound vid dialed http raw p v c f =
      split-bound raw vid dialed http p v c (split_envelope raw) refl f

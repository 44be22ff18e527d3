-- ===== src/Bouncer/Handlers.antt =====
-- cmd/quackbouncer/proxy.go: the requests against the critical sections of Bouncer/Places.
use duckcall.Base.{
  ℕ, ◌≡◌, refl, ap, sym, subst, inl, inr, Bool, true, false, List, [], ◌∷◌, Option, none, some,
  Result, ok, err, ◌==◌, bytes_eq, Bool-cases, arith, if◌then◌else◌,
}
use duckcall.Base.Strings.{codes}
use duckcall.Wire.Messages.{
  WireError, ConnectionRequest, Header, split_envelope, decode_connection_request,
  msg_connection_request, msg_disconnect,
}
use duckcall.Wire.Errors.{ClientError}
use duckcall.Wire.Client.{Exchange, Client, Answer, round_trip_raw}
use duckcall.Bouncer.Pool.{get, get_from}
use duckcall.Bouncer.Metrics.{Metrics}
use duckcall.Bouncer.Proxy.{
  connect_decoded, rpc_split, Reply, Conns, find, remove, Proxy, count_route, error_reply,
  count_connect, connect_with, connect_known, handle_connect, disconnect_found, handle_disconnect,
  answer_reply, forward_found, forward, forward_message, dispatch, handle_rpc,
}
use duckcall.Bouncer.Places.{
  Site, places, reuses, dials, binds, unbinds, gives_back, counts, Sections, no_more, then_one,
}

-- A handler that leaves the proxy `q` and has nothing in its hands.
abbrev pub Runs : Site → Proxy → Type 0
Runs s q = (t : Site) × Sections s t × (t.proxy ≡ q) × (t.held ≡ s.held)

-- A dial returns a session that was nowhere before.
abbrev pub IsNew : Result ClientError ℕ → Site → Type 0
IsNew dialed s = (c : ℕ) → dialed ≡ ok c → places c s ≡ 0

count_only : (s : Site) (m : Metrics) → Runs s (record s.proxy { metrics = m })
count_only s m =
    (record s { proxy = record s.proxy { metrics = m } }, then_one no_more (counts m), refl, refl)

remove-absent : (vid : List ℕ) (m : Conns) → find vid m ≡ none → remove vid m ≡ m
unfolding find remove
remove-absent vid [] e = refl
remove-absent vid ((k, x) ∷ m) e = elim (Bool-cases (bytes_eq k vid)) [
  | inl h ↦ absurd (ground arith)
  | inr h ↦ ground (arith, remove-absent vid m)
]

module _ {Http : Type 0} (session : ℕ → Client Http) (tokens : List (List ℕ × List ℕ))
    (print : ClientError → List ℕ) where
  bound :
      (s t : Site) (vid : List ℕ) (h : Header) (up : ℕ) (reused : Bool)
      → Sections s t
      → t.held ≡ up ∷ s.held
      → Runs s (connect_with session tokens print vid h (ok (up, reused)) t.proxy).1
  unfolding connect_with count_connect count_route
  bound s t vid h up true p e = (
    _,
    then_one (then_one p (binds vid [] s.held e))
        (counts (connect_with session tokens print vid h (ok (up, true)) t.proxy).1.metrics),
    refl,
    refl,
  )
  bound s t vid h up false p e = (
    _,
    then_one
        (then_one (then_one p (counts (count_connect session tokens print false t.proxy).metrics))
          (binds vid [] s.held e))
        (counts (connect_with session tokens print vid h (ok (up, false)) t.proxy).1.metrics),
    refl,
    refl,
  )

  refused :
      (s : Site) (vid : List ℕ) (h : Header) (e : ClientError)
      → Runs s (connect_with session tokens print vid h (err e) s.proxy).1
  unfolding connect_with error_reply count_route
  refused s vid h e = count_only s _

  got :
      (s : Site) (vid : List ℕ) (dialed : Result ClientError ℕ) (h : Header) (idle : List ℕ)
      → IsNew dialed s
      → s.proxy.pool.idle ≡ idle
      → (let (r, q) = get_from idle s.proxy.pool.max dialed in
          Runs s (connect_with session tokens print vid h r (record s.proxy { pool = q })).1)
  unfolding get_from get
  got s vid dialed h (x ∷ idle) new i =
      bound s
        (record s {
          proxy = record s.proxy { pool = record { idle = idle; max = s.proxy.pool.max } };
          held = x ∷ s.held;
        })
        vid h x true
        (then_one no_more (reuses dialed (ap (λ l. get_from l s.proxy.pool.max dialed) i))) refl
  got s vid (ok x) h [] new i =
      subst
        (λ l.
          Runs s
            (connect_with session tokens print vid h (ok (x, false))
              (record s.proxy { pool = record { idle = l; max = s.proxy.pool.max } })).1)
        i
        (bound s (record s { held = x ∷ s.held }) vid h x false
          (then_one no_more (dials (new x refl))) refl)
  got s vid (err x) h [] new i =
      subst
        (λ l.
          Runs s
            (connect_with session tokens print vid h (err x)
              (record s.proxy { pool = record { idle = l; max = s.proxy.pool.max } })).1)
        i (refused s vid h x)

  connected :
      (s : Site) (vid : List ℕ) (dialed : Result ClientError ℕ) (h : Header)
      (known : Option (List ℕ))
      → IsNew dialed s
      → Runs s (connect_known session tokens print vid dialed h known s.proxy).1
  unfolding connect_known error_reply count_route get
  connected s vid dialed h none new = count_only s _
  connected s vid dialed h (some name) new = got s vid dialed h s.proxy.pool.idle new refl

  decoded_runs :
      (s : Site) (vid : List ℕ) (dialed : Result ClientError ℕ) (h : Header)
      (r : Result WireError ConnectionRequest)
      → IsNew dialed s
      → Runs s (connect_decoded session tokens print vid dialed h r s.proxy).1
  unfolding connect_decoded error_reply count_route
  decoded_runs s vid dialed h (err e) new = count_only s _
  decoded_runs s vid dialed h (ok req) new =
      connected s vid dialed h (find req.auth_string tokens) new

  given_back :
      (s : Site) (h : Header) (o : Option ℕ)
      → find h.connection_id s.proxy.conns ≡ o
      → Runs s
          (disconnect_found session tokens print h o
            (record s.proxy { conns = remove h.connection_id s.proxy.conns })).1
  unfolding disconnect_found error_reply count_route
  given_back s h none e =
      subst
        (λ m.
          Runs s (count_route (codes "disconnect") (codes "200") (record s.proxy { conns = m })))
        (sym (remove-absent h.connection_id s.proxy.conns e)) (count_only s _)
  given_back s h (some up) e = (
    _,
    then_one
        (then_one (then_one no_more (unbinds h.connection_id e)) (gives_back up [] s.held refl))
        (counts (count_route (codes "disconnect") (codes "200") s.proxy).metrics),
    refl,
    refl,
  )

  disconnect_runs :
      (s : Site) (h : Header) → Runs s (handle_disconnect session tokens print h s.proxy).1
  unfolding handle_disconnect
  disconnect_runs s h = given_back s h (find h.connection_id s.proxy.conns) refl

  answer_runs :
      (s : Site) (h : Header) (up : ℕ) (a : Answer)
      → Runs s (answer_reply session tokens print h up a s.proxy).1
  unfolding answer_reply error_reply count_route
  answer_runs s h up (err e) = count_only s _
  answer_runs s h up (ok a) = count_only s _

  forward_runs :
      (s : Site) (http : ℕ → List ℕ → Exchange) (h : Header) (body : List ℕ) (o : Option ℕ)
      → Runs s (forward_found session tokens print http h body o s.proxy).1
  unfolding forward_found error_reply count_route
  forward_runs s http h body none = count_only s _
  forward_runs s http h body (some up) =
      answer_runs s h up
        (round_trip_raw (http up) (session up) (forward_message session tokens print h up body))

  if_runs :
      (s : Site) (b : Bool) (x y : Reply × Proxy)
      → Runs s x.1
      → Runs s y.1
      → Runs s (if b then x else y).1
  if_runs s true x y p q = p
  if_runs s false x y p q = q

  dispatch_runs :
      (s : Site) (vid : List ℕ) (dialed : Result ClientError ℕ) (http : ℕ → List ℕ → Exchange)
      (h : Header) (body : List ℕ)
      → IsNew dialed s
      → Runs s (dispatch session tokens print vid dialed http h body s.proxy).1
  unfolding dispatch handle_connect forward
  dispatch_runs s vid dialed http h body new =
      if_runs s (h.msg_type == msg_connection_request) _ _
        (decoded_runs s vid dialed h (decode_connection_request body) new)
        (if_runs s (h.msg_type == msg_disconnect) _ _ (disconnect_runs s h)
          (forward_runs s http h body (find h.connection_id s.proxy.conns)))

  split_runs :
      (s : Site) (vid : List ℕ) (dialed : Result ClientError ℕ) (http : ℕ → List ℕ → Exchange)
      (r : Result WireError (Header × List ℕ))
      → IsNew dialed s
      → Runs s (rpc_split session tokens print vid dialed http r s.proxy).1
  unfolding rpc_split error_reply count_route
  split_runs s vid dialed http (err e) new = count_only s _
  split_runs s vid dialed http (ok (h, body)) new = dispatch_runs s vid dialed http h body new

  -- A request, read or not, takes the proxy through critical sections of Section, one after the
  -- other, to the state that handleRPC leaves, with no session in the handler's hands at the end.
  -- The hypothesis is that a dial returns a session that was nowhere before.
  pub handle_rpc-Sections :
      (s : Site) (vid : List ℕ) (dialed : Result ClientError ℕ) (http : ℕ → List ℕ → Exchange)
      (raw : Option (List ℕ))
      → IsNew dialed s
      → Runs s (handle_rpc session tokens print vid dialed http raw s.proxy).1
  unfolding handle_rpc count_route
  handle_rpc-Sections s vid dialed http none new = count_only s _
  handle_rpc-Sections s vid dialed http (some raw) new =
      split_runs s vid dialed http (split_envelope raw) new

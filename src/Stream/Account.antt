-- ===== src/Stream/Account.antt =====
-- duckcall.go: where the chunks of a result are in the states of Result.Chunks.
use duckcall.Base.{
  ℕ, zero, suc, ◌+◌, ◌≤◌, ◌≡◌, refl, ap, Bool, List, [], ◌∷◌, ◌++◌, length, count, count-append,
  total, total-append, replicate, arith,
}
use duckcall.Stream.Worker.{
  Batch, chunks, failure, Shared, Worker, looking, fetching, failing, exited, sending, Move,
  see_ctx, see_done, see_stop, fetch, pop, drained, drained_early, fail, fail_popped, send,
  drop_batch, send_error, drop_error,
}
use duckcall.Stream.System.{
  Phase, inlined, giving, stopped, System, Picks, here, there, is_exited, IsClosed, Act, work,
  give_inlined, stop_inlined, whole, spawn, receive, receive_error, give, refuse, next_batch,
  finish, finish_cancelled,
}
use duckcall.Stream.Invariant.{total-Picks, is_failing}

module _ {ℓ} {Chunk : Type ℓ} where
  pub exits-le-one : (w : Worker Chunk) → is_exited w ≤ 1
  exits-le-one exited = omega arith
  exits-le-one looking = omega arith
  exits-le-one fetching = omega arith
  exits-le-one failing = omega arith
  exits-le-one (sending b) = omega arith

  pub exits-le-length : (ws : List (Worker Chunk)) → total is_exited ws ≤ length ws
  exits-le-length [] = omega arith
  exits-le-length (w ∷ ws) = omega (arith, exits-le-one w, exits-le-length ws)

  pub Move-exits : {m m' : Shared Chunk} {w w' : Worker Chunk} → Move m w m' w' → is_exited w ≡ 0
  Move-exits (see_ctx g) = refl
  Move-exits (see_done g) = refl
  Move-exits (see_stop g) = refl
  Move-exits (fetch g g' g'') = refl
  Move-exits (pop g) = refl
  Move-exits (drained g) = refl
  Move-exits (drained_early g) = refl
  Move-exits fail = refl
  Move-exits (fail_popped g) = refl
  Move-exits (send g) = refl
  Move-exits (drop_batch g) = refl
  Move-exits (send_error g) = refl
  Move-exits (drop_error g) = refl

  pub closed-Picks :
      {w w' : Worker Chunk} {ws ws' : List (Worker Chunk)}
      → Picks w w' ws ws'
      → IsClosed ws
      → is_exited w ≡ 1
  closed-Picks {w} (here {ws}) h = omega (arith, exits-le-one w, exits-le-length ws)
  closed-Picks (there {v} {ws} p) h =
      closed-Picks p (omega (arith, exits-le-one v, exits-le-length ws))

  abbrev pub in_batch : (Chunk → Bool) → Batch Chunk → ℕ
  in_batch p (chunks b) = count p b
  in_batch p failure = 0

  abbrev pub carried : (Chunk → Bool) → Worker Chunk → ℕ
  carried p (sending b) = count p b
  carried p _ = 0

  pub closed_carried :
      (p : Chunk → Bool) (ws : List (Worker Chunk)) → IsClosed ws → total (carried p) ws ≡ 0
  closed_carried p [] h = refl
  closed_carried p (exited ∷ ws) h = omega (arith, closed_carried p ws (omega arith))
  closed_carried p (looking ∷ ws) h = absurd (omega (arith, exits-le-length ws))
  closed_carried p (fetching ∷ ws) h = absurd (omega (arith, exits-le-length ws))
  closed_carried p (failing ∷ ws) h = absurd (omega (arith, exits-le-length ws))
  closed_carried p (sending b ∷ ws) h = absurd (omega (arith, exits-le-length ws))

  pub closed_failing : (ws : List (Worker Chunk)) → IsClosed ws → total is_failing ws ≡ 0
  closed_failing [] h = refl
  closed_failing (exited ∷ ws) h = omega (arith, closed_failing ws (omega arith))
  closed_failing (looking ∷ ws) h = absurd (omega (arith, exits-le-length ws))
  closed_failing (fetching ∷ ws) h = absurd (omega (arith, exits-le-length ws))
  closed_failing (failing ∷ ws) h = absurd (omega (arith, exits-le-length ws))
  closed_failing (sending b ∷ ws) h = absurd (omega (arith, exits-le-length ws))

  abbrev pub pending : (Chunk → Bool) → Phase Chunk → ℕ
  pending p (inlined cs) = count p cs
  pending p (giving cs) = count p cs
  pending p (stopped cs) = count p cs
  pending p _ = 0

  -- The chunks that pass a test, on their way from the server to the consumer.
  abbrev pub amount : (Chunk → Bool) → Shared Chunk → List (Worker Chunk) → ℕ
  amount p m ws =
      total (in_batch p) m.out + total (carried p) ws + total (count p) m.held + count p m.lost

  Move-amount :
      {m m' : Shared Chunk} {w w' : Worker Chunk} (p : Chunk → Bool) (ws ws' : List (Worker Chunk))
      → Move m w m' w'
      → total (carried p) ws' + carried p w ≡ total (carried p) ws + carried p w'
      → amount p m' ws' ≡ amount p m ws
  Move-amount p ws ws' (see_ctx g) k = omega (arith, k)
  Move-amount p ws ws' (see_done g) k = omega (arith, k)
  Move-amount p ws ws' (see_stop g) k = omega (arith, k)
  Move-amount p ws ws' (fetch g g' g'') k = omega (arith, k)
  Move-amount p ws ws' (pop g) k = omega (arith, k, ap (total (count p)) g)
  Move-amount p ws ws' (drained g) k = omega (arith, k)
  Move-amount p ws ws' (drained_early g) k = omega (arith, k, ap (total (count p)) g)
  Move-amount p ws ws' fail k = omega (arith, k)
  Move-amount {m} p ws ws' (fail_popped {b} g) k =
      omega (arith, k, ap (total (count p)) g, count-append p b m.lost)
  Move-amount {m} p ws ws' (send {b} g) k =
      omega (arith, k, total-append (in_batch p) m.out (chunks b ∷ []))
  Move-amount {m} p ws ws' (drop_batch {b} g) k = omega (arith, k, count-append p b m.lost)
  Move-amount {m} p ws ws' (send_error g) k =
      omega (arith, k, total-append (in_batch p) m.out (failure ∷ []))
  Move-amount p ws ws' (drop_error g) k = omega (arith, k)

  abbrev pub balance : (Chunk → Bool) → System Chunk → ℕ
  balance p s = count p s.given + pending p s.phase + amount p s.shared s.workers

  given_one :
      (p : Chunk → Bool) (s : System Chunk) (c : Chunk)
      → count p (s.given ++ c ∷ []) ≡ count p s.given + count p (c ∷ [])
  given_one p s c = count-append p s.given (c ∷ [])

  none_carried : (p : Chunk → Bool) (n : ℕ) → total (carried p) (replicate n looking) ≡ 0
  none_carried p zero = refl
  none_carried p (suc n) = omega (arith, none_carried p n)

  module _ {n : ℕ} {more : Bool} (p : Chunk → Bool) where
    pub Act-balance : {s t : System Chunk} → Act n more s t → balance p t ≡ balance p s
    Act-balance {s} (work {ws} mv pk) =
        omega (arith, Move-amount p s.workers ws mv (total-Picks (carried p) pk))
    Act-balance {s} (give_inlined {c} e) = omega (arith, given_one p s c, ap (pending p) e)
    Act-balance {s} (stop_inlined {c} e) = omega (arith, given_one p s c, ap (pending p) e)
    Act-balance (whole e g) = omega (arith, ap (pending p) e)
    Act-balance {s} (spawn e g) = omega (
      arith,
      ap (pending p) e,
      none_carried p n,
      total-append (carried p) s.workers (replicate n looking),
    )
    Act-balance (receive e g) = omega (arith, ap (pending p) e, ap (total (in_batch p)) g)
    Act-balance (receive_error e g) = omega (arith, ap (pending p) e, ap (total (in_batch p)) g)
    Act-balance {s} (give {c} e) = omega (arith, given_one p s c, ap (pending p) e)
    Act-balance {s} (refuse {c} e) = omega (arith, given_one p s c, ap (pending p) e)
    Act-balance (next_batch e) = omega (arith, ap (pending p) e)
    Act-balance (finish e g g' g'') = omega (arith, ap (pending p) e)
    Act-balance (finish_cancelled e g g' g'') = omega (arith, ap (pending p) e)

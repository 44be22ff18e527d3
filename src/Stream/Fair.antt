-- ===== src/Stream/Fair.antt =====
-- duckcall.go: the order of what the workers of Result.Chunks share.
use duckcall.Base.{
  ℕ, zero, suc, ◌≡◌, refl, ap, Bool, true, List, ◌∷◌, ◌++◌, total, total-append, replicate, arith,
}
use duckcall.Stream.Worker.{Batch, chunks, Shared, Worker, looking}
use duckcall.Stream.System.{
  System, is_exited, Act, work, give_inlined, stop_inlined, whole, spawn, receive, receive_error,
  give, refuse, next_batch, finish, finish_cancelled,
}
use duckcall.Stream.Invariant.{Fair, Move-Fair, is_failing, is_failure}

module _ {ℓ} {Chunk : Type ℓ} where
  pub cancel-Fair :
      {m : Shared Chunk} {ws : List (Worker Chunk)} → Fair m ws → Fair (record m { ctx = true }) ws
  cancel-Fair f = ground arith

  pub close-Fair :
      {m : Shared Chunk} {ws : List (Worker Chunk)} → Fair m ws → Fair (record m { stop = true }) ws
  close-Fair f = ground arith

  received-Fair :
      {m : Shared Chunk} {ws : List (Worker Chunk)} {b : List Chunk} {rest : List (Batch Chunk)}
      → m.out ≡ chunks b ∷ rest
      → Fair m ws
      → Fair (record m { out = rest }) ws
  received-Fair e f = ground (arith, ap (total is_failure) e)

  spawned-Fair :
      {m : Shared Chunk} {ws : List (Worker Chunk)} (n : ℕ)
      → Fair m ws
      → Fair m (ws ++ replicate n looking)
  spawned-Fair {ws} n f = ground (
    arith,
    total-append is_exited ws (replicate n looking),
    total-append is_failing ws (replicate n looking),
    none_exited n,
    none_failing n,
  )
    where
      none_exited : (k : ℕ) → total is_exited (replicate {A = Worker Chunk} k looking) ≡ 0
      none_exited zero = refl
      none_exited (suc k) = omega (arith, none_exited k)

      none_failing : (k : ℕ) → total is_failing (replicate {A = Worker Chunk} k looking) ≡ 0
      none_failing zero = refl
      none_failing (suc k) = omega (arith, none_failing k)

  pub Act-Fair :
      {n : ℕ} {more : Bool} {s t : System Chunk}
      → Act n more s t
      → Fair s.shared s.workers
      → Fair t.shared t.workers
  Act-Fair (work mv pk) f = Move-Fair mv pk f
  Act-Fair (give_inlined e) f = f
  Act-Fair (stop_inlined e) f = f
  Act-Fair (whole e g) f = f
  Act-Fair {n} (spawn e g) f = spawned-Fair n f
  Act-Fair (receive e g) f = received-Fair g f
  Act-Fair (receive_error e g) f = ground arith
  Act-Fair (give e) f = f
  Act-Fair (refuse e) f = cancel-Fair f
  Act-Fair (next_batch e) f = f
  Act-Fair (finish e o c x) f = cancel-Fair f
  Act-Fair (finish_cancelled e o c x) f = f

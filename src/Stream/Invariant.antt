-- ===== src/Stream/Invariant.antt =====
-- What holds of Result.Chunks in every reachable state, however its workers interleave.
use duckcall.Base.{
  ℕ, ◌+◌, ◌<◌, ◌≡◌, refl, ap, subst, ◌⊎◌, true, false, List, [], ◌∷◌, All, length, total,
  total-append, is_empty, arith,
}
use duckcall.Stream.Worker.{
  Batch, chunks, failure, Shared, Worker, failing, Move, see_ctx, see_done, see_stop, fetch, pop,
  drained, drained_early, fail, fail_popped, send, drop_batch, send_error, drop_error,
}
use duckcall.Stream.System.{Picks, here, there, is_exited}

module _ {ℓ} {A : Type ℓ} {w w' : A} where
  pub total-Picks :
      (f : A → ℕ) {ws ws' : List A} → Picks w w' ws ws' → total f ws' + f w ≡ total f ws + f w'
  total-Picks f (here {ws}) = omega arith
  total-Picks f (there {v} p) = omega (arith, total-Picks f p)

  pub length-Picks : {ws ws' : List A} → Picks w w' ws ws' → length ws' ≡ length ws
  length-Picks here = refl
  length-Picks (there p) = omega (arith, length-Picks p)

module _ {ℓ} {Chunk : Type ℓ} where
  abbrev pub is_failing : Worker Chunk → ℕ
  is_failing failing = 1
  is_failing _ = 0

  abbrev pub is_failure : Batch Chunk → ℕ
  is_failure failure = 1
  is_failure _ = 0

  abbrev pub NonEmpty : List Chunk → Type 0
  NonEmpty b = is_empty b ≡ false

  -- Somebody knows, or will be told, that the stream is not whole: the context is done, the result
  -- was closed, or an error waits in the channel.
  abbrev pub Troubled : Shared Chunk → Type 0
  Troubled m = (m.ctx ≡ true) ⊎ ((m.stop ≡ true) ⊎ (0 < total is_failure m.out))

  -- The workers and what they share.
  pub record Fair (m : Shared Chunk) (ws : List (Worker Chunk)) : Type 0 where
    pub full : All NonEmpty m.held
    pub empty_after : m.done ≡ true → length m.held ≡ 0
    pub left : 0 < total is_exited ws → Troubled m ⊎ (m.done ≡ true)
    pub told : 0 < length m.lost → Troubled m ⊎ (0 < total is_failing ws)

  -- One worker moved: who has returned, and who is about to send an error.
  record Counts (w w' : Worker Chunk) (ws ws' : List (Worker Chunk)) : Type 0 where
    exits : total is_exited ws' + is_exited w ≡ total is_exited ws + is_exited w'
    fails : total is_failing ws' + is_failing w ≡ total is_failing ws + is_failing w'

  tail-full :
      (held : List (List Chunk)) (b : List Chunk) (rest : List (List Chunk))
      → held ≡ b ∷ rest
      → All NonEmpty held
      → NonEmpty b × All NonEmpty rest
  tail-full held b rest e h =
      let h' : All NonEmpty (b ∷ rest) = subst (All NonEmpty) e h in (h'.0, h'.1)

  Move-counted :
      {m m' : Shared Chunk} {w w' : Worker Chunk} {ws ws' : List (Worker Chunk)}
      → Move m w m' w'
      → Counts w w' ws ws'
      → Fair m ws
      → Fair m' ws'
  Move-counted (see_ctx g) k f = ground arith
  Move-counted (see_done g) k f = ground arith
  Move-counted (see_stop g) k f = ground arith
  Move-counted (fetch g g' g'') k f = ground arith
  Move-counted {m} (pop {c} {cs} {rest} g) k f =
      let t = tail-full m.held (c ∷ cs) rest g f.full in ground (arith, ap length g)
  Move-counted (drained g) k f = ground (arith, ap length g)
  Move-counted {m} (drained_early {rest} g) k f = let t = tail-full m.held [] rest g f.full in cc
  Move-counted fail k f = ground arith
  Move-counted {m} (fail_popped {b} {rest} g) k f =
      let t = tail-full m.held b rest g f.full in ground (arith, ap length g)
  Move-counted {m} (send {b} g) k f = ground (arith, total-append is_failure m.out (chunks b ∷ []))
  Move-counted (drop_batch g) k f = ground arith
  Move-counted {m} (send_error g) k f = ground (arith, total-append is_failure m.out (failure ∷ []))
  Move-counted (drop_error g) k f = ground arith

  pub Move-Fair :
      {m m' : Shared Chunk} {w w' : Worker Chunk} {ws ws' : List (Worker Chunk)}
      → Move m w m' w'
      → Picks w w' ws ws'
      → Fair m ws
      → Fair m' ws'
  Move-Fair mv p f =
      Move-counted mv (record { exits = total-Picks is_exited p; fails = total-Picks is_failing p })
        f

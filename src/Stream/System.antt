-- ===== src/Stream/System.antt =====
-- duckcall.go: the workers of Result.Chunks interleaved with its consumer, in any order.
use duckcall.Base.{ℕ, ◌≡◌, Bool, true, false, List, [], ◌∷◌, ◌++◌, length, total, replicate}
use duckcall.Stream.Worker.{Batch, chunks, failure, Shared, Worker, looking, exited, Move}

-- Where the consumer stands: among the chunks that came with the prepare response, at the receive
-- of `for b := range out`, or among the chunks of a batch. It has returned when the iteration is
-- over (`ended`), when `yield` was false (`stopped`, with the chunks that were next), and when it
-- yielded an error (`reported`).
pub data Phase {ℓ} (Chunk : Type ℓ) : Type ℓ where
  inlined giving stopped : List Chunk → Phase Chunk
  reading ended reported : Phase Chunk

pub record System {ℓ} (Chunk : Type ℓ) : Type ℓ where
  pub shared : Shared Chunk
  pub workers : List (Worker Chunk)
  pub phase : Phase Chunk
  pub given : List Chunk

-- One worker of a list goes from `w` to `w'`.
pub data Picks {ℓ} {A : Type ℓ} (w w' : A) : List A → List A → Type ℓ where
  here : {ws : List A} → Picks w w' (w ∷ ws) (w' ∷ ws)
  there : {v : A} {ws ws' : List A} → Picks w w' ws ws' → Picks w w' (v ∷ ws) (v ∷ ws')

abbrev pub is_exited {ℓ} : {Chunk : Type ℓ} → Worker Chunk → ℕ
is_exited exited = 1
is_exited _ = 0

-- `close(out)`, after every worker is done.
abbrev pub IsClosed {ℓ} : {Chunk : Type ℓ} → List (Worker Chunk) → Type 0
IsClosed ws = total is_exited ws ≡ length ws

-- A step of the program. `more` is NeedsMoreFetch and `n` is FetchWorkers.
pub data Act {ℓ} {Chunk : Type ℓ} (n : ℕ) (more : Bool) (s : System Chunk)
    : System Chunk → Type ℓ where
  work :
      {m : Shared Chunk} {w w' : Worker Chunk} {ws : List (Worker Chunk)}
      → Move s.shared w m w'
      → Picks w w' s.workers ws
      → Act n more s (record s { shared = m; workers = ws })
  give_inlined :
      {c : Chunk} {cs : List Chunk}
      → s.phase ≡ inlined (c ∷ cs)
      → Act n more s (record s { phase = inlined cs; given = s.given ++ c ∷ [] })
  stop_inlined :
      {c : Chunk} {cs : List Chunk}
      → s.phase ≡ inlined (c ∷ cs)
      → Act n more s (record s { phase = stopped cs; given = s.given ++ c ∷ [] })
  whole : s.phase ≡ inlined [] → more ≡ false → Act n more s (record s { phase = ended })
  spawn :
      s.phase ≡ inlined []
      → more ≡ true
      → Act n more s (record s { phase = reading; workers = s.workers ++ replicate n looking })
  receive :
      {b : List Chunk} {rest : List (Batch Chunk)}
      → s.phase ≡ reading
      → s.shared.out ≡ chunks b ∷ rest
      → Act n more s (record s { phase = giving b; shared = record s.shared { out = rest } })
  -- A return runs the deferred `cancel`.
  receive_error :
      {rest : List (Batch Chunk)}
      → s.phase ≡ reading
      → s.shared.out ≡ failure ∷ rest
      → Act n more s
          (record s { phase = reported; shared = record s.shared { out = rest; ctx = true } })
  give :
      {c : Chunk} {cs : List Chunk}
      → s.phase ≡ giving (c ∷ cs)
      → Act n more s (record s { phase = giving cs; given = s.given ++ c ∷ [] })
  refuse :
      {c : Chunk} {cs : List Chunk}
      → s.phase ≡ giving (c ∷ cs)
      → Act n more s (record s {
        phase = stopped cs;
        given = s.given ++ c ∷ [];
        shared = record s.shared { ctx = true };
      })
  next_batch : s.phase ≡ giving [] → Act n more s (record s { phase = reading })
  finish :
      s.phase ≡ reading
      → s.shared.out ≡ []
      → IsClosed s.workers
      → s.shared.ctx ≡ false
      → Act n more s (record s { phase = ended; shared = record s.shared { ctx = true } })
  finish_cancelled :
      s.phase ≡ reading
      → s.shared.out ≡ []
      → IsClosed s.workers
      → s.shared.ctx ≡ true
      → Act n more s (record s { phase = reported })

-- A step of the program or of its caller, who may cancel the context and may close the result.
pub data Step {ℓ} {Chunk : Type ℓ} (n : ℕ) (more : Bool) (s : System Chunk)
    : System Chunk → Type ℓ where
  act : {t : System Chunk} → Act n more s t → Step n more s t
  cancel : Step n more s (record s { shared = record s.shared { ctx = true } })
  close : Step n more s (record s { shared = record s.shared { stop = true } })

-- After Query: the prepare response brought `first`, and the server holds the batches `held`.
abbrev pub init {ℓ} : {Chunk : Type ℓ} → ℕ → List Chunk → List (List Chunk) → System Chunk
init n first held = record {
  shared = record {
    held = held;
    lost = [];
    out = [];
    capacity = n;
    done = false;
    stop = false;
    ctx = false;
  };
  workers = [];
  phase = inlined first;
  given = [];
}

pub data Reach {ℓ} {Chunk : Type ℓ} (n : ℕ) (more : Bool) (first : List Chunk)
    (held : List (List Chunk)) : System Chunk → Type ℓ where
  start : Reach n more first held (init n first held)
  later :
      {s t : System Chunk} → Reach n more first held s → Step n more s t → Reach n more first held t

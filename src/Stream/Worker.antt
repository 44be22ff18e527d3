-- ===== src/Stream/Worker.antt =====
-- duckcall.go: one fetch worker of Result.Chunks. A chunk is any type, and a batch is the list of
-- chunks of one FETCH_RESPONSE.
use duckcall.Base.{ℕ, ◌<◌, ◌≡◌, Bool, true, false, List, [], ◌∷◌, ◌++◌, length}

-- `batch`: the chunks, or an error.
pub data Batch {ℓ} (Chunk : Type ℓ) : Type ℓ where
  chunks : List Chunk → Batch Chunk
  failure : Batch Chunk

-- What the workers share. `held` is what the server still holds of the result, a batch for each
-- fetch; `lost` is what left the server and reaches nobody. `ctx` is the context with its cancel
-- function.
pub record Shared {ℓ} (Chunk : Type ℓ) : Type ℓ where
  pub held : List (List Chunk)
  pub lost : List Chunk
  pub out : List (Batch Chunk)
  pub capacity : ℕ
  pub done : Bool
  pub stop : Bool
  pub ctx : Bool

-- Where a worker stands: at the top of its loop, in `Fetch`, at the `select` that sends a batch or an
-- error, or returned.
pub data Worker {ℓ} (Chunk : Type ℓ) : Type ℓ where
  looking fetching failing exited : Worker Chunk
  sending : List Chunk → Worker Chunk

-- One step of one worker. Fetching is a destructive read: the server pops the batch, and the fetch
-- may still fail after that, in the transport or in DecodeFetch.
pub data Move {ℓ} {Chunk : Type ℓ} (m : Shared Chunk)
    : Worker Chunk → Shared Chunk → Worker Chunk → Type ℓ where
  see_ctx : m.ctx ≡ true → Move m looking m exited
  see_done : m.done ≡ true → Move m looking m exited
  see_stop : m.stop ≡ true → Move m looking m exited
  fetch : m.ctx ≡ false → m.done ≡ false → m.stop ≡ false → Move m looking m fetching
  pop :
      {c : Chunk} {cs : List Chunk} {rest : List (List Chunk)}
      → m.held ≡ (c ∷ cs) ∷ rest
      → Move m fetching (record m { held = rest }) (sending (c ∷ cs))
  -- A response without chunks counts as the end of the result.
  drained : m.held ≡ [] → Move m fetching (record m { done = true }) exited
  drained_early :
      {rest : List (List Chunk)}
      → m.held ≡ [] ∷ rest
      → Move m fetching (record m { held = rest; done = true }) exited
  fail : Move m fetching m failing
  fail_popped :
      {b : List Chunk} {rest : List (List Chunk)}
      → m.held ≡ b ∷ rest
      → Move m fetching (record m { held = rest; lost = b ++ m.lost }) failing
  send :
      {b : List Chunk}
      → length m.out < m.capacity
      → Move m (sending b) (record m { out = m.out ++ chunks b ∷ [] }) looking
  drop_batch :
      {b : List Chunk} → m.ctx ≡ true → Move m (sending b) (record m { lost = b ++ m.lost }) exited
  send_error :
      length m.out < m.capacity → Move m failing (record m { out = m.out ++ failure ∷ [] }) exited
  drop_error : m.ctx ≡ true → Move m failing m exited

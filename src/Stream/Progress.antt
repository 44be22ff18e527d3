-- ===== src/Stream/Progress.antt =====
-- duckcall.go: whether Result.Chunks can take a step.
use duckcall.Base.{
  ℕ, ◌<◌, ◌≡◌, refl, ap, ◌∙◌, ◌⊎◌, inl, inr, Bool, true, false, List, [], ◌∷◌, length, arith,
  Bool-cases,
}
use duckcall.Stream.Worker.{
  Batch, chunks, failure, Shared, Worker, looking, fetching, failing, exited, sending, Move,
  see_ctx, see_done, see_stop, fetch, fail, send, send_error,
}
use duckcall.Stream.System.{
  Phase, inlined, giving, reading, ended, stopped, reported, System, Picks, here, there, is_exited,
  IsClosed, Act, work, give_inlined, whole, spawn, receive, receive_error, give, next_batch, finish,
  finish_cancelled, act, cancel, close, Reach, start, later,
}

module _ {ℓ} {Chunk : Type ℓ} where
  Move-capacity :
      {m m' : Shared Chunk} {w w' : Worker Chunk} → Move m w m' w' → m'.capacity ≡ m.capacity
  Move-capacity (see_ctx g) = refl
  Move-capacity mv = refl

  Act-capacity :
      {n : ℕ} {more : Bool} {s t : System Chunk}
      → Act n more s t
      → t.shared.capacity ≡ s.shared.capacity
  Act-capacity (work mv pk) = Move-capacity mv
  Act-capacity (whole e g) = refl
  Act-capacity a = refl

  Reach-capacity :
      {n : ℕ} {more : Bool} {first : List Chunk} {held : List (List Chunk)} {s : System Chunk}
      → Reach n more first held s
      → s.shared.capacity ≡ n
  Reach-capacity start = refl
  Reach-capacity (later r (act a)) = Act-capacity a ∙ Reach-capacity r
  Reach-capacity (later r cancel) = Reach-capacity r
  Reach-capacity (later r close) = Reach-capacity r

  -- A worker that can step.
  abbrev CanMove : Shared Chunk → Worker Chunk → Type ℓ
  CanMove m w = (m' : Shared Chunk) × (w' : Worker Chunk) × Move m w m' w'

  look : (m : Shared Chunk) → CanMove m looking
  look m = elim (Bool-cases m.ctx) [
    | inl c ↦ (m, exited, see_ctx c)
    | inr c ↦ elim (Bool-cases m.done) [
      | inl d ↦ (m, exited, see_done d)
      | inr d ↦ elim (Bool-cases m.stop) [
        | inl s ↦ (m, exited, see_stop s)
        | inr s ↦ (m, fetching, fetch c d s)
      ]
    ]
  ]

  can_move :
      (m : Shared Chunk)
      → length m.out < m.capacity
      → (w : Worker Chunk) → (is_exited w ≡ 1) ⊎ CanMove m w
  can_move m room looking = inr (look m)
  can_move m room fetching = inr (m, failing, fail)
  can_move m room failing = inr (_, exited, send_error room)
  can_move m room exited = inl refl
  can_move m room (sending b) = inr (_, looking, send room)

  -- All workers returned, or one of them can step.
  IsClosed-or_move :
      (m : Shared Chunk)
      → length m.out < m.capacity
      → (ws : List (Worker Chunk))
      → IsClosed ws
        ⊎ ((w w' : Worker Chunk) × (m' : Shared Chunk) × (ws' : List (Worker Chunk)) × Move m w m'
              w'
            × Picks w w' ws ws')
  IsClosed-or_move m room [] = inl refl
  IsClosed-or_move m room (w ∷ ws) = elim (can_move m room w) [
    | inr (m', w', mv) ↦ inr (w, w', m', w' ∷ ws, mv, here)
    | inl x ↦ elim (IsClosed-or_move m room ws) [
      | inl c ↦ inl (omega (arith, x, c))
      | inr (v, v', m', ws', mv, pk) ↦ inr (v, v', m', w ∷ ws', mv, there pk)
    ]
  ]

  abbrev pub is_over : Phase Chunk → Bool
  is_over ended = true
  is_over (stopped cs) = true
  is_over reported = true
  is_over _ = false

  abbrev CanAct : ℕ → Bool → System Chunk → Type ℓ
  CanAct n more s = (t : System Chunk) × Act n more s t

  act_inlined :
      (n : ℕ) (more : Bool) (s : System Chunk) (cs : List Chunk)
      → s.phase ≡ inlined cs
      → CanAct n more s
  act_inlined n true s [] e = (_, spawn e refl)
  act_inlined n false s [] e = (_, whole e refl)
  act_inlined n more s (c ∷ cs) e = (_, give_inlined e)

  act_giving :
      (n : ℕ) (more : Bool) (s : System Chunk) (cs : List Chunk)
      → s.phase ≡ giving cs
      → CanAct n more s
  act_giving n more s [] e = (_, next_batch e)
  act_giving n more s (c ∷ cs) e = (_, give e)

  act_reading :
      (n : ℕ) (more : Bool) (s : System Chunk) (out : List (Batch Chunk))
      → 0 < s.shared.capacity
      → s.phase ≡ reading
      → s.shared.out ≡ out
      → CanAct n more s
  act_reading n more s (chunks b ∷ rest) room e o = (_, receive e o)
  act_reading n more s (failure ∷ rest) room e o = (_, receive_error e o)
  act_reading n more s [] room e o =
      elim (IsClosed-or_move s.shared (omega (arith, ap length o)) s.workers) [
        | inr (w, w', m', ws', mv, pk) ↦ (_, work mv pk)
        | inl c ↦ elim (Bool-cases s.shared.ctx) [
          | inl x ↦ (_, finish_cancelled e o c x)
          | inr x ↦ (_, finish e o c x)
        ]
      ]

  act_at :
      (n : ℕ) (more : Bool) (s : System Chunk) (ph : Phase Chunk)
      → 0 < s.shared.capacity
      → s.phase ≡ ph
      → is_over ph ≡ false
      → CanAct n more s
  act_at n more s (inlined cs) room e o = act_inlined n more s cs e
  act_at n more s (giving cs) room e o = act_giving n more s cs e
  act_at n more s reading room e o = act_reading n more s s.shared.out room e refl
  act_at n more s ended room e o = cc
  act_at n more s (stopped cs) room e o = cc
  act_at n more s reported room e o = cc

  -- No deadlock: in every reachable state in which the iteration is not over, the consumer or one of
  -- the workers can take a step, whether or not the caller cancels or closes.
  pub chunks_progress :
      (n : ℕ) (more : Bool) (first : List Chunk) (held : List (List Chunk)) (s : System Chunk)
      → 0 < n
      → Reach n more first held s
      → is_over s.phase ≡ false
      → (t : System Chunk) × Act n more s t
  chunks_progress n more first held s some_worker r o =
      act_at n more s s.phase (omega (arith, some_worker, Reach-capacity r)) refl o

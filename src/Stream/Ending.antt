-- ===== src/Stream/Ending.antt =====
-- What is left of a result when Result.Chunks is over, however its workers interleave.
use duckcall.Base.{
  ℕ, ◌+◌, ◌<◌, ◌≡◌, refl, ap, subst, sym, ◌∙◌, ◌⊎◌, inl, inr, Bool, true, false, List, [], All,
  length, count, total, replicate, length-replicate, length-append, arith,
}
use duckcall.Stream.Worker.{Shared, Worker, looking, Move}
use duckcall.Stream.System.{
  Phase, inlined, giving, reading, ended, stopped, reported, System, Picks, IsClosed, Act, work,
  give_inlined, stop_inlined, whole, spawn, receive, receive_error, give, refuse, next_batch,
  finish, finish_cancelled, Step, act, cancel, close, Reach, start, later,
}
use duckcall.Stream.Invariant.{NonEmpty, Fair, length-Picks, is_failure}
use duckcall.Stream.Fair.{Act-Fair, cancel-Fair, close-Fair}
use duckcall.Stream.Account.{
  closed_failing, closed-Picks, Move-exits, exits-le-length, balance, Act-balance,
}

no_Picks {ℓ} :
    {Chunk : Type ℓ} {w w' : Worker Chunk} {ws ws' : List (Worker Chunk)} {m m' : Shared Chunk}
    → IsClosed ws
    → Picks w w' ws ws'
    → Move m w m' w'
    → ⊥
no_Picks c pk mv = omega (arith, closed-Picks pk c, Move-exits mv)

-- `first` and `held` are what the result had at first; `p` is a test on chunks.
module _ {ℓ} {Chunk : Type ℓ} (n : ℕ) (more : Bool) (first : List Chunk) (held : List (List Chunk))
    (p : Chunk → Bool) where
  -- No batch is left behind.
  abbrev pub Delivered : Shared Chunk → Bool → Type 0
  Delivered m true = (length m.out ≡ 0) × (length m.lost ≡ 0) × (length m.held ≡ 0)
  Delivered m false =
      (length m.out ≡ 0) × (length m.lost ≡ 0) × (total (count p) m.held ≡ total (count p) held)

  -- Before the workers start, while they run, and after the last of them returned.
  abbrev pub Standing : Phase Chunk → Shared Chunk → List (Worker Chunk) → Type 0
  Standing (inlined cs) m ws =
      (length ws ≡ 0)
      × (length m.out ≡ 0)
      × (length m.lost ≡ 0)
      × (total (count p) m.held ≡ total (count p) held)
  Standing reading m ws = (length ws ≡ n) × (more ≡ true)
  Standing (giving cs) m ws = (length ws ≡ n) × (more ≡ true)
  Standing ended m ws = IsClosed ws × ((m.stop ≡ true) ⊎ Delivered m more)
  Standing (stopped cs) m ws = Unit
  Standing reported m ws = Unit

  Move-Standing :
      {w w' : Worker Chunk} {m m' : Shared Chunk} {ws ws' : List (Worker Chunk)} (ph : Phase Chunk)
      → Move m w m' w'
      → Picks w w' ws ws'
      → Standing ph m ws
      → Standing ph m' ws'
  Move-Standing {ws} (inlined cs) mv pk h =
      absurd (no_Picks (omega (arith, h, exits-le-length ws)) pk mv)
  Move-Standing reading mv pk h = (omega (arith, h, length-Picks pk), h.1)
  Move-Standing (giving cs) mv pk h = (omega (arith, h, length-Picks pk), h.1)
  Move-Standing ended mv pk h = absurd (no_Picks h.0 pk mv)
  Move-Standing (stopped cs) mv pk h = tt
  Move-Standing reported mv pk h = tt

  pub record Inv (s : System Chunk) : Type 0 where
    pub fair : Fair s.shared s.workers
    pub standing : Standing s.phase s.shared s.workers
    pub kept : balance p s ≡ count p first + total (count p) held

  at_phase :
      {s : System Chunk} {ph : Phase Chunk} → Inv s → s.phase ≡ ph → Standing ph s.shared s.workers
  at_phase {s} v e = subst (λ (ph : Phase Chunk). Standing ph s.shared s.workers) e v.standing

  cancel-Standing :
      (m : Shared Chunk) (ws : List (Worker Chunk)) (ph : Phase Chunk)
      → Standing ph m ws
      → Standing ph (record m { ctx = true }) ws
  cancel-Standing m ws (inlined cs) h = h
  cancel-Standing m ws reading h = h
  cancel-Standing m ws (giving cs) h = h
  cancel-Standing m ws ended h = (h.0, settled_anyway more h.1)
    where
      settled_anyway :
          (b : Bool)
          → (m.stop ≡ true) ⊎ Delivered m b
          → (m.stop ≡ true) ⊎ Delivered (record m { ctx = true }) b
      settled_anyway true d = d
      settled_anyway false d = d
  cancel-Standing m ws (stopped cs) h = tt
  cancel-Standing m ws reported h = tt

  close-Standing :
      (m : Shared Chunk) (ws : List (Worker Chunk)) (ph : Phase Chunk)
      → Standing ph m ws
      → Standing ph (record m { stop = true }) ws
  close-Standing m ws (inlined cs) h = h
  close-Standing m ws reading h = h
  close-Standing m ws (giving cs) h = h
  close-Standing m ws ended h = (h.0, inl refl)
  close-Standing m ws (stopped cs) h = tt
  close-Standing m ws reported h = tt

  module _ (some_worker : 0 < n) where
    -- The last worker returned with nothing wrong: the server was drained.
    settled :
        {m : Shared Chunk} {ws : List (Worker Chunk)}
        → Fair m ws
        → IsClosed ws
        → length ws ≡ n
        → m.out ≡ []
        → m.ctx ≡ false
        → (m.stop ≡ true) ⊎ Delivered m true
    settled {m} {ws} f c l o x =
        ground
          (arith, f.left (omega arith), closed_failing ws c, ap length o, ap (total is_failure) o)

    Act-Standing :
        {s t : System Chunk} → Act n more s t → Inv s → Standing t.phase t.shared t.workers
    Act-Standing {s} (work mv pk) v = Move-Standing s.phase mv pk v.standing
    Act-Standing (give_inlined {cs} e) v = at_phase v e
    Act-Standing (stop_inlined e) v = tt
    Act-Standing {s} (whole e g) v =
        let st = at_phase v e in
        (
          omega (arith, st, exits-le-length s.workers),
          inr (subst (Delivered s.shared) (sym g) (st.1, st.2, st.3)),
        )
    Act-Standing {s} (spawn e g) v =
        let st = at_phase v e in
        (
          omega (
            arith,
            st,
            length-append s.workers (replicate n looking),
            length-replicate {A = Worker Chunk} n looking,
          ),
          g,
        )
    Act-Standing (receive e g) v = at_phase v e
    Act-Standing (receive_error e g) v = tt
    Act-Standing (give {cs} e) v = at_phase v e
    Act-Standing (refuse e) v = tt
    Act-Standing (next_batch e) v = at_phase v e
    Act-Standing {s} (finish e o c x) v =
        let st = at_phase v e in
        (
          c,
          subst (λ (b : Bool). (s.shared.stop ≡ true) ⊎ Delivered s.shared b) (sym st.1)
              (settled v.fair c st.0 o x),
        )
    Act-Standing (finish_cancelled e o c x) v = tt

    Act-Inv : {s t : System Chunk} → Act n more s t → Inv s → Inv t
    Act-Inv a v = record {
      fair = Act-Fair a v.fair;
      standing = Act-Standing a v;
      kept = Act-balance p a ∙ v.kept;
    }

    Step-Inv : {s t : System Chunk} → Step n more s t → Inv s → Inv t
    Step-Inv (act a) v = Act-Inv a v
    Step-Inv {s} cancel v = record {
      fair = cancel-Fair v.fair;
      standing = cancel-Standing s.shared s.workers s.phase v.standing;
      kept = v.kept;
    }
    Step-Inv {s} close v = record {
      fair = close-Fair v.fair;
      standing = close-Standing s.shared s.workers s.phase v.standing;
      kept = v.kept;
    }

    pub Reach-Inv : {s : System Chunk} → All NonEmpty held → Reach n more first held s → Inv s
    Reach-Inv full start = record {
      fair = record {
        full = full;
        empty_after = λ e. cc;
        left = λ h. absurd (omega arith);
        told = λ h. absurd (omega arith);
      };
      standing = (refl, refl, refl, refl);
      kept = omega arith;
    }
    Reach-Inv full (later r st) = Step-Inv st (Reach-Inv full r)

-- ===== src/Stream/Complete.antt =====
-- duckcall.go: what the consumer of Result.Chunks gets.
use duckcall.Base.{
  ℕ, ◌+◌, ◌≤◌, ◌<◌, ◌≡◌, refl, ap, subst, inl, inr, Bool, true, false, List, [], ◌∷◌, All, length,
  count, total, arith,
}
use duckcall.Stream.Worker.{Batch}
use duckcall.Stream.System.{Phase, ended, System, IsClosed, Reach}
use duckcall.Stream.Invariant.{NonEmpty}
use duckcall.Stream.Account.{closed_carried, pending, in_batch}
use duckcall.Stream.Ending.{Inv, Delivered, Standing, Reach-Inv}

module _ {ℓ} {Chunk : Type ℓ} where
  -- How many of the chunks of the result pass a test: those that came with the prepare response, and
  -- those that the server holds if more is to be fetched.
  abbrev pub expected : Bool → List Chunk → List (List Chunk) → (Chunk → Bool) → ℕ
  expected true first held p = count p first + total (count p) held
  expected false first held p = count p first

  in_out :
      (p : Chunk → Bool) (out : List (Batch Chunk)) → length out ≡ 0 → total (in_batch p) out ≡ 0
  in_out p [] h = refl
  in_out p (b ∷ out) h = absurd (omega arith)

  in_list : (p : Chunk → Bool) (cs : List Chunk) → length cs ≡ 0 → count p cs ≡ 0
  in_list p [] h = refl
  in_list p (c ∷ cs) h = absurd (omega arith)

  in_held : (p : Chunk → Bool) (bs : List (List Chunk)) → length bs ≡ 0 → total (count p) bs ≡ 0
  in_held p [] h = refl
  in_held p (b ∷ bs) h = absurd (omega arith)

  all_given :
      (n : ℕ) (more : Bool) (first : List Chunk) (held : List (List Chunk)) (p : Chunk → Bool)
      (s : System Chunk)
      → Inv n more first held p s
      → s.phase ≡ ended
      → IsClosed s.workers
      → Delivered n more first held p s.shared more
      → count p s.given ≡ expected more first held p
  all_given n true first held p s v e c d = omega (
    arith,
    v.kept,
    ap (pending p) e,
    closed_carried p s.workers c,
    in_out p s.shared.out d.0,
    in_list p s.shared.lost d.1,
    in_held p s.shared.held d.2,
  )
  all_given n false first held p s v e c d = omega (
    arith,
    v.kept,
    ap (pending p) e,
    closed_carried p s.workers c,
    in_out p s.shared.out d.0,
    in_list p s.shared.lost d.1,
    d.2,
  )

  -- However the workers and the consumer interleave, whichever fetches fail and whenever the caller
  -- cancels its context: if the iteration ended without an error and the result was not closed, the
  -- consumer got every chunk of the result, each as often as the result holds it. The hypotheses are
  -- that there is a worker and that the server hands out no empty batch before the end.
  pub ended_complete :
      (n : ℕ) (more : Bool) (first : List Chunk) (held : List (List Chunk)) (s : System Chunk)
      → 0 < n
      → All NonEmpty held
      → Reach n more first held s
      → s.phase ≡ ended
      → s.shared.stop ≡ false
      → (p : Chunk → Bool) → count p s.given ≡ expected more first held p
  ended_complete n more first held s workers full r e open' p =
      let v = Reach-Inv n more first held p workers full r in
      let st =
        subst (λ (ph : Phase Chunk). Standing n more first held p ph s.shared s.workers) e
          v.standing in
      elim st.1 [ inl closed ↦ cc | inr d ↦ all_given n more first held p s v e st.0 d ]

  -- If there is a worker and the server hands out no empty batch before the end: in every state that
  -- is reached, also of an iteration that failed or was stopped, no chunk was given to the consumer
  -- more often than the result holds it.
  pub given_once :
      (n : ℕ) (more : Bool) (first : List Chunk) (held : List (List Chunk)) (s : System Chunk)
      → 0 < n
      → All NonEmpty held
      → Reach n more first held s
      → (p : Chunk → Bool) → count p s.given ≤ count p first + total (count p) held
  given_once n more first held s workers full r p =
      omega (arith, (Reach-Inv n more first held p workers full r).kept)

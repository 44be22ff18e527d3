-- ===== src/Stream/Tests.antt =====
-- Runs of Result.Chunks: two workers over a result of one inlined chunk and two fetched batches.
use duckcall.Base.{ℕ, ◌+◌, ◌≤◌, ◌≡◌, refl, true, List, [], ◌∷◌, count, total, arith, ltb}
use duckcall.Stream.Worker.{see_done, fetch, pop, drained, send}
use duckcall.Stream.System.{
  System, here, there, Act, work, give_inlined, spawn, receive, give, next_batch, finish, act,
  Reach, start, later,
}
use duckcall.Stream.Complete.{expected, ended_complete, given_once}
use duckcall.Stream.Progress.{chunks_progress}

abbrev held : List (List ℕ)
held = (2 ∷ []) ∷ (3 ∷ 4 ∷ []) ∷ []

-- The second worker fetches the first batch, and the first worker the second, which is given first.
abbrev started : (s : System ℕ) × Reach 2 true (1 ∷ []) held s
started = (_, later (later start (act (give_inlined refl))) (act (spawn refl refl)))

abbrev fetched : (s : System ℕ) × Reach 2 true (1 ∷ []) held s
fetched = (
  _,
  later
      (later
        (later
          (later
            (later (later started.1 (act (work (fetch refl refl refl) (there here))))
              (act (work (fetch refl refl refl) here)))
            (act (work (pop refl) (there here))))
          (act (work (pop refl) here)))
        (act (work (send (omega arith)) here)))
      (act (work (send (omega arith)) (there here))),
)

abbrev given_both : (s : System ℕ) × Reach 2 true (1 ∷ []) held s
given_both = (
  _,
  later
      (later
        (later
          (later
            (later (later (later fetched.1 (act (receive refl refl))) (act (give refl)))
              (act (give refl)))
            (act (next_batch refl)))
          (act (receive refl refl)))
        (act (give refl)))
      (act (next_batch refl)),
)

abbrev over : (s : System ℕ) × Reach 2 true (1 ∷ []) held s
over = (
  _,
  later
      (later
        (later (later given_both.1 (act (work (fetch refl refl refl) here)))
          (act (work (drained refl) here)))
        (act (work (see_done refl) (there here))))
      (act (finish refl refl refl refl)),
)

over_given : over.0.given ≡ 1 ∷ 3 ∷ 4 ∷ 2 ∷ []
over_given = refl

ended_complete_example : count (ltb 2) over.0.given ≡ expected true (1 ∷ []) held (ltb 2)
ended_complete_example =
    ended_complete 2 true (1 ∷ []) held over.0 (omega arith) (refl, (refl, tt)) over.1 refl refl
      (ltb 2)

given_once_example :
    count (ltb 2) given_both.0.given ≤ count (ltb 2) (1 ∷ []) + total (count (ltb 2)) held
given_once_example =
    given_once 2 true (1 ∷ []) held given_both.0 (omega arith) (refl, (refl, tt)) given_both.1
      (ltb 2)

chunks_progress_example : (t : System ℕ) × Act 2 true given_both.0 t
chunks_progress_example =
    chunks_progress 2 true (1 ∷ []) held given_both.0 (omega arith) given_both.1 refl

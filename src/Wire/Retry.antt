-- ===== src/Wire/Retry.antt =====
-- wire/retry.go. The outcome of call `i` of fn is `fn i`, a failure with its retryable flag;
-- `dead i` says whether the context has an error after it, and `dies i` whether it is done before the
-- delay that follows is over.
use duckcall.Base.{
  ℕ, zero, suc, ◌*◌, ◌%◌, ◌^◌, Bool, true, false, not, ◌||◌, List, [], ◌∷◌, Option, none, some,
  Result, ok, err,
}
use duckcall.Base.Int.{ℤ, pos, negsuc, reaches}

-- The result of retry, how often it called fn, and the delays it waited, as int64 patterns.
pub record Retried (E A : Type 0) : Type 0 where
  pub result : Result E A
  pub calls : ℕ
  pub delays : List ℕ

-- How often fn may be called: a negative number of retries is none.
abbrev pub budget : ℤ → ℕ
budget (pos n) = suc n
budget (negsuc n) = 1

module _ {E A : Type 0} (max_retries : ℤ) (cause : E) (fn : ℕ → Result (Bool × E) A)
    (dead dies : ℕ → Bool) where
  -- `!retryable || attempt >= c.cfg.MaxRetries || ctx.Err() != nil`
  unfoldable pub gives_up : Bool → ℕ → Bool
  gives_up retryable attempt = not retryable || (reaches attempt max_retries || dead attempt)

  -- The delays are kept with the last first. `none` means that the fuel ran out.
  unfoldable pub retry_loop : ℕ → ℕ → ℕ → List ℕ → Option (Retried E A)
  retry_loop zero attempt delay delays = none
  retry_loop (suc fuel) attempt delay delays = elim (fn attempt) [
    | ok a ↦ some (record { result = ok a; calls = suc attempt; delays = delays })
    | err (retryable, e) ↦ elim (gives_up retryable attempt) [
      | true ↦ some (record { result = err e; calls = suc attempt; delays = delays })
      | false ↦ elim (dies attempt) [
        | true ↦ some (record { result = err cause; calls = suc attempt; delays = delays })
        | false ↦ retry_loop fuel (suc attempt) (delay * 2 % 2 ^ 64) (delay ∷ delays)
      ]
    ]
  ]

  unfoldable pub retry : ℕ → Option (Retried E A)
  retry base = retry_loop (budget max_retries) 0 base []

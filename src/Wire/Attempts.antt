-- ===== src/Wire/Attempts.antt =====
-- wire/retry.go: how often fn is called, and after what.
use duckcall.Base.{
  ℕ, zero, suc, ◌+◌, ◌*◌, ◌%◌, ◌^◌, ◌≤◌, ◌<◌, ◌≡◌, refl, subst, ◌∙◌, inl, inr, Bool, true, false,
  List, [], ◌∷◌, Option, some, Result, ok, err, Result-cases, Bool-cases, arith, length,
}
use duckcall.Base.Int.{ℤ, pos, negsuc}
use native.Mathlib.Decide.{dec_lt}
use duckcall.Wire.Retry.{Retried, gives_up, retry_loop, budget, retry}

module _ {E A : Type 0} (max_retries : ℤ) (cause : E) (fn : ℕ → Result (Bool × E) A)
    (dead dies : ℕ → Bool) where
  -- Call `i` failed, and nothing spoke against another one.
  abbrev pub Retryable : ℕ → Type 0
  Retryable i = (e : E) × (fn i ≡ err (true, e)) × (dead i ≡ false) × (dies i ≡ false)

  -- What is promised of a run that starts with call `from`.
  pub record Promise (from : ℕ) (r : Retried E A) : Type 0 where
    pub called : from < r.calls
    pub within : r.calls ≤ budget max_retries
    pub earlier : (i : ℕ) → from ≤ i → suc i < r.calls → Retryable i
    pub last_ok : (a : A) → r.result ≡ ok a → (k : ℕ) × (r.calls ≡ suc k) × (fn k ≡ ok a)
    pub waits : suc (length r.delays) ≡ r.calls

  going_on :
      (b : Bool) (attempt : ℕ)
      → gives_up max_retries cause fn dead dies b attempt ≡ false
      → (b ≡ true) × (dead attempt ≡ false) × (suc attempt < budget max_retries)
  unfolding gives_up
  going_on b attempt h = ground arith

  one_call : (m : ℤ) → 1 ≤ budget m
  one_call (pos n) = omega arith
  one_call (negsuc n) = omega arith

  earlier_step :
      (attempt : ℕ) (r : Retried E A)
      → Retryable attempt
      → Promise (suc attempt) r
      → (i : ℕ) → attempt ≤ i
      → suc i < r.calls
      → Retryable i
  earlier_step attempt r now p i h k = elim (dec_lt attempt i) [
    | yes later ↦ p.earlier i (omega arith) k
    | no here ↦ let same : attempt ≡ i = omega arith in subst Retryable same now
  ]

  module _ (fuel attempt delay : ℕ) (delays : List ℕ) where
    loop : Option (Retried E A)
    loop = retry_loop max_retries cause fn dead dies (suc fuel) attempt delay delays

    loop_returns :
        (a : A)
        → fn attempt ≡ ok a
        → loop ≡ some (record { result = ok a; calls = suc attempt; delays = delays })
    unfolding retry_loop loop
    loop_returns a e = ground arith

    loop-gives_up :
        (b : Bool) (q : E)
        → fn attempt ≡ err (b, q)
        → gives_up max_retries cause fn dead dies b attempt ≡ true
        → loop ≡ some (record { result = err q; calls = suc attempt; delays = delays })
    unfolding retry_loop loop
    loop-gives_up b q e g = ground arith

    loop_dies :
        (b : Bool) (q : E)
        → fn attempt ≡ err (b, q)
        → gives_up max_retries cause fn dead dies b attempt ≡ false
        → dies attempt ≡ true
        → loop ≡ some (record { result = err cause; calls = suc attempt; delays = delays })
    unfolding retry_loop loop
    loop_dies b q e g d = ground arith

    loop_again :
        (b : Bool) (q : E)
        → fn attempt ≡ err (b, q)
        → gives_up max_retries cause fn dead dies b attempt ≡ false
        → dies attempt ≡ false
        → loop
          ≡ retry_loop max_retries cause fn dead dies fuel
              (suc attempt)
              (delay * 2 % 2 ^ 64)
              (delay ∷ delays)
    unfolding retry_loop loop
    loop_again b q e g d = ground arith

    loop_lem : retry_loop max_retries cause fn dead dies (suc fuel) attempt delay delays ≡ loop
    unfolding loop
    loop_lem = refl

  -- A run that ends with this call, and a failure.
  failed_here :
      (attempt : ℕ) (delays : List ℕ) (q : E)
      → attempt < budget max_retries
      → length delays ≡ attempt
      → Promise attempt (record { result = err q; calls = suc attempt; delays = delays })
  failed_here attempt delays q h l = record {
    called = omega arith;
    within = omega arith;
    earlier = λ i p k. absurd (omega arith);
    last_ok = λ a e. cc;
    waits = omega arith;
  }

  Runs : ℕ → Option (Retried E A) → Type 0
  Runs from o = (r : Retried E A) × (o ≡ some r) × Promise from r

  again :
      (fuel attempt delay : ℕ) (delays : List ℕ) (b : Bool) (q : E)
      → fn attempt ≡ err (b, q)
      → gives_up max_retries cause fn dead dies b attempt ≡ false
      → dies attempt ≡ false
      → Runs (suc attempt) (
          retry_loop max_retries cause fn dead dies fuel
            (suc attempt)
            (delay * 2 % 2 ^ 64)
            (delay ∷ delays))
      → Runs attempt (retry_loop max_retries cause fn dead dies (suc fuel) attempt delay delays)
  unfolding Runs
  again fuel attempt delay delays b q e g d (r, s, p) =
      let (retryable, alive, room) = going_on b attempt g in
      (
        r,
        loop_lem fuel attempt delay delays ∙ loop_again fuel attempt delay delays b q e g d ∙ s,
        record {
          called = omega (arith, p.called);
          within = p.within;
          earlier = earlier_step attempt r (q, cc, alive, d) p;
          last_ok = p.last_ok;
          waits = p.waits;
        },
      )

  loop_keeps :
      (fuel attempt delay : ℕ) (delays : List ℕ)
      → fuel + attempt ≡ budget max_retries
      → attempt < budget max_retries
      → length delays ≡ attempt
      → Runs attempt (retry_loop max_retries cause fn dead dies fuel attempt delay delays)
  unfolding Runs
  loop_keeps zero attempt delay delays f h l = absurd (omega arith)
  loop_keeps (suc fuel) attempt delay delays f h l = elim (Result-cases (fn attempt)) [
    | inl (a, e) ↦ (
      _,
      loop_lem fuel attempt delay delays ∙ loop_returns fuel attempt delay delays a e,
      record {
        called = omega arith;
        within = omega arith;
        earlier = λ i p q. absurd (omega arith);
        last_ok = λ a' q. (attempt, refl, cc);
        waits = omega arith;
      },
    )
    | inr ((b, q), e) ↦ elim (Bool-cases (gives_up max_retries cause fn dead dies b attempt)) [
      | inl g ↦ (
        _,
        loop_lem fuel attempt delay delays ∙ loop-gives_up fuel attempt delay delays b q e g,
        failed_here attempt delays q h l,
      )
      | inr g ↦ elim (Bool-cases (dies attempt)) [
        | inl d ↦ (
          _,
          loop_lem fuel attempt delay delays ∙ loop_dies fuel attempt delay delays b q e g d,
          failed_here attempt delays cause h l,
        )
        | inr d ↦ again fuel attempt delay delays b q e g d (
            loop_keeps fuel (suc attempt) (delay * 2 % 2 ^ 64) (delay ∷ delays) (omega arith)
              (going_on b attempt g).2 (omega arith))
      ]
    ]
  ]

  -- For any outcomes of fn and any context: retry returns, after at least one call of fn and at
  -- most MaxRetries + 1 (one, if MaxRetries is negative); it waits once between two calls; each
  -- call but the last failed with an error that is retryable, with the context alive after it and
  -- through the delay; and a result without an error is that of the last call.
  pub retry-Promise :
      (base : ℕ)
      → (r : Retried E A) × (retry max_retries cause fn dead dies base ≡ some r) × Promise 0 r
  unfolding retry Runs
  retry-Promise base =
      loop_keeps (budget max_retries) 0 base [] (omega arith) (one_call max_retries) refl

-- ===== src/Driver/Filling.antt =====
-- driver/interpolate.go: the loop against the placeholders of Driver/Lexer.
use duckcall.Base.{
  ℕ, suc, ◌≡◌, refl, ap, sym, ◌∙◌, Bool, true, false, ◌&&◌, List, [], ◌∷◌, Result, ok, err, ◌==◌,
  take, drop, arith,
}
use duckcall.Driver.Literal.{Argument, BadQuery, too_many_placeholders, literal}
use duckcall.Driver.Interpolate.{with_literal, copied, starts, region, fill_loop}
use duckcall.Driver.Lexer.{State, plain, next_state, is_code, fill}

pub copied-copied :
    (c : ℕ) (l : List ℕ) (r : Result BadQuery (List ℕ))
    → copied (c ∷ []) (copied l r) ≡ copied (c ∷ l) r
copied-copied c l (ok out) = refl
copied-copied c l (err e) = refl

pub copied_nothing : (r : Result BadQuery (List ℕ)) → copied [] r ≡ r
copied_nothing (ok out) = refl
copied_nothing (err e) = refl

module _ (float_text moment_text : ℕ → List ℕ) where
  abbrev pub Filled : Type 0
  Filled = Result BadQuery (List ℕ)

  -- One byte of `fill`, and one round of the loop, by whether it is a placeholder.
  abbrev pub by_byte : (ℕ → List Argument → Filled) → Filled → ℕ → List Argument → Bool → Filled
  by_byte next other arg [] true = err (too_many_placeholders arg)
  by_byte next other arg (a ∷ args) true =
      with_literal (literal float_text moment_text a) (next (suc arg) args)
  by_byte next other arg args false = other

  by_byte_elim :
      (next : ℕ → List Argument → Filled) (other : Filled) (arg : ℕ) (args : List Argument)
      (b : Bool)
      → elim b as (λ _. Filled) [
        | true ↦ elim args as (λ _. Filled) [
          | [] ↦ err (too_many_placeholders arg)
          | a ∷ args' ↦ with_literal (literal float_text moment_text a) (next (suc arg) args')
        ]
        | false ↦ other
      ]
        ≡ by_byte next other arg args b
  by_byte_elim next other arg [] true = refl
  by_byte_elim next other arg (a ∷ args) true = refl
  by_byte_elim next other arg [] false = refl
  by_byte_elim next other arg (a ∷ args) false = refl

  pub fill-by_byte :
      (st : State) (c : ℕ) (s : List ℕ) (arg : ℕ) (args : List Argument)
      → fill float_text moment_text st (c ∷ s) arg args
        ≡ by_byte
            (fill float_text moment_text (next_state st c) s)
            (copied (c ∷ []) (fill float_text moment_text (next_state st c) s arg args))
            arg
            args
            ((c == 63) && is_code st)
  unfolding fill
  fill-by_byte st c s arg args =
      by_byte_elim (fill float_text moment_text (next_state st c) s)
        (copied (c ∷ []) (fill float_text moment_text (next_state st c) s arg args)) arg args
        ((c == 63) && is_code st)

  pub loop-by_byte :
      (fuel c : ℕ) (s : List ℕ) (arg : ℕ) (args : List Argument)
      → fill_loop float_text moment_text (suc fuel) (c ∷ s) arg args
        ≡ by_byte
            (fill_loop float_text moment_text fuel s)
            (copied
              (c ∷ take (region c s) s)
              (fill_loop float_text moment_text fuel (drop (region c s) s) arg args))
            arg
            args
            (c == 63)
  unfolding fill_loop
  loop-by_byte fuel c s arg args =
      by_byte_elim (fill_loop float_text moment_text fuel s)
        (copied (c ∷ take (region c s) s)
          (fill_loop float_text moment_text fuel (drop (region c s) s) arg args))
        arg args (c == 63)

  pub by_byte_other :
      (next : ℕ → List Argument → Filled) (other : Filled) (arg : ℕ) (args : List Argument)
      → by_byte next other arg args false ≡ other
  by_byte_other next other arg [] = refl
  by_byte_other next other arg (a ∷ args) = refl

  pub fill-next :
      (st st' : State) (c : ℕ) (s : List ℕ) (arg : ℕ) (args : List Argument)
      → ((c == 63) && is_code st) ≡ false
      → next_state st c ≡ st'
      → fill float_text moment_text st (c ∷ s) arg args
        ≡ copied (c ∷ []) (fill float_text moment_text st' s arg args)
  fill-next st st' c s arg args e n =
      fill-by_byte st c s arg args
      ∙ ap
          (by_byte (fill float_text moment_text (next_state st c) s)
            (copied (c ∷ []) (fill float_text moment_text (next_state st c) s arg args)) arg args)
          e
      ∙ by_byte_other (fill float_text moment_text (next_state st c) s)
          (copied (c ∷ []) (fill float_text moment_text (next_state st c) s arg args)) arg args
      ∙ ap (λ x. copied (c ∷ []) (fill float_text moment_text x s arg args)) n

  -- Two states that read the next byte alike.
  pub fill-alike :
      (st st' : State) (s : List ℕ) (arg : ℕ) (args : List Argument)
      → is_code st ≡ is_code st'
      → ((c : ℕ) → starts c s ≡ true → next_state st c ≡ next_state st' c)
      → fill float_text moment_text st s arg args ≡ fill float_text moment_text st' s arg args
  unfolding fill
  fill-alike st st' [] arg args e n = refl
  fill-alike st st' (c ∷ s) arg args e n =
      fill-by_byte st c s arg args
      ∙ ap
          (λ x.
            by_byte (fill float_text moment_text x s)
              (copied (c ∷ []) (fill float_text moment_text x s arg args)) arg args
              ((c == 63) && is_code st))
          (n c (ground arith))
      ∙ ap
          (λ b.
            by_byte (fill float_text moment_text (next_state st' c) s)
              (copied (c ∷ []) (fill float_text moment_text (next_state st' c) s arg args)) arg args
              ((c == 63) && b))
          e
      ∙ sym (fill-by_byte st' c s arg args)

  -- What is copied of `s` in a state, if SQL text follows.
  abbrev pub Copies : State → List ℕ → ℕ → Type 0
  Copies st s n =
      (arg : ℕ) (args : List Argument)
      → fill float_text moment_text st s arg args
        ≡ copied (take n s) (fill float_text moment_text plain (drop n s) arg args)

  pub Copies-more :
      (st st' : State) (c : ℕ) (s : List ℕ) (n : ℕ)
      → ((c == 63) && is_code st) ≡ false
      → next_state st c ≡ st'
      → Copies st' s n
      → Copies st (c ∷ s) (suc n)
  Copies-more st st' c s n e g k arg args =
      fill-next st st' c s arg args e g
      ∙ ap (copied (c ∷ [])) (k arg args)
      ∙ copied-copied c (take n s) (fill float_text moment_text plain (drop n s) arg args)

  pub Copies-none :
      (st : State) (s : List ℕ)
      → ((arg : ℕ) (args : List Argument)
          → fill float_text moment_text st s arg args
            ≡ fill float_text moment_text plain s arg args)
      → Copies st s 0
  Copies-none st s e arg args =
      e arg args ∙ sym (copied_nothing (fill float_text moment_text plain s arg args))

  pub Copies-end : (st : State) → Copies st [] 0
  unfolding fill
  Copies-end st = Copies-none st [] (λ arg args. refl)

-- ===== src/Driver/Counts.antt =====
-- driver/interpolate.go: the numbers of placeholders and of arguments.
use duckcall.Base.{
  ℕ, suc, ◌+◌, ◌≡◌, refl, ap, sym, ◌∙◌, Bool, true, false, ◌&&◌, List, [], ◌∷◌, ◌++◌, All, Result,
  ok, err, ◌==◌, length, arith, if◌then◌else◌,
}
use duckcall.Driver.Literal.{Argument, Named, BadQuery, literal}
use duckcall.Driver.Interpolate.{with_literal, copied, is_named, values, interpolate}
use duckcall.Driver.Lexer.{State, plain, next_state, is_code, placeholders, fill}
use duckcall.Driver.Filling.{by_byte, fill-by_byte}
use duckcall.Driver.Equivalence.{interpolate-fill}

ok_rest :
    (l r : Result BadQuery (List ℕ)) (out : List ℕ)
    → with_literal l r ≡ ok out
    → (out' : List ℕ) × (r ≡ ok out')
ok_rest (err e) r out h = absurd (ground arith)
ok_rest (ok l) (err e) out h = absurd (ground arith)
ok_rest (ok l) (ok out') out h = (out', refl)

module _ (float_text moment_text : ℕ → List ℕ) where
  abbrev pub HasLiteral : Argument → Type 0
  HasLiteral a = (l : List ℕ) × (literal float_text moment_text a ≡ ok l)

  -- What the rest of the query gives, whatever byte `c` is.
  abbrev Counted : State → List ℕ → Type 0
  Counted st s =
      (arg : ℕ) (args : List Argument) (out : List ℕ)
      → fill float_text moment_text st s arg args ≡ ok out
      → placeholders st s ≡ length args

  Counted-byte :
      (st : State) (c : ℕ) (s : List ℕ)
      → Counted (next_state st c) s
      → (arg : ℕ) (args : List Argument) (out : List ℕ) (b : Bool)
      → by_byte float_text moment_text
          (fill float_text moment_text (next_state st c) s)
          (copied (c ∷ []) (fill float_text moment_text (next_state st c) s arg args))
          arg
          args
          b
        ≡ ok out
      → (if b then 1 else 0) + placeholders (next_state st c) s ≡ length args
  Counted-byte st c s k arg [] out true h = absurd (ground arith)
  Counted-byte st c s k arg (a ∷ args) out true h =
      let (out', e) = ok_rest (literal float_text moment_text a) _ out h in
      omega (arith, k (suc arg) args out' e)
  Counted-byte st c s k arg [] out false h =
      let (out', e) = ok_rest (ok (c ∷ [])) _ out h in omega (arith, k arg [] out' e)
  Counted-byte st c s k arg (a ∷ args) out false h =
      let (out', e) = ok_rest (ok (c ∷ [])) _ out h in omega (arith, k arg (a ∷ args) out' e)

  counted : (st : State) (s : List ℕ) → Counted st s
  unfolding fill placeholders
  counted st [] arg [] out h = refl
  counted st [] arg (a ∷ args) out h = absurd (ground arith)
  counted st (c ∷ s) arg args out h =
      Counted-byte st c s (counted (next_state st c) s) arg args out ((c == 63) && is_code st)
        (sym (fill-by_byte float_text moment_text st c s arg args) ∙ h)

  abbrev Fills : State → List ℕ → Type 0
  Fills st s =
      (arg : ℕ) (args : List Argument)
      → All HasLiteral args
      → placeholders st s ≡ length args
      → (out : List ℕ) × (fill float_text moment_text st s arg args ≡ ok out)

  Fills-byte :
      (st : State) (c : ℕ) (s : List ℕ)
      → Fills (next_state st c) s
      → (arg : ℕ) (args : List Argument) (b : Bool) → All HasLiteral args
      → (if b then 1 else 0) + placeholders (next_state st c) s ≡ length args
      → (out : List ℕ) × (by_byte float_text moment_text
            (fill float_text moment_text (next_state st c) s)
            (copied (c ∷ []) (fill float_text moment_text (next_state st c) s arg args))
            arg
            args
            b
          ≡ ok out)
  Fills-byte st c s k arg [] true v h = absurd (omega arith)
  Fills-byte st c s k arg (a ∷ args) true ((l, e), v) h =
      let (out, f) = k (suc arg) args v (omega arith) in
      (
        l ++ out,
        ap (λ x. with_literal x (fill float_text moment_text (next_state st c) s (suc arg) args)) e
            ∙ ap (with_literal (ok l)) f,
      )
  Fills-byte st c s k arg [] false v h =
      let (out, f) = k arg [] v (omega arith) in (c ∷ out, ap (copied (c ∷ [])) f)
  Fills-byte st c s k arg (a ∷ args) false v h =
      let (out, f) = k arg (a ∷ args) v (omega arith) in (c ∷ out, ap (copied (c ∷ [])) f)

  fills : (st : State) (s : List ℕ) → Fills st s
  unfolding fill placeholders
  fills st [] arg [] v h = ([], refl)
  fills st [] arg (a ∷ args) v h = absurd (omega arith)
  fills st (c ∷ s) arg args v h =
      let (out, e) =
        Fills-byte st c s (fills (next_state st c) s) arg args ((c == 63) && is_code st) v h in
      (out, fill-by_byte float_text moment_text st c s arg args ∙ e)

  -- With ordinal arguments: a query that interpolate accepts has as many placeholders as arguments,
  -- and it accepts every query that has as many placeholders as arguments if each argument has a
  -- literal.
  pub interpolate_counts :
      (query : List ℕ) (args : List Named)
      → is_named args ≡ false
      → ((out : List ℕ)
          → interpolate float_text moment_text query args ≡ ok out
          → placeholders plain query ≡ length (values args))
        × (All HasLiteral (values args)
            → placeholders plain query ≡ length (values args)
            → (out : List ℕ) × (interpolate float_text moment_text query args ≡ ok out))
  interpolate_counts query args n = (
    λ out h.
        counted plain query 0 (values args) out
          (sym (interpolate-fill float_text moment_text query args n) ∙ h),
    λ v h.
        let (out, e) = fills plain query 0 (values args) v h in
        (out, interpolate-fill float_text moment_text query args n ∙ e),
  )

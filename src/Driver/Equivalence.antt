-- ===== src/Driver/Equivalence.antt =====
-- driver/interpolate.go: interpolate against the placeholders of Driver/Lexer.
use duckcall.Base.{
  ℕ, zero, suc, ◌≤◌, ◌≡◌, refl, ap, sym, ◌∙◌, subst, inl, inr, Bool, true, false, ◌&&◌, not, List,
  [], ◌∷◌, Result, ok, ◌==◌, ==→eq, length, length-drop, take, drop, is_empty, Bool-cases, arith,
  if◌then◌else◌,
}
use duckcall.Driver.Literal.{Argument, Named, BadQuery, literal}
use duckcall.Driver.Interpolate.{
  with_literal, copied, region, fill_loop, is_named, values, contains_byte, interpolate,
}
use duckcall.Driver.Lexer.{State, plain, next_state, fill}
use duckcall.Driver.Filling.{by_byte, by_byte_other, loop-by_byte, fill-next}
use duckcall.Driver.Regions.{region-C}

module _ (float_text moment_text : ℕ → List ℕ) where
  abbrev loop : ℕ → List ℕ → ℕ → List Argument → Result BadQuery (List ℕ)
  loop = fill_loop float_text moment_text

  abbrev spec : State → List ℕ → ℕ → List Argument → Result BadQuery (List ℕ)
  spec = fill float_text moment_text

  at_mark :
      (fuel : ℕ) (s : List ℕ) (arg : ℕ) (args : List Argument)
      → ((args' : List Argument) → loop fuel s (suc arg) args' ≡ spec plain s (suc arg) args')
      → loop (suc fuel) (63 ∷ s) arg args ≡ spec plain (63 ∷ s) arg args
  unfolding fill_loop fill
  at_mark fuel s arg [] e = refl
  at_mark fuel s arg (a ∷ args) e = ap (with_literal (literal float_text moment_text a)) (e args)

  loop-fill :
      (fuel : ℕ) (s : List ℕ) (arg : ℕ) (args : List Argument)
      → length s ≤ fuel
      → loop fuel s arg args ≡ spec plain s arg args
  unfolding fill_loop fill
  loop-fill zero [] arg args h = refl
  loop-fill (suc fuel) [] arg args h = refl
  loop-fill zero (c ∷ s) arg args h = absurd (omega arith)
  loop-fill (suc fuel) (c ∷ s) arg args h = elim (Bool-cases (c == 63)) [
    | inl e ↦
        subst (λ x. loop (suc fuel) (x ∷ s) arg args ≡ spec plain (x ∷ s) arg args)
          (sym (==→eq c 63 e))
          (at_mark fuel s arg args (λ args'. loop-fill fuel s (suc arg) args' (omega arith)))
    | inr e ↦
        loop-by_byte float_text moment_text fuel c s arg args
        ∙ ap
            (by_byte float_text moment_text (loop fuel s)
              (copied (c ∷ take (region c s) s) (loop fuel (drop (region c s) s) arg args)) arg
              args)
            e
        ∙ by_byte_other float_text moment_text (loop fuel s)
            (copied (c ∷ take (region c s) s) (loop fuel (drop (region c s) s) arg args)) arg args
        ∙ ap (copied (c ∷ take (region c s) s)) (
            loop-fill fuel (drop (region c s) s) arg args
              (omega (arith, length-drop (region c s) s)))
        ∙ sym (region-C float_text moment_text c s e arg args)
  ]

  without_marks :
      (st : State) (s : List ℕ) (arg : ℕ) → contains_byte 63 s ≡ false → spec st s arg [] ≡ ok s
  unfolding fill
  without_marks st [] arg h = refl
  without_marks st (c ∷ s) arg h =
      fill-next float_text moment_text st (next_state st c) c s arg [] (ground arith) refl
      ∙ ap (copied (c ∷ [])) (without_marks (next_state st c) s arg (ground arith))

  fast :
      (query : List ℕ) (args : List Named)
      → (is_empty args && not (contains_byte 63 query)) ≡ true
      → ok query ≡ spec plain query 0 (values args)
  fast query [] e = sym (without_marks plain query 0 (ground arith))
  fast query (a ∷ args) e = absurd (ground arith)

  chosen :
      (query : List ℕ) (args : List Named) (b : Bool)
      → (is_empty args && not (contains_byte 63 query)) ≡ b
      → (if b then ok query else loop (length query) query 0 (values args))
        ≡ spec plain query 0 (values args)
  chosen query args true e = fast query args e
  chosen query args false e = loop-fill (length query) query 0 (values args) (omega arith)

  -- With ordinal arguments, interpolate, with its loop that skips whole strings, quoted identifiers
  -- and comments and its shortcut for a query without placeholders, gives what replacing byte by
  -- byte gives, where a question mark is a placeholder exactly if the bytes before it leave the
  -- automaton in SQL text.
  pub interpolate-fill :
      (query : List ℕ) (args : List Named)
      → is_named args ≡ false
      → interpolate float_text moment_text query args
        ≡ fill float_text moment_text plain query 0 (values args)
  unfolding interpolate
  interpolate-fill query args n =
      rw n (chosen query args (is_empty args && not (contains_byte 63 query)) refl)

-- ===== src/Driver/Inert.antt =====
-- driver/interpolate.go: what SQL reads where a string or a blob was put in.
use duckcall.Base.{
  ℕ, ◌≡◌, refl, ap, sym, ◌∙◌, subst, inl, inr, false, List, [], ◌∷◌, ◌++◌, append_assoc, Option,
  none, some, ok, ◌==◌, ==→eq, Bool-cases, arith, if◌then◌else◌,
}
use duckcall.Base.Strings.{replace_all, replace_from}
use duckcall.Driver.Literal.{text, escape, literal}
use duckcall.Driver.Interpolate.{starts}

abbrev pub with_byte : ℕ → Option (List ℕ × List ℕ) → Option (List ℕ × List ℕ)
with_byte c none = none
with_byte c (some (x, rest)) = some (c ∷ x, rest)

-- SQL's reading of a string from behind its opening quote: the text, where two quotes stand for
-- one, and what follows the closing quote.
unfoldable pub unquote : List ℕ → Option (List ℕ × List ℕ)
unquote [] = none
unquote (c ∷ []) = if c == 39 then some ([], []) else none
unquote (c ∷ d ∷ s) =
    let two = with_byte 39 (unquote s) in
    let one = with_byte c (unquote (d ∷ s)) in
    if c == 39 then if d == 39 then two else some ([], d ∷ s) else one

-- `escape` byte by byte.
unfoldable pub doubled : List ℕ → List ℕ
doubled [] = []
doubled (c ∷ x) = let more = doubled x in if c == 39 then 39 ∷ 39 ∷ more else c ∷ more

escape-doubled : (x : List ℕ) → escape x ≡ doubled x
unfolding replace_all replace_from doubled
escape-doubled [] = refl
escape-doubled (c ∷ x) = elim (Bool-cases (c == 39)) [
  | inl e ↦
      subst (λ y. escape (y ∷ x) ≡ doubled (y ∷ x)) (sym (==→eq c 39 e))
        (ap (λ t. 39 ∷ 39 ∷ t) (escape-doubled x))
  | inr e ↦ ground (arith, escape-doubled x)
]

unquote_end : (rest : List ℕ) → starts 39 rest ≡ false → unquote (39 ∷ rest) ≡ some ([], rest)
unfolding unquote
unquote_end [] h = refl
unquote_end (d ∷ rest) h = rw h refl

unquote_other : (c : ℕ) (t : List ℕ) → (c == 39) ≡ false → unquote (c ∷ t) ≡ with_byte c (unquote t)
unfolding unquote
unquote_other c [] e = rw e refl
unquote_other c (d ∷ s) e = rw e refl

unquote-doubled :
    (x rest : List ℕ) → starts 39 rest ≡ false → unquote (doubled x ++ (39 ∷ rest)) ≡ some (x, rest)
unfolding doubled unquote
unquote-doubled [] rest h = unquote_end rest h
unquote-doubled (c ∷ x) rest h = elim (Bool-cases (c == 39)) [
  | inl e ↦
      subst (λ y. unquote (doubled (y ∷ x) ++ (39 ∷ rest)) ≡ some (y ∷ x, rest))
        (sym (==→eq c 39 e)) (ap (with_byte 39) (unquote-doubled x rest h))
  | inr e ↦
      subst
        (λ b.
          unquote ((if b then 39 ∷ 39 ∷ doubled x else c ∷ doubled x) ++ (39 ∷ rest))
          ≡ some (c ∷ x, rest))
        (sym e)
        (unquote_other c (doubled x ++ (39 ∷ rest)) e ∙ ap (with_byte c) (unquote-doubled x rest h))
]

-- Whatever bytes a string argument has, its literal is one SQL string: read behind its opening
-- quote, it is exactly the argument, and what follows it in the query is read as it stands. The
-- hypothesis is that no quote follows, which would go on with the string.
pub text-literal_read :
    (float_text moment_text : ℕ → List ℕ) (x rest : List ℕ)
    → starts 39 rest ≡ false
    → (l : List ℕ) × (literal float_text moment_text (text x) ≡ ok (39 ∷ l))
      × (unquote (l ++ rest) ≡ some (x, rest))
unfolding literal
text-literal_read float_text moment_text x rest h = (
  escape x ++ (39 ∷ []),
  refl,
  ap unquote (append_assoc (escape x) (39 ∷ []) rest)
      ∙ ap (λ t. unquote (t ++ (39 ∷ rest))) (escape-doubled x)
      ∙ unquote-doubled x rest h,
)

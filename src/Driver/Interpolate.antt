-- ===== src/Driver/Interpolate.antt =====
-- driver/interpolate.go: the loop over the query. Go's index into the query is the rest of the
-- query from there, and a round of the loop takes away at least one byte, so the length of the
-- query is fuel enough.
use duckcall.Base.{
  ℕ, zero, suc, ◌+◌, Bool, true, false, ◌||◌, ◌&&◌, not, List, [], ◌∷◌, ◌++◌, Result, ok, err, ◌==◌,
  length, take, drop, is_empty, if◌then◌else◌,
}
use duckcall.Driver.Literal.{
  Argument, Named, BadQuery, named_parameter, too_many_placeholders, miscounted, literal,
}

-- `skipQuoted` from behind the opening quote: how many bytes up to the end of the quoted region.
unfoldable pub skip_quoted : ℕ → List ℕ → ℕ
skip_quoted quote [] = 0
skip_quoted quote (c ∷ []) = 1
skip_quoted quote (c ∷ d ∷ s) =
    let past_two = suc (suc (skip_quoted quote s)) in
    let past_one = suc (skip_quoted quote (d ∷ s)) in
    if c == quote then if d == quote then past_two else 1 else past_one

-- `strings.IndexByte(s, '\n')`, or the length of `s`.
unfoldable pub line_end : List ℕ → ℕ
line_end [] = 0
line_end (c ∷ s) = let more = suc (line_end s) in if c == 10 then 0 else more

-- The end of the first `*/` of `s`, or the length of `s`.
unfoldable pub comment_end : List ℕ → ℕ
comment_end [] = 0
comment_end (c ∷ []) = 1
comment_end (c ∷ d ∷ s) =
    let more = suc (comment_end (d ∷ s)) in if (c == 42) && (d == 47) then 2 else more

abbrev pub starts : ℕ → List ℕ → Bool
starts c [] = false
starts c (d ∷ s) = d == c

-- What is copied from a byte `c`, with `s` behind it, that is no placeholder: how many bytes of `s`
-- with it.
unfoldable pub region : ℕ → List ℕ → ℕ
region c s =
    if (c == 39) || (c == 34)
    then skip_quoted c s
    else if (c == 45) && starts 45 s
    then line_end s
    else if (c == 47) && starts 42 s
    then suc (comment_end (drop 1 s))
    else 0

abbrev pub with_literal :
    Result BadQuery (List ℕ) → Result BadQuery (List ℕ) → Result BadQuery (List ℕ)
with_literal (err e) rest = err e
with_literal (ok l) (err e) = err e
with_literal (ok l) (ok out) = ok (l ++ out)

abbrev pub copied : List ℕ → Result BadQuery (List ℕ) → Result BadQuery (List ℕ)
copied l rest = with_literal (ok l) rest

abbrev pub is_named : List Named → Bool
is_named [] = false
is_named (a ∷ args) = not (is_empty a.name) || is_named args

abbrev pub values : List Named → List Argument
values [] = []
values (a ∷ args) = a.value ∷ values args

abbrev pub contains_byte : ℕ → List ℕ → Bool
contains_byte c [] = false
contains_byte c (d ∷ s) = (d == c) || contains_byte c s

module _ (float_text moment_text : ℕ → List ℕ) where
  -- `arg` arguments are used up and `args` are left.
  unfoldable pub fill_loop : ℕ → List ℕ → ℕ → List Argument → Result BadQuery (List ℕ)
  fill_loop fuel [] arg args =
      if is_empty args then ok [] else err (miscounted (arg + length args) arg)
  fill_loop zero (c ∷ s) arg args = ok []
  fill_loop (suc fuel) (c ∷ s) arg args = elim (c == 63) [
    | true ↦ elim args [
      | [] ↦ err (too_many_placeholders arg)
      | a ∷ args' ↦
          with_literal (literal float_text moment_text a) (fill_loop fuel s (suc arg) args')
    ]
    | false ↦ copied (c ∷ take (region c s) s) (fill_loop fuel (drop (region c s) s) arg args)
  ]

  unfoldable pub interpolate : List ℕ → List Named → Result BadQuery (List ℕ)
  interpolate query args =
      if is_named args
      then err named_parameter
      else if is_empty args && not (contains_byte 63 query)
      then ok query
      else fill_loop (length query) query 0 (values args)

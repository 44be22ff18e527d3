-- ===== src/Driver/Lexer.antt =====
-- driver/interpolate.go: which bytes of a query are placeholders, told byte by byte and without
-- looking ahead.
use duckcall.Base.{
  ℕ, suc, ◌+◌, Bool, true, false, ◌||◌, ◌&&◌, List, [], ◌∷◌, Result, ok, err, ◌==◌, length,
  is_empty, if◌then◌else◌,
}
use duckcall.Driver.Literal.{Argument, BadQuery, too_many_placeholders, miscounted, literal}
use duckcall.Driver.Interpolate.{with_literal, copied}

-- What the bytes before say: SQL text, after a single `-` or `/` of it, inside quotes, after a quote
-- inside quotes, in a comment up to the end of the line, in a comment, and after a `*` in one.
pub data State : Type 0 where
  plain dash slash line block star : State
  quoted closing : ℕ → State

abbrev pub after_plain : ℕ → State
after_plain c =
    if (c == 39) || (c == 34)
    then quoted c
    else if c == 45
    then dash
    else if c == 47
    then slash
    else plain

abbrev pub next_state : State → ℕ → State
next_state plain c = after_plain c
next_state dash c = if c == 45 then line else after_plain c
next_state slash c = if c == 42 then block else after_plain c
next_state (quoted q) c = if c == q then closing q else quoted q
next_state (closing q) c = if c == q then quoted q else after_plain c
next_state line c = if c == 10 then plain else line
next_state block c = if c == 42 then star else block
next_state star c = if c == 47 then plain else if c == 42 then star else block

-- Whether a question mark here is a placeholder.
abbrev pub is_code : State → Bool
is_code plain = true
is_code dash = true
is_code slash = true
is_code (closing q) = true
is_code (quoted q) = false
is_code line = false
is_code block = false
is_code star = false

-- How many placeholders there are.
unfoldable pub placeholders : State → List ℕ → ℕ
placeholders st [] = 0
placeholders st (c ∷ s) =
    (if (c == 63) && is_code st then 1 else 0) + placeholders (next_state st c) s

module _ (float_text moment_text : ℕ → List ℕ) where
  -- Every placeholder replaced by the literal of its argument.
  unfoldable pub fill : State → List ℕ → ℕ → List Argument → Result BadQuery (List ℕ)
  fill st [] arg args = if is_empty args then ok [] else err (miscounted (arg + length args) arg)
  fill st (c ∷ s) arg args = elim ((c == 63) && is_code st) [
    | true ↦ elim args [
      | [] ↦ err (too_many_placeholders arg)
      | a ∷ args' ↦
          with_literal (literal float_text moment_text a) (fill (next_state st c) s (suc arg) args')
    ]
    | false ↦ copied (c ∷ []) (fill (next_state st c) s arg args)
  ]

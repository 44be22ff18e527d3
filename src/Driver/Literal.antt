-- ===== src/Driver/Literal.antt =====
-- driver/interpolate.go: the values that can stand for a placeholder, and their literals. How strconv
-- writes a finite float64 and how package time writes a moment are parameters.
use duckcall.Base.{
  ℕ, Bool, true, false, List, [], ◌∷◌, ◌++◌, Result, ok, err, ◌/◌, ◌%◌, ◌+◌, ltb, if◌then◌else◌,
}
use duckcall.Base.Int.{ℤ}
use duckcall.Base.Strings.{codes, replace_all}
use duckcall.Base.Numerals.{format_int}
use duckcall.Codec.Text.{decimal_text}

-- A float64 is a NaN, an infinity that may be negative, or its bits.
pub data Float : Type 0 where
  nan : Float
  infinite : Bool → Float
  finite : ℕ → Float

-- driver.Value; a moment is any number, and `other` is a type that has no literal.
pub data Argument : Type 0 where
  nil other : Argument
  boolean : Bool → Argument
  integer : ℤ → Argument
  float : Float → Argument
  text blob : List ℕ → Argument
  moment : ℕ → Argument
  decimal : ℕ → ℕ → ℕ → Argument

-- driver.NamedValue
pub record Named : Type 0 where
  pub name : List ℕ
  pub value : Argument

pub data BadQuery : Type 0 where
  named_parameter no_literal : BadQuery
  too_many_placeholders : ℕ → BadQuery
  miscounted : ℕ → ℕ → BadQuery

abbrev pub upper_hex : ℕ → ℕ
upper_hex n = if ltb n 10 then 48 + n else 55 + n

-- `\x%02X` for each byte
unfoldable pub blob_bytes : List ℕ → List ℕ
blob_bytes [] = []
blob_bytes (c ∷ x) = 92 ∷ (120 ∷ (upper_hex (c / 16) ∷ (upper_hex (c % 16) ∷ blob_bytes x)))

-- `strings.ReplaceAll(x, "'", "''")`
abbrev pub escape : List ℕ → List ℕ
escape x = replace_all (39 ∷ []) (39 ∷ 39 ∷ []) x

module _ (float_text moment_text : ℕ → List ℕ) where
  unfoldable pub float_literal : Float → List ℕ
  float_literal nan = codes "'nan'::DOUBLE"
  float_literal (infinite false) = codes "'infinity'::DOUBLE"
  float_literal (infinite true) = codes "'-infinity'::DOUBLE"
  float_literal (finite bits) = float_text bits

  unfoldable pub literal : Argument → Result BadQuery (List ℕ)
  literal nil = ok (codes "NULL")
  literal (boolean true) = ok (codes "TRUE")
  literal (boolean false) = ok (codes "FALSE")
  literal (integer z) = ok (format_int z)
  literal (float x) = ok (float_literal x)
  literal (text x) = ok (39 ∷ (escape x ++ (39 ∷ [])))
  literal (blob x) = ok (39 ∷ (blob_bytes x ++ codes "'::BLOB"))
  literal (moment t) = ok (codes "TIMESTAMP '" ++ (moment_text t ++ codes "'"))
  literal (decimal scale hi lo) = ok (decimal_text scale hi lo)
  literal other = err no_literal

-- ===== src/Driver/Rows.antt =====
-- driver/rows.go: the rows of a result. What iter.Pull2 gives is a list of chunks and errors, how a
-- cell becomes a driver.Value is a parameter, and the error type has the codec's errors.
use duckcall.Base.{
  ℕ, zero, suc, List, [], ◌∷◌, Option, none, some, Result, ok, err, leb, get_elem?, if◌then◌else◌,
}
use duckcall.Codec.Types.{LogicalType, CodecError, value_index, Value}
use duckcall.Codec.Chunk.{Column, Chunk, chunk_value}

pub record Rows (E : Type 0) : Type 0 where
  pub pulls : List (Result E Chunk)
  pub chunk : Option Chunk
  pub row : ℕ

abbrev pub new_rows : {E : Type 0} → List (Result E Chunk) → Rows E
new_rows pulls = record { pulls = pulls; chunk = none; row = 0 }

-- After the loop of Next: a chunk with a row to read, the end, or an error.
pub data Outcome (E : Type 0) : Type 0 where
  ready : Chunk → Outcome E
  finished : Outcome E
  failed : E → Outcome E

module _ {E : Type 0} where
  unfoldable pub pull : Option Chunk → ℕ → List (Result E Chunk) → Outcome E × Rows E
  pull current row [] = (finished, record { pulls = []; chunk = current; row = row })
  pull current row (err e ∷ ps) = (failed e, record { pulls = ps; chunk = current; row = row })
  pull current row (ok ch ∷ ps) =
      let rest = pull (some ch) 0 ps in
      if leb ch.rows 0 then rest else (ready ch, record { pulls = ps; chunk = some ch; row = 0 })

  unfoldable pub settle : List (Result E Chunk) → Option Chunk → ℕ → Outcome E × Rows E
  settle ps none row = pull none row ps
  settle ps (some ch) row =
      if leb ch.rows row
      then pull (some ch) row ps
      else (ready ch, record { pulls = ps; chunk = some ch; row = row })

-- What Next returns, with the row that it wrote to `dest`.
pub data Next (E Out : Type 0) : Type 0 where
  eof : Next E Out
  failure : E → Next E Out
  got : List Out → Next E Out

module _ {E Out : Type 0} (of_codec : CodecError → E)
    (convert : LogicalType → Value → Result E Out) where
  unfoldable pub convert_cell : ℕ → ℕ → Option Column → Result CodecError Value → Result E Out
  convert_cell i row col (err e) = err (of_codec e)
  convert_cell i row none (ok v) = err (of_codec (value_index i row))
  convert_cell i row (some col) (ok v) = convert col.of_type v

  abbrev pub cell : Chunk → ℕ → ℕ → Result E Out
  cell ch row i = convert_cell i row (get_elem? ch.cols i) (chunk_value ch i row)

  abbrev pub with_cell : Result E Out → Result E (List Out) → Result E (List Out)
  with_cell (err e) rest = err e
  with_cell (ok v) (err e) = err e
  with_cell (ok v) (ok vs) = ok (v ∷ vs)

  -- The loop over `dest`, from column `i`, with `n` to come.
  unfoldable pub row_cells : ℕ → ℕ → Chunk → ℕ → Result E (List Out)
  row_cells zero i ch row = ok []
  row_cells (suc n) i ch row = with_cell (cell ch row i) (row_cells n (suc i) ch row)

  abbrev pub read_row : Result E (List Out) → Rows E → Next E Out × Rows E
  read_row (err e) r = (failure e, r)
  read_row (ok vs) r = (got vs, record r { row = suc r.row })

  abbrev pub next_of : ℕ → Outcome E × Rows E → Next E Out × Rows E
  next_of n (finished, r) = (eof, r)
  next_of n (failed e, r) = (failure e, r)
  next_of n (ready ch, r) = read_row (row_cells n 0 ch r.row) r

  -- `Next`, for a `dest` of `n` columns.
  unfoldable pub next : ℕ → Rows E → Next E Out × Rows E
  next n r = next_of n (settle r.pulls r.chunk r.row)

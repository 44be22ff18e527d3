-- ===== src/Driver/Table.antt =====
-- driver/rows.go: the rows that a caller of Next gets until the end.
use duckcall.Base.{
  ℕ, zero, suc, ◌+◌, ◌≤◌, ◌<◌, ◌≡◌, refl, ap, sym, ◌∙◌, true, false, List, [], ◌∷◌, ◌++◌, map, All,
  Option, none, some, Result, ok, leb, total, arith, if◌then◌else◌,
}
use duckcall.Codec.Types.{LogicalType, CodecError, Value}
use duckcall.Codec.Chunk.{Chunk}
use duckcall.Driver.Rows.{
  Rows, new_rows, ready, pull, settle, Next, eof, failure, got, row_cells, read_row, next_of, next,
}

le→leb : (m i : ℕ) → i < m → leb m i ≡ false
le→leb m i h = ground arith

ge→leb : (m i : ℕ) → m ≤ i → leb m i ≡ true
ge→leb m i h = ground arith

module _ {E Out : Type 0} (of_codec : CodecError → E)
    (convert : LogicalType → Value → Result E Out) where
  abbrev pub cons_row : {A : Type 0} → A → Option (List A) → Option (List A)
  cons_row x none = none
  cons_row x (some xs) = some (x ∷ xs)

  -- Call Next until io.EOF; `none` is an error, or that the fuel ran out.
  unfoldable pub collect : ℕ → ℕ → Rows E → Option (List (List Out))
  collect zero n r = none
  collect (suc fuel) n r =
      let (x, r') = next of_codec convert n r in
      elim x [ eof ↦ some [] | failure e ↦ none | got vs ↦ cons_row vs (collect fuel n r') ]

  collect-next :
      (fuel n : ℕ) (r : Rows E) (x : Next E Out × Rows E)
      → next of_codec convert n r ≡ x
      → collect (suc fuel) n r ≡ elim x.0 as (λ _. Option (List (List Out))) [
        | eof ↦ some []
        | failure e ↦ none
        | got vs ↦ cons_row vs (collect fuel n x.1)
      ]
  unfolding collect
  collect-next fuel n r x e =
      ap
        (λ y. elim y.0 as (λ _. Option (List (List Out))) [
          | eof ↦ some []
          | failure e ↦ none
          | got vs ↦ cons_row vs (collect fuel n y.1)
        ])
        e

  module _ (n : ℕ) (table : Chunk → ℕ → List Out) where
    -- The rows from `i`, `k` of them.
    abbrev pub rows_from : ℕ → Chunk → ℕ → List (List Out)
    rows_from zero ch i = []
    rows_from (suc k) ch i = table ch i ∷ rows_from k ch (suc i)

    abbrev pub all_rows : List Chunk → List (List Out)
    all_rows [] = []
    all_rows (ch ∷ chs) = rows_from ch.rows ch 0 ++ all_rows chs

    -- Every cell of the chunk can be read and converted.
    abbrev pub IsReadable : Chunk → Type 0
    IsReadable ch = (i : ℕ) → i < ch.rows → row_cells of_codec convert n 0 ch i ≡ ok (table ch i)

    abbrev at : List Chunk → Chunk → ℕ → Rows E
    at chs ch i = record { pulls = map ok chs; chunk = some ch; row = i }

    abbrev Collects : List Chunk → ℕ → Chunk → ℕ → Type 0
    Collects chs k ch i =
        (fuel : ℕ)
        → k + total (λ c. c.rows) chs < fuel
        → collect fuel n (at chs ch i) ≡ some (rows_from k ch i ++ all_rows chs)

    next_in :
        (chs : List Chunk) (ch : Chunk) (i : ℕ)
        → IsReadable ch
        → i < ch.rows
        → next of_codec convert n (at chs ch i) ≡ (got (table ch i), at chs ch (suc i))
    unfolding next settle
    next_in chs ch i ok' h =
        ap
          (λ b.
            next_of of_codec convert n
              (if b then pull (some ch) i (map ok chs) else (ready ch, at chs ch i)))
          (le→leb ch.rows i h)
        ∙ ap (λ r. read_row of_codec convert r (at chs ch i)) (ok' i h)

    in_chunk :
        (chs : List Chunk) (ch : Chunk)
        → IsReadable ch
        → ((i : ℕ) → i ≡ ch.rows → Collects chs 0 ch i)
        → (k i : ℕ) → i + k ≡ ch.rows
        → Collects chs k ch i
    in_chunk chs ch ok' base zero i e fuel h = base i (omega (arith, e)) fuel h
    in_chunk chs ch ok' base (suc k) i e zero h = absurd (omega arith)
    in_chunk chs ch ok' base (suc k) i e (suc fuel) h =
        collect-next fuel n (at chs ch i) (got (table ch i), at chs ch (suc i))
          (next_in chs ch i ok' (omega (arith, e)))
        ∙ ap (cons_row (table ch i))
            (in_chunk chs ch ok' base k (suc i) (omega (arith, e)) fuel (omega (arith, h)))

    -- Behind the last row of a chunk, Next goes on with the next chunk.
    skip :
        (ch next_ch : Chunk) (chs : List Chunk) (i : ℕ)
        → i ≡ ch.rows
        → next of_codec convert n (at (next_ch ∷ chs) ch i)
          ≡ next of_codec convert n (at chs next_ch 0)
    unfolding next settle pull
    skip ch next_ch chs i e =
        ap
          (λ b. next_of of_codec convert n (
            if b
            then pull (some ch) i (map ok (next_ch ∷ chs))
            else (ready ch, at (next_ch ∷ chs) ch i)))
          (ge→leb ch.rows i (omega (arith, e)))

    at_end :
        (ch : Chunk) (i : ℕ)
        → i ≡ ch.rows
        → next of_codec convert n (at [] ch i) ≡ (eof, at [] ch i)
    unfolding next settle pull
    at_end ch i e =
        ap
          (λ b.
            next_of of_codec convert n (if b then pull (some ch) i [] else (ready ch, at [] ch i)))
          (ge→leb ch.rows i (omega (arith, e)))

    chunks :
        (chs : List Chunk) (ch : Chunk)
        → All IsReadable chs
        → (i : ℕ) → i ≡ ch.rows
        → Collects chs 0 ch i
    chunks [] ch v i e zero h = absurd (omega arith)
    chunks [] ch v i e (suc fuel) h =
        collect-next fuel n (at [] ch i) (eof, at [] ch i) (at_end ch i e)
    chunks (c ∷ chs) ch v i e zero h = absurd (omega arith)
    chunks (c ∷ chs) ch (r, v) i e (suc fuel) h =
        collect-next fuel n (at (c ∷ chs) ch i) (next of_codec convert n (at chs c 0))
          (skip ch c chs i e)
        ∙ sym (collect-next fuel n (at chs c 0) (next of_codec convert n (at chs c 0)) refl)
        ∙ in_chunk chs c r (chunks chs c v) c.rows 0 (omega arith) (suc fuel) (omega (arith, h))

    -- For chunks whose cells can all be read and converted, empty chunks among them: calling Next
    -- until io.EOF ends after one call more than there are rows, and gives every row of every chunk
    -- once, in their order.
    pub next-all_rows :
        (chs : List Chunk) (fuel : ℕ)
        → All IsReadable chs
        → total (λ c. c.rows) chs < fuel
        → collect fuel n (new_rows (map ok chs)) ≡ some (all_rows chs)
    unfolding next settle pull
    next-all_rows [] zero v h = absurd (omega arith)
    next-all_rows [] (suc fuel) v h = collect-next fuel n (new_rows []) (eof, new_rows []) refl
    next-all_rows (c ∷ chs) zero v h = absurd (omega arith)
    next-all_rows (c ∷ chs) (suc fuel) (r, v) h =
        collect-next fuel n (new_rows (map ok (c ∷ chs))) (next of_codec convert n (at chs c 0))
          refl
        ∙ sym (collect-next fuel n (at chs c 0) (next of_codec convert n (at chs c 0)) refl)
        ∙ in_chunk chs c r (chunks chs c v) c.rows 0 (omega arith) (suc fuel) (omega (arith, h))

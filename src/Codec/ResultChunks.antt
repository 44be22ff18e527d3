-- ===== src/Codec/ResultChunks.antt =====
-- codec/result.go and codec/chunk.go: the chunks of a result, and the indices that Chunk.Value accepts.
use duckcall.Base.{
  ℕ, subst, ◌⊎◌, sym, zero, suc, ◌<◌, ◌≡◌, refl, Bool, List, [], ◌∷◌, Option, none, some, Result,
  ok, err, if◌then◌else◌, length, get_elem?, All, Option-cases, inl, inr, arith,
}
use duckcall.Qser.Reader.{
  optional_idx_absent, new_reader, try_field, end_object, list_count, present, hugeint,
  optional_idx,
}
use duckcall.Codec.Types.{chunk_object, result_uuid, CodecError, Value}
use duckcall.Codec.Decode.{Decode, ◌>>=◌, ◌>>◌, done, read, check, for_range}
use duckcall.Codec.TypeTree.{optional, required}
use duckcall.Codec.Ensures.{
  OkHas-ok, bind-Ensures, then-Ensures, done-Ensures, check-Ensures, if-Ensures, for_range-Ensures,
  Ensures,
}
use duckcall.Codec.Chunk.{column_value, chunk_value, decode_chunk_contents, Column, Chunk}
use duckcall.Codec.Results.{
  wrapped_chunk, chunk_wrapper, present_chunks, decode_chunk_list, read_prepare, read_fetch,
  read_chunk, decode_prepare, decode_fetch, decode_chunk, SchemaColumn, PrepareResult, FetchResult,
}
use duckcall.Codec.WellFormed.{IsFull, chunk_contents-Ensures, IsWellFormed}

abbrev IfPresent : Option Chunk → Type 0
IfPresent none = Unit
IfPresent (some ch) = IsWellFormed ch

wrapped_chunk-Ensures : Ensures IfPresent wrapped_chunk
unfolding wrapped_chunk
wrapped_chunk-Ensures = then-Ensures IfPresent (required chunk_object 300) _ λ _.
    bind-Ensures IsWellFormed IfPresent decode_chunk_contents
      (λ ch. read end_object >>= λ e. done (some ch)) chunk_contents-Ensures
      λ ch w.
        then-Ensures IfPresent (read end_object) (λ e. done (some ch))
          λ e. done-Ensures IfPresent (some ch) w

chunk_wrapper-Ensures : Ensures IfPresent chunk_wrapper
unfolding chunk_wrapper
chunk_wrapper-Ensures =
    then-Ensures IfPresent (read present) (λ b. if b then wrapped_chunk else done none)
      λ b.
        if-Ensures IfPresent b wrapped_chunk (done none) wrapped_chunk-Ensures
          (done-Ensures IfPresent none tt)

present_chunks-All :
    (cs : List (Option Chunk)) → All IfPresent cs → All IsWellFormed (present_chunks cs)
unfolding present_chunks
present_chunks-All [] h = tt
present_chunks-All (none ∷ cs) (p, ps) = present_chunks-All cs ps
present_chunks-All (some ch ∷ cs) (p, ps) = (p, present_chunks-All cs ps)

chunk_list-Ensures : Ensures (All IsWellFormed) decode_chunk_list
unfolding decode_chunk_list
chunk_list-Ensures =
    then-Ensures (All IsWellFormed) (read list_count)
      (λ n. for_range (λ i. chunk_wrapper) n 0 >>= λ cs. check (present_chunks cs))
      λ n.
        bind-Ensures (All IfPresent) (All IsWellFormed) (for_range (λ i. chunk_wrapper) n 0)
          (λ cs. check (present_chunks cs))
          (for_range-Ensures IfPresent (λ i. chunk_wrapper) (λ i. chunk_wrapper-Ensures) n 0)
          λ cs h. check-Ensures (All IsWellFormed) (present_chunks cs) (present_chunks-All cs h)

optional_chunks-Ensures : (id : ℕ) → Ensures (All IsWellFormed) (optional id [] decode_chunk_list)
optional_chunks-Ensures id =
    then-Ensures (All IsWellFormed) (read (try_field id))
      (λ b. if b then decode_chunk_list else done [])
      λ b.
        if-Ensures (All IsWellFormed) b decode_chunk_list (done []) chunk_list-Ensures
          (done-Ensures (All IsWellFormed) [] tt)

abbrev FetchIsWellFormed : FetchResult → Type 0
FetchIsWellFormed res = All IsWellFormed res.chunks

abbrev fetch_end : List Chunk → Decode FetchResult
fetch_end chunks = do
  index ← optional 2 optional_idx_absent (read optional_idx)
  e ← read end_object
  check (record { chunks = chunks; batch_index = index })

fetch_end-Ensures :
    (chunks : List Chunk) → All IsWellFormed chunks → Ensures FetchIsWellFormed (fetch_end chunks)
fetch_end-Ensures chunks h =
    then-Ensures FetchIsWellFormed (optional 2 optional_idx_absent (read optional_idx)) _ λ index.
      then-Ensures FetchIsWellFormed (read end_object) _
        λ e. check-Ensures FetchIsWellFormed (record { chunks = chunks; batch_index = index }) h

read_fetch-Ensures : Ensures FetchIsWellFormed read_fetch
unfolding read_fetch
read_fetch-Ensures =
    bind-Ensures (All IsWellFormed) FetchIsWellFormed (optional 1 [] decode_chunk_list) fetch_end
      (optional_chunks-Ensures 1) fetch_end-Ensures

-- Every chunk of a decoded FETCH_RESPONSE has at most 2 ^ 16 rows, and its columns without an error
-- have a value for each row, whatever the bytes of the body.
pub decode_fetch-IsWellFormed :
    (body : List ℕ) (res : FetchResult) → decode_fetch body ≡ ok res → All IsWellFormed res.chunks
unfolding decode_fetch
decode_fetch-IsWellFormed body res e =
    OkHas-ok FetchIsWellFormed (read_fetch (new_reader body)).0 res
      (read_fetch-Ensures.holds (new_reader body)) e

abbrev PrepareIsWellFormed : PrepareResult → Type 0
PrepareIsWellFormed res = All IsWellFormed res.chunks

abbrev prepare_end : List SchemaColumn → Bool → List Chunk → Decode PrepareResult
prepare_end schema more chunks = do
  required result_uuid 5
  id ← read hugeint
  e ← read end_object
  check (record { schema = schema; chunks = chunks; needs_more_fetch = more; result_uuid = id })

prepare_end-Ensures :
    (schema : List SchemaColumn) (more : Bool) (chunks : List Chunk)
    → All IsWellFormed chunks
    → Ensures PrepareIsWellFormed (prepare_end schema more chunks)
prepare_end-Ensures schema more chunks h =
    then-Ensures PrepareIsWellFormed (required result_uuid 5) _ λ _.
      then-Ensures PrepareIsWellFormed (read hugeint) _ λ id.
        then-Ensures PrepareIsWellFormed (read end_object) _ λ e.
          check-Ensures PrepareIsWellFormed
            (record { schema = schema; chunks = chunks; needs_more_fetch = more; result_uuid = id })
            h

prepare_chunks-Ensures :
    (schema : List SchemaColumn) (more : Bool)
    → Ensures PrepareIsWellFormed (optional 4 [] decode_chunk_list >>= prepare_end schema more)
prepare_chunks-Ensures schema more =
    bind-Ensures (All IsWellFormed) PrepareIsWellFormed (optional 4 [] decode_chunk_list)
      (prepare_end schema more) (optional_chunks-Ensures 4) (prepare_end-Ensures schema more)

read_prepare-Ensures : Ensures PrepareIsWellFormed read_prepare
unfolding read_prepare
read_prepare-Ensures = search (then-Ensures, prepare_chunks-Ensures) depth 12

-- Every chunk that a decoded PREPARE_RESPONSE carries has at most 2 ^ 16 rows, and its columns
-- without an error have a value for each row, whatever the bytes of the body.
pub decode_prepare-IsWellFormed :
    (body : List ℕ) (res : PrepareResult)
    → decode_prepare body ≡ ok res
    → All IsWellFormed res.chunks
unfolding decode_prepare
decode_prepare-IsWellFormed body res e =
    OkHas-ok PrepareIsWellFormed (read_prepare (new_reader body)).0 res
      (read_prepare-Ensures.holds (new_reader body)) e

read_chunk-Ensures : Ensures IsWellFormed read_chunk
unfolding read_chunk
read_chunk-Ensures =
    bind-Ensures IsWellFormed IsWellFormed decode_chunk_contents check chunk_contents-Ensures
      (check-Ensures IsWellFormed)

get_elem?-lt :
    (vals : List Value) (i : ℕ) → i < length vals → (v : Value) × (get_elem? vals i ≡ some v)
get_elem?-lt [] i h = ground arith
get_elem?-lt (v ∷ vals) zero h = (v, refl)
get_elem?-lt (v ∷ vals) (suc i) h = get_elem?-lt vals i (omega arith)

get_elem?-All :
    (P : Column → Type 0) (cols : List Column) (i : ℕ) (cl : Column)
    → All P cols
    → get_elem? cols i ≡ some cl
    → P cl
get_elem?-All P [] i cl h e = cc
get_elem?-All P (c ∷ cols) zero cl (p, ps) e = let same : c ≡ cl = cc in subst P same p
get_elem?-All P (c ∷ cols) (suc i) cl (p, ps) e = get_elem?-All P cols i cl ps e

-- What a column answers at a row: its error, or the value it holds there.
abbrev pub Answers : Column → ℕ → Result CodecError Value → Type 0
Answers cl row x =
    ((e : CodecError) × (cl.error ≡ some e) × (x ≡ err e))
    ⊎ ((v : Value) × (get_elem? cl.vals row ≡ some v) × (x ≡ ok v))

column_value-Answers :
    (cl : Column) (rows row : ℕ)
    → IsFull rows cl
    → row < rows
    → Answers cl row (column_value cl row)
unfolding column_value
column_value-Answers cl rows row h lt = elim (Option-cases cl.error) [
  | inr (e, s) ↦ inl (e, s, ground arith)
  | inl n ↦
      let (v, g) = get_elem?-lt cl.vals row (subst (λ (n : ℕ). row < n) (sym (h n)) lt) in
      inr (v, g, ground arith)
]

chunk_value-column :
    (ch : Chunk) (col row : ℕ) (cl : Column)
    → get_elem? ch.cols col ≡ some cl
    → row < ch.rows
    → chunk_value ch col row ≡ column_value cl row
unfolding chunk_value
chunk_value-column ch col row cl c h = ground arith

-- A chunk that decodes from any bytes answers `Value` at each of its columns and rows: with the
-- column's error if it has one, and else with the value that its column holds for that row.
pub chunk_value-in_range :
    (buf : List ℕ) (ch : Chunk) (col row : ℕ) (cl : Column)
    → decode_chunk buf ≡ ok ch
    → get_elem? ch.cols col ≡ some cl
    → row < ch.rows
    → Answers cl row (chunk_value ch col row)
unfolding decode_chunk
chunk_value-in_range buf ch col row cl d c h =
    let full =
      OkHas-ok IsWellFormed (read_chunk (new_reader buf)).0 ch
        (read_chunk-Ensures.holds (new_reader buf)) d in
    subst (Answers cl row) (sym (chunk_value-column ch col row cl c h)) (
      column_value-Answers cl ch.rows row
        (get_elem?-All (IsFull ch.rows) ch.cols col cl full.full c) h)

-- ===== src/Codec/Reading.antt =====
-- codec/result.go: what DecodePrepare, DecodeFetch and DecodeChunk do with the reader.
use duckcall.Base.{◌≡◌, refl, Option, none, some, Result, ok, err}
use duckcall.Qser.Reader.{Reader, Error}
use duckcall.Qser.Safety.{Moves, InBuf, IsSafe}
use duckcall.Codec.Types.{CodecError}
use duckcall.Codec.Decode.{Decode, on_ok, ◌>>=◌, checked, check}
use duckcall.Codec.Safety.{bind-IsSafe, check-IsSafe}
use duckcall.Codec.Results.{read_prepare, read_fetch, read_chunk}
use duckcall.Codec.Chunk.{decode_chunk_contents}
use duckcall.Codec.ChunkSafety.{
  read_prepare-IsSafe, read_fetch-IsSafe, decode_chunk_contents-IsSafe,
}

module _ {ℓ} {A : Type ℓ} where
  -- Where a value is returned, the reader after it has no error.
  abbrev pub IsClean : Result CodecError A × Reader → Type 0
  IsClean (ok a, r) = r.err ≡ none
  IsClean (err e, r) = Unit

  -- What a decoder does from a reader.
  pub record Reads (m : Decode A) (r : Reader) : Type ℓ where
    pub moves : Moves r (m r).1
    pub clean : IsClean (m r)

  record EndsClean (m : Decode A) : Type ℓ where
    ends : (r : Reader) → IsClean (m r)

  checked-IsClean : (a : A) (r : Reader) (e : Option Error) → r.err ≡ e → IsClean (checked a e, r)
  checked-IsClean a r none h = h
  checked-IsClean a r (some e) h = tt

  check-EndsClean : (a : A) → EndsClean (check a)
  check-EndsClean a = record { ends = λ r. checked-IsClean a r r.err refl }

  on_ok-IsClean {κ} :
      {B : Type κ} (f : B → Decode A) (x : Result CodecError B) (r : Reader)
      → ((b : B) → EndsClean (f b))
      → IsClean (on_ok f x r)
  on_ok-IsClean f (ok b) r h = (h b).ends r
  on_ok-IsClean f (err e) r h = tt

  -- Only the last step matters.
  bind-EndsClean {κ} :
      {B : Type κ} (m : Decode B) (f : B → Decode A)
      → ((b : B) → EndsClean (f b))
      → EndsClean (m >>= f)
  bind-EndsClean m f h = record { ends = λ r. on_ok-IsClean f (m r).0 (m r).1 h }

read_prepare-EndsClean : EndsClean read_prepare
unfolding read_prepare
read_prepare-EndsClean = search (bind-EndsClean, check-EndsClean) depth 24

read_fetch-EndsClean : EndsClean read_fetch
unfolding read_fetch
read_fetch-EndsClean = search (bind-EndsClean, check-EndsClean) depth 14

read_chunk-EndsClean : EndsClean read_chunk
unfolding read_chunk
read_chunk-EndsClean = search (bind-EndsClean, check-EndsClean) depth 8

read_chunk-IsSafe : IsSafe read_chunk
unfolding read_chunk
read_chunk-IsSafe =
    bind-IsSafe decode_chunk_contents check decode_chunk_contents-IsSafe check-IsSafe

-- From a reader whose offset is inside its buffer, whatever the bytes and whether or not an earlier
-- read failed, the decoders of PREPARE_RESPONSE bodies, of FETCH_RESPONSE bodies and of chunks leave
-- the buffer as it is and move the offset only forward and inside it; they do not move a reader that
-- has an error, and return a value only if the reader has no error in the end.
pub results-Reads :
    (r : Reader) → InBuf r → Reads read_prepare r × Reads read_fetch r × Reads read_chunk r
results-Reads r h = (
  record { moves = read_prepare-IsSafe.moves r h; clean = read_prepare-EndsClean.ends r },
  record { moves = read_fetch-IsSafe.moves r h; clean = read_fetch-EndsClean.ends r },
  record { moves = read_chunk-IsSafe.moves r h; clean = read_chunk-EndsClean.ends r },
)

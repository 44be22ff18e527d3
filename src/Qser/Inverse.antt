-- ===== src/Qser/Inverse.antt =====
-- internal/qser/qser.go: the reader behind the writer.
use duckcall.Base.{ℕ, ◌≤◌, ◌≡◌, List, ◌++◌, none, length, append_assoc}
use duckcall.Qser.Varint.{IsU64}
use duckcall.Qser.Reader.{Reader, Read, Hugeint, uvarint, svarint, string, hugeint}
use duckcall.Qser.Writer.{Writer, put_uvarint, put_svarint, put_string, put_hugeint}
use duckcall.Qser.Bytes.{uvarint_bytes, svarint_bytes, length-uvarint_bytes, length-svarint_bytes}
use duckcall.Qser.At.{at}
use duckcall.Qser.Groups.{uvarint-at, svarint-at}
use duckcall.Qser.RoundTrip.{
  wrote, string_bytes, hugeint_bytes, put_uvarint-wrote, put_svarint-wrote, put_string-wrote,
  put_hugeint-wrote, string-at, hugeint-at,
}

-- A reader over what `w'` holds and `more`, at the end of what `w` holds.
abbrev pub reading : Writer → Writer → List ℕ → Reader
reading w w' more = record { buf = w'.buf ++ more; off = length w.buf; err = none }

module _ {ℓ} {A : Type ℓ} where
  reads_back :
      (m : Read A) (v : A) (enc : List ℕ) (w w' : Writer) (more : List ℕ)
      → w' ≡ wrote w enc
      → m (at w.buf (enc ++ more)) ≡ (v, at (w.buf ++ enc) more)
      → m (reading w w' more) ≡ (v, reading w' w' more)
  unfolding at
  reads_back m v enc w w' more e h =
      rw (e, append_assoc w.buf enc more) (cc (append_assoc w.buf enc more))

-- A uint64 that `Uvarint` wrote is read back, whatever stands before and behind it.
pub uvarint-put_uvarint :
    (v : ℕ) (w : Writer) (more : List ℕ)
    → IsU64 v
    → let w' = put_uvarint v w in uvarint (reading w w' more) ≡ (v, reading w' w' more)
uvarint-put_uvarint v w more h =
    reads_back uvarint v (uvarint_bytes 9 v) w _ more (put_uvarint-wrote v w h)
      (uvarint-at v w.buf more h)

-- An int64, as its pattern, that `Svarint` wrote is read back, whatever stands before and behind it:
-- the groups, the sign extension and the two overflow guards agree.
pub svarint-put_svarint :
    (v : ℕ) (w : Writer) (more : List ℕ)
    → IsU64 v
    → let w' = put_svarint v w in svarint (reading w w' more) ≡ (v, reading w' w' more)
svarint-put_svarint v w more h =
    reads_back svarint v (svarint_bytes 9 v) w _ more (put_svarint-wrote v w h)
      (svarint-at v w.buf more h)

-- A string whose length fits a uint64 is read back, whatever stands before and behind it.
pub string-put_string :
    (s : List ℕ) (w : Writer) (more : List ℕ)
    → IsU64 (length s)
    → let w' = put_string s w in string (reading w w' more) ≡ (s, reading w' w' more)
string-put_string s w more h =
    reads_back string s (string_bytes s) w _ more (put_string-wrote s w h)
      (string-at s w.buf more h)

-- A hugeint, its halves as 64-bit patterns, is read back, whatever stands before and behind it.
pub hugeint-put_hugeint :
    (h : Hugeint) (w : Writer) (more : List ℕ)
    → IsU64 h.upper
    → IsU64 h.lower
    → let w' = put_hugeint h w in hugeint (reading w w' more) ≡ (h, reading w' w' more)
hugeint-put_hugeint h w more hu hl =
    reads_back hugeint h (hugeint_bytes h) w _ more (put_hugeint-wrote h w hu hl)
      (hugeint-at h w.buf more hu hl)

-- Both varint writers keep what the buffer holds and add 1 to 10 bytes.
pub varint_length :
    (v : ℕ) (w : Writer)
    → IsU64 v
    → ((b : List ℕ) × ((put_uvarint v w).buf ≡ w.buf ++ b) × (1 ≤ length b) × (length b ≤ 10))
      × ((b : List ℕ) × ((put_svarint v w).buf ≡ w.buf ++ b) × (1 ≤ length b) × (length b ≤ 10))
varint_length v w h =
    let u = length-uvarint_bytes 9 v in
    let s = length-svarint_bytes 9 v in
    (
      (uvarint_bytes 9 v, rw (put_uvarint-wrote v w h), u.0, u.1),
      (svarint_bytes 9 v, rw (put_svarint-wrote v w h), s.0, s.1),
    )

-- ===== src/Qser/RoundTrip.antt =====
-- Every method of the reader in front of what the writer's method appends, and what the writer's
-- methods append.
use duckcall.Base.{
  ℕ, ◌%◌, ◌≤◌, ◌≡◌, refl, List, [], ◌∷◌, ◌++◌, Bool, true, false, ◌==◌, if◌then◌else◌, length,
  length-append, take-append, append_assoc, arith,
}
use duckcall.Qser.Varint.{IsU64, uint16, id_bytes}
use duckcall.Qser.Reader.{
  Hugeint, end_id, fail, unexpected_field, peek_id, try_field, end_object, take_bytes, bool, bytes,
  string, list_count, present, hugeint,
}
use duckcall.Qser.Writer.{
  Writer, put_raw, put_field, put_end, put_uvarint, put_svarint, put_bytes, put_string, put_hugeint,
}
use duckcall.Qser.Bytes.{
  uvarint_bytes, svarint_bytes, append_uvarint_ends, append_svarint_ends, IsU64-FitsGroups,
}
use duckcall.Qser.At.{at, guarded-at, rest-at, remaining-at, advance-at, err-at}
use duckcall.Qser.Groups.{uvarint-at, svarint-at}

-- What the writer's methods append.
abbrev pub string_bytes : List ℕ → List ℕ
string_bytes s = uvarint_bytes 9 (length s) ++ s

abbrev pub hugeint_bytes : Hugeint → List ℕ
hugeint_bytes h = svarint_bytes 9 h.upper ++ uvarint_bytes 9 h.lower

abbrev pub bool_bytes : Bool → List ℕ
bool_bytes b = (if b then 1 else 0) ∷ []

abbrev pub wrote : Writer → List ℕ → Writer
wrote w b = record { buf = w.buf ++ b }

pub put_uvarint-wrote :
    (v : ℕ) (w : Writer) → IsU64 v → put_uvarint v w ≡ wrote w (uvarint_bytes 9 v)
unfolding put_uvarint
put_uvarint-wrote v w h = rw (append_uvarint_ends 9 w.buf v (omega arith))

pub put_svarint-wrote :
    (v : ℕ) (w : Writer) → IsU64 v → put_svarint v w ≡ wrote w (svarint_bytes 9 v)
unfolding put_svarint
put_svarint-wrote v w h = rw (append_svarint_ends 9 w.buf v (IsU64-FitsGroups v h))

pub put_field-wrote : (id : ℕ) (w : Writer) → put_field id w ≡ wrote w (id_bytes id)
unfolding put_field
put_field-wrote id w = refl

pub put_end-wrote : (w : Writer) → put_end w ≡ wrote w (id_bytes end_id)
unfolding put_end put_field
put_end-wrote w = refl

pub put_string-wrote :
    (s : List ℕ) (w : Writer) → IsU64 (length s) → put_string s w ≡ wrote w (string_bytes s)
unfolding put_string put_bytes put_raw
put_string-wrote s w h =
    rw (put_uvarint-wrote (length s) w h) (rw (append_assoc w.buf (uvarint_bytes 9 (length s)) s))

pub put_hugeint-wrote :
    (h : Hugeint) (w : Writer)
    → IsU64 h.upper
    → IsU64 h.lower
    → put_hugeint h w ≡ wrote w (hugeint_bytes h)
unfolding put_hugeint
put_hugeint-wrote h w hu hl =
    rw (put_svarint-wrote h.upper w hu, put_uvarint-wrote h.lower _ hl, append_assoc)

pub peek_id-at :
    (id : ℕ) (pre more : List ℕ)
    → peek_id (at pre (id_bytes id ++ more)) ≡ (id % 65536, at pre (id_bytes id ++ more))
unfolding peek_id uint16
peek_id-at id pre more = rw (guarded-at, remaining-at, rest-at) (ground arith)

-- A field id is consumed exactly when it is the one asked for.
pub try_field-at :
    (id got : ℕ) (pre more : List ℕ)
    → try_field id (at pre (id_bytes got ++ more)) ≡ (
        if got % 65536 == id
        then (true, at (pre ++ id_bytes got) more)
        else (false, at pre (id_bytes got ++ more)))
unfolding try_field
try_field-at id got pre more =
    rw (peek_id-at, advance-at pre (id_bytes got) more 2 refl)
      (ground (arith, err-at pre (id_bytes got ++ more)))

pub end_object-at :
    (got : ℕ) (pre more : List ℕ)
    → end_object (at pre (id_bytes got ++ more)) ≡ (
        if got % 65536 == end_id
        then (tt, at (pre ++ id_bytes got) more)
        else (tt, fail (unexpected_field (got % 65536)) (at pre (id_bytes got ++ more))))
unfolding end_object
end_object-at got pre more =
    rw (peek_id-at, advance-at pre (id_bytes got) more 2 refl)
      (ground (arith, err-at pre (id_bytes got ++ more)))

pub take_bytes-at :
    (b pre more : List ℕ) → take_bytes (length b) (at pre (b ++ more)) ≡ (b, at (pre ++ b) more)
unfolding take_bytes
take_bytes-at b pre more =
    rw (guarded-at, remaining-at, rest-at, take-append, advance-at pre b more (length b) refl)
      (ground (arith, length-append b more))

pub bool-at :
    (b : Bool) (pre more : List ℕ)
    → bool (at pre (bool_bytes b ++ more)) ≡ (b, at (pre ++ bool_bytes b) more)
unfolding bool
bool-at true pre more = rw (take_bytes-at (1 ∷ []) pre more)
bool-at false pre more = rw (take_bytes-at (0 ∷ []) pre more)

pub present-at :
    (b : Bool) (pre more : List ℕ)
    → present (at pre (bool_bytes b ++ more)) ≡ (b, at (pre ++ bool_bytes b) more)
unfolding present
present-at = bool-at

pub string-at :
    (s pre more : List ℕ)
    → IsU64 (length s)
    → string (at pre (string_bytes s ++ more)) ≡ (s, at (pre ++ string_bytes s) more)
unfolding string bytes
string-at s pre more h =
    rw
      (
        append_assoc (uvarint_bytes 9 (length s)) s more,
        uvarint-at (length s) pre (s ++ more) h,
        guarded-at,
        remaining-at,
        take_bytes-at s (pre ++ uvarint_bytes 9 (length s)) more,
        append_assoc pre (uvarint_bytes 9 (length s)) s,
      )
      (ground (arith, length-append s more))

-- A count is accepted when that many bytes can follow.
pub list_count-at :
    (n : ℕ) (pre more : List ℕ)
    → IsU64 n
    → n ≤ length more
    → list_count (at pre (uvarint_bytes 9 n ++ more)) ≡ (n, at (pre ++ uvarint_bytes 9 n) more)
unfolding list_count
list_count-at n pre more h fits =
    rw (uvarint-at n pre more h, guarded-at, remaining-at) (ground arith)

pub hugeint-at :
    (h : Hugeint) (pre more : List ℕ)
    → IsU64 h.upper
    → IsU64 h.lower
    → hugeint (at pre (hugeint_bytes h ++ more)) ≡ (h, at (pre ++ hugeint_bytes h) more)
unfolding hugeint
hugeint-at h pre more hu hl = rw (
  append_assoc (svarint_bytes 9 h.upper) (uvarint_bytes 9 h.lower) more,
  svarint-at h.upper pre _ hu,
  uvarint-at h.lower _ more hl,
  append_assoc pre (svarint_bytes 9 h.upper) (uvarint_bytes 9 h.lower),
)

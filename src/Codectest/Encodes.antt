-- ===== src/Codectest/Encodes.antt =====
-- What the encoder of codec/codectest/codectest.go wrote, as a decoder reads it.
use duckcall.Base.{
  ℕ, zero, suc, ◌%◌, ◌≤◌, ◌≡◌, refl, true, List, [], ◌++◌, Option, none, some, Result, ok, eq→==,
  ◌≢◌, length, append_assoc, append-nil, length-append, arith,
}
use duckcall.Qser.Varint.{IsU64, id_bytes}
use duckcall.Qser.Bytes.{uvarint_bytes, length-uvarint_bytes}
use duckcall.Qser.Reader.{try_field, uvarint, string, bytes, new_reader, rest}
use duckcall.Qser.Writer.{Writer, put_field, put_string, put_bytes, put_field_bytes, new_writer}
use duckcall.Qser.At.{at, rest-at}
use duckcall.Qser.Groups.{uvarint-at}
use duckcall.Qser.RoundTrip.{wrote, try_field-at, string_bytes, string-at, put_string-wrote}
use duckcall.Qser.Optional.{
  new_reader-at, NotNext, field-NotNext, uvarint_field, put_field_uvarint-wrote,
}
use duckcall.Codec.Types.{CodecError}
use duckcall.Codec.Decode.{Decode, read, check}
use duckcall.Codec.TypeTree.{optional}
use duckcall.Codectest.Write.{Write, bytes_of}
use duckcall.Codectest.TypeWriter.{write_nonzero}

-- The encoder `p` appends at least `size` bytes, and the decoder `m` reads `a` off their front.
pub record Encodes {ℓ} {A : Type ℓ} (size : ℕ) (p : Write) (m : Decode A) (a : A) : Type ℓ where
  pub bytes : List ℕ
  pub writes : (w : Writer) → p w ≡ some (wrote w bytes)
  pub reads : (pre more : List ℕ) → m (at pre (bytes ++ more)) ≡ (ok a, at (pre ++ bytes) more)
  pub long : size ≤ length bytes

pub try_field-same :
    (id : ℕ) (pre more : List ℕ)
    → id % 65536 ≡ id
    → try_field id (at pre (id_bytes id ++ more)) ≡ (true, at (pre ++ id_bytes id) more)
try_field-same id pre more small = rw (try_field-at id id pre more, eq→== (id % 65536) id small)

unfoldable pub nonzero_bytes : ℕ → ℕ → List ℕ
nonzero_bytes id zero = []
nonzero_bytes id (suc v) = uvarint_field id (suc v)

pub write_nonzero-wrote :
    (id v : ℕ) (w : Writer) → IsU64 v → write_nonzero id v w ≡ some (wrote w (nonzero_bytes id v))
unfolding write_nonzero nonzero_bytes
write_nonzero-wrote id zero w h = rw append-nil
write_nonzero-wrote id (suc v) w h = ground (arith, put_field_uvarint-wrote id (suc v) w h)

pub nonzero-NotNext :
    (id got v : ℕ) (more : List ℕ)
    → got % 65536 ≢ id
    → NotNext id more
    → NotNext id (nonzero_bytes got v ++ more)
unfolding nonzero_bytes
nonzero-NotNext id got zero more h next pre = next pre
nonzero-NotNext id got (suc v) more h next pre =
    field-NotNext id got (uvarint_bytes 9 (suc v) ++ more) h pre

-- An optional number that is left out when it is 0.
pub optional-nonzero :
    (id v : ℕ) (pre more : List ℕ)
    → id % 65536 ≡ id
    → IsU64 v
    → NotNext id more
    → optional id 0 (read uvarint) (at pre (nonzero_bytes id v ++ more))
      ≡ (ok v, at (pre ++ nonzero_bytes id v) more)
unfolding nonzero_bytes
optional-nonzero id zero pre more small h next = rw (next pre, append-nil)
optional-nonzero id (suc v) pre more small h next = rw (
  try_field-same id pre (uvarint_bytes 9 (suc v) ++ more) small,
  uvarint-at (suc v) (pre ++ id_bytes id) more h,
  append_assoc pre (id_bytes id) (uvarint_bytes 9 (suc v)),
)

pub check-at {ℓ} :
    {A : Type ℓ} (a : A) (pre more : List ℕ) → check a (at pre more) ≡ (ok a, at pre more)
unfolding at
check-at a pre more = refl

-- Its length and its bytes apart.
pub string-at_apart :
    (s pre more : List ℕ)
    → IsU64 (length s)
    → string (at pre (uvarint_bytes 9 (length s) ++ (s ++ more)))
      ≡ (s, at (pre ++ string_bytes s) more)
string-at_apart s pre more h =
    rw (← append_assoc (uvarint_bytes 9 (length s)) s more) (string-at s pre more h)

-- Byte slices are written and read as strings are.
pub put_field_bytes-wrote :
    (id : ℕ) (b : List ℕ) (w : Writer)
    → IsU64 (length b)
    → put_field_bytes id b w ≡ wrote w (id_bytes id ++ string_bytes b)
unfolding put_field_bytes put_field put_string
put_field_bytes-wrote id b w h = rw (put_string-wrote b _ h) (simp append_assoc)

pub bytes-at_apart :
    (b pre more : List ℕ)
    → IsU64 (length b)
    → bytes (at pre (uvarint_bytes 9 (length b) ++ (b ++ more)))
      ≡ (b, at (pre ++ string_bytes b) more)
unfolding string
bytes-at_apart = string-at_apart

pub put_bytes-wrote :
    (b : List ℕ) (w : Writer) → IsU64 (length b) → put_bytes b w ≡ wrote w (string_bytes b)
unfolding put_string
put_bytes-wrote = put_string-wrote

pub bytes-at_front :
    (b pre more : List ℕ)
    → IsU64 (length b)
    → bytes (at pre (string_bytes b ++ more)) ≡ (b, at (pre ++ string_bytes b) more)
unfolding string
bytes-at_front = string-at

pub long_string : (b : List ℕ) → 1 ≤ length (string_bytes b)
long_string b =
    omega (arith, length-uvarint_bytes 9 (length b), length-append (uvarint_bytes 9 (length b)) b)

-- What a decoder makes of the bytes of a writer that are followed by `more`, and what it leaves.
unfoldable pub decoded {ℓ} :
    {A : Type ℓ} → Decode A → List ℕ → Option Writer → Option (Result CodecError A × List ℕ)
decoded m more none = none
decoded m more (some w) = let (x, r) = m (new_reader (w.buf ++ more)) in some (x, rest r)

pub Encodes-decoded {ℓ} :
    {A : Type ℓ} (n : ℕ) (p : Write) (m : Decode A) (a : A) (more : List ℕ)
    → Encodes n p m a
    → decoded m more (p new_writer) ≡ some (ok a, more)
unfolding decoded
Encodes-decoded n p m a more e = rw (e.writes new_writer, new_reader-at, e.reads, rest-at)

-- What a decoder makes of encoded bytes that are followed by `more`.
unfoldable pub read_back {ℓ} : {A : Type ℓ} → (List ℕ → A) → List ℕ → Option (List ℕ) → Option A
read_back decode more none = none
read_back decode more (some bytes) = some (decode (bytes ++ more))

pub Encodes-read_back {ℓ} :
    {A : Type ℓ} (n : ℕ) (p : Write) (m : Decode A) (a : A) (more : List ℕ)
    → Encodes n p m a
    → read_back (λ bs. (m (new_reader bs)).0) more (bytes_of (p new_writer)) ≡ some (ok a)
unfolding read_back
Encodes-read_back n p m a more e = rw (e.writes new_writer, read_back, new_reader-at, e.reads)

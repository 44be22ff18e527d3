-- ===== src/Qser/Optional.antt =====
-- Optional fields: `if r.TryField(id) { x = … }` in a decoder, and a string that the encoder skips
-- when it is empty.
use duckcall.Base.{
  ℕ, ◌%◌, ◌≡◌, refl, List, [], ◌∷◌, ◌++◌, false, ne→==, eq→==, ◌≢◌, if◌then◌else◌, length, is_empty,
  append_assoc, append-nil,
}
use duckcall.Qser.Varint.{IsU64, id_bytes}
use duckcall.Qser.Reader.{
  Read, ◌>>=◌, return, try_field, string, uvarint, end_object, end_id, new_reader,
}
use duckcall.Qser.Writer.{Writer, put_field_string, put_field_uvarint}
use duckcall.Qser.RoundTrip.{
  string_bytes, wrote, put_field-wrote, put_string-wrote, put_uvarint-wrote, try_field-at,
  string-at, end_object-at,
}
use duckcall.Qser.Bytes.{uvarint_bytes}
use duckcall.Qser.At.{at}
use duckcall.Qser.Groups.{uvarint-at}
use duckcall.Qser.Safety.{IsSafe, >>=-IsSafe, if-IsSafe, return-IsSafe, try_field-IsSafe}

unfoldable pub field_or {ℓ} : {A : Type ℓ} → ℕ → A → Read A → Read A
field_or id missing m = do found ← try_field id; if found then m else return missing

unfoldable pub put_optional_string : ℕ → List ℕ → Writer → Writer
put_optional_string id s w = if is_empty s then w else put_field_string id s w

unfoldable pub optional_string_bytes : ℕ → List ℕ → List ℕ
optional_string_bytes id [] = []
optional_string_bytes id (c ∷ s) = id_bytes id ++ string_bytes (c ∷ s)

pub put_optional_string-wrote :
    (id : ℕ) (s : List ℕ) (w : Writer)
    → IsU64 (length s)
    → put_optional_string id s w ≡ wrote w (optional_string_bytes id s)
unfolding put_optional_string optional_string_bytes put_field_string
put_optional_string-wrote id [] w h = rw append-nil
put_optional_string-wrote id (c ∷ s) w h =
    rw (put_field-wrote, put_string-wrote (c ∷ s) _ h, append_assoc)

pub put_field_uvarint-wrote :
    (id v : ℕ) (w : Writer)
    → IsU64 v
    → put_field_uvarint id v w ≡ wrote w (id_bytes id ++ uvarint_bytes 9 v)
unfolding put_field_uvarint
put_field_uvarint-wrote id v w h = rw (put_field-wrote, put_uvarint-wrote v _ h, append_assoc)

-- The document in front of the reader does not go on with the field `id`.
abbrev pub NotNext : ℕ → List ℕ → Type 0
NotNext id bs = (pre : List ℕ) → try_field id (at pre bs) ≡ (false, at pre bs)

pub field-NotNext :
    (id got : ℕ) (more : List ℕ) → got % 65536 ≢ id → NotNext id (id_bytes got ++ more)
field-NotNext id got more h pre = rw (try_field-at id got pre more, ne→== (got % 65536) id h)

pub optional-NotNext :
    (id got : ℕ) (s more : List ℕ)
    → got % 65536 ≢ id
    → NotNext id more
    → NotNext id (optional_string_bytes got s ++ more)
unfolding optional_string_bytes
optional-NotNext id got [] more h next pre = next pre
optional-NotNext id got (c ∷ s) more h next pre =
    field-NotNext id got (string_bytes (c ∷ s) ++ more) h pre

module _ {ℓ} {A : Type ℓ} where
  pub field_or-present :
      (id : ℕ) (z v : A) (m : Read A) (enc pre more : List ℕ)
      → id % 65536 ≡ id
      → ((before : List ℕ) → m (at before (enc ++ more)) ≡ (v, at (before ++ enc) more))
      → field_or id z m (at pre ((id_bytes id ++ enc) ++ more))
        ≡ (v, at (pre ++ (id_bytes id ++ enc)) more)
  unfolding field_or
  field_or-present id z v m enc pre more small reads = rw (
    try_field-at id id pre (enc ++ more),
    eq→== (id % 65536) id small,
    reads (pre ++ id_bytes id),
    append_assoc pre (id_bytes id) enc,
  )

  pub field_or-missing :
      (id : ℕ) (z : A) (m : Read A) (pre bs : List ℕ)
      → NotNext id bs
      → field_or id z m (at pre bs) ≡ (z, at pre bs)
  unfolding field_or
  field_or-missing id z m pre bs next = rw (next pre)

  pub field_or-IsSafe : (id : ℕ) (z : A) (m : Read A) → IsSafe m → IsSafe (field_or id z m)
  unfolding field_or
  field_or-IsSafe id z m safe =
      >>=-IsSafe (try_field id) _ (try_field-IsSafe id)
        λ b. if-IsSafe b m (return z) safe (return-IsSafe z)

pub optional_string-at :
    (id : ℕ) (s pre more : List ℕ)
    → id % 65536 ≡ id
    → IsU64 (length s)
    → NotNext id more
    → field_or id [] string (at pre (optional_string_bytes id s ++ more))
      ≡ (s, at (pre ++ optional_string_bytes id s) more)
unfolding optional_string_bytes
optional_string-at id [] pre more small h next =
    rw append-nil (field_or-missing id [] string pre more next)
optional_string-at id (c ∷ s) pre more small h next =
    field_or-present id [] (c ∷ s) string (string_bytes (c ∷ s)) pre more small
      (λ before. string-at (c ∷ s) before more h)

abbrev pub uvarint_field : ℕ → ℕ → List ℕ
uvarint_field id v = id_bytes id ++ uvarint_bytes 9 v

pub field_or-uvarint :
    (id z v : ℕ) (pre more : List ℕ)
    → id % 65536 ≡ id
    → IsU64 v
    → field_or id z uvarint (at pre (uvarint_field id v ++ more))
      ≡ (v, at (pre ++ uvarint_field id v) more)
field_or-uvarint id z v pre more small h =
    field_or-present id z v uvarint (uvarint_bytes 9 v) pre more small
      (λ before. uvarint-at v before more h)

-- The terminator of the object that the reader is in.
pub end_object-end :
    (pre more : List ℕ)
    → end_object (at pre (id_bytes end_id ++ more)) ≡ (tt, at (pre ++ id_bytes end_id) more)
end_object-end pre more = end_object-at end_id pre more

pub new_reader-at : (bs : List ℕ) → new_reader bs ≡ at [] bs
unfolding new_reader at
new_reader-at bs = refl

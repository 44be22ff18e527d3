-- ===== src/Codec/Decode.antt =====
-- Decoders: functions from the reader to Go's (value, error) pair, with the reader after it.
use duckcall.Base.{
  ℕ, zero, suc, ◌+◌, Bool, true, false, List, [], ◌∷◌, Option, none, some, Result, ok, err,
}
use duckcall.Qser.Reader.{Error, Reader, Read, and_then}
use duckcall.Codec.Types.{CodecError, framing, Part, missing}

abbrev pub Decode {ℓ} : Type ℓ → Type ℓ
Decode A = Read (Result CodecError A)

-- `if err != nil { return err }`
abbrev pub on_ok {ℓ κ} : {A : Type ℓ} {B : Type κ} → (A → Decode B) → Result CodecError A → Decode B
on_ok f (ok a) r = f a r
on_ok f (err e) r = (err e, r)

infixl 5 ◌>>=◌ ◌>>◌
abbrev pub ◌>>=◌ {ℓ κ} : {A : Type ℓ} {B : Type κ} → Decode A → (A → Decode B) → Decode B
◌>>=◌ m f r = and_then (m r) (on_ok f)

abbrev pub ◌>>◌ {κ} : {B : Type κ} → Decode (Unit {0}) → Decode B → Decode B
m >> k = m >>= λ _. k

abbrev pub done {ℓ} : {A : Type ℓ} → A → Decode A
done a r = (ok a, r)

abbrev pub throw {ℓ} : {A : Type ℓ} → CodecError → Decode A
throw e r = (err e, r)

-- A call of a method of the reader, which reports no error itself.
abbrev pub ok_of {ℓ} : {A : Type ℓ} → A × Reader → Result CodecError A × Reader
ok_of (a, r) = (ok a, r)

abbrev pub read {ℓ} : {A : Type ℓ} → Read A → Decode A
read m r = ok_of (m r)

-- `if test { return …, fmt.Errorf(…) }`
unfoldable pub refuse : Bool → CodecError → Decode (Unit {0})
refuse true e r = (err e, r)
refuse false e r = (ok tt, r)

unfoldable pub require : Part → Bool → Decode (Unit {0})
require part true r = (ok tt, r)
require part false r = (err (missing part), r)

-- `return a, r.Err()`
abbrev pub checked {ℓ} : {A : Type ℓ} → A → Option Error → Result CodecError A
checked a none = ok a
checked a (some e) = err (framing e)

abbrev pub check {ℓ} : {A : Type ℓ} → A → Decode A
check a r = (checked a r.err, r)

-- `for i := range n { … }`, from round `i` with `left` rounds to go; an error ends the loop.
unfoldable pub for_range {ℓ} : {A : Type ℓ} → (ℕ → Decode A) → ℕ → ℕ → Decode (List A)
for_range body zero i r = (ok [], r)
for_range body (suc left) i r = and_then (body i r) (
    on_ok
      λ a r'. and_then (for_range body left (i + 1) r') (on_ok λ rest r''. (ok (a ∷ rest), r'')))

-- ===== src/Codectest/Fields.antt =====
-- Fields of a document that are there or not.
use duckcall.Base.{ℕ, ◌%◌, ◌≡◌, List, [], ◌++◌, ok, ◌≢◌, append_assoc, append-nil, sym, subst}
use duckcall.Qser.Varint.{id_bytes}
use duckcall.Qser.At.{at}
use duckcall.Qser.Optional.{NotNext, field-NotNext}
use duckcall.Codec.Decode.{Decode}
use duckcall.Codec.TypeTree.{optional}
use duckcall.Codectest.Write.{Write}
use duckcall.Codectest.Encodes.{Encodes, try_field-same}

-- The decoder reads `a` from `bytes` when the document does not go on with the field, and no other
-- field starts there.
pub record FieldReads {ℓ} {A : Type ℓ} (id : ℕ) (bytes : List ℕ) (m : Decode A) (a : A)
    : Type ℓ where
  pub reads :
      (pre more : List ℕ)
      → NotNext id more
      → m (at pre (bytes ++ more)) ≡ (ok a, at (pre ++ bytes) more)
  pub skips :
      (other : ℕ) (more : List ℕ) → id ≢ other → NotNext other more → NotNext other (bytes ++ more)

module _ {ℓ} {A : Type ℓ} (id : ℕ) (z : A) (m : Decode A) where
  pub missing-FieldReads : FieldReads id [] (optional id z m) z
  missing-FieldReads = record {
    reads = λ pre more next. rw (next pre, append-nil);
    skips = λ other more h next. next;
  }

  pub present-FieldReads :
      (n : ℕ) (p : Write) (a : A)
      → id % 65536 ≡ id
      → (e : Encodes n p m a) → FieldReads id (id_bytes id ++ e.bytes) (optional id z m) a
  present-FieldReads n p a small e = record {
    reads =
        λ pre more next. rw (try_field-same id pre (e.bytes ++ more) small, e.reads, append_assoc);
    skips = λ other more h next.
        field-NotNext other id (e.bytes ++ more) (subst (λ k. k ≢ other) (sym small) h);
  }

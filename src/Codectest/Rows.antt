-- ===== src/Codectest/Rows.antt =====
-- The loops of codec/chunk.go that make a value for each row.
use duckcall.Base.{
  ℕ, zero, suc, ◌+◌, ◌*◌, ◌≡◌, refl, ap, ◌∙◌, true, false, List, [], ◌∷◌, ◌++◌, some, Result, ok,
  length, drop, take, get_elem?, arith,
}
use duckcall.Qser.At.{at}
use duckcall.Codec.Types.{CodecError, LogicalType, Value, null}
use duckcall.Codec.Decode.{Decode}
use duckcall.Codec.Vectors.{tabulate, rows_or_unsupported}
use duckcall.Codectest.VectorWriter.{is_null}
use duckcall.Codectest.Encodes.{check-at}

-- The row at `i + k` is the k-th value.
pub tabulate-rows :
    (row : ℕ → Result CodecError Value) (vals : List Value) (i : ℕ)
    → ((k : ℕ) (v : Value) → get_elem? vals k ≡ some v → row (i + k) ≡ ok v)
    → tabulate row (length vals) i ≡ ok vals
unfolding tabulate
tabulate-rows row [] i h = refl
tabulate-rows row (x ∷ vals) i h = rw (here, tabulate-rows row vals (i + 1) later)
  where
    here : row i ≡ ok x
    here = ap row (omega arith) ∙ h 0 x refl

    later : (k : ℕ) (v : Value) → get_elem? vals k ≡ some v → row (i + 1 + k) ≡ ok v
    later k v e = ap row (omega arith) ∙ h (suc k) v e

pub rows-at :
    (rec : LogicalType → ℕ → Decode (List Value)) (t : LogicalType) (vals : List Value)
    (row : ℕ → Result CodecError Value) (pre more : List ℕ)
    → ((i : ℕ) (v : Value) → get_elem? vals i ≡ some v → row i ≡ ok v)
    → rows_or_unsupported rec t (length vals) false row (at pre more) ≡ (ok vals, at pre more)
unfolding rows_or_unsupported
rows-at rec t vals row pre more h =
    rw (tabulate-rows row vals 0 λ k v e. ap row (omega arith) ∙ h k v e) (check-at vals pre more)

module _ {ℓ} {A : Type ℓ} where
  pub drop-past : (xs ys : List A) (n m : ℕ) → m ≡ length xs + n → drop m (xs ++ ys) ≡ drop n ys
  drop-past [] ys n m h = ap (λ (k : ℕ). drop k ys) (omega arith)
  drop-past (x ∷ xs) ys n zero h = absurd (omega arith)
  drop-past (x ∷ xs) ys n (suc m) h = drop-past xs ys n m (omega arith)

  pub take-front : (xs ys : List A) (n : ℕ) → n ≡ length xs → take n (xs ++ ys) ≡ xs
  take-front [] ys zero h = refl
  take-front [] ys (suc n) h = absurd (omega arith)
  take-front (x ∷ xs) ys zero h = absurd (omega arith)
  take-front (x ∷ xs) ys (suc n) h = λ i. x ∷ take-front xs ys n (omega arith) i

pub suc_times : (n w : ℕ) → suc n * w ≡ w + n * w
suc_times n w = grind arith

pub first_is : (x : Value) (vals : List Value) (v : Value) → get_elem? (x ∷ vals) 0 ≡ some v → x ≡ v
first_is x vals v e = cc

pub null_is : (v : Value) → is_null v ≡ true → null ≡ v
null_is null h = refl
null_is _ h = absurd cc

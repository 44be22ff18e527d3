-- ===== src/Codectest/Validity.antt =====
-- The validity mask of codec/codectest/codectest.go against `valid` of codec/chunk.go.
use duckcall.Base.{
  ℕ, zero, suc, ◌+◌, ◌*◌, ◌/◌, ◌%◌, ◌<◌, ◌≡◌, refl, false, not, List, [], ◌∷◌, some, length, drop,
  get_elem?, ◌==◌, if◌then◌else◌, arith, subst, sym, ap, ◌∙◌, Bool-cases, inl, inr,
}
use duckcall.Base.Bits.{digit, and_power_zero}
use duckcall.Codec.Types.{Value}
use duckcall.Codec.Cells.{valid}
use duckcall.Codectest.VectorWriter.{is_null, any_null, mask_byte, mask_bytes, validity_mask}

abbrev flag : Value → ℕ
flag v = if is_null v then 0 else 1

-- The k-th of the values has the k-th bit of their byte.
mask_byte-digit :
    (left k : ℕ) (vals : List Value) (v : Value)
    → k < left
    → get_elem? vals k ≡ some v
    → digit k (mask_byte left vals) ≡ flag v
unfolding mask_byte
mask_byte-digit zero k vals v h e = absurd (omega arith)
mask_byte-digit (suc left) k [] v h e = absurd cc
mask_byte-digit (suc left) zero (x ∷ vals) v h e =
    subst (λ y. (flag x + 2 * mask_byte left vals) % 2 ≡ flag y) (first x vals v e)
      (lowest x (mask_byte left vals))
  where
    first : (x : Value) (vals : List Value) (v : Value) → get_elem? (x ∷ vals) 0 ≡ some v → x ≡ v
    first x vals v e = cc

    lowest : (x : Value) (m : ℕ) → (flag x + 2 * m) % 2 ≡ flag x
    lowest x m = ground arith
mask_byte-digit (suc left) (suc k) (x ∷ vals) v h e =
    subst (λ m. digit k m ≡ flag v) (sym (others x (mask_byte left vals)))
      (mask_byte-digit left k vals v (omega arith) e)
  where
    others : (x : Value) (m : ℕ) → (flag x + 2 * m) / 2 ≡ m
    others x m = ground arith

pub length-mask_bytes : (n : ℕ) (vals : List Value) → length (mask_bytes n vals) ≡ n
unfolding mask_bytes
length-mask_bytes zero vals = refl
length-mask_bytes (suc n) vals = λ i. suc (length-mask_bytes n (drop 8 vals) i)

get_elem?-drop : (n i : ℕ) (xs : List Value) → get_elem? (drop n xs) i ≡ get_elem? xs (n + i)
get_elem?-drop zero i xs = ap (λ (j : ℕ). get_elem? xs j) (omega arith)
get_elem?-drop (suc n) i [] = refl
get_elem?-drop (suc n) i (x ∷ xs) =
    get_elem?-drop n i xs ∙ ap (λ (j : ℕ). get_elem? (x ∷ xs) j) (plus_suc n i)
  where
    plus_suc : (n i : ℕ) → suc (n + i) ≡ suc n + i
    plus_suc n i = omega arith

HasByte : ℕ → List Value → ℕ → ℕ → Value → Type 0
HasByte n vals q r v = (b : ℕ) × ((get_elem? (mask_bytes n vals) q ≡ some b) × (digit r b ≡ flag v))

mask_bytes-HasByte :
    (n q r i : ℕ) (vals : List Value) (v : Value)
    → q < n
    → r < 8
    → q * 8 + r ≡ i
    → get_elem? vals i ≡ some v
    → HasByte n vals q r v
unfolding mask_bytes HasByte
mask_bytes-HasByte zero q r i vals v h k same e = absurd (omega arith)
mask_bytes-HasByte (suc n) zero r i vals v h k same e = (
  mask_byte 8 vals,
  (refl, mask_byte-digit 8 r vals v k (subst (λ j. get_elem? vals j ≡ some v) (omega arith) e)),
)
mask_bytes-HasByte (suc n) (suc q) r i vals v h k same e =
    mask_bytes-HasByte n q r (q * 8 + r) (drop 8 vals) v (omega arith) k refl
      (get_elem?-drop 8 (q * 8 + r) vals ∙ subst (λ j. get_elem? vals j ≡ some v) (omega arith) e)

any_null-none :
    (vals : List Value) (i : ℕ) (v : Value)
    → any_null vals ≡ false
    → get_elem? vals i ≡ some v
    → is_null v ≡ false
unfolding any_null
any_null-none [] i v h e = absurd cc
any_null-none (x ∷ vals) zero v h e =
    subst (λ y. is_null y ≡ false) (first x vals v e) (ground arith)
  where
    first : (x : Value) (vals : List Value) (v : Value) → get_elem? (x ∷ vals) 0 ≡ some v → x ≡ v
    first x vals v e = cc
any_null-none (x ∷ vals) (suc i) v h e = any_null-none vals i v (ground arith) e

get_elem?-below :
    (i : ℕ) (vals : List Value) (v : Value) → get_elem? vals i ≡ some v → i < length vals
get_elem?-below i [] v e = absurd cc
get_elem?-below zero (x ∷ vals) v e = omega arith
get_elem?-below (suc i) (x ∷ vals) v e = omega (arith, get_elem?-below i vals v e)

flag_test : (v : Value) → not (flag v == 0) ≡ not (is_null v)
flag_test v = ground arith

masked :
    (n i : ℕ) (vals : List Value) (v : Value)
    → HasByte n vals (i / 8) (i % 8) v
    → valid (some (mask_bytes n vals)) i ≡ not (is_null v)
unfolding valid HasByte
masked n i vals v (b, (there, bit)) =
    rw (valid, there, and_power_zero (i % 8) b (flag v) bit) (flag_test v)

abbrev pub mask_length : List Value → ℕ
mask_length vals = (length vals + 63) / 64 * 8

-- The decoder finds a row valid exactly when its value is not NULL.
pub valid-validity_mask :
    (vals : List Value) (i : ℕ) (v : Value)
    → get_elem? vals i ≡ some v
    → valid (validity_mask vals) i ≡ not (is_null v)
unfolding validity_mask valid
valid-validity_mask vals i v e = elim (Bool-cases (any_null vals)) [
  | inl h ↦ rw h (
      masked (mask_length vals) i vals v (
        mask_bytes-HasByte (mask_length vals) (i / 8) (i % 8) i vals v
          (omega (arith, get_elem?-below i vals v e)) (omega arith) (omega arith) e))
  | inr h ↦ rw (h, any_null-none vals i v h e)
]

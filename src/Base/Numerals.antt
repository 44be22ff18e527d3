-- ===== src/Base/Numerals.antt =====
-- Decimal numerals, as package strconv and math/big write them.
use Prim.Native.Nat.{ℕ, zero, suc, ◌+◌, ◌-◌, ◌*◌, ◌/◌, ◌%◌, ◌≤◌, ◌<◌}
use mathlib.Core.Path.{◌≡◌, refl, ap, sym, subst, ◌∙◌}
use mathlib.Core.Logic.{◌⊎◌, inl, inr}
use mathlib.Core.Bool.{Bool, true, false}
use mathlib.Core.List.{List, [], ◌∷◌, ◌++◌}
use native.Mathlib.Omega.{arith}
use duckcall.Base.Tests.{if◌then◌else◌, ◌==◌, Bool-cases, ==→eq, ==→ne}
use duckcall.Base.Lists.{length, replicate, All}
use duckcall.Base.Int.{ℤ, is_negative, magnitude}

-- The digits of `n` in front of `acc`. Every round divides by 10, so n + 1 rounds are enough.
unfoldable pub digits_from : ℕ → ℕ → List ℕ → List ℕ
digits_from zero n acc = acc
digits_from (suc fuel) n acc = elim (n / 10 == 0) [
  | true ↦ (48 + n % 10) ∷ acc
  | false ↦ digits_from fuel (n / 10) ((48 + n % 10) ∷ acc)
]

abbrev pub digits : ℕ → List ℕ
digits n = digits_from (suc n) n []

-- The number that digits stand for, after digits that stand for `before`.
unfoldable pub number_from : ℕ → List ℕ → ℕ
number_from before [] = before
number_from before (c ∷ s) = number_from (before * 10 + (c - 48)) s

last_digit : (d n : ℕ) → n / 10 ≡ d → d * 10 + (48 + n % 10 - 48) ≡ n
last_digit d n h = omega arith

abbrev one_round : ℕ → ℕ → List ℕ → Bool → List ℕ
one_round fuel n acc true = (48 + n % 10) ∷ acc
one_round fuel n acc false = digits_from fuel (n / 10) ((48 + n % 10) ∷ acc)

digits_from-one_round :
    (fuel n : ℕ) (acc : List ℕ) → digits_from (suc fuel) n acc ≡ one_round fuel n acc (n / 10 == 0)
unfolding digits_from
digits_from-one_round fuel n acc =
    elim (n / 10 == 0)
      as (λ c.
        elim c as (λ _. List ℕ) [
          | true ↦ (48 + n % 10) ∷ acc
          | false ↦ digits_from fuel (n / 10) ((48 + n % 10) ∷ acc)
        ]
        ≡ one_round fuel n acc c) [ true ↦ refl | false ↦ refl ]

digits_from-step :
    (fuel n : ℕ) (acc : List ℕ) (b : Bool)
    → (n / 10 == 0) ≡ b
    → digits_from (suc fuel) n acc ≡ one_round fuel n acc b
digits_from-step fuel n acc b e = digits_from-one_round fuel n acc ∙ ap (one_round fuel n acc) e

number_from-digits_from :
    (fuel n : ℕ) (acc : List ℕ)
    → n < fuel
    → number_from 0 (digits_from fuel n acc) ≡ number_from n acc
unfolding digits_from number_from
number_from-digits_from zero n acc h = absurd (omega arith)
number_from-digits_from (suc fuel) n acc h = elim (Bool-cases (n / 10 == 0)) [
  | inl e ↦
      ap (number_from 0) (digits_from-step fuel n acc true e)
      ∙ (ap (λ k. number_from k acc) (last_digit 0 n (==→eq (n / 10) 0 e)))
  | inr e ↦
      ap (number_from 0) (digits_from-step fuel n acc false e)
      ∙ (number_from-digits_from fuel (n / 10) ((48 + n % 10) ∷ acc)
            (omega (arith, ==→ne (n / 10) 0 e))
          ∙ ap (λ k. number_from k acc) (last_digit (n / 10) n refl))
]

pub number_from-append :
    (k : ℕ) (s t : List ℕ) → number_from k (s ++ t) ≡ number_from (number_from k s) t
unfolding number_from
number_from-append k [] t = refl
number_from-append k (c ∷ s) t = number_from-append (k * 10 + (c - 48)) s t

pub number_from-zeros : (n : ℕ) (s : List ℕ) → number_from 0 (replicate n 48 ++ s) ≡ number_from 0 s
unfolding number_from
number_from-zeros zero s = refl
number_from-zeros (suc n) s = number_from-zeros n s

length-digits_from : (fuel n : ℕ) (acc : List ℕ) → length acc ≤ length (digits_from fuel n acc)
unfolding digits_from
length-digits_from zero n acc = omega arith
length-digits_from (suc fuel) n acc = elim (Bool-cases (n / 10 == 0)) [
  | inl e ↦ omega (arith, ap length (digits_from-step fuel n acc true e))
  | inr e ↦ omega (
    arith,
    ap length (digits_from-step fuel n acc false e),
    length-digits_from fuel (n / 10) ((48 + n % 10) ∷ acc),
  )
]

-- The digits of a number stand for it.
pub number-digits : (n : ℕ) → number_from 0 (digits n) ≡ n
unfolding number_from
number-digits n = number_from-digits_from (suc n) n [] (omega arith)

pub digits-NonEmpty : (n : ℕ) → 1 ≤ length (digits n)
digits-NonEmpty n = elim (Bool-cases (n / 10 == 0)) [
  | inl e ↦ omega (arith, ap length (digits_from-step n n [] true e))
  | inr e ↦ omega (
    arith,
    ap length (digits_from-step n n [] false e),
    length-digits_from n (n / 10) ((48 + n % 10) ∷ []),
  )
]

-- `'0'` to `'9'`.
abbrev pub IsDigit : ℕ → Type 0
IsDigit c = (48 ≤ c) × (c ≤ 57)

last-IsDigit : (n : ℕ) → IsDigit (48 + n % 10)
last-IsDigit n = (omega arith, omega arith)

digits_from-IsDigit :
    (fuel n : ℕ) (acc : List ℕ) → All IsDigit acc → All IsDigit (digits_from fuel n acc)
unfolding digits_from
digits_from-IsDigit zero n acc h = h
digits_from-IsDigit (suc fuel) n acc h =
    elim (n / 10 == 0)
      as (λ c. All IsDigit (elim c as (λ _. List ℕ) [
        | true ↦ (48 + n % 10) ∷ acc
        | false ↦ digits_from fuel (n / 10) ((48 + n % 10) ∷ acc)
      ])) [
        | true ↦ (last-IsDigit n, h)
        | false ↦ digits_from-IsDigit fuel (n / 10) ((48 + n % 10) ∷ acc) (last-IsDigit n, h)
      ]

pub digits-IsDigit : (n : ℕ) → All IsDigit (digits n)
digits-IsDigit n = digits_from-IsDigit (suc n) n [] tt

-- A numeral that does not start with a zero, unless that is all of it.
abbrev pub IsLeading : List ℕ → Type 0
IsLeading [] = ⊥
IsLeading (c ∷ []) = Unit
IsLeading (c ∷ d ∷ s) = 49 ≤ c

last-IsLeading :
    (n : ℕ) (acc : List ℕ) → n / 10 ≡ 0 → (acc ≡ []) ⊎ (1 ≤ n) → IsLeading ((48 + n % 10) ∷ acc)
last-IsLeading n [] small h = tt
last-IsLeading n (c ∷ acc) small (inl e) = absurd (ground (arith, ap length e))
last-IsLeading n (c ∷ acc) small (inr h) = omega arith

digits_from-IsLeading :
    (fuel n : ℕ) (acc : List ℕ)
    → n < fuel
    → (acc ≡ []) ⊎ (1 ≤ n)
    → IsLeading (digits_from fuel n acc)
digits_from-IsLeading zero n acc h lead = absurd (omega arith)
digits_from-IsLeading (suc fuel) n acc h lead = elim (Bool-cases (n / 10 == 0)) [
  | inl e ↦
      subst IsLeading (sym (digits_from-step fuel n acc true e))
        (last-IsLeading n acc (==→eq (n / 10) 0 e) lead)
  | inr e ↦ subst IsLeading (sym (digits_from-step fuel n acc false e)) (
      digits_from-IsLeading fuel (n / 10) ((48 + n % 10) ∷ acc) (omega (arith, ==→ne (n / 10) 0 e))
        (inr (omega (arith, ==→ne (n / 10) 0 e))))
]

pub digits-IsLeading : (n : ℕ) → IsLeading (digits n)
digits-IsLeading n = digits_from-IsLeading (suc n) n [] (omega arith) (inl refl)

pub zeros-IsDigit : (n : ℕ) (s : List ℕ) → All IsDigit s → All IsDigit (replicate n 48 ++ s)
zeros-IsDigit zero s h = h
zeros-IsDigit (suc n) s h = ((omega arith, omega arith), zeros-IsDigit n s h)

-- `%d`, and `%0*d` for a width: the sign counts, and zeros stand between it and the digits.
abbrev pub sign_of : ℤ → List ℕ
sign_of z = if is_negative z then 45 ∷ [] else []

abbrev pub format_int : ℤ → List ℕ
format_int z = sign_of z ++ digits (magnitude z)

abbrev pub format_padded : ℕ → ℤ → List ℕ
format_padded width z =
    let s = digits (magnitude z) in
    sign_of z ++ (replicate (width - length (sign_of z) - length s) 48 ++ s)

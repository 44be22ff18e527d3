-- ===== src/Codec/Exact.antt =====
-- codec/values.go: the text of a decimal and the number that it stands for.
use duckcall.Base.{
  ℕ, zero, suc, ◌+◌, ◌-◌, ◌≤◌, ◌≡◌, refl, ap, sym, subst, All, ◌∙◌, Bool, true, false, List, [],
  ◌∷◌, ◌++◌, leb, length, take, drop, length-drop, length-append, length-replicate, replicate,
  arith, if◌then◌else◌,
}
use duckcall.Base.Int.{ℤ, pos, negsuc, magnitude}
use duckcall.Base.Numerals.{
  digits, number_from, number-digits, number_from-zeros, sign_of, IsDigit, digits-IsDigit,
  IsLeading, digits-IsLeading, zeros-IsDigit,
}
use duckcall.Codec.Text.{pad_text, with_point, unscaled_text}

take++drop : (n : ℕ) (s : List ℕ) → take n s ++ drop n s ≡ s
take++drop zero s = refl
take++drop (suc n) [] = refl
take++drop (suc n) (c ∷ s) = ap (λ t. c ∷ t) (take++drop n s)

-- The digits after the point, with the point.
abbrev pub pointed : ℕ → List ℕ → List ℕ
pointed zero frac = frac
pointed (suc scale) frac = 46 ∷ frac

abbrev pub wide_digits : ℕ → ℕ → List ℕ
wide_digits scale n =
    if leb (length (digits n)) scale then pad_text (scale + 1) (digits n) else digits n

length-pad_text : (w : ℕ) (s : List ℕ) → length s ≤ w → length (pad_text w s) ≡ w
length-pad_text w s h = omega (
  arith,
  length-append (replicate (w - length s) 48) s,
  length-replicate {A = ℕ} (w - length s) 48,
)

one-IsLeading : (s : List ℕ) → 1 ≤ length s → IsLeading (take 1 s)
one-IsLeading [] h = absurd (omega arith)
one-IsLeading (c ∷ s) h = tt

take-IsLeading : (k : ℕ) (s : List ℕ) → 1 ≤ k → IsLeading s → IsLeading (take k s)
take-IsLeading zero s h l = absurd (omega arith)
take-IsLeading (suc k) [] h l = absurd l
take-IsLeading (suc zero) (c ∷ []) h l = tt
take-IsLeading (suc (suc k)) (c ∷ []) h l = tt
take-IsLeading (suc zero) (c ∷ d ∷ s) h l = tt
take-IsLeading (suc (suc k)) (c ∷ d ∷ s) h l = l

-- Digits which a point can be put into.
abbrev IsWide : ℕ → List ℕ → Type 0
IsWide scale s = (scale + 1 ≤ length s) × All IsDigit s × IsLeading (take (length s - scale) s)

pad-if :
    (scale : ℕ) (s : List ℕ) (b : Bool)
    → leb (length s) scale ≡ b
    → All IsDigit s
    → IsLeading s
    → (number_from 0 (if b then pad_text (scale + 1) s else s) ≡ number_from 0 s)
      × IsWide scale (if b then pad_text (scale + 1) s else s)
pad-if scale s true e h l =
    let padded = length-pad_text (scale + 1) s (ground arith) in
    let one : length (pad_text (scale + 1) s) - scale ≡ 1 = omega (arith, padded) in
    (
      number_from-zeros (scale + 1 - length s) s,
      (
        omega (arith, padded),
        zeros-IsDigit (scale + 1 - length s) s h,
        subst (λ k. IsLeading (take k (pad_text (scale + 1) s))) (sym one)
            (one-IsLeading (pad_text (scale + 1) s) (omega (arith, padded))),
      ),
    )
pad-if scale s false e h l =
    let long : scale + 1 ≤ length s = ground arith in
    (refl, (long, h, take-IsLeading (length s - scale) s (omega (arith, long)) l))

wide :
    (scale n : ℕ) → (number_from 0 (wide_digits scale n) ≡ n) × IsWide scale (wide_digits scale n)
wide scale n =
    let (same, rest) =
      pad-if scale (digits n) (leb (length (digits n)) scale) refl (digits-IsDigit n)
        (digits-IsLeading n) in
    (same ∙ number-digits n, rest)

abbrev pub IsExact : ℕ → ℤ → Type 0
IsExact scale v =
    (whole : List ℕ) × (frac : List ℕ) × (unscaled_text scale v
      ≡ sign_of v ++ (whole ++ pointed scale frac))
    × IsLeading whole
    × (length frac ≡ scale)
    × All IsDigit (whole ++ frac)
    × (number_from 0 (whole ++ frac) ≡ magnitude v)

with_point-split :
    (scale : ℕ) (s : List ℕ)
    → scale + 1 ≤ length s
    → with_point scale s ≡ take (length s - scale) s ++ pointed scale (drop (length s - scale) s)
unfolding with_point
with_point-split zero s h = sym (take++drop (length s - 0) s)
with_point-split (suc scale) s h = refl

signed_text :
    (scale : ℕ) (v : ℤ)
    → unscaled_text scale v ≡ sign_of v ++ with_point scale (wide_digits scale (magnitude v))
unfolding unscaled_text
signed_text scale (pos n) = refl
signed_text scale (negsuc n) = refl

-- The text of an unscaled integer is the minus sign if it is negative, then a number without
-- superfluous zeros in front, and, if the scale is not 0, a point and exactly as many characters as
-- the scale says. Apart from the sign and the point all the characters are digits '0' to '9', and
-- together they stand for the magnitude of the integer.
pub unscaled_text-IsExact : (scale : ℕ) (v : ℤ) → IsExact scale v
unscaled_text-IsExact scale v =
    let s = wide_digits scale (magnitude v) in
    let (same, (long, all_digits, leading)) = wide scale (magnitude v) in
    let cut = length s - scale in
    (
      take cut s,
      drop cut s,
      signed_text scale v ∙ ap (λ t. sign_of v ++ t) (with_point-split scale s long),
      leading,
      omega (arith, long, length-drop cut s),
      subst (All IsDigit) (sym (take++drop cut s)) all_digits,
      ap (number_from 0) (take++drop cut s) ∙ same,
    )

-- ===== src/Bouncer/Counting.antt =====
-- cmd/quackbouncer/metrics.go: a counter after an increment.
use duckcall.Base.{
  ℕ, ◌+◌, ◌≡◌, ap, inl, inr, Bool, true, false, ◌&&◌, List, [], ◌∷◌, bytes_eq, bytes_eq→eq,
  Bool-cases, arith,
}
use duckcall.Bouncer.Metrics.{Labelled, Metrics, inc_label, inc, label_value, value}

abbrev pub one_if : Bool → ℕ
one_if true = 1
one_if false = 0

abbrev pub is_counter : List ℕ → List ℕ → List ℕ → List ℕ → Bool
is_counter name l name' l' = bytes_eq name name' && bytes_eq l l'

apart : (k l l' : List ℕ) → bytes_eq k l ≡ false → bytes_eq k l' ≡ true → bytes_eq l l' ≡ false
apart k l l' h g = elim (Bool-cases (bytes_eq l l')) [
  | inl e ↦ (let same = ap (λ y. bytes_eq k y) (bytes_eq→eq l l' e) in cc)
  | inr e ↦ e
]

label_value-inc_label :
    (l l' : List ℕ) (c : Labelled)
    → label_value l' (inc_label l c) ≡ label_value l' c + one_if (bytes_eq l l')
unfolding label_value inc_label
label_value-inc_label l l' [] = ground arith
label_value-inc_label l l' ((k, n) ∷ c) = elim (Bool-cases (bytes_eq k l)) [
  | inl h ↦ ground (arith, ap (λ y. bytes_eq y l') (bytes_eq→eq k l h))
  | inr h ↦ elim (Bool-cases (bytes_eq k l')) [
    | inl g ↦ ground (arith, apart k l l' h g)
    | inr g ↦ ground (arith, label_value-inc_label l l' c)
  ]
]

-- After an increment, the counter has one more and every other counter what it had.
pub value-inc :
    (name l name' l' : List ℕ) (m : Metrics)
    → value name' l' (inc name l m) ≡ value name' l' m + one_if (is_counter name l name' l')
unfolding value inc label_value
value-inc name l name' l' [] = ground arith
value-inc name l name' l' ((k, c) ∷ m) = elim (Bool-cases (bytes_eq k name)) [
  | inl h ↦ elim (Bool-cases (bytes_eq k name')) [
    | inl g ↦
        ground
          (arith, label_value-inc_label l l' c, ap (λ y. bytes_eq y name') (bytes_eq→eq k name h))
    | inr g ↦ ground (arith, ap (λ y. bytes_eq y name') (bytes_eq→eq k name h))
  ]
  | inr h ↦ elim (Bool-cases (bytes_eq k name')) [
    | inl g ↦ ground (arith, apart k name name' h g)
    | inr g ↦ ground (arith, value-inc name l name' l' m)
  ]
]

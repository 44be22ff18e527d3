-- ===== src/Codec/TypedStrings.antt =====
-- codec/chunk.go: the types of the rows of a string vector.
use duckcall.Base.{
  ℕ, zero, suc, ◌≡◌, ◌==◌, ◌||◌, not, refl, Bool, true, false, List, [], ◌∷◌, All, Option, Result,
  ok, err, arith, ==→eq, sym, subst,
}
use duckcall.Codec.Types.{
  type_varchar, type_blob, type_bit, type_geometry, type_enum, id_of, LogicalType, CodecError,
  Value, null, text, blob, unsupported,
}
use duckcall.Codec.Decode.{Decode, check}
use duckcall.Codec.Cells.{one_of, bit_string}
use duckcall.Codec.Vectors.{
  lift, outcome, tolerate, tabulate, replicate, rows_or_unsupported, string_value, string_cell,
  string_vector,
}
use duckcall.Codec.Ensures.{
  ok-OkHas, err-OkHas, split_decode, OkHas, bind-Ensures, then-Ensures, lift-Ensures, done-Ensures,
  check-Ensures, framing_or-Ensures, if-Ensures, for_range-Ensures, Ensures,
}
use duckcall.Codec.GoTypes.{Fits, is_text}
use duckcall.Codec.Fitting.{tabulate-All}

outcome-OkHas {ℓ} :
    {A : Type ℓ} (P : A → Type 0) (x : Result CodecError A)
    → OkHas P x
    → OkHas (OkHas P) (outcome x)
unfolding OkHas
outcome-OkHas P (ok a) p = p
outcome-OkHas P (err (unsupported u)) p = tt
outcome-OkHas P (err _) p = tt

pub tolerate-Ensures {ℓ} :
    {A : Type ℓ} (P : A → Type 0) (m : Decode A) → Ensures P m → Ensures (OkHas P) (tolerate m)
unfolding tolerate
tolerate-Ensures P m h = record { holds = λ r. outcome-OkHas P (m r).0 (h.holds r) }

pub replicate-Fits : (t : LogicalType) (n : ℕ) (v : Value) → Fits t v → All (Fits t) (replicate n v)
unfolding replicate
replicate-Fits t zero v p = tt
replicate-Fits t (suc n) v p = (p, replicate-Fits t n v p)

either : (b : Bool) → b ≡ true → b ≡ false → ⊥
either b p q = ground arith

-- A text that needs no label.
text-Fits :
    (t : LogicalType) (s : List ℕ) (id : ℕ)
    → (id_of t == id) ≡ true
    → is_text id ≡ true
    → (id == type_enum) ≡ false
    → Fits t (text s)
unfolding Fits
text-Fits t s id e h ne =
    let same = sym (==→eq (id_of t) id e) in
    (
      subst (λ x. is_text x ≡ true) same h,
      λ enum. absurd (either _ enum (subst (λ x. (x == type_enum) ≡ false) same ne)),
    )

-- The last branch of a string cell is BLOB's.
only_blob :
    (varchar a_blob bit geometry tagged known : Bool)
    → (varchar || (a_blob || (bit || (geometry || false)))) ≡ true
    → (known || (tagged || geometry)) ≡ false
    → varchar ≡ false
    → bit ≡ false
    → a_blob ≡ true
only_blob varchar a_blob bit geometry tagged known one shown no_varchar no_bit = ground arith

module _ (rec : LogicalType → ℕ → Decode (List Value)) (t : LogicalType) (count : ℕ) where
  abbrev pub Typed : Decode (List Value) → Type 0
  Typed m = Ensures (All (Fits t)) m

  pub rows_or_unsupported-Typed :
      (b : Bool) (row : ℕ → Result CodecError Value)
      → (b ≡ false → (i : ℕ) → OkHas (Fits t) (row i))
      → Typed (rows_or_unsupported rec t count b row)
  unfolding rows_or_unsupported
  rows_or_unsupported-Typed true row h = framing_or-Ensures (All (Fits t)) _
  rows_or_unsupported-Typed false row h =
      bind-Ensures (All (Fits t)) (All (Fits t)) (lift (tabulate row count 0)) check
        (lift-Ensures _ (tabulate row count 0) (tabulate-All (Fits t) row (h refl) count 0))
        λ vals p. check-Ensures (All (Fits t)) vals p

  pub null-Fits : Fits t null
  unfolding Fits
  null-Fits = tt

  bit_text-OkHas :
      (x : Result CodecError (List ℕ))
      → (id_of t == type_bit) ≡ true
      → OkHas (Fits t) (elim x [ ok s ↦ ok (text s) | err e ↦ err e ])
  bit_text-OkHas (ok s) e = ok-OkHas (Fits t) (text s) (text-Fits t s type_bit e refl refl)
  bit_text-OkHas (err x) e = err-OkHas (Fits t) x

  string_value-Typed :
      (tagged : Bool) (validity : Option (List ℕ)) (b : List ℕ) (is_valid : Bool)
      → one_of (id_of t) (type_varchar ∷ type_blob ∷ type_bit ∷ type_geometry ∷ []) ≡ true
      → Ensures
          (Fits t)
          (string_value rec t count (tagged || (id_of t == type_geometry)) validity b is_valid)
  unfolding string_value Fits
  string_value-Typed tagged validity b is_valid h =
      split_decode (Fits t) _ _ _ (λ _. done-Ensures (Fits t) null null-Fits)
        λ known.
          split_decode (Fits t) _ _ _
            (λ e. done-Ensures (Fits t) (text b) (text-Fits t b type_varchar e refl refl))
            λ no_varchar.
              split_decode (Fits t) _ _ _
                (λ e. lift-Ensures (Fits t) _ (bit_text-OkHas (bit_string b) e))
                λ no_bit. done-Ensures (Fits t) (blob b) (
                  only_blob (id_of t == type_varchar) (id_of t == type_blob) (id_of t == type_bit)
                    (id_of t == type_geometry) tagged (not is_valid) h known no_varchar no_bit)

  pub string_vector-Typed :
      (tagged : Bool) (validity : Option (List ℕ))
      → one_of (id_of t) (type_varchar ∷ type_blob ∷ type_bit ∷ type_geometry ∷ []) ≡ true
      → Typed (string_vector rec t count (tagged || (id_of t == type_geometry)) validity)
  unfolding string_vector string_cell
  string_vector-Typed tagged validity h =
      search
        (
          then-Ensures,
          bind-Ensures (All (Fits t)) (All (Fits t)),
          for_range-Ensures,
          string_value-Typed,
          if-Ensures,
          framing_or-Ensures,
          check-Ensures,
        )
        depth 12

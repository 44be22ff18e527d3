-- ===== src/Qser/At.antt =====
-- The reader in front of known bytes: `at pre bs` has read `pre` and has `bs` to go, with no error.
use duckcall.Base.{
  ℕ, ◌≡◌, refl, List, ◌∷◌, ◌++◌, none, length, length-append, drop-append, append_assoc, arith,
}
use duckcall.Qser.Reader.{Reader, Read, remaining, rest, advance, guarded, byte_at}

unfoldable pub at : List ℕ → List ℕ → Reader
at pre bs = record { buf = pre ++ bs; off = length pre; err = none }

pub guarded-at {ℓ} :
    {A : Type ℓ} (z : A) (m : Read A) (pre bs : List ℕ) → guarded z m (at pre bs) ≡ m (at pre bs)
unfolding guarded at
guarded-at z m pre bs = refl

pub rest-at : (pre bs : List ℕ) → rest (at pre bs) ≡ bs
unfolding rest at
rest-at pre bs = drop-append pre bs

pub remaining-at : (pre bs : List ℕ) → remaining (at pre bs) ≡ length bs
unfolding remaining at
remaining-at pre bs = omega (arith, length-append pre bs)

-- Advancing over `bs` moves it behind the reader.
pub advance-at :
    (pre bs more : List ℕ) (n : ℕ)
    → n ≡ length bs
    → advance n (at pre (bs ++ more)) ≡ at (pre ++ bs) more
unfolding advance at
advance-at pre bs more n h = ground (arith, append_assoc pre bs more, length-append pre bs)

pub byte_at-at : (b : ℕ) (pre more : List ℕ) → byte_at (at pre (b ∷ more)) ≡ b
unfolding byte_at
byte_at-at b pre more = rw (rest-at, byte_at)

pub err-at : (pre bs : List ℕ) → (at pre bs).err ≡ none
unfolding at
err-at pre bs = refl

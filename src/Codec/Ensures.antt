-- ===== src/Codec/Ensures.antt =====
-- What holds of the value a decoder returns, when it returns one.
use duckcall.Base.{
  ℕ, subst, ◌≡◌, refl, Bool, true, false, List, Option, if◌then◌else◌, none, some, Result, ok, err,
  length, zero, suc, ◌+◌, ◌∷◌, All,
}
use duckcall.Qser.Reader.{and_then, Error, Reader}
use duckcall.Codec.Types.{CodecError, Value}
use duckcall.Codec.Decode.{Decode, on_ok, done, throw, checked, check, for_range}
use duckcall.Codec.Vectors.{lift, framing_or}

module _ {ℓ} {A : Type ℓ} where
  -- The value of a result, if there is one, has P.
  unfoldable pub OkHas : (P : A → Type 0) → Result CodecError A → Type 0
  OkHas P (ok a) = P a
  OkHas P (err e) = Unit

  pub record Ensures (P : A → Type 0) (m : Decode A) : Type ℓ where
    pub holds : (r : Reader) → OkHas P (m r).0

  pub OkHas-ok : (P : A → Type 0) (x : Result CodecError A) (a : A) → OkHas P x → x ≡ ok a → P a
  unfolding OkHas
  OkHas-ok P x a h e = subst (OkHas P) e h

module _ {ℓ} {A : Type ℓ} where
  on_ok-Ensures {κ} :
      {B : Type κ} (P : A → Type 0) (Q : B → Type 0) (f : A → Decode B)
      → ((a : A) → P a → Ensures Q (f a))
      → (x : Result CodecError A) (r : Reader) → OkHas P x
      → OkHas Q (on_ok f x r).0
  unfolding OkHas
  on_ok-Ensures P Q f h (ok a) r p = (h a p).holds r
  on_ok-Ensures P Q f h (err e) r p = tt

  pub bind-Ensures {κ} :
      {B : Type κ} (P : A → Type 0) (Q : B → Type 0) (m : Decode A) (f : A → Decode B)
      → Ensures P m
      → ((a : A) → P a → Ensures Q (f a))
      → Ensures Q (λ r. and_then (m r) (on_ok f))
  bind-Ensures P Q m f hm hf = record {
    holds = λ r. on_ok-Ensures P Q f hf (m r).0 (m r).1 (hm.holds r);
  }

  pub any-OkHas : (x : Result CodecError A) → OkHas (λ _. Unit) x
  unfolding OkHas
  any-OkHas (ok a) = tt
  any-OkHas (err e) = tt

  -- Only the last step matters.
  pub then-Ensures {κ} :
      {B : Type κ} (Q : B → Type 0) (m : Decode A) (f : A → Decode B)
      → ((a : A) → Ensures Q (f a))
      → Ensures Q (λ r. and_then (m r) (on_ok f))
  then-Ensures Q m f hf =
      bind-Ensures (λ _. Unit) Q m f (record { holds = λ r. any-OkHas (m r).0 }) λ a u. hf a

  pub lift-Ensures : (P : A → Type 0) (x : Result CodecError A) → OkHas P x → Ensures P (lift x)
  lift-Ensures P x h = record { holds = λ r. h }

  pub done-Ensures : (P : A → Type 0) (a : A) → P a → Ensures P (done a)
  unfolding OkHas
  done-Ensures P a p = record { holds = λ r. p }

  checked-OkHas : (P : A → Type 0) (a : A) (e : Option Error) → P a → OkHas P (checked a e)
  unfolding OkHas
  checked-OkHas P a none p = p
  checked-OkHas P a (some e) p = tt

  pub check-Ensures : (P : A → Type 0) (a : A) → P a → Ensures P (check a)
  check-Ensures P a p = record { holds = λ r. checked-OkHas P a r.err p }

  pub framing_or-Ensures : (P : A → Type 0) (e : CodecError) → Ensures P (framing_or e)
  unfolding framing_or OkHas
  framing_or-Ensures P e = record { holds = λ r. tt }

  pub throw-Ensures : (P : A → Type 0) (e : CodecError) → Ensures P (throw e)
  unfolding OkHas
  throw-Ensures P e = record { holds = λ r. tt }

  pub if-Ensures :
      (P : A → Type 0) (b : Bool) (m n : Decode A)
      → Ensures P m
      → Ensures P n
      → Ensures P (if b then m else n)
  if-Ensures P true m n h k = h
  if-Ensures P false m n h k = k

module _ {ℓ} {A : Type ℓ} (P : A → Type 0) where
  pub ok-OkHas : (a : A) → P a → OkHas P (ok a)
  unfolding OkHas
  ok-OkHas a p = p

  pub err-OkHas : (e : CodecError) → OkHas P (err e)
  unfolding OkHas
  err-OkHas e = tt

  -- A branch knows its test.
  pub split_ok :
      (b : Bool) (x y : Result CodecError A)
      → (b ≡ true → OkHas P x)
      → (b ≡ false → OkHas P y)
      → OkHas P (if b then x else y)
  split_ok true x y p q = p refl
  split_ok false x y p q = q refl

  pub split_decode :
      (b : Bool) (m n : Decode A)
      → (b ≡ true → Ensures P m)
      → (b ≡ false → Ensures P n)
      → Ensures P (if b then m else n)
  split_decode true m n p q = p refl
  split_decode false m n p q = q refl

  pub if-OkHas :
      (b : Bool) (x y : Result CodecError A) → OkHas P x → OkHas P y → OkHas P (if b then x else y)
  if-OkHas true x y p q = p
  if-OkHas false x y p q = q

  pub elim-OkHas {κ} :
      {B : Type κ} (o : Option B) (x : Result CodecError A) (f : B → Result CodecError A)
      → OkHas P x
      → ((b : B) → OkHas P (f b))
      → OkHas P (elim o [ none ↦ x | some b ↦ f b ])
  elim-OkHas none x f p q = p
  elim-OkHas (some b) x f p q = q b

pub for_range-Ensures {ℓ} :
    {A : Type ℓ} (P : A → Type 0) (body : ℕ → Decode A)
    → ((i : ℕ) → Ensures P (body i))
    → (left i : ℕ) → Ensures (All P) (for_range body left i)
unfolding for_range OkHas
for_range-Ensures P body h zero i = record { holds = λ r. tt }
for_range-Ensures P body h (suc left) i = bind-Ensures P (All P) (body i) _ (h i) λ a p.
    bind-Ensures (All P) (All P) (for_range body left (i + 1)) _
      (for_range-Ensures P body h left (i + 1)) λ as' ps. done-Ensures (All P) (a ∷ as') (p, ps)

-- A decoder of rows that returns one value for each.
abbrev pub Sized : ℕ → Decode (List Value) → Type 0
Sized n m = Ensures (λ vals. length vals ≡ n) m

-- ===== src/Driver/Order.antt =====
-- driver/dsn.go: the order in which Go walks the map of parameters.
use mathlib.Core.List.{Permᴰ}
use duckcall.Base.{
  drop, ℕ, Bool, true, false, List, [], ◌∷◌, Option, none, some, Result, ok, err, Result-cases, ◌≡◌,
  refl, ap, sym, ◌∙◌, subst, inl, inr, All, bytes_eq, bytes_eq_refl, bytes_eq→eq, Bool-cases,
  is_empty, arith, if◌then◌else◌,
}
use duckcall.Base.Int.{ℤ, is_positive}
use duckcall.Base.Strings.{codes, has_prefix}
use duckcall.Wire.Config.{Config}
use duckcall.Driver.Dsn.{
  empty_env, DsnError, Setting, token, fetch_workers, connect_timeout, max_retries,
  bad_fetch_workers, bad_connect_timeout, bad_max_retries, atoi, positive, any_int, env_token,
  token_setting, setting, set, set_params,
}

-- The key of the parameter that sets it.
abbrev key_of : Setting → List ℕ
key_of (token t) = codes "token"
key_of (fetch_workers n) = codes "fetch_workers"
key_of (connect_timeout n) = codes "connect_timeout"
key_of (max_retries n) = codes "max_retries"

abbrev Params : Type 0
Params = List (List ℕ × List ℕ)

abbrev HasNot : List ℕ → Params → Type 0
HasNot k ps = All (λ p. bytes_eq k p.0 ≡ false) ps

-- The keys of a map differ.
abbrev pub IsMap : Params → Type 0
IsMap [] = Unit
IsMap ((k, v) ∷ ps) = HasNot k ps × IsMap ps

ok_same : (s t : Setting) → ◌≡◌ {A = Result DsnError Setting} (ok s) (ok t) → s ≡ t
ok_same s t h = ap (λ r. elim r as (λ _. Setting) [ ok x ↦ x | err e ↦ s ]) h

either :
    {Q : Type 0} (b : Bool) (x y : Result DsnError Setting) (s : Setting)
    → (if b then x else y) ≡ ok s
    → (b ≡ true → x ≡ ok s → Q)
    → (y ≡ ok s → Q)
    → Q
either true x y s h p q = p refl h
either false x y s h p q = q h

positive-key :
    (f : ℤ → Setting) (e : DsnError) (o : Option ℤ) (s : Setting) (k : List ℕ)
    → ((n : ℤ) → key_of (f n) ≡ k)
    → positive f e o ≡ ok s
    → key_of s ≡ k
unfolding positive
positive-key f e none s k g h = absurd (ground arith)
positive-key f e (some n) s k g h =
    either (is_positive n) (ok (f n)) (err e) s h
      (λ _ i. subst (λ x. key_of x ≡ k) (ok_same (f n) s i) (g n)) (λ i. absurd (ground arith))

any_int-key :
    (f : ℤ → Setting) (e : DsnError) (o : Option ℤ) (s : Setting) (k : List ℕ)
    → ((n : ℤ) → key_of (f n) ≡ k)
    → any_int f e o ≡ ok s
    → key_of s ≡ k
unfolding any_int
any_int-key f e none s k g h = absurd (ground arith)
any_int-key f e (some n) s k g h = subst (λ x. key_of x ≡ k) (ok_same (f n) s h) (g n)

commute :
    {Http : Type 0} (s t : Setting) (c : Config Http)
    → bytes_eq (key_of s) (key_of t) ≡ false
    → set s (set t c) ≡ set t (set s c)
unfolding bytes_eq
commute (token x) (token y) c n = cc
commute (token x) (fetch_workers y) c n = refl
commute (token x) (connect_timeout y) c n = refl
commute (token x) (max_retries y) c n = refl
commute (fetch_workers x) (token y) c n = refl
commute (fetch_workers x) (fetch_workers y) c n = cc
commute (fetch_workers x) (connect_timeout y) c n = refl
commute (fetch_workers x) (max_retries y) c n = refl
commute (connect_timeout x) (token y) c n = refl
commute (connect_timeout x) (fetch_workers y) c n = refl
commute (connect_timeout x) (connect_timeout y) c n = cc
commute (connect_timeout x) (max_retries y) c n = refl
commute (max_retries x) (token y) c n = refl
commute (max_retries x) (fetch_workers y) c n = refl
commute (max_retries x) (connect_timeout y) c n = refl
commute (max_retries x) (max_retries y) c n = cc

bytes_eq-sym : (x y : List ℕ) → bytes_eq x y ≡ false → bytes_eq y x ≡ false
bytes_eq-sym x y h = elim (Bool-cases (bytes_eq y x)) [
  | inl e ↦
      (let back = subst (λ z. bytes_eq z y ≡ true) (bytes_eq→eq y x e) (bytes_eq_refl y) in cc)
  | inr e ↦ e
]

module _ (getenv : List ℕ → List ℕ) (parse_duration : List ℕ → Option ℤ) where
  token_setting-key :
      (v : List ℕ) (s : Setting)
      → token_setting getenv parse_duration v ≡ ok s
      → key_of s ≡ codes "token"
  unfolding token_setting env_token
  token_setting-key v s h =
      either (has_prefix (codes "env:") v)
        (env_token getenv parse_duration (drop 4 v) (getenv (drop 4 v))) (ok (token v)) s h
        (λ _ i.
          either (is_empty (getenv (drop 4 v))) (err (empty_env (drop 4 v)))
            (ok (token (getenv (drop 4 v)))) s i (λ _ j. absurd (ground arith))
            (λ j.
              subst (λ x. key_of x ≡ codes "token") (ok_same (token (getenv (drop 4 v))) s j) refl))
        (λ i. subst (λ x. key_of x ≡ codes "token") (ok_same (token v) s i) refl)

  setting-key :
      (k v : List ℕ) (s : Setting) → setting getenv parse_duration k v ≡ ok s → k ≡ key_of s
  unfolding setting
  setting-key k v s h =
      either (bytes_eq k (codes "token")) _ _ s h
        (λ b i. bytes_eq→eq k (codes "token") b ∙ sym (token_setting-key v s i))
        (λ h2.
          either (bytes_eq k (codes "fetch_workers")) _ _ s h2
            (λ b i.
              bytes_eq→eq k (codes "fetch_workers") b
              ∙ sym (
                  positive-key fetch_workers (bad_fetch_workers v) (atoi v) s
                    (codes "fetch_workers") (λ n. refl) i))
            (λ h3.
              either (bytes_eq k (codes "connect_timeout")) _ _ s h3
                (λ b i.
                  bytes_eq→eq k (codes "connect_timeout") b
                  ∙ sym (
                      positive-key connect_timeout (bad_connect_timeout v) (parse_duration v) s
                        (codes "connect_timeout") (λ n. refl) i))
                (λ h4.
                  either (bytes_eq k (codes "max_retries")) _ _ s h4
                    (λ b i.
                      bytes_eq→eq k (codes "max_retries") b
                      ∙ sym (
                          any_int-key max_retries (bad_max_retries v) (atoi v) s
                            (codes "max_retries") (λ n. refl) i))
                    (λ h5. absurd (ground arith)))))

All-Perm : (P : List ℕ × List ℕ → Type 0) {ps qs : Params} → Permᴰ ps qs → All P ps → All P qs
All-Perm P Permᴰ.nil a = a
All-Perm P (Permᴰ.cons e p) (x, a) = (subst P e x, All-Perm P p a)
All-Perm P (Permᴰ.swap e f) (x, (y, a)) = (subst P f y, (subst P e x, a))
All-Perm P (Permᴰ.trans p q) a = All-Perm P q (All-Perm P p a)

IsMap-swap : (a b : List ℕ × List ℕ) (l : Params) → IsMap (a ∷ b ∷ l) → IsMap (b ∷ a ∷ l)
IsMap-swap a b l ((n, x), (y, m)) = ((bytes_eq-sym a.0 b.0 n, y), (x, m))

IsMap-Perm : {ps qs : Params} → Permᴰ ps qs → IsMap ps → IsMap qs
IsMap-Perm Permᴰ.nil m = m
IsMap-Perm (Permᴰ.cons {a} {b} {l₁} {l₂} e p) (x, m) =
    subst (λ y. IsMap (y ∷ l₂)) e (All-Perm (λ q. bytes_eq a.0 q.0 ≡ false) p x, IsMap-Perm p m)
IsMap-Perm (Permᴰ.swap {a} {b} {a'} {b'} {l} e f) m =
    subst (λ z. IsMap (a' ∷ z ∷ l)) e (subst (λ z. IsMap (z ∷ a ∷ l)) f (IsMap-swap a b l m))
IsMap-Perm (Permᴰ.trans p q) m = IsMap-Perm q (IsMap-Perm p m)

module _ {Http : Type 0} (getenv : List ℕ → List ℕ) (parse_duration : List ℕ → Option ℤ) where
  abbrev params : Params → Config Http → Result DsnError (Config Http)
  params = set_params getenv parse_duration

  params_step :
      (p : List ℕ × List ℕ) (ps : Params) (c : Config Http) (s : Setting)
      → setting getenv parse_duration p.0 p.1 ≡ ok s
      → params (p ∷ ps) c ≡ params ps (set s c)
  unfolding set_params
  params_step p ps c s e =
      ap
        (λ r. elim r as (λ _. Result DsnError (Config Http)) [
          | err x ↦ err x
          | ok s ↦ params ps (set s c)
        ])
        e

  params_ok :
      (p : List ℕ × List ℕ) (ps : Params) (c d : Config Http)
      → params (p ∷ ps) c ≡ ok d
      → (s : Setting) × (setting getenv parse_duration p.0 p.1 ≡ ok s)
        × (params ps (set s c) ≡ ok d)
  unfolding set_params
  params_ok p ps c d h = elim (Result-cases (setting getenv parse_duration p.0 p.1)) [
    | inl (s, e) ↦ (s, e, sym (params_step p ps c s e) ∙ h)
    | inr (x, e) ↦
        (let bad =
            sym (
              ap
                (λ r. elim r as (λ _. Result DsnError (Config Http)) [
                  | err x ↦ err x
                  | ok s ↦ params ps (set s c)
                ])
                e)
            ∙ h in
          absurd (ground arith))
  ]

  swapped :
      (p q : List ℕ × List ℕ) (ps : Params) (c d : Config Http)
      → bytes_eq p.0 q.0 ≡ false
      → params (p ∷ q ∷ ps) c ≡ ok d
      → params (q ∷ p ∷ ps) c ≡ ok d
  swapped p q ps c d n h =
      let (s, e, h2) = params_ok p (q ∷ ps) c d h in
      let (t, f, h3) = params_ok q ps (set s c) d h2 in
      params_step q (p ∷ ps) c t f
      ∙ params_step p ps (set t c) s e
      ∙ ap (params ps) (
          commute s t c (
            subst (λ x. bytes_eq x (key_of t) ≡ false)
              (setting-key getenv parse_duration p.0 p.1 s e)
              (subst (λ x. bytes_eq p.0 x ≡ false) (setting-key getenv parse_duration q.0 q.1 t f)
                n)))
      ∙ h3

  -- If the keys differ, as the keys of a Go map do, and the parameters are accepted in one order,
  -- then they are accepted in every order, with the same configuration.
  pub set_params-Perm :
      {ps qs : Params} (c d : Config Http)
      → Permᴰ ps qs
      → IsMap ps
      → set_params getenv parse_duration ps c ≡ ok d
      → set_params getenv parse_duration qs c ≡ ok d
  set_params-Perm c d Permᴰ.nil m h = h
  set_params-Perm c d (Permᴰ.cons {a} {b} {l₁} {l₂} e p) (x, m) h =
      let (s, f, k) = params_ok a l₁ c d h in
      subst (λ y. params (y ∷ l₂) c ≡ ok d) e
        (params_step a l₂ c s f ∙ set_params-Perm (set s c) d p m k)
  set_params-Perm c d (Permᴰ.swap {a} {b} {a'} {b'} {l} e f) ((n, x), (y, m)) h =
      subst (λ z. params (a' ∷ z ∷ l) c ≡ ok d) e
        (subst (λ z. params (z ∷ a ∷ l) c ≡ ok d) f (swapped a b l c d n h))
  set_params-Perm c d (Permᴰ.trans p q) m h =
      set_params-Perm c d q (IsMap-Perm p m) (set_params-Perm c d p m h)

-- ===== src/Driver/Regions.antt =====
-- driver/interpolate.go: quoted regions and comments.
use duckcall.Base.{
  ℕ, suc, ◌≡◌, refl, ap, sym, ◌∙◌, subst, inl, inr, Bool, true, false, ◌&&◌, List, [], ◌∷◌, ◌==◌,
  ==→eq, drop, Bool-cases, arith, if◌then◌else◌,
}
use duckcall.Driver.Interpolate.{skip_quoted, line_end, comment_end, starts, region}
use duckcall.Driver.Lexer.{
  State, plain, dash, slash, line, block, star, quoted, closing, after_plain, next_state, is_code,
}
use duckcall.Driver.Filling.{Copies, Copies-more, Copies-none, Copies-end, fill-alike, fill-next}

pub and_false : (b : Bool) → (b && false) ≡ false
and_false true = refl
and_false false = refl

skip_two :
    (q c d : ℕ) (s : List ℕ)
    → (c == q) ≡ true
    → (d == q) ≡ true
    → skip_quoted q (c ∷ d ∷ s) ≡ suc (suc (skip_quoted q s))
unfolding skip_quoted
skip_two q c d s e f = ground arith

skip_one :
    (q c d : ℕ) (s : List ℕ) → (c == q) ≡ true → (d == q) ≡ false → skip_quoted q (c ∷ d ∷ s) ≡ 1
unfolding skip_quoted
skip_one q c d s e f = ground arith

skip_on :
    (q c d : ℕ) (s : List ℕ)
    → (c == q) ≡ false
    → skip_quoted q (c ∷ d ∷ s) ≡ suc (skip_quoted q (d ∷ s))
unfolding skip_quoted
skip_on q c d s e = ground arith

only :
    (k : ℕ) (st : State) (c : ℕ) (s : List ℕ)
    → starts k s ≡ false
    → starts c s ≡ true
    → (if c == k then st else after_plain c) ≡ after_plain c
only k st c [] e h = absurd (ground arith)
only k st c (d ∷ s) e h =
    ap (λ b. if b then st else after_plain c) (subst (λ x. (x == k) ≡ false) (==→eq d c h) e)

no_region :
    (c : ℕ) (s : List ℕ)
    → (c == 39) ≡ false
    → (c == 34) ≡ false
    → (c == 45) ≡ false
    → (c == 47) ≡ false
    → region c s ≡ 0
unfolding region
no_region c s e f g h = rw (e, f, g, h) refl

module _ (float_text moment_text : ℕ → List ℕ) where
  abbrev C : State → List ℕ → ℕ → Type 0
  C st s n = Copies float_text moment_text st s n

  more :
      (st st' : State) (c : ℕ) (s : List ℕ) (n : ℕ)
      → ((c == 63) && is_code st) ≡ false
      → next_state st c ≡ st'
      → C st' s n
      → C st (c ∷ s) (suc n)
  more = Copies-more float_text moment_text

  after_quotes : (q d : ℕ) (s : List ℕ) → (d == q) ≡ false → C (closing q) (d ∷ s) 0
  after_quotes q d s e = Copies-none float_text moment_text (closing q) (d ∷ s) (λ arg args.
      fill-alike float_text moment_text (closing q) plain (d ∷ s) arg args refl (λ c h.
        ap (λ b. if b then quoted q else after_plain c)
          (subst (λ x. (x == q) ≡ false) (==→eq d c h) e)))

  quoted-C : (q : ℕ) (s : List ℕ) → (q == 63) ≡ false → C (quoted q) s (skip_quoted q s)
  unfolding skip_quoted
  quoted-C q [] m = Copies-end float_text moment_text (quoted q)
  quoted-C q (c ∷ []) m =
      more (quoted q) (next_state (quoted q) c) c [] 0 (and_false (c == 63)) refl
        (Copies-end float_text moment_text (next_state (quoted q) c))
  quoted-C q (c ∷ d ∷ s) m = elim (Bool-cases (c == q)) [
    | inl e ↦ elim (Bool-cases (d == q)) [
      | inl f ↦ subst (C (quoted q) (c ∷ d ∷ s)) (sym (skip_two q c d s e f)) (
          more (quoted q) (closing q) c (d ∷ s) (suc (skip_quoted q s)) (and_false (c == 63))
            (rw e refl)
            (more (closing q) (quoted q) d s (skip_quoted q s) (ground arith) (rw f refl)
              (quoted-C q s m)))
      | inr f ↦ subst (C (quoted q) (c ∷ d ∷ s)) (sym (skip_one q c d s e f)) (
          more (quoted q) (closing q) c (d ∷ s) 0 (and_false (c == 63)) (rw e refl)
            (after_quotes q d s f))
    ]
    | inr e ↦ subst (C (quoted q) (c ∷ d ∷ s)) (sym (skip_on q c d s e)) (
        more (quoted q) (quoted q) c (d ∷ s) (skip_quoted q (d ∷ s)) (and_false (c == 63))
          (rw e refl) (quoted-C q (d ∷ s) m))
  ]

  plain-C : (s : List ℕ) → C plain s 0
  plain-C s = Copies-none float_text moment_text plain s (λ arg args. refl)

  at_newline : (c : ℕ) (s : List ℕ) → c ≡ 10 → C line (c ∷ s) 0
  at_newline c s e = Copies-none float_text moment_text line (c ∷ s) (λ arg args.
      fill-next float_text moment_text line plain c s arg args (and_false (c == 63))
        (subst (λ x. next_state line x ≡ plain) (sym e) refl)
      ∙ sym (
          fill-next float_text moment_text plain plain c s arg args
            (subst (λ x. ((x == 63) && true) ≡ false) (sym e) refl)
            (subst (λ x. after_plain x ≡ plain) (sym e) refl)))

  line-C : (s : List ℕ) → C line s (line_end s)
  unfolding line_end
  line-C [] = Copies-end float_text moment_text line
  line-C (c ∷ s) = elim (Bool-cases (c == 10)) [
    | inl e ↦
        subst (λ b. C line (c ∷ s) (if b then 0 else suc (line_end s))) (sym e)
          (at_newline c s (==→eq c 10 e))
    | inr e ↦
        subst (λ b. C line (c ∷ s) (if b then 0 else suc (line_end s))) (sym e)
          (more line line c s (line_end s) (and_false (c == 63)) (rw e refl) (line-C s))
  ]

  star-C : (d n : ℕ) (s : List ℕ) → (d == 47) ≡ false → C block (d ∷ s) n → C star (d ∷ s) n
  star-C d n s e k arg args =
      fill-alike float_text moment_text star block (d ∷ s) arg args refl (λ c h.
        ap (λ b. if b then plain else if c == 42 then star else block)
          (subst (λ x. (x == 47) ≡ false) (==→eq d c h) e))
      ∙ k arg args

  block-C : (s : List ℕ) → C block s (comment_end s)
  unfolding comment_end
  block-C [] = Copies-end float_text moment_text block
  block-C (c ∷ []) =
      more block (next_state block c) c [] 0 (and_false (c == 63)) refl
        (Copies-end float_text moment_text (next_state block c))
  block-C (c ∷ d ∷ s) = elim (Bool-cases (c == 42)) [
    | inl e ↦
        subst (λ b. C block (c ∷ d ∷ s) (if b && (d == 47) then 2 else suc (comment_end (d ∷ s))))
          (sym e)
          (elim (Bool-cases (d == 47)) [
            | inl f ↦
                subst (λ b. C block (c ∷ d ∷ s) (if b then 2 else suc (comment_end (d ∷ s))))
                  (sym f)
                  (more block star c (d ∷ s) 1 (and_false (c == 63)) (rw e refl)
                    (more star plain d s 0 (and_false (d == 63)) (rw f refl) (plain-C s)))
            | inr f ↦
                subst (λ b. C block (c ∷ d ∷ s) (if b then 2 else suc (comment_end (d ∷ s))))
                  (sym f)
                  (more block star c (d ∷ s) (comment_end (d ∷ s)) (and_false (c == 63)) (rw e refl)
                    (star-C d (comment_end (d ∷ s)) s f (block-C (d ∷ s))))
          ])
    | inr e ↦
        subst (λ b. C block (c ∷ d ∷ s) (if b && (d == 47) then 2 else suc (comment_end (d ∷ s))))
          (sym e)
          (more block block c (d ∷ s) (comment_end (d ∷ s)) (and_false (c == 63)) (rw e refl)
            (block-C (d ∷ s)))
  ]

  -- After a single dash or slash that begins no comment.
  dash_only : (s : List ℕ) → starts 45 s ≡ false → C dash s 0
  dash_only s e = Copies-none float_text moment_text dash s (λ arg args.
      fill-alike float_text moment_text dash plain s arg args refl (λ c h. only 45 line c s e h))

  slash_only : (s : List ℕ) → starts 42 s ≡ false → C slash s 0
  slash_only s e = Copies-none float_text moment_text slash s (λ arg args.
      fill-alike float_text moment_text slash plain s arg args refl (λ c h. only 42 block c s e h))

  dash-C : (s : List ℕ) → C dash s (if starts 45 s then line_end s else 0)
  unfolding line_end
  dash-C [] = Copies-end float_text moment_text dash
  dash-C (c ∷ s) = elim (Bool-cases (c == 45)) [
    | inl e ↦
        subst (λ x. C dash (x ∷ s) (if x == 45 then line_end (x ∷ s) else 0)) (sym (==→eq c 45 e))
          (more dash line 45 s (line_end s) refl refl (line-C s))
    | inr e ↦
        subst (λ b. C dash (c ∷ s) (if b then line_end (c ∷ s) else 0)) (sym e)
          (dash_only (c ∷ s) e)
  ]

  slash-C : (s : List ℕ) → C slash s (if starts 42 s then suc (comment_end (drop 1 s)) else 0)
  slash-C [] = Copies-end float_text moment_text slash
  slash-C (c ∷ s) = elim (Bool-cases (c == 42)) [
    | inl e ↦
        subst (λ x. C slash (x ∷ s) (if x == 42 then suc (comment_end s) else 0))
          (sym (==→eq c 42 e)) (more slash block 42 s (comment_end s) refl refl (block-C s))
    | inr e ↦
        subst (λ b. C slash (c ∷ s) (if b then suc (comment_end s) else 0)) (sym e)
          (slash_only (c ∷ s) e)
  ]

  abbrev pub AtByte : ℕ → List ℕ → Type 0
  AtByte c s = C plain (c ∷ s) (suc (region c s))

  at_byte : (c k : ℕ) (s : List ℕ) → (c == k) ≡ true → AtByte k s → AtByte c s
  at_byte c k s e = subst (λ x. AtByte x s) (sym (==→eq c k e))

  at_other :
      (c : ℕ) (s : List ℕ)
      → (c == 63) ≡ false
      → (c == 39) ≡ false
      → (c == 34) ≡ false
      → (c == 45) ≡ false
      → (c == 47) ≡ false
      → AtByte c s
  unfolding region
  at_other c s m e f g h =
      subst (λ n. C plain (c ∷ s) (suc n)) (sym (no_region c s e f g h))
        (more plain plain c s 0 (ground arith) (ground arith) (plain-C s))

  -- At a byte of SQL text that is no question mark, what the loop copies is what the automaton
  -- copies.
  pub region-C : (c : ℕ) (s : List ℕ) → (c == 63) ≡ false → AtByte c s
  unfolding region
  region-C c s m = elim (Bool-cases (c == 39)) [
    | inl e ↦
        at_byte c 39 s e
          (more plain (quoted 39) 39 s (skip_quoted 39 s) refl refl (quoted-C 39 s refl))
    | inr e ↦ elim (Bool-cases (c == 34)) [
      | inl f ↦
          at_byte c 34 s f
            (more plain (quoted 34) 34 s (skip_quoted 34 s) refl refl (quoted-C 34 s refl))
      | inr f ↦ elim (Bool-cases (c == 45)) [
        | inl g ↦
            at_byte c 45 s g
              (more plain dash 45 s (if starts 45 s then line_end s else 0) refl refl (dash-C s))
        | inr g ↦ elim (Bool-cases (c == 47)) [
          | inl h ↦ at_byte c 47 s h (
              more plain slash 47 s (if starts 42 s then suc (comment_end (drop 1 s)) else 0) refl
                refl (slash-C s))
          | inr h ↦ at_other c s m e f g h
        ]
      ]
    ]
  ]

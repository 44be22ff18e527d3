-- ===== src/Bouncer/Places.antt =====
-- cmd/quackbouncer/proxy.go and pool.go: where a session is, while handlers of several clients
-- interleave. A step is one critical section of a handler, or its dial.
use duckcall.Base.{
  ℕ, ◌+◌, ◌≤◌, ◌≡◌, refl, ap, ◌∙◌, subst, inl, inr, Bool, true, false, List, [], ◌∷◌, ◌++◌, Option,
  none, some, Result, ok, err, ◌==◌, bytes_eq, bytes_eq→eq, Bool-cases, count, count-append, arith,
}
use duckcall.Wire.Errors.{ClientError}
use duckcall.Bouncer.Pool.{Pool, get, get_from, put}
use duckcall.Bouncer.Metrics.{Metrics}
use duckcall.Bouncer.Proxy.{Conns, find, remove, bind, Proxy}

-- A session that a handler has got or has unbound is in its hands (`held`) until it binds it or
-- gives it back.
pub record Site : Type 0 where
  pub proxy : Proxy
  pub held : List ℕ
  pub closed : List ℕ

abbrev pub shut : Option ℕ → List ℕ → List ℕ
shut none cs = cs
shut (some c) cs = c ∷ cs

abbrev pub targets : Conns → List ℕ
targets [] = []
targets ((k, c) ∷ m) = c ∷ targets m

-- In how many places the session `c` is.
abbrev pub places : ℕ → Site → ℕ
places c s =
    count (λ x. x == c) s.proxy.pool.idle
    + count (λ x. x == c) (targets s.proxy.conns)
    + count (λ x. x == c) s.held
    + count (λ x. x == c) s.closed

pub data Section (s : Site) : Site → Type 0 where
  -- handleConnect: pool.get with an idle session, and its dial without one, of a session that is new.
  reuses :
      (dialed : Result ClientError ℕ) {c : ℕ} {pool : Pool ℕ}
      → get s.proxy.pool dialed ≡ (ok (c, true), pool)
      → Section s (record s { proxy = record s.proxy { pool = pool }; held = c ∷ s.held })
  dials : {c : ℕ} → places c s ≡ 0 → Section s (record s { held = c ∷ s.held })
  -- handleConnect: `p.conns[vid] = up`.
  binds :
      (vid : List ℕ) {c : ℕ} (before after : List ℕ)
      → s.held ≡ before ++ (c ∷ after)
      → Section s (record s {
        proxy = record s.proxy { conns = bind vid c s.proxy.conns };
        held = before ++ after;
      })
  -- handleDisconnect: the lookup with its `delete`, and pool.put.
  unbinds :
      (vid : List ℕ) {c : ℕ}
      → find vid s.proxy.conns ≡ some c
      → Section s (record s {
        proxy = record s.proxy { conns = remove vid s.proxy.conns };
        held = c ∷ s.held;
      })
  gives_back :
      (c : ℕ) (before after : List ℕ)
      → s.held ≡ before ++ (c ∷ after)
      → Section s (record s {
        proxy = record s.proxy { pool = (put c s.proxy.pool).1 };
        held = before ++ after;
        closed = shut (put c s.proxy.pool).0 s.closed;
      })
  counts : (m : Metrics) → Section s (record s { proxy = record s.proxy { metrics = m } })

pub data Sections (s : Site) : Site → Type 0 where
  no_more : Sections s s
  then_one : {t u : Site} → Sections s t → Section t u → Sections s u

-- Every session is in one place at most.
abbrev pub IsApart : Site → Type 0
IsApart s = (c : ℕ) → places c s ≤ 1

get_from-true :
    {E : Type 0} (cs : List ℕ) (max : ℕ) (dialed : Result E ℕ) (c : ℕ) (q : Pool ℕ)
    → get_from cs max dialed ≡ (ok (c, true), q)
    → cs ≡ c ∷ q.idle
unfolding get_from
get_from-true (x ∷ cs) max dialed c q e = cc
get_from-true [] max (ok x) c q e = cc
get_from-true [] max (err x) c q e = cc

put-count :
    (p : ℕ → Bool) (c : ℕ) (q : Pool ℕ) (cs : List ℕ)
    → count p (put c q).1.idle + count p (shut (put c q).0 cs)
      ≡ count p (c ∷ []) + count p q.idle + count p cs
unfolding put
put-count p c q cs = ground arith

remove-count :
    (p : ℕ → Bool) (vid : List ℕ) (m : Conns)
    → count p (targets (remove vid m)) ≤ count p (targets m)
unfolding remove
remove-count p vid [] = omega arith
remove-count p vid ((k, x) ∷ m) = ground (arith, remove-count p vid m)

find-count :
    (p : ℕ → Bool) (vid : List ℕ) (c : ℕ) (m : Conns)
    → find vid m ≡ some c
    → count p (c ∷ []) + count p (targets (remove vid m)) ≤ count p (targets m)
unfolding find remove
find-count p vid c [] e = cc
find-count p vid c ((k, x) ∷ m) e = elim (Bool-cases (bytes_eq k vid)) [
  | inl h ↦ ground (arith, remove-count p vid m)
  | inr h ↦ ground (arith, find-count p vid c m)
]

held-count :
    (p : ℕ → Bool) (c : ℕ) (held before after : List ℕ)
    → held ≡ before ++ (c ∷ after)
    → count p held ≡ count p (c ∷ []) + count p (before ++ after)
held-count p c held before after e =
    omega (arith, ap (count p) e, count-append p before (c ∷ after), count-append p before after)

one_place : (d c : ℕ) (n : ℕ) → n ≤ 1 → (c ≡ d → n ≡ 0) → count (λ x. x == d) (c ∷ []) + n ≤ 1
one_place d c n b h = elim (Bool-cases (c == d)) [
  | inl e ↦ ground (arith, h)
  | inr e ↦ ground arith
]

Section-IsApart : {s t : Site} → Section s t → IsApart s → IsApart t
unfolding get
Section-IsApart {s} (reuses dialed {c} {pool} e) a d = omega (
  arith,
  a d,
  ap (count (λ x. x == d)) (get_from-true s.proxy.pool.idle s.proxy.pool.max dialed c pool e),
)
Section-IsApart {s} (dials {c} h) a d =
    omega (arith, one_place d c (places d s) (a d) (λ e. subst (λ x. places x s ≡ 0) e h))
Section-IsApart {s} (binds vid {c} before after e) a d = omega (
  arith,
  a d,
  remove-count (λ x. x == d) vid s.proxy.conns,
  held-count (λ x. x == d) c s.held before after e,
)
Section-IsApart {s} (unbinds vid {c} e) a d =
    omega (arith, a d, find-count (λ x. x == d) vid c s.proxy.conns e)
Section-IsApart {s} (gives_back c before after e) a d = omega (
  arith,
  a d,
  held-count (λ x. x == d) c s.held before after e,
  put-count (λ x. x == d) c s.proxy.pool s.closed,
)
Section-IsApart (counts m) a d = a d

pub Sections-IsApart : {s t : Site} → Sections s t → IsApart s → IsApart t
Sections-IsApart no_more a = a
Sections-IsApart (then_one p q) a = Section-IsApart q (Sections-IsApart p a)

count_self : (c : ℕ) → count (λ x. x == c) (c ∷ []) ≡ 1
count_self c = ground arith

find-places :
    (vid : List ℕ) (c : ℕ) (m : Conns) → find vid m ≡ some c → 1 ≤ count (λ x. x == c) (targets m)
find-places vid c m e = omega (arith, count_self c, find-count (λ x. x == c) vid c m e)

pub find-remove :
    (vid other : List ℕ) (m : Conns)
    → bytes_eq vid other ≡ false
    → find other (remove vid m) ≡ find other m
unfolding find remove
find-remove vid other [] n = refl
find-remove vid other ((k, x) ∷ m) n = elim (Bool-cases (bytes_eq k vid)) [
  | inl h ↦
      ground (arith, find-remove vid other m n, ap (λ y. bytes_eq y other) (bytes_eq→eq k vid h))
  | inr h ↦ ground (arith, find-remove vid other m n)
]

-- Interleave the critical sections of any number of handlers in any order, with dials of new
-- sessions only. If every session was in one place at most before, then after it a session that a
-- virtual connection is mapped to is not idle in the pool, not closed and in no handler's hands,
-- and no other virtual connection is mapped to it.
pub upstreams_apart :
    (s t : Site) (vid other : List ℕ) (c : ℕ)
    → Sections s t
    → IsApart s
    → find vid t.proxy.conns ≡ some c
    → (count (λ x. x == c) t.proxy.pool.idle ≡ 0)
      × (count (λ x. x == c) t.held ≡ 0)
      × (count (λ x. x == c) t.closed ≡ 0)
      × (find other t.proxy.conns ≡ some c → bytes_eq vid other ≡ true)
upstreams_apart s t vid other c p a e =
    let b = Sections-IsApart p a c in
    let one = find-places vid c t.proxy.conns e in
    (
      omega (arith, b, one),
      omega (arith, b, one),
      omega (arith, b, one),
      λ f. elim (Bool-cases (bytes_eq vid other)) [
        | inl h ↦ h
        | inr h ↦ absurd (
            omega (
              arith,
              b,
              count_self c,
              find-count (λ x. x == c) vid c t.proxy.conns e,
              find-places other c (remove vid t.proxy.conns)
                  (find-remove vid other t.proxy.conns h ∙ f),
            ))
      ],
    )

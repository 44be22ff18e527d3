-- ===== src/Bouncer/Bounds.antt =====
-- cmd/quackbouncer/pool.go: how many sessions are idle.
use duckcall.Base.{ℕ, ◌≤◌, ◌≡◌, refl, List, [], ◌∷◌, Result, ok, err, length, arith}
use duckcall.Bouncer.Pool.{Pool, idle_count, get_from, get, put, Call, gets, puts, call, calls}

put-bound {ℓ} :
    {Client : Type ℓ} (c : Client) (p : Pool Client)
    → idle_count p ≤ p.max
    → (idle_count (put c p).1 ≤ p.max) × ((put c p).1.max ≡ p.max)
unfolding put
put-bound c p h = (ground arith, ground arith)

module _ {ℓ} {E : Type 0} {Client : Type ℓ} where
  get_from-bound :
      (cs : List Client) (max : ℕ) (dialed : Result E Client)
      → length cs ≤ max
      → (idle_count (get_from cs max dialed).1 ≤ max) × ((get_from cs max dialed).1.max ≡ max)
  unfolding get_from
  get_from-bound (c ∷ cs) max dialed h = (omega arith, refl)
  get_from-bound [] max (ok c) h = (h, refl)
  get_from-bound [] max (err e) h = (h, refl)

  call-bound :
      (o : Call E Client) (p : Pool Client)
      → idle_count p ≤ p.max
      → (idle_count (call o p) ≤ p.max) × ((call o p).max ≡ p.max)
  unfolding call get
  call-bound (gets dialed) p h = get_from-bound p.idle p.max dialed h
  call-bound (puts c) p h = put-bound c p h

  -- Whatever calls of `get` and `put` the handlers make, in whatever order and whether the dials
  -- succeed or not, a pool that holds at most its bound keeps its bound and holds at most that many
  -- idle sessions.
  pub calls-bound :
      (os : List (Call E Client)) (p : Pool Client)
      → idle_count p ≤ p.max
      → (idle_count (calls os p) ≤ p.max) × ((calls os p).max ≡ p.max)
  unfolding calls
  calls-bound [] p h = (h, refl)
  calls-bound (o ∷ os) p h =
      let (below, same) = call-bound o p h in
      let (below', same') = calls-bound os (call o p) (omega (arith, below, same)) in
      (omega (arith, below', same), omega (arith, same', same))

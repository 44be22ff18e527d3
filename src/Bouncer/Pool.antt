-- ===== src/Bouncer/Pool.antt =====
-- cmd/quackbouncer/pool.go. A session is any type, and what `wire.Connect` returns is a parameter of
-- `get`. The lock makes each method one step.
use duckcall.Base.{
  ℕ, Bool, true, false, List, [], ◌∷◌, Option, none, some, Result, ok, err, ltb, if◌then◌else◌,
  length,
}

-- The idle sessions, the one at the end of Go's slice first.
pub record Pool {ℓ} (Client : Type ℓ) : Type ℓ where
  pub idle : List Client
  pub max : ℕ

abbrev pub new_pool {ℓ} : {Client : Type ℓ} → ℕ → Pool Client
new_pool max = record { idle = []; max = max }

abbrev pub idle_count {ℓ} : {Client : Type ℓ} → Pool Client → ℕ
idle_count p = length p.idle

module _ {ℓ} {Client : Type ℓ} where
  -- The session, whether it was an idle one, and the pool after.
  unfoldable pub get_from :
      {E : Type 0} → List Client → ℕ → Result E Client → Result E (Client × Bool) × Pool Client
  get_from (c ∷ cs) max dialed = (ok (c, true), record { idle = cs; max = max })
  get_from [] max (ok c) = (ok (c, false), record { idle = []; max = max })
  get_from [] max (err e) = (err e, record { idle = []; max = max })

  unfoldable pub get :
      {E : Type 0} → Pool Client → Result E Client → Result E (Client × Bool) × Pool Client
  get p dialed = get_from p.idle p.max dialed

  -- The session that was closed, if any, and the pool after.
  unfoldable pub put : Client → Pool Client → Option Client × Pool Client
  put c p =
      if ltb (length p.idle) p.max
      then (none, record { idle = c ∷ p.idle; max = p.max })
      else (some c, p)

-- A call by one of the handlers, with what its dial would return.
pub data Call {ℓ} (E : Type 0) (Client : Type ℓ) : Type ℓ where
  gets : Result E Client → Call E Client
  puts : Client → Call E Client

unfoldable pub call {ℓ} : {E : Type 0} {Client : Type ℓ} → Call E Client → Pool Client → Pool Client
call (gets dialed) p = (get p dialed).1
call (puts c) p = (put c p).1

unfoldable pub calls {ℓ} :
    {E : Type 0} {Client : Type ℓ} → List (Call E Client) → Pool Client → Pool Client
calls [] p = p
calls (c ∷ cs) p = calls cs (call c p)

-- ===== src/Bouncer/Tests.antt =====
-- The pool on small inputs.
use duckcall.Base.{ℕ, ◌≤◌, ◌≡◌, refl, List, [], ◌∷◌, err, arith}
use duckcall.Bouncer.Pool.{new_pool, idle_count, get_from, get, put, Call, gets, puts, call, calls}
use duckcall.Bouncer.Bounds.{calls-bound}

-- Three sessions come back to a pool of two, and one is taken again.
abbrev some_calls : List (Call ℕ ℕ)
some_calls = puts 7 ∷ puts 8 ∷ puts 9 ∷ gets (err 0) ∷ []

one_left : (calls some_calls (new_pool 2)).idle ≡ 7 ∷ []
unfolding calls call get get_from put
one_left = refl

calls-bound_example :
    (idle_count (calls some_calls (new_pool 2)) ≤ 2) × ((calls some_calls (new_pool 2)).max ≡ 2)
calls-bound_example = calls-bound some_calls (new_pool 2) (omega arith)

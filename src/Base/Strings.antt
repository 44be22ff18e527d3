-- ===== src/Base/Strings.antt =====
-- Go strings as lists of bytes, and what the code uses of package strings.
use Prim.Native.Nat.{ℕ, zero, suc, ◌-◌}
use Prim.Native.Char.{code}
use Prim.Native.String.{String}
use mathlib.Core.Path.{◌≡◌, refl}
use mathlib.Core.Bool.{Bool, true, false, ◌&&◌, ◌||◌}
use mathlib.Core.List.{List, [], ◌∷◌, ◌++◌}
use native.Mathlib.Omega.{arith}
use duckcall.Base.Tests.{◌==◌, if◌then◌else◌}
use duckcall.Base.Lists.{length}

-- The bytes of an ASCII text.
abbrev pub codes : String → List ℕ
codes String.[] = []
codes (String.◌∷◌ c s) = code c ∷ codes s

-- strings.HasPrefix(s, p)
abbrev pub has_prefix : List ℕ → List ℕ → Bool
has_prefix [] s = true
has_prefix (c ∷ p) [] = false
has_prefix (c ∷ p) (d ∷ s) = (c == d) && has_prefix p s

-- strings.Contains(s, p)
unfoldable pub contains : List ℕ → List ℕ → Bool
contains p [] = has_prefix p []
contains p (c ∷ s) = has_prefix p (c ∷ s) || contains p s

-- strings.ReplaceAll(s, old, new) for an old text that is not empty: matches from the left, which do
-- not overlap. The first `skip` bytes belong to the match before.
unfoldable pub replace_from : List ℕ → List ℕ → ℕ → List ℕ → List ℕ
replace_from old new skip [] = []
replace_from old new (suc skip) (c ∷ s) = replace_from old new skip s
replace_from old new zero (c ∷ s) =
    let matched = new ++ replace_from old new (length old - 1) s in
    let kept = c ∷ replace_from old new 0 s in if has_prefix old (c ∷ s) then matched else kept

unfoldable pub replace_all : List ℕ → List ℕ → List ℕ → List ℕ
replace_all old new s = replace_from old new 0 s

-- A text without the old one stays as it is.
pub replace_from-absent :
    (old new s : List ℕ) → contains old s ≡ false → replace_from old new 0 s ≡ s
unfolding replace_from contains
replace_from-absent old new [] h = refl
replace_from-absent old new (c ∷ s) h = ground (arith, replace_from-absent old new s)

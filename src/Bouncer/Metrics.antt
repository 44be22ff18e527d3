-- ===== src/Bouncer/Metrics.antt =====
-- cmd/quackbouncer/metrics.go: the counters. A counter's value is a float64 that holds a count, here
-- that count.
use duckcall.Base.{ℕ, ◌+◌, List, [], ◌∷◌, bytes_eq, if◌then◌else◌}

-- map[string]float64 by label string, and the map of those by name.
abbrev pub Labelled : Type 0
Labelled = List (List ℕ × ℕ)

abbrev pub Metrics : Type 0
Metrics = List (List ℕ × Labelled)

-- `c[labels]++`
unfoldable pub inc_label : List ℕ → Labelled → Labelled
inc_label l [] = (l, 1) ∷ []
inc_label l ((k, n) ∷ c) = if bytes_eq k l then (k, n + 1) ∷ c else (k, n) ∷ inc_label l c

unfoldable pub inc : List ℕ → List ℕ → Metrics → Metrics
inc name labels [] = (name, (labels, 1) ∷ []) ∷ []
inc name labels ((k, c) ∷ m) =
    if bytes_eq k name then (k, inc_label labels c) ∷ m else (k, c) ∷ inc name labels m

unfoldable pub label_value : List ℕ → Labelled → ℕ
label_value l [] = 0
label_value l ((k, n) ∷ c) = if bytes_eq k l then n else label_value l c

unfoldable pub value : List ℕ → List ℕ → Metrics → ℕ
value name labels [] = 0
value name labels ((k, c) ∷ m) =
    if bytes_eq k name then label_value labels c else value name labels m

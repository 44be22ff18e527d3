-- ===== src/Driver/Dsn.antt =====
-- driver/dsn.go. url.Parse enters as the parts that it finds, u.Query() as an association list in
-- the order in which Go walks the map, each key with its last value; os.Getenv and
-- time.ParseDuration are functions.
use duckcall.Base.{
  ℕ, ◌-◌, ◌^◌, ◌||◌, ◌&&◌, Bool, true, not, List, [], ◌∷◌, ◌++◌, Option, none, some, Result, ok,
  err, ltb, leb, ◌==◌, is_empty, bytes_eq, drop, if◌then◌else◌,
}
use duckcall.Base.Int.{ℤ, pos, negated, is_positive}
use duckcall.Base.Strings.{codes, has_prefix}
use duckcall.Base.Numerals.{number_from}
use duckcall.Wire.Config.{Config}

pub record Url : Type 0 where
  pub scheme : List ℕ
  pub host : List ℕ
  pub has_user : Bool
  pub path : List ℕ
  pub query : List (List ℕ × List ℕ)

pub data DsnError : Type 0 where
  unparseable missing_host user_given : DsnError
  bad_scheme empty_env bad_fetch_workers bad_connect_timeout bad_max_retries unknown_param :
      List ℕ → DsnError

abbrev pub all_digits : List ℕ → Bool
all_digits [] = true
all_digits (c ∷ s) = leb 48 c && leb c 57 && all_digits s

-- strconv.Atoi: a sign or none, at least one digit, and an int64.
abbrev pub unsigned : ℕ → (ℕ → ℤ) → List ℕ → Option ℤ
unsigned bound sign s =
    if is_empty s || not (all_digits s) || ltb bound (number_from 0 s)
    then none
    else some (sign (number_from 0 s))

unfoldable pub atoi : List ℕ → Option ℤ
atoi [] = none
atoi (c ∷ s) =
    if c == 45
    then unsigned (2 ^ 63) negated s
    else if c == 43
    then unsigned (2 ^ 63 - 1) pos s
    else unsigned (2 ^ 63 - 1) pos (c ∷ s)

-- What one parameter sets.
pub data Setting : Type 0 where
  token : List ℕ → Setting
  fetch_workers connect_timeout max_retries : ℤ → Setting

-- `n < 1`, and `d <= 0`
unfoldable pub positive : (ℤ → Setting) → DsnError → Option ℤ → Result DsnError Setting
positive set e none = err e
positive set e (some n) = if is_positive n then ok (set n) else err e

unfoldable pub any_int : (ℤ → Setting) → DsnError → Option ℤ → Result DsnError Setting
any_int set e none = err e
any_int set e (some n) = ok (set n)

unfoldable pub known_scheme : List ℕ → Result DsnError (List ℕ)
known_scheme s =
    if bytes_eq s (codes "quack") || bytes_eq s (codes "http")
    then ok (codes "http")
    else if bytes_eq s (codes "quacks") || bytes_eq s (codes "https")
    then ok (codes "https")
    else err (bad_scheme s)

-- `strings.TrimSuffix(s, "/")`
unfoldable pub trim_slash : List ℕ → List ℕ
trim_slash [] = []
trim_slash (c ∷ s) = let rest = trim_slash s in if is_empty s && (c == 47) then [] else c ∷ rest

module _ {Http : Type 0} where
  abbrev pub set : Setting → Config Http → Config Http
  set (token t) c = record c { token = t }
  set (fetch_workers n) c = record c { fetch_workers = n }
  set (connect_timeout d) c = record c { connect_timeout = d }
  set (max_retries n) c = record c { max_retries = n }

  abbrev pub empty_config : List ℕ → Config Http
  empty_config endpoint = record {
    endpoint = endpoint;
    token = [];
    fetch_workers = pos 0;
    connect_timeout = pos 0;
    max_retries = pos 0;
    retry_base_delay = pos 0;
    http_client = none;
  }

module _ (getenv : List ℕ → List ℕ) (parse_duration : List ℕ → Option ℤ) where
  unfoldable pub env_token : List ℕ → List ℕ → Result DsnError Setting
  env_token name v = if is_empty v then err (empty_env name) else ok (token v)

  unfoldable pub token_setting : List ℕ → Result DsnError Setting
  token_setting v =
      if has_prefix (codes "env:") v then env_token (drop 4 v) (getenv (drop 4 v)) else ok (token v)

  -- The switch on the key.
  unfoldable pub setting : List ℕ → List ℕ → Result DsnError Setting
  setting key v =
      if bytes_eq key (codes "token")
      then token_setting v
      else if bytes_eq key (codes "fetch_workers")
      then positive fetch_workers (bad_fetch_workers v) (atoi v)
      else if bytes_eq key (codes "connect_timeout")
      then positive connect_timeout (bad_connect_timeout v) (parse_duration v)
      else if bytes_eq key (codes "max_retries")
      then any_int max_retries (bad_max_retries v) (atoi v)
      else err (unknown_param key)

  module _ {Http : Type 0} where
    -- The loop over the parameters.
    unfoldable pub set_params : List (List ℕ × List ℕ) → Config Http → Result DsnError (Config Http)
    set_params [] c = ok c
    set_params ((key, v) ∷ ps) c = elim (setting key v) [
      | err e ↦ err e
      | ok s ↦ set_params ps (set s c)
    ]

    unfoldable pub parse_parts : Url → Result DsnError (List ℕ) → Result DsnError (Config Http)
    parse_parts u (err e) = err e
    parse_parts u (ok scheme) =
        if is_empty u.host
        then err missing_host
        else if u.has_user
        then err user_given
        else set_params u.query
            (empty_config (scheme ++ (codes "://" ++ (u.host ++ trim_slash u.path))))

    -- `none` is a DSN that url.Parse refuses.
    unfoldable pub parse_dsn : Option Url → Result DsnError (Config Http)
    parse_dsn none = err unparseable
    parse_dsn (some u) = parse_parts u (known_scheme u.scheme)

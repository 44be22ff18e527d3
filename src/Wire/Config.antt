-- ===== src/Wire/Config.antt =====
-- wire/config.go and wire/versions.go. `Http` is the type of http.Client; url.Parse enters as the
-- scheme that it finds.
use duckcall.Base.{
  ℕ, suc, ◌*◌, ◌^◌, ◌||◌, List, Option, none, some, Result, ok, err, is_empty, bytes_eq,
  if◌then◌else◌,
}
use duckcall.Base.Int.{ℤ, pos, negsuc, is_positive}
use duckcall.Base.Strings.{codes}

-- Durations are in nanoseconds.
pub record Config (Http : Type 0) : Type 0 where
  pub endpoint : List ℕ
  pub token : List ℕ
  pub fetch_workers : ℤ
  pub connect_timeout : ℤ
  pub max_retries : ℤ
  pub retry_base_delay : ℤ
  pub http_client : Option Http

pub data ConfigError : Type 0 where
  empty_endpoint unparseable_endpoint bad_scheme : ConfigError

abbrev pub quack_version_min : ℕ
quack_version_min = 1

abbrev pub quack_version_max : ℕ
quack_version_max = 1

abbrev pub client_version : List ℕ
client_version = codes "duckcall/0.4"

-- `if i <= 0 { i = d }`
abbrev pub or_default : ℕ → ℤ → ℤ
or_default d i = if is_positive i then i else pos d

-- `if i == 0 { i = d }`
abbrev pub or_nonzero : ℕ → ℤ → ℤ
or_nonzero d (pos ℕ.zero) = pos d
or_nonzero d (pos (suc n)) = pos (suc n)
or_nonzero d (negsuc n) = negsuc n

abbrev pub or_client : {Http : Type 0} → Http → Option Http → Option Http
or_client d none = some d
or_client d (some h) = some h

module _ {Http : Type 0} (default_client : Http) (parse : List ℕ → Option (List ℕ)) where
  unfoldable pub fill : Config Http → Config Http
  fill c = record {
    endpoint = c.endpoint;
    token = c.token;
    fetch_workers = or_default 4 c.fetch_workers;
    connect_timeout = or_default (10 * 10 ^ 9) c.connect_timeout;
    max_retries = or_nonzero 3 c.max_retries;
    retry_base_delay = or_default (100 * 10 ^ 6) c.retry_base_delay;
    http_client = or_client default_client c.http_client;
  }

  unfoldable pub check_scheme : Option (List ℕ) → Config Http → Result ConfigError (Config Http)
  check_scheme none c = err unparseable_endpoint
  check_scheme (some scheme) c =
      if bytes_eq scheme (codes "http") || bytes_eq scheme (codes "https")
      then ok (fill c)
      else err bad_scheme

  unfoldable pub with_defaults : Config Http → Result ConfigError (Config Http)
  with_defaults c =
      if is_empty c.endpoint then err empty_endpoint else check_scheme (parse c.endpoint) c

-- ===== src/Driver/Tests.antt =====
-- driver/interpolate.go on small queries.
use mathlib.Core.List.{Permᴰ}
use duckcall.Base.{some, ℕ, ◌≡◌, refl, List, [], ◌∷◌, ◌++◌, All, ok, err, length}
use duckcall.Base.Int.{pos, negsuc}
use duckcall.Base.Strings.{codes, replace_all, replace_from}
use duckcall.Base.Numerals.{digits_from}
use duckcall.Base.{bytes_eq, Option, none, false}
use duckcall.Base.Int.{ℤ}
use duckcall.Base.Numerals.{number_from}
use duckcall.Wire.Config.{Config}
use duckcall.Driver.Dsn.{
  empty_config, set_params, setting, token_setting, env_token, positive, any_int, atoi, parse_dsn,
  parse_parts, known_scheme, trim_slash,
}
use duckcall.Driver.Order.{IsMap, set_params-Perm}
use duckcall.Driver.Literal.{Named, integer, text, literal, miscounted, too_many_placeholders}
use duckcall.Driver.Interpolate.{
  interpolate, fill_loop, region, skip_quoted, line_end, comment_end, values,
}
use duckcall.Driver.Lexer.{plain, fill, placeholders}
use duckcall.Driver.Equivalence.{interpolate-fill}
use duckcall.Driver.Counts.{HasLiteral, interpolate_counts}
use duckcall.Driver.Inert.{unquote, text-literal_read}

abbrev no_text : ℕ → List ℕ
no_text _ = []

-- The question marks of the string, of the identifier and of the comments stay.
abbrev query : List ℕ
query = codes "SELECT '?''?', \"?\", a-? /* ? */ FROM t WHERE b/? -- ?"

abbrev args : List Named
args =
    record { name = []; value = text (codes "it's") }
    ∷ record { name = []; value = integer (pos 12) }
    ∷ []

filled :
    interpolate no_text no_text query args
    ≡ ok (codes "SELECT '?''?', \"?\", a-'it''s' /* ? */ FROM t WHERE b/12 -- ?")
unfolding interpolate fill_loop region skip_quoted line_end comment_end literal replace_all
    replace_from digits_from
filled = refl

too_few : interpolate no_text no_text (codes "SELECT ?") [] ≡ err (too_many_placeholders 0)
unfolding interpolate fill_loop region
too_few = refl

too_many : interpolate no_text no_text (codes "SELECT 1") args ≡ err (miscounted 2 0)
unfolding interpolate fill_loop region
too_many = refl

-- A minus before a negative number is the start of a comment in what goes to the server.
commented :
    interpolate no_text no_text
      (codes "SELECT 5-?, 1")
      (record { name = []; value = integer (negsuc 2) } ∷ [])
    ≡ ok (codes "SELECT 5--3, 1")
unfolding interpolate fill_loop region literal digits_from
commented = refl

interpolate-fill_example :
    interpolate no_text no_text query args ≡ fill no_text no_text plain query 0 (values args)
interpolate-fill_example = interpolate-fill no_text no_text query args refl

interpolate_counts_example :
    ((out : List ℕ)
      → interpolate no_text no_text query args ≡ ok out
      → placeholders plain query ≡ length (values args))
    × (All (HasLiteral no_text no_text) (values args)
        → placeholders plain query ≡ length (values args)
        → (out : List ℕ) × (interpolate no_text no_text query args ≡ ok out))
interpolate_counts_example = interpolate_counts no_text no_text query args refl

text-literal_read_example :
    (l : List ℕ) × (literal no_text no_text (text (codes "' OR 1=1 --")) ≡ ok (39 ∷ l))
    × (unquote (l ++ codes " LIMIT 1") ≡ some (codes "' OR 1=1 --", codes " LIMIT 1"))
text-literal_read_example =
    text-literal_read no_text no_text (codes "' OR 1=1 --") (codes " LIMIT 1") refl

-- The parameters of `?token=env:T&fetch_workers=8&max_retries=-1`.
abbrev some_params : List (List ℕ × List ℕ)
some_params =
    (codes "token", codes "env:T")
    ∷ (codes "fetch_workers", codes "8")
    ∷ (codes "max_retries", codes "-1")
    ∷ []

abbrev env : List ℕ → List ℕ
env _ = codes "s3cret"

abbrev no_duration : List ℕ → Option ℤ
no_duration _ = none

abbrev configured : Config ℕ
configured = record {
  endpoint = codes "https://h:8888";
  token = codes "s3cret";
  fetch_workers = pos 8;
  connect_timeout = pos 0;
  max_retries = negsuc 0;
  retry_base_delay = pos 0;
  http_client = none;
}

accepted :
    set_params env no_duration some_params (empty_config {Http = ℕ} (codes "https://h:8888"))
    ≡ ok configured
unfolding set_params setting token_setting env_token positive any_int atoi bytes_eq number_from
accepted = refl

parsed :
    parse_dsn env no_duration {Http = ℕ} (
      some (record {
        scheme = codes "quacks";
        host = codes "h:8888";
        has_user = false;
        path = codes "/";
        query = some_params;
      }))
    ≡ ok configured
unfolding parse_dsn parse_parts known_scheme trim_slash set_params setting token_setting env_token
    positive any_int atoi bytes_eq number_from
parsed = refl

distinct : IsMap some_params
unfolding bytes_eq
distinct = ((refl, (refl, tt)), ((refl, tt), (tt, tt)))

set_params-Perm_example :
    set_params env no_duration
      ((codes "fetch_workers", codes "8")
        ∷ (codes "token", codes "env:T")
        ∷ (codes "max_retries", codes "-1")
        ∷ [])
      (empty_config {Http = ℕ} (codes "https://h:8888"))
    ≡ ok configured
set_params-Perm_example =
    set_params-Perm env no_duration (empty_config (codes "https://h:8888")) configured
      (Permᴰ.swap refl refl) distinct accepted

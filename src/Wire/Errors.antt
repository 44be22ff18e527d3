-- ===== src/Wire/Errors.antt =====
-- wire/errors.go, and the errors of wire/client.go.
use duckcall.Base.{ℕ, Bool, ◌&&◌, ◌||◌, ◌==◌, List, is_empty, if◌then◌else◌}
use duckcall.Base.Strings.{codes, contains, replace_all}
use duckcall.Wire.Config.{ConfigError}
use duckcall.Wire.Messages.{WireError}

-- ServerError; the status is 0 for an error that came in-band.
pub record ServerError : Type 0 where
  pub status : ℕ
  pub message : List ℕ

-- The texts of net/http are strings; a message type is a number.
pub data ClientError : Type 0 where
  config : ConfigError → ClientError
  transport : List ℕ → ClientError
  server : ServerError → ClientError
  garbled : WireError → ClientError
  closed missing_connection_id cancelled : ClientError
  unexpected_answer bad_version : ℕ → ClientError

abbrev pub connection_expired : List ℕ → Bool
connection_expired msg =
    contains (codes "Invalid connection id") msg
    || contains (codes "Connection does not exist / already disconnected") msg

-- errors.Is(e, ErrConnectionExpired)
unfoldable pub is_connection_expired : ServerError → Bool
is_connection_expired e = (e.status == 0) && connection_expired e.message

unfoldable pub redact_token : List ℕ → List ℕ → List ℕ
redact_token token s = if is_empty token then s else replace_all token (codes "[redacted]") s

-- ===== src/Reader.antt =====
-- source_catalog/reader_policy.py: how a reader connects, and what its connection and session must be
-- like. The connection's parameters and the row of the policy query come from psycopg and PostgreSQL.
use query_boy.Base.{
  ℕ, String, ◌<>◌, Bool, true, false, not, ◌&&◌, ◌||◌, List, [], ◌∷◌, Option, none, some, all, leb,
  ltb, option_eq, ◌==◌, if◌then◌else◌,
}
use query_boy.Base.Dict.{Dict}
use query_boy.Base.Digits.{show_nat}
use query_boy.Base.Result.{Result, ok, err}
use query_boy.Models.{
  SourceProfile, SslMode, disable, require, verify_full, DatabaseAuthentication, password,
  client_certificate,
}

pub data ReaderSessionPolicyError : Type 0 where
  policy_error : String → ReaderSessionPolicyError

abbrev pub reader_client_encoding : String
reader_client_encoding = "UTF8"

-- The value of a connection parameter.
pub data Parameter : Type 0 where
  text : String → Parameter
  number : ℕ → Parameter

abbrev pub sslmode_text : SslMode → String
sslmode_text disable = "disable"
sslmode_text require = "require"
sslmode_text verify_full = "verify-full"

abbrev pub authentication_kwargs : DatabaseAuthentication → Dict Parameter
authentication_kwargs (password secret) = ("password", text secret) ∷ []
authentication_kwargs (client_certificate root certificate key) =
    ("sslrootcert", text root) ∷ ("sslcert", text certificate) ∷ ("sslkey", text key) ∷ []

unfoldable pub reader_connection_kwargs : SourceProfile → String → Dict Parameter
reader_connection_kwargs source application_name =
    ("host", text source.connection.host)
    ∷ ("port", number source.connection.port)
    ∷ ("dbname", text source.connection.database)
    ∷ ("user", text source.connection.user)
    ∷ ("sslmode", text (sslmode_text source.connection.sslmode))
    ∷ ("gssencmode", text "disable")
    ∷ ("application_name", text application_name)
    ∷ ("connect_timeout", number 2)
    ∷ ("client_encoding", text reader_client_encoding)
    ∷ authentication_kwargs source.connection.authentication

-- `connection.info` and `connection.pgconn`.
pub record ConnectionInfo : Type 0 where
  pub server_version : ℕ
  pub server_encoding : Option String
  pub client_encoding : Option String
  pub encoding : String
  pub ssl_in_use : Bool

abbrev pub connection_mismatch : ReaderSessionPolicyError
connection_mismatch = policy_error "Source reader connection policy mismatch"

abbrev pub is_not_disabled : SslMode → Bool
is_not_disabled disable = false
is_not_disabled require = true
is_not_disabled verify_full = true

-- `a != b`
abbrev pub differ : Bool → Bool → Bool
differ true b = not b
differ false b = b

-- `SSLMode` has no value but the three of the first test on `sslmode`.
unfoldable pub require_reader_connection_policy :
    ConnectionInfo → SslMode → Result ReaderSessionPolicyError (Unit {0})
require_reader_connection_policy info sslmode =
    if not (leb 180000 info.server_version && ltb info.server_version 190000)
      || not (option_eq info.server_encoding (some reader_client_encoding))
      || not (option_eq info.client_encoding (some reader_client_encoding))
      || not (info.encoding == "utf-8")
    then err connection_mismatch
    else if differ info.ssl_in_use (is_not_disabled sslmode)
    then err connection_mismatch
    else ok tt

unfoldable pub reader_session_budget_values : SourceProfile → List String
reader_session_budget_values source =
    (show_nat source.budget.work_mem_kb <> "kB")
    ∷ (show_nat source.budget.temp_file_limit_kb <> "kB")
    ∷ show_nat source.budget.max_parallel_workers_per_gather
    ∷ (if source.budget.jit_enabled then "on" else "off")
    ∷ []

-- The columns of the row that `_READER_SESSION_POLICY_QUERY` gives; `none` is no row.
unfoldable pub require_reader_session_policy :
    Option (Dict Bool) → Result ReaderSessionPolicyError (Unit {0})
require_reader_session_policy none = err (policy_error "Source reader session policy mismatch")
require_reader_session_policy (some []) = err (policy_error "Source reader session policy mismatch")
require_reader_session_policy (some (column ∷ columns)) =
    if all (λ (c : String × Bool). c.1) (column ∷ columns)
    then ok tt
    else err (policy_error "Source reader session policy mismatch")

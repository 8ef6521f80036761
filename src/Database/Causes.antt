-- ===== src/Database/Causes.antt =====
-- database/failures.py: the cause of a driver's exception, and the line that is shown for it. An exception is given
-- by its class and by what stands first among its arguments.
use execution_auto.Base.{
  ℕ, Bool, false, not, ◌&&◌, ◌||◌, Option, none, some, List, [], ◌∷◌, ◌++◌, if◌then◌else◌, any,
  length, ◌==◌, Text, lit, text_eq, lookup_text, has_substring,
}
use execution_auto.Profile.Connection.{is_sqlserver, is_given}
use execution_auto.Security.Redaction.{sanitize_error}
use execution_auto.Database.Settings.{ConnectionSettings, side_value, describe}

-- `FailureCause`
pub data FailureCause : Type 0 where
  network login database driver unknown : FailureCause

-- `exc.args[0]`: nothing, a text, or the error object of `oracledb` with its `code`, if that is a number, and its
-- `full_code`
pub data FirstArgument : Type 0 where
  nothing : FirstArgument
  text : Text → FirstArgument
  error_object : Option ℕ → Text → FirstArgument

pub record DriverError : Type 0 where
  pub is_timeout : Bool
  pub is_import : Bool
  pub first : FirstArgument
  pub type_name : Text
  pub message : Text

-- Unicode case mapping and `str.isalnum`
pub record Letters : Type 0 where
  pub casefold : Text → Text
  pub upper : Text → Text
  pub is_alnum : Text → Bool

-- `_ODBC_STATES`
unfoldable pub odbc_states : List (Text × FailureCause)
unfolding lit
odbc_states =
    (lit "08001", network)
    ∷ (lit "08S01", network)
    ∷ (lit "08004", database)
    ∷ (lit "HYT00", network)
    ∷ (lit "HYT01", network)
    ∷ (lit "28000", login)
    ∷ (lit "42000", database)
    ∷ (lit "IM002", driver)
    ∷ (lit "IM003", driver)
    ∷ []

-- `_ORACLE_CODES`
abbrev pub oracle_codes : List (ℕ × FailureCause)
oracle_codes =
    (1017, login)
    ∷ (1005, login)
    ∷ (28000, login)
    ∷ (28001, login)
    ∷ (12154, database)
    ∷ (12514, database)
    ∷ (12505, database)
    ∷ (12541, network)
    ∷ (12170, network)
    ∷ (12545, network)
    ∷ []

-- `_ORACLE_DPY_CODES`
abbrev pub oracle_dpy_codes : List (ℕ × FailureCause)
oracle_dpy_codes = (6005, network) ∷ (4011, network) ∷ (4027, network) ∷ []

-- `table.get(code)`
unfoldable pub lookup_code : ℕ → List (ℕ × FailureCause) → Option FailureCause
lookup_code n [] = none
lookup_code n ((k, cause) ∷ rest) = if n == k then some cause else lookup_code n rest

-- `full.split("-", 1)[0]`, and whether there was a dash
unfoldable pub before_dash : Text → Option Text
before_dash [] = none
before_dash (c ∷ t) =
    let rest = before_dash t in
    if c == b'-' then some [] else elim rest [ none ↦ none | some p ↦ some (c ∷ p) ]

module _ (l : Letters) where
  -- `_odbc_state`
  unfoldable pub odbc_state : FirstArgument → Option Text
  odbc_state nothing = none
  odbc_state (text t) = if length t == 5 && l.is_alnum t then some (l.upper t) else none
  odbc_state (error_object code full) = none

  -- `_oracle_code`
  unfoldable pub oracle_code : FirstArgument → Option ℕ × Text
  unfolding before_dash
  oracle_code nothing = (none, [])
  oracle_code (text t) = (none, [])
  oracle_code (error_object code full) =
      (code, elim (before_dash full) [ none ↦ [] | some p ↦ l.upper p ])

  abbrev pub is_dpy : Text → Bool
  is_dpy prefix = text_eq prefix (lit "DPY")

  -- The end of `classify_failure`, by the class of the exception
  unfoldable pub class_cause : DriverError → FailureCause
  class_cause e = if e.is_timeout then network else if e.is_import then driver else unknown

  -- The middle of `classify_failure`, by the code of `oracledb`
  unfoldable pub code_cause : DriverError → Option ℕ × Text → FailureCause
  unfolding lookup_code class_cause text_eq lit
  code_cause e (none, prefix) = class_cause e
  code_cause e (some code, prefix) =
      elim (lookup_code code (if is_dpy prefix then oracle_dpy_codes else oracle_codes)) [
        | some cause ↦ cause
        | none ↦ class_cause e
      ]

  -- `classify_failure`
  unfoldable pub classify_failure : DriverError → FailureCause
  unfolding odbc_state oracle_code odbc_states lookup_text code_cause
  classify_failure e = elim (odbc_state e.first) [
    | none ↦ code_cause e (oracle_code e.first)
    | some state ↦ elim (lookup_text state odbc_states) [
      | some cause ↦ cause
      | none ↦ code_cause e (oracle_code e.first)
    ]
  ]

  unfoldable pub timeout_phrases : List Text
  unfolding lit
  timeout_phrases =
      lit "timeout expired" ∷ lit "query timeout" ∷ lit "call timeout" ∷ lit "timed out" ∷ []

  -- Whether a code of `oracledb` means that the query ran too long
  unfoldable pub is_timeout_code : Option ℕ × Text → Bool
  unfolding text_eq lit
  is_timeout_code (none, prefix) = false
  is_timeout_code (some code, prefix) =
      if is_dpy prefix then code == 4024 || code == 4011 else code == 1013

  -- `state is not None and state in _TIMEOUT_STATES`
  unfoldable pub is_timeout_state : Option Text → Bool
  unfolding text_eq lit
  is_timeout_state none = false
  is_timeout_state (some state) = text_eq state (lit "HYT00") || text_eq state (lit "HYT01")

  -- `is_timeout_failure`
  unfoldable pub is_timeout_failure : DriverError → Bool
  unfolding odbc_state oracle_code is_timeout_state is_timeout_code timeout_phrases any
      has_substring
  is_timeout_failure e =
      e.is_timeout
      || (is_timeout_state (odbc_state e.first)
          || (is_timeout_code (oracle_code e.first)
              || any (λ phrase. has_substring phrase (l.casefold e.message)) timeout_phrases))

-- `_ADVICE`
unfoldable pub advice : FailureCause → Text
unfolding lit
advice network =
    lit
      "the server could not be reached in time. Check the hostname and port, whether the VPN is connected, and whether a firewall allows the port"
advice login =
    lit
      "the server was reached but rejected the credentials. Check the username and password, and whether the account is locked or expired"
advice database =
    lit
      "the server was reached and the login succeeded, but the database or service could not be opened. Check the name and the account's permissions"
advice driver =
    lit
      "the database driver is missing on this machine. Install 'ODBC Driver 18 for SQL Server' and try again"
advice unknown = lit "the driver rejected the connection"

-- `_port_hint`
unfoldable pub port_hint : FailureCause → ConnectionSettings → Text
unfolding is_given is_sqlserver lit
port_hint network s =
    if is_given s.port || not (is_sqlserver (some s.database_type))
    then []
    else lit
        ". No port is configured, so the port is being looked up through the SQL Server Browser service: check that it is running and that UDP 1434 is allowed, or set a port in the profile"
port_hint cause s = []

-- `connection_failure_message`
unfoldable pub connection_failure_message :
    Letters → (Text → Text) → DriverError → ConnectionSettings → Text
unfolding classify_failure sanitize_error advice port_hint describe side_value lit
connection_failure_message l mask e s =
    let cause = classify_failure l e in
    lit "Cannot connect to the "
    ++ (side_value s.side
        ++ (lit " database ("
            ++ (describe s
                ++ (lit "): "
                    ++ (advice cause
                        ++ (port_hint cause s
                            ++ (lit ". Driver reported: "
                                ++ sanitize_error mask e.type_name e.message 160)))))))

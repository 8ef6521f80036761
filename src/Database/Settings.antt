-- ===== src/Database/Settings.antt =====
-- database/settings.py: the settings of one connection, what they must agree on, and what is said of them.
use execution_auto.Base.{
  ℕ, Bool, true, false, not, ◌&&◌, ◌||◌, Option, none, some, ◌++◌, if◌then◌else◌, Text, lit,
  is_empty, str_nat, Result, and_then, require,
}
use execution_auto.Models.{DatabaseType, database_type_text}
use execution_auto.Profile.Connection.{
  AuthMode, is_windows, is_oracle, is_sqlserver, is_thick, client_mode_text,
}
use execution_auto.Runner.Sides.{QuerySide, source_side, target_side}

-- `QuerySide.value`
unfoldable pub side_value : QuerySide → Text
unfolding lit
side_value source_side = lit "source"
side_value target_side = lit "target"

-- `ConnectionSettings`, without the timeout, the certificate and the client directory, which only the drivers read
pub record ConnectionSettings : Type 0 where
  pub side : QuerySide
  pub database_type : DatabaseType
  pub server : Text
  pub port : Option ℕ
  pub database : Text
  pub username : Text
  pub password : Text
  pub auth_mode : AuthMode
  pub use_thick_client : Option Bool

-- `__post_init__`
unfoldable pub check_settings : ConnectionSettings → Result Text (Unit {0})
unfolding is_windows is_oracle is_sqlserver is_thick is_empty lit database_type_text side_value
check_settings s =
    and_then
      (require (not (is_thick s.use_thick_client && not (is_oracle (some s.database_type)))) (
        lit "Thick-client mode applies to Oracle connections only; a "
        ++ (database_type_text s.database_type ++ lit " connection has no Oracle Client library.")))
      (λ thick.
        if is_windows (some s.auth_mode)
        then require (is_sqlserver (some s.database_type)) (
            lit
              "Windows authentication is available for SQL Server only; an Oracle connection needs a username and password.")
        else require (not (is_empty s.username || is_empty s.password)) (
            lit "The "
            ++ (side_value s.side ++ lit " connection needs a username and a password.")))

-- `server_address`
unfoldable pub server_address : ConnectionSettings → Text
unfolding str_nat lit
server_address s = elim s.port [ none ↦ s.server | some n ↦ s.server ++ (lit ":" ++ str_nat n) ]

-- `DEFAULT_ORACLE_THICK_MODE`
abbrev pub default_oracle_thick_mode : Bool
default_oracle_thick_mode = true

-- `uses_thick_client`
unfoldable pub uses_thick_client : ConnectionSettings → Bool
unfolding is_oracle
uses_thick_client s =
    if not (is_oracle (some s.database_type))
    then false
    else elim s.use_thick_client [ none ↦ default_oracle_thick_mode | some b ↦ b ]

-- `oracle_client_mode`
unfoldable pub oracle_client_mode : ConnectionSettings → Text
unfolding uses_thick_client client_mode_text
oracle_client_mode s = client_mode_text (uses_thick_client s)

-- `describe`
unfoldable pub describe : ConnectionSettings → Text
unfolding server_address is_windows lit
describe s =
    let who =
      if is_windows (some s.auth_mode)
      then lit "using Windows authentication"
      else lit "as " ++ s.username in
    server_address s ++ (lit "/" ++ (s.database ++ (lit " " ++ who)))

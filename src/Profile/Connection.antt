-- ===== src/Profile/Connection.antt =====
-- profile.py `ConnectionProfile`, `_connection` and `_optional_client_mode`, with `AuthMode` of
-- database/settings.py.
pub mod Sound
use execution_auto.Base.{
  ℕ, Bool, true, false, not, ◌&&◌, ◌||◌, Option, none, some, List, [], ◌∷◌, ◌++◌, map, Text, lit,
  text_eq, is_empty, strip, join, if◌then◌else◌, Result, ok, err, and_then, require,
}
use execution_auto.Models.{DatabaseType, database_type_text}
use execution_auto.Profile.Toml.{text, Entries, Library}
use execution_auto.Profile.Keys.{must_be, optional_string, optional_bool, optional_port}

-- `AuthMode`
pub data AuthMode : Type 0 where
  password windows : AuthMode

unfoldable pub auth_mode_text : AuthMode → Text
unfolding lit
auth_mode_text password = lit "password"
auth_mode_text windows = lit "windows"

-- A client mode is true for thick.
unfoldable pub client_mode_text : Bool → Text
unfolding lit
client_mode_text true = lit "thick"
client_mode_text false = lit "thin"

-- `ConnectionProfile`
pub record ConnectionProfile : Type 0 where
  pub database_type : Option DatabaseType
  pub server : Option Text
  pub port : Option ℕ
  pub database : Option Text
  pub trust_server_certificate : Option Bool
  pub auth_mode : Option AuthMode
  pub username : Option Text
  pub use_thick_client : Option Bool
  pub oracle_client_dir : Option Text

-- `_ALLOWED_SOURCE_KEYS`, which are `_ALLOWED_TARGET_KEYS` too
unfoldable pub connection_keys : List Text
unfolding lit
connection_keys =
    lit "authentication"
    ∷ lit "database"
    ∷ lit "oracle_client_dir"
    ∷ lit "oracle_client_mode"
    ∷ lit "port"
    ∷ lit "server"
    ∷ lit "trust_server_certificate"
    ∷ lit "type"
    ∷ lit "username"
    ∷ []

unfoldable pub is_windows : Option AuthMode → Bool
is_windows (some windows) = true
is_windows (some password) = false
is_windows none = false

unfoldable pub is_oracle : Option DatabaseType → Bool
is_oracle (some DatabaseType.oracle) = true
is_oracle (some DatabaseType.sqlserver) = false
is_oracle none = false

unfoldable pub is_sqlserver : Option DatabaseType → Bool
is_sqlserver (some DatabaseType.sqlserver) = true
is_sqlserver (some DatabaseType.oracle) = false
is_sqlserver none = false

-- `value is not None`
unfoldable pub is_given : {A : Type 0} → Option A → Bool
is_given none = false
is_given (some a) = true

-- `if text`
unfoldable pub is_text : Option Text → Bool
is_text none = false
is_text (some t) = not (is_empty t)

-- `use_thick_client is True`
unfoldable pub is_thick : Option Bool → Bool
is_thick none = false
is_thick (some b) = b

-- The member whose value is the text
unfoldable pub member_named : {A : Type 0} → (A → Text) → List A → Text → Option A
unfolding text_eq
member_named name [] t = none
member_named name (a ∷ members) t =
    let later = member_named name members t in if text_eq t (name a) then some a else later

module _ (source place : Text) where
  abbrev pub oracle_only_message : Text
  oracle_only_message =
      source
      ++ (lit ": "
          ++ (place
              ++ lit " oracle_client_mode and oracle_client_dir apply to type = \"oracle\" only."))

  abbrev pub windows_message : Text
  windows_message =
      source
      ++ (lit ": " ++ (place ++ lit " Windows authentication is available for SQL Server only."))

module _ (lib : Library) (source place : Text) where
  -- The member of an enumeration that a text names, or the error that lists the members
  unfoldable pub choice :
      {A : Type 0} → (A → Text) → List A → Text → Option Text → Result Text (Option A)
  unfolding member_named strip join lit
  choice name members key none = ok none
  choice name members key (some raw) = elim (member_named name members (lib.casefold (strip raw))) [
    | some a ↦ ok (some a)
    | none ↦ err (
        must_be source place key (
          lit " must be one of: "
          ++ (join (lit ", ") (map name members)
              ++ (lit " (got " ++ (lib.repr (some (text raw)) ++ lit ")")))))
  ]

  -- `_optional_client_mode`
  unfoldable pub optional_client_mode : Entries → Result Text (Option Bool)
  unfolding choice optional_string
  optional_client_mode entries =
      and_then (optional_string source place (lit "oracle_client_mode") entries)
        (λ raw. choice client_mode_text (true ∷ false ∷ []) (lit "oracle_client_mode") raw)

  -- The end of `_connection`: the settings that conflict with none of the others
  unfoldable pub plain_settings :
      Option DatabaseType
      → Option AuthMode
      → Option Text
      → Option Bool
      → Option Text
      → Entries
      → Result Text ConnectionProfile
  unfolding optional_string optional_bool optional_port lit
  plain_settings engine auth user thick dir entries =
      and_then (optional_string source place (lit "server") entries) (λ host.
        and_then (optional_port source place (lit "port") entries) (λ number.
          and_then (optional_string source place (lit "database") entries) (λ name.
            and_then (optional_bool source place (lit "trust_server_certificate") entries) (λ trust.
              ok (record {
                database_type = engine;
                server = host;
                port = number;
                database = name;
                trust_server_certificate = trust;
                auth_mode = auth;
                username = user;
                use_thick_client = thick;
                oracle_client_dir = dir;
              })))))

  -- The middle of `_connection`: the settings of the Oracle client
  unfoldable pub client_settings :
      Option DatabaseType → Option AuthMode → Option Text → Entries → Result Text ConnectionProfile
  unfolding optional_client_mode optional_string is_sqlserver is_given is_thick plain_settings lit
  client_settings engine auth user entries = and_then (optional_client_mode entries) (λ thick.
      and_then (optional_string source place (lit "oracle_client_dir") entries) (λ dir.
        and_then
          (require (not ((is_given thick || is_given dir) && is_sqlserver engine))
            (oracle_only_message source place))
          (λ oracle_only.
            and_then
              (require (not (is_given dir && not (is_thick thick))) (
                source
                ++ (lit ": "
                    ++ (place
                        ++ lit
                            " sets oracle_client_dir, which is only used in thick mode. Add oracle_client_mode = \"thick\", or remove the directory."))))
              (λ thick_only. plain_settings engine auth user thick dir entries))))

  -- `_connection`
  unfoldable pub connection : Entries → Result Text ConnectionProfile
  unfolding choice optional_string is_windows is_oracle is_text client_settings lit
      database_type_text auth_mode_text
  connection entries = and_then (optional_string source place (lit "type") entries) (λ raw_type.
      and_then
        (choice database_type_text (DatabaseType.oracle ∷ DatabaseType.sqlserver ∷ []) (lit "type")
          raw_type)
        (λ engine.
          and_then (optional_string source place (lit "authentication") entries) (λ raw_auth.
            and_then
              (choice auth_mode_text (password ∷ windows ∷ []) (lit "authentication") raw_auth)
              (λ auth. and_then (optional_string source place (lit "username") entries) (λ user.
                and_then
                  (require (not (is_windows auth && is_text user)) (
                    source
                    ++ (lit ": "
                        ++ (place
                            ++ lit
                                " sets authentication = \"windows\" and a username. Windows authentication uses the signed-in account; remove the username."))))
                  (λ no_user.
                    and_then
                      (require (not (is_windows auth && is_oracle engine))
                        (windows_message source place))
                      (λ no_oracle. client_settings engine auth user entries)))))))

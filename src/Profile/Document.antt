-- ===== src/Profile/Document.antt =====
-- profile.py `RunProfile`, `_table`, `_named_connections` and `parse_profile`
pub mod Accepted
pub mod Latest
use execution_auto.Base.{
  Bool, true, false, not, ◌&&◌, ◌||◌, Option, none, some, List, [], ◌∷◌, ◌++◌, map, Text, lit,
  text_eq, mem_text, is_empty, strip, lookup_text, sorted_set, if◌then◌else◌, Result, ok, err,
  and_then, require,
}
use execution_auto.Models.{DatabaseType, database_type_text}
use execution_auto.Profile.Toml.{
  Toml, text, integer, boolean, other, array, table, Entries, no_entries, entry, Library, get,
}
use execution_auto.Profile.Keys.{
  reject_credentials, reject_entries, reject_unknown, optional_string,
}
use execution_auto.Profile.Connection.{
  ConnectionProfile, connection_keys, connection, is_windows, is_oracle, is_sqlserver, is_given,
  oracle_only_message, windows_message,
}

-- A dictionary of connections, in the order of its keys
abbrev pub Connections : Type 0
Connections = List (Text × ConnectionProfile)

-- `RunProfile`
pub record RunProfile : Type 0 where
  pub source : ConnectionProfile
  pub target : ConnectionProfile
  pub connections : Connections
  pub workbook_path : Option Text
  pub sheet_name : Option Text
  pub schema_path : Option Text
  pub source_path : Text
  pub target_type_inherited : Bool
  pub warnings : List Text

-- `named[name] = connection`
unfoldable pub put : Text → ConnectionProfile → Connections → Connections
unfolding text_eq
put name c [] = (name, c) ∷ []
put name c ((other_name, d) ∷ named) =
    let rest = put name c named in
    if text_eq name other_name then (other_name, c) ∷ named else (other_name, d) ∷ rest

-- The entries of a value that is a table
unfoldable pub entries_of : Toml → Text → Result Text Entries
entries_of (table entries) message = ok entries
entries_of (text t) message = err message
entries_of (integer n) message = err message
entries_of (boolean b) message = err message
entries_of (other t) message = err message
entries_of (array items) message = err message

unfoldable pub top_level_keys : List Text
unfolding lit
top_level_keys =
    lit "connections" ∷ lit "source" ∷ lit "target" ∷ lit "version" ∷ lit "workbook" ∷ []

unfoldable pub workbook_keys : List Text
unfolding lit
workbook_keys = lit "path" ∷ lit "schema" ∷ lit "sheet" ∷ []

-- `_ALIAS_SECTIONS`
unfoldable pub alias_sections : List Text
unfolding lit
alias_sections = lit "source" ∷ lit "target" ∷ []

-- `version in SUPPORTED_PROFILE_VERSIONS`
unfoldable pub is_supported : Option Toml → Bool
unfolding text_eq lit
is_supported (some (text t)) = text_eq t (lit "1.0")
is_supported value = false

-- The engine that a target without one takes from the source
unfoldable pub inherited_type : Option DatabaseType → ConnectionProfile → Option DatabaseType
unfolding is_windows is_sqlserver
inherited_type engine target =
    if is_windows target.auth_mode && not (is_sqlserver engine)
    then some DatabaseType.sqlserver
    else engine

abbrev pub with_type : Option DatabaseType → ConnectionProfile → ConnectionProfile
with_type engine c = record c { database_type = engine }

-- `target_profile.database_type is None and source_profile.database_type is not None`
unfoldable pub inherits : ConnectionProfile → ConnectionProfile → Bool
unfolding is_given
inherits first second = not (is_given second.database_type) && is_given first.database_type

unfoldable pub target_of : ConnectionProfile → ConnectionProfile → ConnectionProfile
unfolding inherits inherited_type
target_of first second =
    if inherits first second
    then with_type (inherited_type first.database_type second) second
    else second

unfoldable pub inheritance_warnings : Text → ConnectionProfile → ConnectionProfile → List Text
unfolding inherits inherited_type lit database_type_text
inheritance_warnings origin first second =
    if inherits first second
    then elim (inherited_type first.database_type second) [
      | none ↦ []
      | some engine ↦
          (origin
            ++ (lit ": [target] has no \"type\", so \""
                ++ (database_type_text engine
                    ++ lit
                        "\" is being used. Add an explicit type = \"sqlserver\" (or \"oracle\") to [target].")))
          ∷ []
    ]
    else []

-- An Oracle setting on a connection to SQL Server
unfoldable pub is_misplaced : ConnectionProfile → Bool
unfolding is_given is_sqlserver
is_misplaced c =
    (is_given c.use_thick_client || is_given c.oracle_client_dir) && is_sqlserver c.database_type

module _ (lib : Library) (origin : Text) where
  -- `_table`
  unfoldable pub section_table : Text → Entries → Result Text Entries
  unfolding get entries_of reject_entries lit
  section_table key document = elim (get key document) [
    | none ↦ ok no_entries
    | some value ↦
        and_then (entries_of value (origin ++ (lit ": [" ++ (key ++ lit "] must be a table"))))
          (λ entries.
            and_then (reject_entries lib origin (lit "[" ++ (key ++ lit "]")) entries)
              (λ clean. ok entries))
  ]

  -- One `[connections.<key>]`: the name and the connection
  unfoldable pub named_connection : Text → Toml → Result Text (Text × ConnectionProfile)
  unfolding strip is_empty mem_text alias_sections entries_of reject_unknown connection_keys
      connection lit
  named_connection key value =
      let name = lib.casefold (strip key) in
      let place = lit "[connections." ++ (key ++ lit "]") in
      and_then
        (require (not (is_empty name))
          (origin ++ (lit ": " ++ (place ++ lit " has an empty connection name."))))
        (λ nonempty.
          and_then
            (require (not (mem_text name alias_sections)) (
              origin
              ++ (lit ": "
                  ++ (place
                      ++ (lit " collides with the ["
                          ++ (name
                              ++ (lit "] section. Use one or the other, so a workbook cell saying '"
                                  ++ (name ++ lit "' has a single meaning."))))))))
            (λ free.
              and_then
                (entries_of value (origin ++ (lit ": " ++ (place ++ lit " must be a table."))))
                (λ entries.
                  and_then (reject_unknown origin place connection_keys entries)
                    (λ known. and_then (connection lib origin place entries) (λ c. ok (name, c))))))

  unfoldable pub named_from : Entries → Connections → Result Text Connections
  unfolding named_connection put
  named_from no_entries named = ok named
  named_from (entry key value rest) named =
      and_then (named_connection key value)
        (λ found. named_from rest (put (found.0) (found.1) named))

  -- `_named_connections`, of the value at `connections`
  unfoldable pub named_of : Option Toml → Result Text Connections
  unfolding entries_of named_from lit
  named_of none = ok []
  named_of (some value) =
      and_then (entries_of value (origin ++ lit ": [connections] must be a table of named tables."))
        (λ entries. named_from entries [])

  unfoldable pub named_connections : Entries → Result Text Connections
  unfolding get named_of lit
  named_connections document = named_of (get (lit "connections") document)

  -- The end of `parse_profile`: the engine that the target inherits, and the checks after that
  unfoldable pub checked_profile :
      Option Text
      → Option Text
      → Option Text
      → ConnectionProfile
      → ConnectionProfile
      → Connections
      → Result Text RunProfile
  unfolding target_of inheritance_warnings inherits is_windows is_oracle is_misplaced lit
  checked_profile path sheet schema first second named =
      let second' = target_of first second in
      and_then
        (require (not (is_windows second'.auth_mode && is_oracle second'.database_type))
          (windows_message origin (lit "[target]")))
        (λ matching.
          and_then
            (require (not (is_misplaced first)) (oracle_only_message origin (lit "[source]")))
            (λ placed.
              and_then
                (require (not (is_misplaced second')) (oracle_only_message origin (lit "[target]")))
                (λ placed'. ok (record {
                  source = first;
                  target = second';
                  connections = (lit "source", first) ∷ (lit "target", second') ∷ named;
                  workbook_path = elim path [ none ↦ none | some t ↦ some (lib.expanduser t) ];
                  sheet_name = sheet;
                  schema_path = elim schema [ none ↦ none | some t ↦ some (lib.expanduser t) ];
                  source_path = origin;
                  target_type_inherited = inherits first second;
                  warnings = inheritance_warnings origin first second;
                }))))

  -- `_table`, `_reject_unknown` and `_connection` of `[source]` or `[target]`
  unfoldable pub section_entries : Text → List Text → Entries → Result Text Entries
  unfolding section_table reject_unknown lit
  section_entries key allowed document = and_then (section_table key document) (λ entries.
      and_then (reject_unknown origin (lit "[" ++ (key ++ lit "]")) allowed entries)
        (λ known. ok entries))

  -- The middle of `parse_profile`: the connections
  unfoldable pub connected_profile :
      Option Text → Option Text → Option Text → Entries → Result Text RunProfile
  unfolding section_entries connection_keys connection named_connections checked_profile lit
  connected_profile path sheet schema document =
      and_then (section_entries (lit "source") connection_keys document) (λ source_entries.
        and_then (section_entries (lit "target") connection_keys document) (λ target_entries.
          and_then (connection lib origin (lit "[source]") source_entries) (λ first.
            and_then (connection lib origin (lit "[target]") target_entries) (λ second.
              and_then (named_connections document)
                (λ named. checked_profile path sheet schema first second named)))))

  -- `parse_profile`
  unfoldable pub parse_profile : Entries → Result Text RunProfile
  unfolding reject_entries reject_unknown top_level_keys get is_supported section_entries
      workbook_keys optional_string connected_profile lit
  parse_profile document = and_then (reject_entries lib origin [] document) (λ clean.
      and_then (reject_unknown origin [] top_level_keys document) (λ known.
        and_then
          (require (is_supported (get (lit "version") document)) (
            origin
            ++ (lit ": version must be one of: 1.0 (got "
                ++ (lib.repr (get (lit "version") document) ++ lit ")"))))
          (λ supported.
            and_then (section_entries (lit "workbook") workbook_keys document) (λ workbook.
              and_then (optional_string origin (lit "[workbook]") (lit "path") workbook) (λ path.
                and_then (optional_string origin (lit "[workbook]") (lit "sheet") workbook)
                  (λ sheet.
                    and_then (optional_string origin (lit "[workbook]") (lit "schema") workbook)
                      (λ schema. connected_profile path sheet schema document)))))))

-- `dict(self.connections) or {"source": self.source, "target": self.target}`
abbrev pub known_of : RunProfile → Connections → Connections
known_of p [] = (lit "source", p.source) ∷ (lit "target", p.target) ∷ []
known_of p (c ∷ cs) = c ∷ cs

-- `RunProfile.section`
unfoldable pub section : Library → RunProfile → Text → Option ConnectionProfile
unfolding lookup_text strip lit
section lib p name = lookup_text (lib.casefold (strip name)) (known_of p p.connections)

-- `RunProfile.section_names`
unfoldable pub section_names : RunProfile → List Text
unfolding sorted_set lit
section_names p = sorted_set (map (λ c. c.0) (known_of p p.connections))

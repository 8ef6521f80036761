-- ===== src/Profile/Examples.antt =====
-- A profile with three connections, accepted, and one with a password, refused.
use execution_auto.Base.{
  ◌≡◌, refl, true, false, ◌&&◌, ◌||◌, leb, none, some, [], ◌∷◌, lit, ok, err, and_then, pos, inl,
  text_lt, lookup_text,
}
use execution_auto.Models.{DatabaseType}
use execution_auto.Profile.Toml.{text, integer, table, Entries, no_entries, entry, Library}
use execution_auto.Profile.Keys.{is_secret, secret_message, forbidden_key_names}
use execution_auto.Profile.Keys.Secrets.{HasKeyEntries}
use execution_auto.Profile.Connection.{AuthMode, ConnectionProfile, client_mode_text}
use execution_auto.Profile.Connection.Sound.{IsSound}
use execution_auto.Profile.Document.{named_of, RunProfile, parse_profile, section, section_names}
use execution_auto.Profile.Document.Accepted.{parse_profile-HasKeyEntries, section-IsSound}
use execution_auto.Profile.Document.Latest.{last_named, read_table, named_of-latest}

abbrev library : Library
library = record {
  casefold = λ t. t;
  is_alnum = λ c. (leb b'0' c && leb c b'9') || (leb b'a' c && leb c b'z');
  repr = λ v. [];
  expanduser = λ t. t;
}

abbrev document : Entries
unfolding lit
document = entry (lit "version") (text (lit "1.0")) (
    entry (lit "source")
      (table (
        entry (lit "type") (text (lit "oracle")) (
          entry (lit "port") (integer (pos 1521)) (
            entry (lit "oracle_client_mode") (text (lit "thick"))
              (entry (lit "oracle_client_dir") (text (lit "/opt")) no_entries)))))
      (entry (lit "target") (table (entry (lit "authentication") (text (lit "windows")) no_entries))
        (entry (lit "connections")
          (table (
            entry (lit "archive") (table (entry (lit "server") (text (lit "h")) no_entries))
              no_entries))
          no_entries)))

abbrev nothing : ConnectionProfile
nothing = record {
  database_type = none;
  server = none;
  port = none;
  database = none;
  trust_server_certificate = none;
  auth_mode = none;
  username = none;
  use_thick_client = none;
  oracle_client_dir = none;
}

abbrev oracle_source : ConnectionProfile
unfolding lit
oracle_source = record nothing {
  database_type = some DatabaseType.oracle;
  port = some 1521;
  use_thick_client = some true;
  oracle_client_dir = some (lit "/opt");
}

-- SQL Server is taken over the source's engine where the target signs in by Windows.
abbrev windows_target : ConnectionProfile
windows_target = record nothing {
  database_type = some DatabaseType.sqlserver;
  auth_mode = some AuthMode.windows;
}

abbrev archive : ConnectionProfile
unfolding lit
archive = record nothing { server = some (lit "h") }

abbrev profile : RunProfile
unfolding lit
profile = record {
  source = oracle_source;
  target = windows_target;
  connections =
      (lit "source", oracle_source)
      ∷ (lit "target", windows_target)
      ∷ (lit "archive", archive)
      ∷ [];
  workbook_path = none;
  sheet_name = none;
  schema_path = none;
  source_path = lit "p";
  target_type_inherited = true;
  warnings =
      lit
        "p: [target] has no \"type\", so \"sqlserver\" is being used. Add an explicit type = \"sqlserver\" (or \"oracle\") to [target]."
      ∷ [];
}

accepts : parse_profile library (lit "p") document ≡ ok profile
unfolding parse_profile and_then is_secret forbidden_key_names document profile oracle_source
    archive client_mode_text
accepts = refl

names : section_names profile ≡ lit "archive" ∷ lit "source" ∷ lit "target" ∷ []
unfolding section_names profile text_lt
names = refl

refuses_secret :
    parse_profile library
      (lit "p")
      (entry (lit "db") (table (entry (lit "api_key") (text []) no_entries)) no_entries)
    ≡ err (secret_message library (lit "p") (lit "[db]") (lit "api_key"))
unfolding parse_profile and_then is_secret forbidden_key_names lit
refuses_secret = refl

-- A second name that folds to one already read takes its place: here both fold to `a`.
replaces :
    parse_profile library (lit "p") (
      entry (lit "version") (text (lit "1.0")) (
        entry
          (lit "connections")
          (table (
            entry
              (lit "a")
              (table (entry (lit "server") (text (lit "h")) no_entries))
              (entry (lit " a") (table no_entries) no_entries)))
          no_entries))
    ≡ ok (record profile {
      source = nothing;
      target = nothing;
      connections = (lit "source", nothing) ∷ (lit "target", nothing) ∷ (lit "a", nothing) ∷ [];
      target_type_inherited = false;
      warnings = [];
    })
unfolding parse_profile and_then is_secret forbidden_key_names profile lit client_mode_text
replaces = refl

version_first : HasKeyEntries (lit "version") document
unfolding HasKeyEntries document
version_first = inl refl

archive_found : section library profile (lit " archive ") ≡ some archive
unfolding section profile archive lit
archive_found = refl

parse_profile-HasKeyEntries_example : is_secret library (lit "version") ≡ false
parse_profile-HasKeyEntries_example =
    parse_profile-HasKeyEntries library (lit "p") document profile accepts (lit "version")
      version_first

section-IsSound_example : IsSound archive
section-IsSound_example =
    section-IsSound library (lit "p") document profile accepts (lit " archive ") archive
      archive_found

abbrev archive_tables : Entries
archive_tables =
    entry (lit "archive") (table (entry (lit "server") (text (lit "g")) no_entries))
      (entry (lit "archive ") (table (entry (lit "server") (text (lit "h")) no_entries)) no_entries)

reads_archive :
    named_of library (lit "p") (some (table archive_tables)) ≡ ok ((lit "archive", archive) ∷ [])
unfolding named_of and_then archive lit is_secret forbidden_key_names client_mode_text
reads_archive = refl

named_of-latest_example :
    lookup_text (lit "archive") ((lit "archive", archive) ∷ [])
    ≡ read_table library (lit "p") (last_named library (lit "archive") archive_tables none)
named_of-latest_example =
    named_of-latest library (lit "p") archive_tables ((lit "archive", archive) ∷ []) (lit "archive")
      reads_archive

-- ===== src/Profile/Toml.antt =====
-- A document as the TOML library returns it, and what profile.py takes from the run-time library.
use execution_auto.Base.{ℕ, Bool, Option, none, some, if◌then◌else◌, Text, text_eq, ℤ}

-- A table keeps its keys in order; every other value is neither a table nor an array.
mutual
  pub data Toml : Type 0 where
    text : Text → Toml
    integer : ℤ → Toml
    boolean : Bool → Toml
    other : Text → Toml
    array : Items → Toml
    table : Entries → Toml

  pub data Items : Type 0 where
    no_items : Items
    item : Toml → Items → Items

  pub data Entries : Type 0 where
    no_entries : Entries
    entry : Text → Toml → Entries → Entries

-- Case folding, `str.isalnum` of a character, `repr` of a value or of `None`, and `Path.expanduser`
pub record Library : Type 0 where
  pub casefold : Text → Text
  pub is_alnum : ℕ → Bool
  pub repr : Option Toml → Text
  pub expanduser : Text → Text

-- `table.get(key)`
unfoldable pub get : Text → Entries → Option Toml
unfolding text_eq
get key no_entries = none
get key (entry k v rest) = if text_eq key k then some v else get key rest

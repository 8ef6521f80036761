-- ===== src/Profile/Document/Latest.antt =====
-- profile.py `_named_connections`: the dictionary that it fills, as a function of the name.
use execution_auto.Base.{
  ◌≡◌, refl, sym, ap, true, Option, none, some, [], ◌∷◌, ◌++◌, Text, lit, strip, text_eq,
  text_eq_sound, lookup_text, if◌then◌else◌, Result, ok, err, and_then_ok, ok_injective, inl, inr,
  Bool-cases, arith, subst,
}
use execution_auto.Profile.Toml.{Toml, table, Entries, no_entries, entry, Library}
use execution_auto.Profile.Connection.{ConnectionProfile, connection}
use execution_auto.Profile.Document.{
  Connections, entries_of, put, named_connection, named_from, named_of,
}

-- The last table, with its key, whose key is the name once it is trimmed and folded; a name that no
-- key stands for keeps what it had.
pub last_named : Library → Text → Entries → Option (Text × Toml) → Option (Text × Toml)
last_named lib name no_entries before = before
last_named lib name (entry key value rest) before =
    last_named lib name rest
      (if text_eq name (lib.casefold (strip key)) then some (key, value) else before)

abbrev connection_in : Result Text ConnectionProfile → Option ConnectionProfile
connection_in (ok c) = some c
connection_in (err message) = none

-- The connection that a table says
abbrev pub read_table : Library → Text → Option (Text × Toml) → Option ConnectionProfile
read_table lib origin (some (key, table entries)) =
    connection_in (connection lib origin (lit "[connections." ++ (key ++ lit "]")) entries)
read_table lib origin _ = none

-- Two texts that equal a third are equal.
same_name :
    (name other k : Text)
    → text_eq other name ≡ true
    → text_eq other k ≡ true
    → text_eq name k ≡ true
same_name name other k h h' = subst (λ t. text_eq t k ≡ true) (text_eq_sound other name h) h'

lookup-put :
    (name other : Text) (c : ConnectionProfile) (named : Connections)
    → lookup_text other (put name c named)
      ≡ (if text_eq other name then some c else lookup_text other named)
unfolding put lookup_text
lookup-put name other c [] = refl
lookup-put name other c ((k, d) ∷ named) = elim (Bool-cases (text_eq name k)) [
  | inl same ↦ ground (arith, ap (text_eq other) (text_eq_sound name k same))
  | inr differs ↦ ground (arith, same_name name other k, lookup-put name other c named)
]

module _ (lib : Library) (origin : Text) where
  entries_of_table :
      (value : Toml) (message : Text) (entries : Entries)
      → entries_of value message ≡ ok entries
      → value ≡ table entries
  unfolding entries_of
  entries_of_table (table es) message found h = ap table (ok_injective _ _ _ refl h)
  entries_of_table value message found h = absurd (cc)

  -- A table is filed under its folded key, with the connection that it says.
  named_connection-read :
      (key : Text) (value : Toml) (e : Text × ConnectionProfile)
      → named_connection lib origin key value ≡ ok e
      → (lib.casefold (strip key) ≡ e.0) × (read_table lib origin (some (key, value)) ≡ some (e.1))
  unfolding named_connection
  named_connection-read key value e h =
      let (given, e1, h1) = and_then_ok _ _ _ h in
      let (free, e2, h2) = and_then_ok _ _ _ h1 in
      let (entries, e3, h3) = and_then_ok _ _ _ h2 in
      let (known, e4, h4) = and_then_ok _ _ _ h3 in
      let (c, e5, h5) = and_then_ok _ _ _ h4 in
      let filed = ok_injective _ _ _ refl h5 in
      (
        ap (λ p. p.0) filed,
        rw (entries_of_table value _ entries e3, e5) (ap (λ p. some (p.1)) filed),
      )

  named_from-last :
      (entries : Entries) (named found : Connections) (name : Text) (before : Option (Text × Toml))
      → lookup_text name named ≡ read_table lib origin before
      → named_from lib origin entries named ≡ ok found
      → lookup_text name found ≡ read_table lib origin (last_named lib name entries before)
  unfolding named_from last_named
  named_from-last no_entries named found name before same h =
      subst (λ f. lookup_text name f ≡ read_table lib origin before) (ok_injective _ _ _ refl h)
        same
  named_from-last (entry key value rest) named found name before same h =
      let (e, read, behind) = and_then_ok _ _ _ h in
      let (folded, said) = named_connection-read key value e read in
      named_from-last rest (put (e.0) (e.1) named) found name
        (if text_eq name (lib.casefold (strip key)) then some (key, value) else before)
        (elim (Bool-cases (text_eq name (e.0))) [
          | inl hit ↦ rw (lookup-put (e.0) name (e.1) named, folded, hit) (sym said)
          | inr miss ↦ rw (lookup-put (e.0) name (e.1) named, folded, miss) same
        ])
        behind

  -- Where `[connections]` is read, a name has the connection that the last table says whose key,
  -- trimmed and case-folded, is the name, and a name that no key stands for has none.
  pub named_of-latest :
      (entries : Entries) (found : Connections) (name : Text)
      → named_of lib origin (some (table entries)) ≡ ok found
      → lookup_text name found ≡ read_table lib origin (last_named lib name entries none)
  unfolding named_of entries_of lookup_text
  named_of-latest entries found name h =
      let (inner, e1, h1) = and_then_ok _ _ _ h in
      named_from-last entries [] found name none refl
        (subst (λ es. named_from lib origin es [] ≡ ok found) (sym (ok_injective _ _ _ refl e1)) h1)

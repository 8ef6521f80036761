-- ===== src/Profile/Document/Accepted.antt =====
-- profile.py `parse_profile`: what holds of the profiles it returns.
use execution_auto.Base.{
  ◌≡◌, refl, subst, sym, false, ◌&&◌, Option, none, some, [], ◌∷◌, ◌++◌, Text, lit, text_eq, All,
  strip, lookup_text, ok, and_then_ok, require_ok, ok_injective, inl, inr, Bool-cases, arith,
}
use execution_auto.Profile.Toml.{Toml, Entries, no_entries, entry, Library}
use execution_auto.Profile.Keys.{is_secret}
use execution_auto.Profile.Keys.Secrets.{HasKeyEntries, reject_entries_sound}
use execution_auto.Profile.Connection.{ConnectionProfile, is_windows, is_oracle}
use execution_auto.Profile.Connection.Sound.{IsSound, refuted, connection-IsSound}
use execution_auto.Profile.Document.{
  Connections, RunProfile, put, with_type, inherited_type, inherits, target_of, is_misplaced,
  named_connection, named_from, named_of, checked_profile, connected_profile, parse_profile,
  known_of, section,
}

-- The connection of an entry is sound.
abbrev pub IsSoundEntry : Text × ConnectionProfile → Type 0
IsSoundEntry e = IsSound (e.1)

-- The sections of a profile stand first among its connections, and every connection is sound.
abbrev pub IsSoundProfile : RunProfile → Type 0
IsSoundProfile p =
    IsSound p.source
    × IsSound p.target
    × (named : Connections) × (p.connections
        ≡ (lit "source", p.source) ∷ (lit "target", p.target) ∷ named)
    × All IsSoundEntry named

All-put :
    (name : Text) (c : ConnectionProfile) (named : Connections)
    → IsSound c
    → All IsSoundEntry named
    → All IsSoundEntry (put name c named)
unfolding put
All-put name c [] hc h = (hc, tt)
All-put name c ((other_name, d) ∷ named) hc h = elim (Bool-cases (text_eq name other_name)) [
  | inl same ↦ subst (All IsSoundEntry) {x = (other_name, c) ∷ named} (ground arith) (hc, h.1)
  | inr differs ↦
      subst (All IsSoundEntry) {x = (other_name, d) ∷ put name c named} (ground arith)
        (h.0, All-put name c named hc h.1)
]

module _ (name : Text) (c : ConnectionProfile) where
  lookup-All :
      (named : Connections) → All IsSoundEntry named → lookup_text name named ≡ some c → IsSound c
  unfolding lookup_text
  lookup-All [] all found = absurd (cc)
  lookup-All ((other_name, d) ∷ named) all found = elim (Bool-cases (text_eq name other_name)) [
    | inl same ↦ subst IsSound {x = d} (ground arith) (all.0)
    | inr differs ↦ lookup-All named (all.1) (ground arith)
  ]

-- A target keeps its other settings when it takes an engine.
target_of-IsSound :
    (first second : ConnectionProfile)
    → IsSound second
    → (is_windows (target_of first second).auth_mode
        && is_oracle (target_of first second).database_type)
      ≡ false
    → is_misplaced (target_of first second) ≡ false
    → IsSound (target_of first second)
unfolding target_of is_misplaced
target_of-IsSound first second sound matching placed = elim (Bool-cases (inherits first second)) [
  | inr own ↦ subst IsSound {x = second} (ground arith) sound
  | inl taken ↦
      let taken_type = with_type (inherited_type first.database_type second) second in
      let same : taken_type ≡ target_of first second = ground arith in
      subst IsSound same (record {
        windows_alone = sound.windows_alone;
        windows_engine =
            subst (λ c. (is_windows c.auth_mode && is_oracle c.database_type) ≡ false) (sym same)
              matching;
        client_engine = subst (λ c. is_misplaced c ≡ false) (sym same) placed;
        client_dir = sound.client_dir;
        port_range = sound.port_range;
      })
]

module _ (lib : Library) (origin : Text) where
  named_connection-IsSound :
      (key : Text) (value : Toml) (e : Text × ConnectionProfile)
      → named_connection lib origin key value ≡ ok e
      → IsSoundEntry e
  unfolding named_connection
  named_connection-IsSound key value e h =
      let (nonempty, e1, h1) = and_then_ok _ _ _ h in
      let (free, e2, h2) = and_then_ok _ _ _ h1 in
      let (entries, e3, h3) = and_then_ok _ _ _ h2 in
      let (known, e4, h4) = and_then_ok _ _ _ h3 in
      let (c, e5, h5) = and_then_ok _ _ _ h4 in
      subst IsSoundEntry (ok_injective _ _ _ refl h5)
        (connection-IsSound lib origin (lit "[connections." ++ (key ++ lit "]")) entries c e5)

  named_from-All :
      (entries : Entries) (named found : Connections)
      → All IsSoundEntry named
      → named_from lib origin entries named ≡ ok found
      → All IsSoundEntry found
  unfolding named_from
  named_from-All no_entries named found all h =
      subst (All IsSoundEntry) (ok_injective _ _ _ refl h) all
  named_from-All (entry key value rest) named found all h =
      let (e, read, behind) = and_then_ok _ _ _ h in
      named_from-All rest _ found
        (All-put (e.0) (e.1) named (named_connection-IsSound key value e read) all) behind

  named_of-All :
      (value : Option Toml) (found : Connections)
      → named_of lib origin value ≡ ok found
      → All IsSoundEntry found
  unfolding named_of
  named_of-All none found h = subst (All IsSoundEntry) {x = []} (ok_injective _ _ _ refl h) tt
  named_of-All (some value) found h =
      let (entries, e1, h1) = and_then_ok _ _ _ h in named_from-All entries [] found tt h1

  module _ (path sheet schema : Option Text) (p : RunProfile) where
    checked_profile-All :
        (first second : ConnectionProfile) (named : Connections)
        → IsSound first
        → IsSound second
        → All IsSoundEntry named
        → checked_profile lib origin path sheet schema first second named ≡ ok p
        → IsSoundProfile p
    unfolding checked_profile
    checked_profile-All first second named sound sound' all h =
        let (matching, e1, h1) = and_then_ok _ _ _ h in
        let (placed, e2, h2) = and_then_ok _ _ _ h1 in
        let (placed', e3, h3) = and_then_ok _ _ _ h2 in
        let target_sound =
          target_of-IsSound first second sound' (refuted _ (require_ok _ _ matching e1))
            (refuted _ (require_ok _ _ placed' e3)) in
        subst IsSoundProfile (ok_injective _ _ _ refl h3) (sound, target_sound, named, refl, all)

    connected_profile-All :
        (document : Entries)
        → connected_profile lib origin path sheet schema document ≡ ok p
        → IsSoundProfile p
    unfolding connected_profile
    connected_profile-All document h =
        let (source_entries, e1, h1) = and_then_ok _ _ _ h in
        let (target_entries, e2, h2) = and_then_ok _ _ _ h1 in
        let (first, e3, h3) = and_then_ok _ _ _ h2 in
        let (second, e4, h4) = and_then_ok _ _ _ h3 in
        let (named, e5, h5) = and_then_ok _ _ _ h4 in
        checked_profile-All first second named
          (connection-IsSound lib origin (lit "[source]") source_entries first e3)
          (connection-IsSound lib origin (lit "[target]") target_entries second e4)
          (named_of-All _ named e5) h5

  module _ (document : Entries) (p : RunProfile)
      (accepted : parse_profile lib origin document ≡ ok p) where
    -- No key at any depth of an accepted document is one of the forbidden ones, however it is spelled.
    pub parse_profile-HasKeyEntries :
        (key : Text) → HasKeyEntries key document → is_secret lib key ≡ false
    unfolding parse_profile
    parse_profile-HasKeyEntries key occurs =
        let (clean, e1, h1) = and_then_ok _ _ _ accepted in
        reject_entries_sound lib origin key [] document e1 occurs

    parse_profile-IsSoundProfile : IsSoundProfile p
    unfolding parse_profile
    parse_profile-IsSoundProfile =
        let (clean, e1, h1) = and_then_ok _ _ _ accepted in
        let (known, e2, h2) = and_then_ok _ _ _ h1 in
        let (supported, e3, h3) = and_then_ok _ _ _ h2 in
        let (workbook, e4, h4) = and_then_ok _ _ _ h3 in
        let (path, e5, h5) = and_then_ok _ _ _ h4 in
        let (sheet, e6, h6) = and_then_ok _ _ _ h5 in
        let (schema, e7, h7) = and_then_ok _ _ _ h6 in
        connected_profile-All path sheet schema p document h7

    -- Every connection that a workbook cell can name in an accepted profile is sound.
    pub section-IsSound :
        (name : Text) (c : ConnectionProfile) → section lib p name ≡ some c → IsSound c
    unfolding section
    section-IsSound name c found =
        let (sound, sound', named, listed, all) = parse_profile-IsSoundProfile in
        lookup-All (lib.casefold (strip name)) c
          ((lit "source", p.source) ∷ (lit "target", p.target) ∷ named) (sound, (sound', all))
          (subst (λ cs. lookup_text (lib.casefold (strip name)) (known_of p cs) ≡ some c) listed
            found)

    section_source :
        (name : Text)
        → lib.casefold (strip name) ≡ lit "source"
        → section lib p name ≡ some p.source
    unfolding section lookup_text text_eq lit
    section_source name folded =
        let (sound, sound', named, listed, all) = parse_profile-IsSoundProfile in
        rw (folded, listed)

    section_target :
        (name : Text)
        → lib.casefold (strip name) ≡ lit "target"
        → section lib p name ≡ some p.target
    unfolding section lookup_text text_eq lit
    section_target name folded =
        let (sound, sound', named, listed, all) = parse_profile-IsSoundProfile in
        rw (folded, listed)

    -- In an accepted profile, a name that folds to "source" names its source connection, and one that folds
    -- to "target" its target connection, whatever other connections it defines.
    pub section-parse_profile :
        (first second : Text)
        → lib.casefold (strip first) ≡ lit "source"
        → lib.casefold (strip second) ≡ lit "target"
        → (section lib p first ≡ some p.source) × (section lib p second ≡ some p.target)
    section-parse_profile first second h k = (section_source first h, section_target second k)

-- ===== src/Profile/Connection/Sound.antt =====
-- profile.py `_connection`: what holds of the connections it returns.
use execution_auto.Base.{
  ℕ, ◌≡◌, refl, subst, Bool, true, false, not, ◌&&◌, ◌||◌, Option, none, some, Text, lit, leb,
  arith, is_blank, ok, and_then_ok, require_ok, ok_injective, inl, inr, Bool-cases, Option-cases,
  pos, negsuc,
}
use execution_auto.Models.{DatabaseType}
use execution_auto.Profile.Toml.{
  Toml, text, integer, boolean, other, array, table, Entries, Library, get,
}
use execution_auto.Profile.Keys.{max_port, port_of, optional_port}
use execution_auto.Profile.Connection.{
  AuthMode, ConnectionProfile, plain_settings, client_settings, connection, is_windows, is_oracle,
  is_sqlserver, is_given, is_text, is_thick,
}

-- Within the range of a port, where one is given
unfoldable pub is_port : Option ℕ → Bool
is_port none = true
is_port (some n) = leb 1 n && leb n max_port

-- No two settings contradict each other.
pub record IsSound (c : ConnectionProfile) : Type 0 where
  pub windows_alone : (is_windows c.auth_mode && is_text c.username) ≡ false
  pub windows_engine : (is_windows c.auth_mode && is_oracle c.database_type) ≡ false
  pub client_engine :
      ((is_given c.use_thick_client || is_given c.oracle_client_dir)
        && is_sqlserver c.database_type)
      ≡ false
  pub client_dir : (is_given c.oracle_client_dir && not (is_thick c.use_thick_client)) ≡ false
  pub port_range : is_port c.port ≡ true

module _ (source place key : Text) where
  port_of-is_port :
      (value : Toml) (p : Option ℕ) → port_of source place key value ≡ ok p → is_port p ≡ true
  unfolding port_of is_port
  port_of-is_port (integer (pos n)) p h = elim (Bool-cases (leb 1 n && leb n max_port)) [
    | inl inside ↦ subst (λ q. is_port q ≡ true) {x = some n} {y = p} (ground arith) inside
    | inr outside ↦ absurd (ground arith)
  ]
  port_of-is_port (integer (negsuc n)) p h = absurd (cc)
  port_of-is_port (boolean b) p h = absurd (cc)
  port_of-is_port (other t) p h = absurd (cc)
  port_of-is_port (array _) p h = absurd (cc)
  port_of-is_port (table _) p h = absurd (cc)
  port_of-is_port (text t) p h = elim (Bool-cases (is_blank t)) [
    | inl blank ↦ subst (λ q. is_port q ≡ true) {x = none} {y = p} (ground arith) refl
    | inr given ↦ absurd (ground arith)
  ]

  optional_port-is_port :
      (entries : Entries) (p : Option ℕ)
      → optional_port source place key entries ≡ ok p
      → is_port p ≡ true
  unfolding optional_port is_port
  optional_port-is_port entries p h = elim (Option-cases (get key entries)) [
    | inl missing ↦ subst (λ q. is_port q ≡ true) {x = none} {y = p} (ground arith) refl
    | inr (value, found) ↦ port_of-is_port value p (ground arith)
  ]

pub refuted : (b : Bool) → not b ≡ true → b ≡ false
refuted b h = ground arith

module _ (lib : Library) (source place : Text) where
  module _ (engine : Option DatabaseType) (auth : Option AuthMode) (user : Option Text)
      (entries : Entries) (c : ConnectionProfile)
      (alone : (is_windows auth && is_text user) ≡ false)
      (matching : (is_windows auth && is_oracle engine) ≡ false) where
    plain_settings-IsSound :
        (thick : Option Bool) (dir : Option Text)
        → ((is_given thick || is_given dir) && is_sqlserver engine) ≡ false
        → (is_given dir && not (is_thick thick)) ≡ false
        → plain_settings lib source place engine auth user thick dir entries ≡ ok c
        → IsSound c
    unfolding plain_settings
    plain_settings-IsSound thick dir oracle_only thick_only h =
        let (host, e1, h1) = and_then_ok _ _ _ h in
        let (number, e2, h2) = and_then_ok _ _ _ h1 in
        let (name, e3, h3) = and_then_ok _ _ _ h2 in
        let (trust, e4, h4) = and_then_ok _ _ _ h3 in
        subst IsSound {y = c} (ok_injective _ _ _ refl h4) (record {
          windows_alone = alone;
          windows_engine = matching;
          client_engine = oracle_only;
          client_dir = thick_only;
          port_range = optional_port-is_port source place (lit "port") entries number e2;
        })

    client_settings-IsSound :
        client_settings lib source place engine auth user entries ≡ ok c → IsSound c
    unfolding client_settings
    client_settings-IsSound h =
        let (thick, e1, h1) = and_then_ok _ _ _ h in
        let (dir, e2, h2) = and_then_ok _ _ _ h1 in
        let (oracle_only, e3, h3) = and_then_ok _ _ _ h2 in
        let (thick_only, e4, h4) = and_then_ok _ _ _ h3 in
        plain_settings-IsSound thick dir (refuted _ (require_ok _ _ oracle_only e3))
          (refuted _ (require_ok _ _ thick_only e4)) h4

  pub connection-IsSound :
      (entries : Entries) (c : ConnectionProfile)
      → connection lib source place entries ≡ ok c
      → IsSound c
  unfolding connection
  connection-IsSound entries c h =
      let (raw_type, e1, h1) = and_then_ok _ _ _ h in
      let (engine, e2, h2) = and_then_ok _ _ _ h1 in
      let (raw_auth, e3, h3) = and_then_ok _ _ _ h2 in
      let (auth, e4, h4) = and_then_ok _ _ _ h3 in
      let (user, e5, h5) = and_then_ok _ _ _ h4 in
      let (alone, e6, h6) = and_then_ok _ _ _ h5 in
      let (matching, e7, h7) = and_then_ok _ _ _ h6 in
      client_settings-IsSound engine auth user entries c (refuted _ (require_ok _ _ alone e6))
        (refuted _ (require_ok _ _ matching e7)) h7

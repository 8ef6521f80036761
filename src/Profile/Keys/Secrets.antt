-- ===== src/Profile/Keys/Secrets.antt =====
-- profile.py `_reject_credentials`: which documents it lets through.
use execution_auto.Base.{
  ℕ, suc, ◌≡◌, ◌⊎◌, subst, sym, false, Text, lit, str_nat, ◌++◌, arith, ok, inl, inr,
}
use execution_auto.Profile.Toml.{
  Toml, text, integer, boolean, other, array, table, Items, no_items, item, Entries, no_entries,
  entry, Library,
}
use execution_auto.Profile.Keys.{
  is_secret, inner_place, reject_credentials, reject_entries, reject_items,
}

-- The key occurs in the value, at any depth.
unfoldable mutual
  pub HasKey : Text → Toml → Type 0
  HasKey key (table entries) = HasKeyEntries key entries
  HasKey key (array items) = HasKeyItems key items
  HasKey key (text t) = ⊥
  HasKey key (integer n) = ⊥
  HasKey key (boolean b) = ⊥
  HasKey key (other t) = ⊥

  pub HasKeyEntries : Text → Entries → Type 0
  HasKeyEntries key no_entries = ⊥
  HasKeyEntries key (entry k v rest) = (key ≡ k) ⊎ (HasKey key v ⊎ HasKeyEntries key rest)

  pub HasKeyItems : Text → Items → Type 0
  HasKeyItems key no_items = ⊥
  HasKeyItems key (item v rest) = HasKey key v ⊎ HasKeyItems key rest

module _ (lib : Library) (source key : Text) where
  mutual
    unfolding reject_credentials reject_entries reject_items HasKey HasKeyEntries HasKeyItems

    reject_credentials_sound :
        (place : Text) (v : Toml)
        → reject_credentials lib source place v ≡ ok tt
        → HasKey key v
        → is_secret lib key ≡ false
    reject_credentials_sound place (table entries) h k = reject_entries_sound place entries h k
    reject_credentials_sound place (array items) h k = reject_items_sound place 0 items h k
    reject_credentials_sound place (text t) h k = absurd k
    reject_credentials_sound place (integer n) h k = absurd k
    reject_credentials_sound place (boolean b) h k = absurd k
    reject_credentials_sound place (other t) h k = absurd k

    pub reject_entries_sound :
        (place : Text) (entries : Entries)
        → reject_entries lib source place entries ≡ ok tt
        → HasKeyEntries key entries
        → is_secret lib key ≡ false
    reject_entries_sound place no_entries h k = absurd k
    reject_entries_sound place (entry j v rest) h (inl same) =
        subst (λ i. is_secret lib i ≡ false) (sym same) (ground arith)
    reject_entries_sound place (entry j v rest) h (inr (inl inside)) =
        reject_credentials_sound (inner_place place j) v (ground arith) inside
    reject_entries_sound place (entry j v rest) h (inr (inr behind)) =
        reject_entries_sound place rest (ground arith) behind

    reject_items_sound :
        (place : Text) (index : ℕ) (items : Items)
        → reject_items lib source place index items ≡ ok tt
        → HasKeyItems key items
        → is_secret lib key ≡ false
    reject_items_sound place index no_items h k = absurd k
    reject_items_sound place index (item v rest) h (inl inside) =
        reject_credentials_sound (place ++ (lit "[" ++ (str_nat index ++ lit "]"))) v (ground arith)
          inside
    reject_items_sound place index (item v rest) h (inr behind) =
        reject_items_sound place (suc index) rest (ground arith) behind

-- ===== src/Profile/Keys.antt =====
-- profile.py `_normalize_key`, `_reject_credentials`, `_reject_unknown` and the readers of one key. A
-- raised `ReconciliationError` is `err` with its message.
pub mod Secrets
use execution_auto.Base.{
  ℕ, suc, Bool, true, false, not, ◌&&◌, ◌||◌, Option, none, some, List, [], ◌∷◌, ◌++◌,
  if◌then◌else◌, keep, leb, Text, lit, mem_text, is_empty, is_blank, strip, join, str_nat,
  sorted_set, Result, ok, err, and_then, ℤ, pos, negsuc,
}
use execution_auto.Profile.Toml.{
  Toml, text, integer, boolean, other, array, table, Items, no_items, item, Entries, no_entries,
  entry, Library, get,
}

-- `FORBIDDEN_KEY_NAMES`
unfoldable pub forbidden_key_names : List Text
unfolding lit
forbidden_key_names =
    lit "password"
    ∷ lit "pwd"
    ∷ lit "passwd"
    ∷ lit "pass"
    ∷ lit "secret"
    ∷ lit "secrets"
    ∷ lit "secretkey"
    ∷ lit "clientsecret"
    ∷ lit "token"
    ∷ lit "accesstoken"
    ∷ lit "authtoken"
    ∷ lit "bearertoken"
    ∷ lit "refreshtoken"
    ∷ lit "sastoken"
    ∷ lit "apikey"
    ∷ lit "apitoken"
    ∷ lit "credential"
    ∷ lit "credentials"
    ∷ lit "passphrase"
    ∷ lit "privatekey"
    ∷ lit "connectionstring"
    ∷ []

-- `f" in {where}" if where else ""`
abbrev pub in_place : Text → Text
in_place [] = []
in_place (c ∷ place) = lit " in " ++ c ∷ place

-- `f"{where}.{key}" if where else f"[{key}]"`
abbrev pub inner_place : Text → Text → Text
inner_place [] key = lit "[" ++ (key ++ lit "]")
inner_place (c ∷ place) key = c ∷ (place ++ (lit "." ++ key))

module _ (lib : Library) where
  -- `_normalize_key`
  unfoldable pub normalize_key : Text → Text
  unfolding keep strip
  normalize_key key = keep lib.is_alnum (lib.casefold (strip key))

  unfoldable pub is_secret : Text → Bool
  unfolding normalize_key mem_text
  is_secret key = mem_text (normalize_key key) forbidden_key_names

  abbrev pub secret_message : Text → Text → Text → Text
  secret_message source place key =
      source
      ++ (lit ": remove '"
          ++ (key
              ++ (lit "'"
                  ++ (in_place place
                      ++ lit
                          ". A profile must never contain a password or any other credential: passwords are typed at runtime, or avoided entirely with authentication = \"windows\". [FORBIDDEN_SECRET_KEY]"))))

  -- `_reject_credentials`
  unfoldable mutual
    pub reject_credentials : Text → Text → Toml → Result Text (Unit {0})
    reject_credentials source place (table entries) = reject_entries source place entries
    reject_credentials source place (array items) = reject_items source place 0 items
    reject_credentials source place (text t) = ok tt
    reject_credentials source place (integer n) = ok tt
    reject_credentials source place (boolean b) = ok tt
    reject_credentials source place (other t) = ok tt

    pub reject_entries : Text → Text → Entries → Result Text (Unit {0})
    reject_entries source place no_entries = ok tt
    reject_entries source place (entry key value rest) =
        let here = reject_credentials source (inner_place place key) value in
        let behind = reject_entries source place rest in
        if is_secret key
        then err (secret_message source place key)
        else elim here [ ok u ↦ behind | err message ↦ err message ]

    pub reject_items : Text → Text → ℕ → Items → Result Text (Unit {0})
    reject_items source place index no_items = ok tt
    reject_items source place index (item value rest) =
        let here =
          reject_credentials source (place ++ (lit "[" ++ (str_nat index ++ lit "]"))) value in
        let behind = reject_items source place (suc index) rest in
        elim here [ ok u ↦ behind | err message ↦ err message ]

-- The keys that are not allowed, sorted
unfoldable pub unknown_keys : List Text → Entries → List Text
unfolding mem_text
unknown_keys allowed no_entries = []
unknown_keys allowed (entry key value rest) =
    let others = unknown_keys allowed rest in if mem_text key allowed then others else key ∷ others

-- `_reject_unknown`; the allowed keys are given in the order in which they are shown.
unfoldable pub reject_unknown : Text → Text → List Text → Entries → Result Text (Unit {0})
unfolding unknown_keys sorted_set join lit
reject_unknown source place allowed entries = elim (sorted_set (unknown_keys allowed entries)) [
  | [] ↦ ok tt
  | k ∷ ks ↦ err (
      source
      ++ (lit ": unknown key(s)"
          ++ (in_place place
              ++ (lit ": "
                  ++ (join (lit ", ") (k ∷ ks)
                      ++ (lit ". Allowed: " ++ join (lit ", ") allowed))))))
]

abbrev pub must_be : Text → Text → Text → Text → Text
must_be source place key what = source ++ (lit ": " ++ (place ++ (lit " " ++ (key ++ what))))

-- `_optional_string`
unfoldable pub optional_string : Text → Text → Text → Entries → Result Text (Option Text)
unfolding get is_blank strip lit
optional_string source place key entries = elim (get key entries) [
  | none ↦ ok none
  | some (text t) ↦
      if is_blank t
      then err (must_be source place key (lit " must be a non-empty string"))
      else ok (some (strip t))
  | some _ ↦ err (must_be source place key (lit " must be a non-empty string"))
]

-- `_optional_bool`
unfoldable pub optional_bool : Text → Text → Text → Entries → Result Text (Option Bool)
unfolding get lit
optional_bool source place key entries = elim (get key entries) [
  | none ↦ ok none
  | some (boolean b) ↦ ok (some b)
  | some _ ↦ err (must_be source place key (lit " must be true or false"))
]

abbrev pub max_port : ℕ
max_port = 65535

abbrev pub port_message : Text → Text → Text → Text
port_message source place key =
    must_be source place key (lit " must be a whole number between 1 and " ++ str_nat max_port)

-- A blank text means no port.
unfoldable pub port_of : Text → Text → Text → Toml → Result Text (Option ℕ)
unfolding is_blank lit str_nat
port_of source place key (integer (pos n)) =
    if leb 1 n && leb n max_port then ok (some n) else err (port_message source place key)
port_of source place key (text t) =
    if is_blank t then ok none else err (port_message source place key)
port_of source place key value = err (port_message source place key)

-- `_optional_port`
unfoldable pub optional_port : Text → Text → Text → Entries → Result Text (Option ℕ)
unfolding get port_of
optional_port source place key entries = elim (get key entries) [
  | none ↦ ok none
  | some value ↦ port_of source place key value
]

-- ===== src/Security/Redaction.antt =====
-- security/redaction.py: every message passes here before it is shown. The patterns that mask
-- credentials are a parameter, `mask`; what is done with the masked text is modelled.
pub mod Bounds
use execution_auto.Base.{
  ℕ, zero, suc, ◌-◌, Bool, true, false, ◌||◌, List, [], ◌∷◌, ◌++◌, leb, if◌then◌else◌, length, Text,
  lit, is_empty, rstrip, take, join, fields,
}

-- `truncate`
unfoldable pub truncate : Text → ℕ → Text
unfolding take rstrip
truncate text max_length =
    if leb max_length 0 || leb (length text) max_length
    then text
    else rstrip (take (max_length - 3) text) ++ lit "..."

-- `sanitize_text`
unfoldable pub sanitize_text : (Text → Text) → Text → ℕ → Text
unfolding truncate is_empty join fields lit
sanitize_text mask text max_length =
    if is_empty text then [] else truncate (join (lit " ") (fields (mask text))) max_length

-- `sanitize_error`, of an exception's type name and message
unfoldable pub sanitize_error : (Text → Text) → Text → Text → ℕ → Text
unfolding sanitize_text
sanitize_error mask name message max_length =
    let cleaned = sanitize_text mask message max_length in
    if is_empty cleaned then name else name ++ (lit ": " ++ cleaned)

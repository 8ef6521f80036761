-- ===== src/Security/SqlGuard.antt =====
-- security/sql_guard.py: the offline guard for read-only SQL. A position `i` of the source is the
-- text from there on, `sql[i:]`, so that `i = n` is the empty text.
pub mod Strip
pub mod Words
pub mod Accept
pub mod Opaque
mod Examples
use execution_auto.Base.{
  ℕ, zero, suc, ◌+◌, ◌-◌, Bool, true, false, not, ◌&&◌, ◌||◌, Option, none, some, List, [], ◌∷◌,
  ◌++◌, map, ltb, leb, ◌==◌, if◌then◌else◌, length, keep, Text, lit, text_eq, mem_text, is_blank,
  upper_ascii, Result, ok, err,
}

-- Each way in which `assert_read_only` raises, with what the message quotes.
pub data Rejection : Type 0 where
  empty_sql no_statement no_keyword : Rejection
  too_long : ℕ → Rejection
  many_statements : ℕ → Rejection
  wrong_start : Text → Rejection
  forbidden_keyword : Text → Text → Rejection

abbrev pub max_sql_length : ℕ
max_sql_length = 100000

-- `_FORBIDDEN_TOKENS`
unfoldable pub forbidden_tokens : List (Text × Text)
unfolding lit
forbidden_tokens =
    (lit "INSERT", lit "data modification")
    ∷ (lit "UPDATE", lit "data modification")
    ∷ (lit "DELETE", lit "data modification")
    ∷ (lit "MERGE", lit "data modification")
    ∷ (lit "UPSERT", lit "data modification")
    ∷ (lit "INTO", lit "data modification (SELECT ... INTO writes a table)")
    ∷ (lit "CREATE", lit "schema modification")
    ∷ (lit "ALTER", lit "schema modification")
    ∷ (lit "DROP", lit "schema modification")
    ∷ (lit "TRUNCATE", lit "schema modification")
    ∷ (lit "RENAME", lit "schema modification")
    ∷ (lit "COMMENT", lit "schema modification")
    ∷ (lit "EXEC", lit "procedural execution")
    ∷ (lit "EXECUTE", lit "procedural execution")
    ∷ (lit "CALL", lit "procedural execution")
    ∷ (lit "DECLARE", lit "procedural execution")
    ∷ (lit "BEGIN", lit "procedural execution")
    ∷ (lit "WAITFOR", lit "procedural execution")
    ∷ (lit "COMMIT", lit "transaction control")
    ∷ (lit "ROLLBACK", lit "transaction control")
    ∷ (lit "SAVEPOINT", lit "transaction control")
    ∷ (lit "TRANSACTION", lit "transaction control")
    ∷ (lit "TRAN", lit "transaction control")
    ∷ (lit "SET", lit "session control")
    ∷ (lit "USE", lit "session control")
    ∷ (lit "GRANT", lit "privilege change")
    ∷ (lit "REVOKE", lit "privilege change")
    ∷ (lit "DENY", lit "privilege change")
    ∷ (lit "BACKUP", lit "administrative command")
    ∷ (lit "RESTORE", lit "administrative command")
    ∷ (lit "SHUTDOWN", lit "administrative command")
    ∷ (lit "KILL", lit "administrative command")
    ∷ (lit "RECONFIGURE", lit "administrative command")
    ∷ (lit "XP_CMDSHELL", lit "operating-system access")
    ∷ (lit "SP_EXECUTESQL", lit "dynamic SQL execution")
    ∷ (lit "OPENROWSET", lit "external data access")
    ∷ (lit "OPENQUERY", lit "external data access")
    ∷ (lit "OPENDATASOURCE", lit "external data access")
    ∷ (lit "DBMS_SCHEDULER", lit "external data access")
    ∷ (lit "UTL_FILE", lit "operating-system access")
    ∷ (lit "UTL_HTTP", lit "network access")
    ∷ []

-- `_ALLOWED_FIRST_TOKENS`
unfoldable pub allowed_first_tokens : List Text
unfolding lit
allowed_first_tokens = lit "SELECT" ∷ lit "WITH" ∷ []

-- `_FORBIDDEN_TOKENS.get(token)`
unfoldable pub reason_for : Text → List (Text × Text) → Option Text
unfolding text_eq
reason_for token [] = none
reason_for token ((t, reason) ∷ rest) =
    if text_eq token t then some reason else reason_for token rest

-- `_WORD_RE`: a letter or `_`, then letters, digits, `_`, `$` and `#`.
abbrev pub is_letter : ℕ → Bool
is_letter c = (leb b'A' c && leb c b'Z') || (leb b'a' c && leb c b'z')

unfoldable pub starts_word : ℕ → Bool
starts_word c = is_letter c || c == b'_'

unfoldable pub continues_word : ℕ → Bool
unfolding starts_word
continues_word c = starts_word c || ((leb b'0' c && leb c b'9') || (c == b'$' || c == b'#'))

-- `_WORD_RE.finditer`: `some w` while inside a word, of which `w` has been read.
unfoldable pub words_from : Option Text → Text → List Text
words_from none [] = []
words_from (some w) [] = w ∷ []
words_from none (c ∷ s) = words_from (if starts_word c then some (c ∷ []) else none) s
words_from (some w) (c ∷ s) =
    let longer = words_from (some (w ++ c ∷ [])) s in
    let ended = w ∷ words_from none s in if continues_word c then longer else ended

unfoldable pub words : Text → List Text
unfolding words_from starts_word continues_word
words s = words_from none s

-- `match.group(0).upper()`; a word is ASCII.
unfoldable pub upper : Text → Text
unfolding upper_ascii
upper w = map upper_ascii w

-- `s.split(";")`
unfoldable pub split_from : Text → Text → List Text
split_from seg [] = seg ∷ []
split_from seg (c ∷ s) =
    let next = seg ∷ split_from [] s in
    let longer = split_from (seg ++ c ∷ []) s in if c == b';' then next else longer

unfoldable pub split_statements : Text → List Text
unfolding split_from
split_statements s = split_from [] s

-- `_skip_to_end_of_line`
unfoldable pub skip_to_end_of_line : Text → Text
skip_to_end_of_line [] = []
skip_to_end_of_line (c ∷ s) = let rest = skip_to_end_of_line s in if c == b'\n' then s else rest

-- The loop of `_skip_block_comment`. It is entered at an opening, so `depth` is at least 1 wherever
-- a closing is read.
unfoldable pub skip_block_comment_from : ℕ → Text → Text
skip_block_comment_from depth [] = []
skip_block_comment_from depth (c ∷ []) = []
skip_block_comment_from depth (c ∷ d ∷ s) =
    let inner = skip_block_comment_from (depth + 1) s in
    let outer = skip_block_comment_from (depth - 1) s in
    let next = skip_block_comment_from depth (d ∷ s) in
    if c == b'/' && d == b'*'
    then inner
    else if c == b'*' && d == b'/'
    then (if depth - 1 == 0 then s else outer)
    else next

-- `_skip_block_comment`
unfoldable pub skip_block_comment : Text → Text
unfolding skip_block_comment_from
skip_block_comment s = skip_block_comment_from 0 s

-- The loop of `_skip_quoted` and, at `]`, of `_skip_bracketed`.
unfoldable pub skip_to_close : ℕ → Text → Text
skip_to_close close [] = []
skip_to_close close (c ∷ []) = []
skip_to_close close (c ∷ d ∷ s) =
    let escaped = skip_to_close close s in
    let next = skip_to_close close (d ∷ s) in
    if c == close then (if d == close then escaped else d ∷ s) else next

-- `_skip_quoted`, from behind the opening quote
unfoldable pub skip_quoted : Text → ℕ → Text
unfolding skip_to_close
skip_quoted s quote = skip_to_close quote s

-- `_skip_bracketed`, from behind the opening bracket
unfoldable pub skip_bracketed : Text → Text
unfolding skip_to_close
skip_bracketed s = skip_to_close b']' s

abbrev pub quoted_identifier : Text
quoted_identifier = b'"' ∷ b'q' ∷ b'"' ∷ []

abbrev pub empty_literal : Text
empty_literal = b'\'' ∷ b'\'' ∷ []

-- One turn of the loop of `strip_comments_and_literals`: what it writes, and where it goes on.
-- `next_is` tests the character behind `c`.
abbrev pub next_is : ℕ → Text → Bool
next_is d [] = false
next_is d (e ∷ s) = e == d

unfoldable pub strip_turn : ℕ → Text → Text × Text
unfolding skip_to_end_of_line skip_block_comment skip_quoted skip_bracketed
strip_turn c s =
    if c == b'-' && next_is b'-' s
    then ([], skip_to_end_of_line (c ∷ s))
    else if c == b'/' && next_is b'*' s
    then ([], skip_block_comment (c ∷ s))
    else if c == b'\''
    then (empty_literal, skip_quoted s b'\'')
    else if c == b'"'
    then (quoted_identifier, skip_quoted s b'"')
    else if c == b'['
    then (quoted_identifier, skip_bracketed s)
    else (c ∷ [], s)

-- The loop, on fuel.
unfoldable pub strip_from : ℕ → Text → Text
unfolding strip_turn
strip_from zero s = []
strip_from (suc f) [] = []
strip_from (suc f) (c ∷ s) = let (out, rest) = strip_turn c s in out ++ strip_from f rest

unfoldable pub strip_comments_and_literals : Text → Text
unfolding strip_from
strip_comments_and_literals sql = strip_from (length sql) sql

-- The scan for forbidden words, in the order of the text.
unfoldable pub check_words : List Text → Result Rejection (Unit {0})
unfolding reason_for upper
check_words [] = ok tt
check_words (w ∷ ws) = elim (reason_for (upper w) forbidden_tokens) [
  | some reason ↦ err (forbidden_keyword (upper w) reason)
  | none ↦ check_words ws
]

-- The checks on `statements[0]`.
unfoldable pub check_statement : Text → List Text → Result Rejection (Unit {0})
unfolding check_words mem_text
check_statement sql [] = err no_keyword
check_statement sql (first ∷ rest) =
    if mem_text (upper first) allowed_first_tokens
    then check_words (first ∷ rest)
    else err (wrong_start (upper first))

unfoldable pub check_statements : List Text → Result Rejection (Unit {0})
unfolding check_statement words
check_statements [] = err no_statement
check_statements (s ∷ []) = check_statement s (words s)
check_statements (s ∷ t ∷ rest) = err (many_statements (length (s ∷ t ∷ rest)))

abbrev pub not_blank : Text → Bool
not_blank s = not (is_blank s)

unfoldable pub check_stripped : Text → Result Rejection (Unit {0})
unfolding check_statements split_statements keep is_blank
check_stripped stripped =
    if is_blank stripped
    then err no_statement
    else check_statements (keep not_blank (split_statements stripped))

-- `assert_read_only`; `none` is Python's `None`.
unfoldable pub assert_read_only : Option Text → Result Rejection Text
unfolding check_stripped strip_comments_and_literals is_blank
assert_read_only none = err empty_sql
assert_read_only (some sql) =
    if is_blank sql
    then err empty_sql
    else if ltb max_sql_length (length sql)
    then err (too_long (length sql))
    else elim (check_stripped (strip_comments_and_literals sql)) [ ok _ ↦ ok sql | err e ↦ err e ]

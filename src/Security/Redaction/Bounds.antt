-- ===== src/Security/Redaction/Bounds.antt =====
-- security/redaction.py: the length of a sanitized message.
use execution_auto.Base.{
  ℕ, zero, suc, ◌-◌, ◌≤◌, [], ◌∷◌, arith, length, length-append, Text, lit, rstrip, take, join,
  fields,
}
use execution_auto.Security.Redaction.{truncate, sanitize_text}

length-take-le : (n : ℕ) (s : Text) → length (take n s) ≤ n
unfolding take
length-take-le zero s = omega arith
length-take-le (suc n) [] = omega arith
length-take-le (suc n) (c ∷ s) = omega (arith, length-take-le n s)

length-rstrip-le : (s : Text) → length (rstrip s) ≤ length s
unfolding rstrip
length-rstrip-le [] = omega arith
length-rstrip-le (c ∷ s) = ground (arith, length-rstrip-le s)

-- A text that `truncate` shortens to a limit of at least 3 fits the limit, its ellipsis included.
pub length-truncate-le :
    (s : Text) (max_length : ℕ) → 3 ≤ max_length → length (truncate s max_length) ≤ max_length
unfolding truncate lit
length-truncate-le s m h = ground (
  arith,
  length-take-le (m - 3) s,
  length-rstrip-le (take (m - 3) s),
  length-append (rstrip (take (m - 3) s)) (lit "..."),
)

-- Whatever the patterns do, a sanitized message fits a limit of at least 3.
pub length-sanitize_text-le :
    (mask : Text → Text) (s : Text) (max_length : ℕ)
    → 3 ≤ max_length
    → length (sanitize_text mask s max_length) ≤ max_length
unfolding sanitize_text
length-sanitize_text-le mask s m h =
    ground (arith, length-truncate-le (join (lit " ") (fields (mask s))) m h)

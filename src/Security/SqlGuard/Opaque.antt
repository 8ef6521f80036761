-- ===== src/Security/SqlGuard/Opaque.antt =====
-- security/sql_guard.py: literals, quoted identifiers and comments in the stripped text.
use execution_auto.Base.{
  ℕ, ◌≡◌, ◌≢◌, refl, ap, ◌∙◌, sym, Bool, true, false, ◌||◌, [], ◌∷◌, ◌++◌, arith, ◌==◌,
  if◌then◌else◌, All, Text,
}
use execution_auto.Security.SqlGuard.{
  skip_to_close, skip_to_end_of_line, next_is, strip_turn, strip_comments_and_literals,
  empty_literal, check_stripped,
}
use execution_auto.Security.SqlGuard.Strip.{strip-turn}

-- A character that opens no literal, identifier or comment, whatever follows it.
abbrev pub is_plain : ℕ → Bool
is_plain c =
    if c == b'-' || (c == b'/' || (c == b'\'' || (c == b'"' || c == b'['))) then false else true

abbrev pub IsPlain : Text → Type 0
IsPlain = All (λ c. is_plain c ≡ true)

abbrev pub Lacks : ℕ → Text → Type 0
Lacks q = All (λ c. c ≢ q)

skip_to_close_end :
    (q : ℕ) (body rest : Text)
    → Lacks q body
    → next_is q rest ≡ false
    → skip_to_close q (body ++ q ∷ rest) ≡ rest
unfolding skip_to_close
skip_to_close_end q [] [] lacks end = refl
skip_to_close_end q [] (d ∷ rest) lacks end = ground arith
skip_to_close_end q (c ∷ []) rest lacks end = ground (arith, skip_to_close_end q [] rest tt end)
skip_to_close_end q (c ∷ d ∷ body) rest lacks end =
    ground (arith, skip_to_close_end q (d ∷ body) rest lacks.1 end)

-- A string literal without an inner quote is written as two quotes, whatever it holds, and the
-- text behind it is stripped as it stands.
pub strip_literal :
    (body rest : Text)
    → Lacks b'\'' body
    → next_is b'\'' rest ≡ false
    → strip_comments_and_literals (b'\'' ∷ (body ++ b'\'' ∷ rest))
      ≡ empty_literal ++ strip_comments_and_literals rest
strip_literal body rest lacks end =
    strip-turn b'\'' (body ++ b'\'' ∷ rest)
    ∙ unfold strip_turn in
      ap (λ t. empty_literal ++ strip_comments_and_literals t)
        (skip_to_close_end b'\'' body rest lacks end)

strip_turn_plain : (c : ℕ) (s : Text) → is_plain c ≡ true → strip_turn c s ≡ (c ∷ [], s)
unfolding strip_turn
strip_turn_plain c s h = ground arith

-- Plain text is copied.
pub strip_plain :
    (pre s : Text)
    → IsPlain pre
    → strip_comments_and_literals (pre ++ s) ≡ pre ++ strip_comments_and_literals s
strip_plain [] s h = refl
strip_plain (c ∷ pre) s h =
    rw (strip-turn c (pre ++ s), strip_turn_plain c (pre ++ s) h.0)
      (ap (λ t. c ∷ t) (strip_plain pre s h.1))

-- Two queries that differ only in what one string literal holds are stripped to the same text, so
-- the checks on the stripped text decide the same of both.
pub literal_opaque :
    (pre a b rest : Text)
    → IsPlain pre
    → Lacks b'\'' a
    → Lacks b'\'' b
    → next_is b'\'' rest ≡ false
    → check_stripped (strip_comments_and_literals (pre ++ b'\'' ∷ (a ++ b'\'' ∷ rest)))
      ≡ check_stripped (strip_comments_and_literals (pre ++ b'\'' ∷ (b ++ b'\'' ∷ rest)))
literal_opaque pre a b rest plain no_a no_b end = ap check_stripped (
    strip_plain pre _ plain
    ∙ ap (λ t. pre ++ t) (strip_literal a rest no_a end ∙ sym (strip_literal b rest no_b end))
    ∙ sym (strip_plain pre _ plain))

skip_line_end :
    (body rest : Text) → Lacks b'\n' body → skip_to_end_of_line (body ++ b'\n' ∷ rest) ≡ rest
unfolding skip_to_end_of_line
skip_line_end [] rest lacks = ground arith
skip_line_end (c ∷ body) rest lacks = ground (arith, skip_line_end body rest lacks.1)

-- A line comment disappears with the end of its line, whatever it holds.
pub strip_line_comment :
    (body rest : Text)
    → Lacks b'\n' body
    → strip_comments_and_literals (b'-' ∷ b'-' ∷ (body ++ b'\n' ∷ rest))
      ≡ strip_comments_and_literals rest
strip_line_comment body rest lacks =
    strip-turn b'-' (b'-' ∷ (body ++ b'\n' ∷ rest))
    ∙ unfold strip_turn in
      ap strip_comments_and_literals
        (skip_line_end (b'-' ∷ b'-' ∷ body) rest (omega arith, (omega arith, lacks)))

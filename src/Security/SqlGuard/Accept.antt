-- ===== src/Security/SqlGuard/Accept.antt =====
-- security/sql_guard.py `assert_read_only`: what is accepted and what is refused.
use mathlib.Core.List.{append-nil}
use mathlib.Core.Path.{subst}
use execution_auto.Base.{
  ◌≤◌, ◌≡◌, refl, ap, ◌∙◌, sym, true, false, none, some, List, [], ◌∷◌, arith, inl, inr,
  Option-cases, Bool-cases, length, keep, All, Text, mem_text, is_blank, ok, Result-cases,
}
use execution_auto.Security.SqlGuard.{
  max_sql_length, forbidden_tokens, allowed_first_tokens, reason_for, upper, words,
  split_statements, not_blank, strip_comments_and_literals, check_words, check_statement,
  check_statements, check_stripped, assert_read_only,
}
use execution_auto.Security.SqlGuard.Words.{statement_words, words-split}

abbrev pub IsAllowed : Text → Type 0
IsAllowed w = reason_for (upper w) forbidden_tokens ≡ none

-- The words of a read-only statement: it starts with SELECT or WITH, and no word is forbidden.
pub record IsReadOnly (ws : List Text) : Type 0 where
  pub first : Text
  pub rest : List Text
  pub shape : ws ≡ first ∷ rest
  pub starts : mem_text (upper first) allowed_first_tokens ≡ true
  pub allowed : All IsAllowed ws

check_words_sound : (ws : List Text) → check_words ws ≡ ok tt → All IsAllowed ws
unfolding check_words
check_words_sound [] h = tt
check_words_sound (w ∷ ws) h = elim (Option-cases (reason_for (upper w) forbidden_tokens)) [
  | inl free ↦ (free, check_words_sound ws (ground arith))
  | inr (reason, e) ↦ absurd (ground arith)
]

check_statement_sound :
    (sql : Text) (ws : List Text) → check_statement sql ws ≡ ok tt → IsReadOnly ws
unfolding check_statement
check_statement_sound sql [] h = absurd (cc)
check_statement_sound sql (w ∷ ws) h = elim (Bool-cases (mem_text (upper w) allowed_first_tokens)) [
  | inl starts ↦ record {
    first = w;
    rest = ws;
    shape = refl;
    starts = starts;
    allowed = check_words_sound (w ∷ ws) (ground arith);
  }
  | inr other ↦ absurd (ground arith)
]

check_statements_sound :
    (segs : List Text)
    → check_statements segs ≡ ok tt
    → (s : Text) × (segs ≡ s ∷ []) × IsReadOnly (words s)
unfolding check_statements
check_statements_sound [] h = absurd (cc)
check_statements_sound (s ∷ []) h = (s, refl, check_statement_sound s (words s) h)
check_statements_sound (s ∷ t ∷ rest) h = absurd (cc)

check_stripped_sound : (s : Text) → check_stripped s ≡ ok tt → IsReadOnly (words s)
unfolding check_stripped
check_stripped_sound s h = elim (Bool-cases (is_blank s)) [
  | inl blank ↦ absurd (ground arith)
  | inr text ↦
      let (seg, one, sound) =
        check_statements_sound (keep not_blank (split_statements s)) (ground arith) in
      subst IsReadOnly (sym (append-nil (words seg)) ∙ ap statement_words (sym one) ∙ words-split s)
        sound
]

-- What is known of an accepted query: it is returned as it was given, it is not blank, it is at
-- most as long as the limit, and its words, with comments and literals taken out, are those of a
-- single read-only statement.
pub record IsAccepted (sql result : Text) : Type 0 where
  pub verbatim : result ≡ sql
  pub not_empty : is_blank sql ≡ false
  pub within : length sql ≤ max_sql_length
  pub read_only : IsReadOnly (words (strip_comments_and_literals sql))

-- A query that the guard accepts is returned verbatim and within the length limit; and in the whole
-- of its stripped text, not only in the first statement, the first word is SELECT or WITH and no
-- word is a forbidden keyword.
pub assert_read_only_sound :
    (sql result : Text) → assert_read_only (some sql) ≡ ok result → IsAccepted sql result
unfolding assert_read_only
assert_read_only_sound sql result h =
    elim (Result-cases (check_stripped (strip_comments_and_literals sql))) [
      | inl (u, passed) ↦ record {
        verbatim = ground arith;
        not_empty = ground arith;
        within = ground arith;
        read_only = check_stripped_sound (strip_comments_and_literals sql) passed;
      }
      | inr (e, failed) ↦ absurd (ground arith)
    ]

-- ===== src/Security/SqlGuard/Words.antt =====
-- security/sql_guard.py: the words of a text and of its statements.
use mathlib.Core.List.{append-nil, append_assoc}
use execution_auto.Base.{
  ℕ, ◌≡◌, refl, ◌∙◌, true, false, Option, none, some, List, [], ◌∷◌, ◌++◌, arith, inl, inr,
  Bool-cases, ◌==◌, if◌then◌else◌, keep, Text, is_space, is_blank,
}
use execution_auto.Security.SqlGuard.{
  starts_word, continues_word, words_from, words, split_from, split_statements, not_blank,
}

abbrev pub statement_words : List Text → List Text
statement_words [] = []
statement_words (s ∷ ss) = words s ++ statement_words ss

space_no_word : (c : ℕ) → is_space c ≡ true → starts_word c ≡ false
unfolding is_space starts_word
space_no_word c h = ground arith

words-blank : (s : Text) → is_blank s ≡ true → words_from none s ≡ []
unfolding words_from is_blank
words-blank [] h = refl
words-blank (c ∷ s) h = ground (arith, space_no_word c, words-blank s)

words_from-separator :
    (o : Option Text) (seg s : Text)
    → words_from o (seg ++ b';' ∷ s) ≡ words_from o seg ++ words_from none s
unfolding words_from continues_word
words_from-separator none [] s = refl
words_from-separator (some w) [] s = refl
words_from-separator none (c ∷ seg) s =
    words_from-separator (if starts_word c then some (c ∷ []) else none) seg s
words_from-separator (some w) (c ∷ seg) s =
    ground (arith, words_from-separator (some (w ++ c ∷ [])) seg s, words_from-separator none seg s)

statement_words-split :
    (seg s : Text) → statement_words (split_from seg s) ≡ words_from none (seg ++ s)
unfolding split_from words
statement_words-split seg [] = simp append-nil
statement_words-split seg (c ∷ s) = elim (Bool-cases (c == b';')) [
  | inl separates ↦ ground (arith, statement_words-split [] s, words_from-separator none seg s)
  | inr joins ↦ ground (arith, statement_words-split (seg ++ c ∷ []) s, append_assoc seg (c ∷ []) s)
]

statement_words-keep :
    (segs : List Text) → statement_words (keep not_blank segs) ≡ statement_words segs
unfolding keep words
statement_words-keep [] = refl
statement_words-keep (s ∷ segs) = ground (arith, statement_words-keep segs, words-blank s)

-- The words of a text are the words of its statements that are not blank, in order.
pub words-split : (s : Text) → statement_words (keep not_blank (split_statements s)) ≡ words s
unfolding split_statements words
words-split s = statement_words-keep (split_from [] s) ∙ statement_words-split [] s

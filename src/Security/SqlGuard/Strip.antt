-- ===== src/Security/SqlGuard/Strip.antt =====
-- security/sql_guard.py `strip_comments_and_literals`: its loop, turn by turn.
use execution_auto.Base.{
  ℕ, zero, suc, ◌+◌, ◌-◌, ◌≤◌, ◌≡◌, refl, ap, [], ◌∷◌, ◌++◌, arith, length, Text,
}
use execution_auto.Security.SqlGuard.{
  skip_to_end_of_line, skip_block_comment_from, skip_to_close, strip_turn, strip_from,
  strip_comments_and_literals,
}

skip_to_close-le : (close : ℕ) (s : Text) → length (skip_to_close close s) ≤ length s
unfolding skip_to_close
skip_to_close-le close [] = omega arith
skip_to_close-le close (c ∷ []) = omega arith
skip_to_close-le close (c ∷ d ∷ s) =
    ground (arith, skip_to_close-le close s, skip_to_close-le close (d ∷ s))

skip_to_end_of_line-lt : (c : ℕ) (s : Text) → length (skip_to_end_of_line (c ∷ s)) ≤ length s
unfolding skip_to_end_of_line
skip_to_end_of_line-lt c [] = ground arith
skip_to_end_of_line-lt c (d ∷ s) = ground (arith, skip_to_end_of_line-lt d s)

skip_block_comment_from-lt :
    (depth c : ℕ) (s : Text) → length (skip_block_comment_from depth (c ∷ s)) ≤ length s
unfolding skip_block_comment_from
skip_block_comment_from-lt depth c [] = omega arith
skip_block_comment_from-lt depth c (d ∷ []) = ground arith
skip_block_comment_from-lt depth c (d ∷ e ∷ s) = ground (
  arith,
  skip_block_comment_from-lt (depth + 1) e s,
  skip_block_comment_from-lt (depth - 1) e s,
  skip_block_comment_from-lt depth d (e ∷ s),
)

strip_turn-lt : (c : ℕ) (s : Text) → length (strip_turn c s).1 ≤ length s
unfolding strip_turn
strip_turn-lt c s = ground (
  arith,
  skip_to_end_of_line-lt c s,
  skip_block_comment_from-lt 0 c s,
  skip_to_close-le b'\'' s,
  skip_to_close-le b'"' s,
  skip_to_close-le b']' s,
)

-- Any fuel that covers the text gives the same result.
strip_from-stable :
    (f g : ℕ) (s : Text) → length s ≤ f → length s ≤ g → strip_from f s ≡ strip_from g s
unfolding strip_from
strip_from-stable zero zero s hf hg = refl
strip_from-stable zero (suc g) [] hf hg = refl
strip_from-stable zero (suc g) (c ∷ s) hf hg = absurd (omega arith)
strip_from-stable (suc f) zero [] hf hg = refl
strip_from-stable (suc f) zero (c ∷ s) hf hg = absurd (omega arith)
strip_from-stable (suc f) (suc g) [] hf hg = refl
strip_from-stable (suc f) (suc g) (c ∷ s) hf hg =
    ap (λ t. (strip_turn c s).0 ++ t)
      (strip_from-stable f g (strip_turn c s).1 (omega (arith, strip_turn-lt c s))
        (omega (arith, strip_turn-lt c s)))

-- The loop never runs out of fuel: on every text, stripping is what one turn writes, and then
-- stripping the text from where that turn goes on.
pub strip-turn :
    (c : ℕ) (s : Text)
    → strip_comments_and_literals (c ∷ s)
      ≡ (strip_turn c s).0 ++ strip_comments_and_literals (strip_turn c s).1
unfolding strip_comments_and_literals
strip-turn c s =
    ap (λ t. (strip_turn c s).0 ++ t)
      (strip_from-stable (length s) (length (strip_turn c s).1) (strip_turn c s).1
        (strip_turn-lt c s) (omega arith))

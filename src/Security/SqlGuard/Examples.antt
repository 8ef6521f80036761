-- ===== src/Security/SqlGuard/Examples.antt =====
-- Runs of the guard at concrete queries, and the theorems about it at inputs that meet their premises.
use execution_auto.Base.{◌≡◌, ◌≤◌, refl, some, lit, ok, err, arith, [], ◌++◌, length, Text}
use execution_auto.Security.SqlGuard.{
  assert_read_only, strip_comments_and_literals, forbidden_keyword, many_statements, no_statement,
  allowed_first_tokens, forbidden_tokens, check_stripped, strip_turn,
}
use execution_auto.Security.SqlGuard.Accept.{IsAccepted, assert_read_only_sound}
use execution_auto.Security.SqlGuard.Strip.{strip-turn}
use execution_auto.Security.SqlGuard.Opaque.{literal_opaque, strip_line_comment}
use execution_auto.Security.Redaction.{sanitize_text}
use execution_auto.Security.Redaction.Bounds.{length-sanitize_text-le}

runs_select :
    assert_read_only (some (lit "SELECT a -- x; DROP\n FROM [in;to] WHERE s = 'x;''DELETE'"))
    ≡ ok (lit "SELECT a -- x; DROP\n FROM [in;to] WHERE s = 'x;''DELETE'")
unfolding assert_read_only lit allowed_first_tokens forbidden_tokens
runs_select = refl

rejects_second : assert_read_only (some (lit "SELECT 1; SELECT 2;")) ≡ err (many_statements 2)
unfolding assert_read_only lit allowed_first_tokens forbidden_tokens
rejects_second = refl

rejects_into :
    assert_read_only (some (lit "with x as (select 1) select * InTo t"))
    ≡ err
        (forbidden_keyword (lit "INTO") (lit "data modification (SELECT ... INTO writes a table)"))
unfolding assert_read_only lit allowed_first_tokens forbidden_tokens
rejects_into = refl

nested_comment : strip_comments_and_literals (lit "a/* /* */ drop */b/*/c") ≡ lit "ab"
unfolding strip_comments_and_literals lit
nested_comment = refl

only_comment : assert_read_only (some (lit "/* SELECT 1 */")) ≡ err no_statement
unfolding assert_read_only lit allowed_first_tokens forbidden_tokens
only_comment = refl

abbrev counting : Text
unfolding lit
counting = lit "SELECT count(*) FROM t -- drop"

assert_read_only_sound_example : IsAccepted counting counting
unfolding assert_read_only lit allowed_first_tokens forbidden_tokens
assert_read_only_sound_example = assert_read_only_sound counting counting refl

literal_opaque_example :
    check_stripped (strip_comments_and_literals (lit "a = 'x'"))
    ≡ check_stripped (strip_comments_and_literals (lit "a = ';drop'"))
unfolding lit
literal_opaque_example =
    literal_opaque (lit "a = ") (lit "x") (lit ";drop") [] (refl, (refl, (refl, (refl, tt))))
      (omega arith, tt)
      (omega arith, (omega arith, (omega arith, (omega arith, (omega arith, tt))))) refl

strip_line_comment_example :
    strip_comments_and_literals (lit "--;'\nx") ≡ strip_comments_and_literals (lit "x")
unfolding lit
strip_line_comment_example =
    strip_line_comment (lit ";'") (lit "x") (omega arith, (omega arith, tt))

length-sanitize_text-le_example : length (sanitize_text (λ s. s) (lit "login  failed") 5) ≤ 5
length-sanitize_text-le_example =
    length-sanitize_text-le (λ s. s) (lit "login  failed") 5 (omega arith)

strip-turn_example :
    strip_comments_and_literals (lit "/*x*/y")
    ≡ (strip_turn b'/' (lit "*x*/y")).0
      ++ strip_comments_and_literals (strip_turn b'/' (lit "*x*/y")).1
unfolding lit
strip-turn_example = strip-turn b'/' (lit "*x*/y")

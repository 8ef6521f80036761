-- ===== src/Workbook/TestCases/Runnable.antt =====
-- workbook/testcases.py `_read_row`: what running and comparing a test relies on.
use execution_auto.Base.{
  ℕ, ◌≡◌, refl, subst, Bool, true, not, ◌&&◌, Option, some, List, arith, Text, lit, mem_text, ok,
  and_then_ok, require_ok, ok_injective, inl, inr, Bool-cases, Result-cases,
}
use execution_auto.Models.{ExecutionScope, uses_source, uses_target, ComparisonType, ResultType}
use execution_auto.Evaluation.Values.{Value, Python}
use execution_auto.Evaluation.Normalization.{conversion, uncaught, is_missing, normalize}
use execution_auto.Evaluation.Normalization.Typed.{normalize-HasType}
use execution_auto.Evaluation.Comparisons.{
  supports, is_two_sided, is_source_target, requires_expected_value,
}
use execution_auto.Evaluation.Comparisons.Total.{Holds}
use execution_auto.Security.SqlGuard.{assert_read_only}
use execution_auto.Workbook.Definitions.{Definition}
use execution_auto.Workbook.Cells.{Row, text_of, section_name}
use execution_auto.Workbook.RowChecks.{
  SideColumns, source_columns, target_columns, section_header, sql_header, check_section, check_sql,
  read_expected,
}
use execution_auto.Workbook.TestCases.{read_enabled}

abbrev pub IsReadOnlySql : Text → Type 0
IsReadOnlySql sql = (result : Text) × (assert_read_only (some sql) ≡ ok result)

module _ (py : Python) (row : Row) (row_number : ℕ) (test_id : Text) where
  check_section_sound :
      (scope : ExecutionScope) (known : List Text) (c : SideColumns) (u : Unit {0})
      → check_section py row row_number test_id scope known c ≡ ok u
      → c.uses scope ≡ true
      → mem_text (section_name py (text_of py (row (section_header c)))) known ≡ true
  unfolding check_section
  check_section_sound scope known c u h used = ground arith

  check_sql_sound :
      (scope : ExecutionScope) (c : SideColumns) (u : Unit {0})
      → check_sql py row row_number test_id scope c ≡ ok u
      → c.uses scope ≡ true
      → IsReadOnlySql (text_of py (row (sql_header c)))
  unfolding check_sql
  check_sql_sound scope c u h used =
      elim (Result-cases (assert_read_only (some (text_of py (row (sql_header c)))))) [
        | inl (result, passed) ↦ (result, passed)
        | inr (e, failed) ↦ absurd (ground arith)
      ]

  read_expected_sound :
      (c : ComparisonType) (scope : ExecutionScope) (t : ResultType) (v : Option Value)
      → read_expected py row row_number test_id c scope t ≡ ok v
      → requires_expected_value c scope ≡ true
      → Holds t v
  unfolding read_expected
  read_expected_sound c scope t v h needed =
      let raw = row (lit "Expected_Value") in
      elim (Bool-cases (is_missing raw)) [
        | inl missing ↦ absurd (ground arith)
        | inr given ↦ elim (Result-cases (normalize py raw t (lit "Expected_Value"))) [
          | inl (value, read) ↦
              subst (Holds t) {x = some value} (ground arith)
                (normalize-HasType py raw t (lit "Expected_Value") value read)
          | inr (conversion m, failed) ↦ absurd (ground arith)
          | inr (uncaught, failed) ↦ absurd (ground arith)
        ]
      ]

-- What is known of an enabled test that the reader returns.
pub record IsRunnable (known : List Text) (d : Definition) : Type 0 where
  pub supported : supports d.comparison d.result_type ≡ true
  pub sided : is_two_sided d.comparison ≡ true → is_source_target d.scope ≡ true
  pub source_known : uses_source d.scope ≡ true → mem_text d.source_section known ≡ true
  pub target_known : uses_target d.scope ≡ true → mem_text d.target_section known ≡ true
  pub source_safe : uses_source d.scope ≡ true → IsReadOnlySql d.source_sql
  pub target_safe : uses_target d.scope ≡ true → IsReadOnlySql d.target_sql
  pub expected :
      requires_expected_value d.comparison d.scope ≡ true → Holds d.result_type d.expected_value

two_sided_covered : (two all : Bool) → not (two && not all) ≡ true → two ≡ true → all ≡ true
two_sided_covered two all h t = ground arith

module _ (py : Python) (row : Row) (row_number : ℕ) (test_id : Text) where
  -- An enabled test that the reader returns has a comparison that supports its result type and
  -- finds the sides it needs; each side that it uses names a known section and has a query that
  -- the read-only guard accepts; and an expected value that its comparison needs is there and of
  -- the result type.
  pub read_enabled_sound :
      (known : List Text) (d : Definition)
      → read_enabled py row row_number test_id known ≡ ok d
      → IsRunnable known d
  unfolding read_enabled
  read_enabled_sound known d h =
      let (scope, _, h1) = and_then_ok _ _ _ h in
      let (comparison, _, h2) = and_then_ok _ _ _ h1 in
      let (result_type, _, h3) = and_then_ok _ _ _ h2 in
      let (u1, supported, h4) = and_then_ok _ _ _ h3 in
      let (u2, sided, h5) = and_then_ok _ _ _ h4 in
      let (allowed, _, h6) = and_then_ok _ _ _ h5 in
      let (u3, source_known, h7) = and_then_ok _ _ _ h6 in
      let (u4, target_known, h8) = and_then_ok _ _ _ h7 in
      let (u5, source_safe, h9) = and_then_ok _ _ _ h8 in
      let (u6, target_safe, h10) = and_then_ok _ _ _ h9 in
      let (expected, found, h11) = and_then_ok _ _ _ h10 in
      subst (IsRunnable known) (ok_injective _ _ _ refl h11) (record {
        supported = require_ok _ _ _ supported;
        sided = two_sided_covered _ _ (require_ok _ _ _ sided);
        source_known =
            check_section_sound py row row_number test_id scope known source_columns u3
              source_known;
        target_known =
            check_section_sound py row row_number test_id scope known target_columns u4
              target_known;
        source_safe = check_sql_sound py row row_number test_id scope source_columns u5 source_safe;
        target_safe = check_sql_sound py row row_number test_id scope target_columns u6 target_safe;
        expected =
            read_expected_sound py row row_number test_id comparison scope result_type expected
              found;
      })

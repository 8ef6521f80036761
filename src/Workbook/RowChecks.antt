-- ===== src/Workbook/RowChecks.antt =====
-- workbook/testcases.py: the checks of a row's sections, queries and expected value.
use execution_auto.Base.{
  ℕ, Bool, Option, none, some, List, ◌++◌, if◌then◌else◌, Text, lit, mem_text, is_empty, join,
  Result, ok, err,
}
use execution_auto.Models.{
  ExecutionScope, uses_source, uses_target, scope_text, ComparisonType, comparison_text, ResultType,
  TestStatus, Platform,
}
use execution_auto.Models.Codes.{ErrorCode}
use execution_auto.Evaluation.Values.{Value, Python}
use execution_auto.Evaluation.Normalization.{Raised, conversion, uncaught, is_missing, normalize}
use execution_auto.Evaluation.Comparisons.{requires_expected_value}
use execution_auto.Security.SqlGuard.{assert_read_only}
use execution_auto.Workbook.Cells.{
  Row, Refusal, rejection_text, problem_at, text_of, section_name, refused, crashed,
}

-- What the loops of `_check_scope_columns` and `_check_sql` have for a side
pub record SideColumns : Type 0 where
  pub side : Text
  pub lower_side : Text
  pub uses : ExecutionScope → Bool
  pub missing_section : ErrorCode
  pub unexpected_section : ErrorCode
  pub missing_sql : ErrorCode
  pub unexpected_sql : ErrorCode
  pub platform : Platform

abbrev pub source_columns : SideColumns
source_columns = record {
  side = lit "Source";
  lower_side = lit "source";
  uses = uses_source;
  missing_section = ErrorCode.missing_source_section;
  unexpected_section = ErrorCode.unexpected_source_section;
  missing_sql = ErrorCode.missing_source_sql;
  unexpected_sql = ErrorCode.unexpected_source_sql;
  platform = Platform.source;
}

abbrev pub target_columns : SideColumns
target_columns = record {
  side = lit "Target";
  lower_side = lit "target";
  uses = uses_target;
  missing_section = ErrorCode.missing_target_section;
  unexpected_section = ErrorCode.unexpected_target_section;
  missing_sql = ErrorCode.missing_target_sql;
  unexpected_sql = ErrorCode.unexpected_target_sql;
  platform = Platform.target;
}

abbrev pub section_header : SideColumns → Text
section_header c = c.side ++ lit "_Profile_Section"

abbrev pub sql_header : SideColumns → Text
sql_header c = c.side ++ lit "_SQL"

module _ (py : Python) (row : Row) (row_number : ℕ) (test_id : Text) where
  abbrev pub problem : ErrorCode → Text → Refusal
  problem code message = problem_at row_number test_id code message

  abbrev pub requires_text : ExecutionScope → Text → Text
  requires_text scope header =
      lit "Execution_Scope " ++ (scope_text scope ++ (lit " requires " ++ (header ++ lit ".")))

  -- One side of `_check_scope_columns`; the names that are known are folded and sorted.
  unfoldable pub check_section :
      ExecutionScope → List Text → SideColumns → Result Refusal (Unit {0})
  unfolding text_of section_name mem_text is_empty join lit
  check_section scope known c =
      let header = section_header c in
      let value = text_of py (row header) in
      if c.uses scope
      then if is_empty value
        then err (problem c.missing_section (requires_text scope header))
        else if mem_text (section_name py value) known
        then ok tt
        else err (
            problem c.missing_section (
              header
              ++ (lit " names '"
                  ++ (value
                      ++ (lit "', which is not a section of the profile (available: "
                          ++ (join (lit ", ") known ++ lit ")."))))))
      else if is_empty value
      then ok tt
      else err (
          problem c.unexpected_section (
            lit "Execution_Scope "
            ++ (scope_text scope
                ++ (lit " never opens the "
                    ++ (c.lower_side
                        ++ (lit " database, so "
                            ++ (header
                                ++ (lit " must be blank (found '" ++ (value ++ lit "').")))))))))

  -- One side of `_check_sql`
  unfoldable pub check_sql : ExecutionScope → SideColumns → Result Refusal (Unit {0})
  unfolding text_of is_empty assert_read_only rejection_text lit
  check_sql scope c =
      let header = sql_header c in
      let sql = text_of py (row header) in
      if c.uses scope
      then if is_empty sql
        then err (problem c.missing_sql (requires_text scope header))
        else elim (assert_read_only (some sql)) [
          | ok passed ↦ ok tt
          | err rejection ↦ err (
              refused (record {
                row_number = row_number;
                test_id = test_id;
                code = ErrorCode.unsafe_sql;
                message = rejection_text header rejection;
                platform = c.platform;
                status = TestStatus.config_error;
              }))
        ]
      else if is_empty sql
      then ok tt
      else err (
          problem c.unexpected_sql (
            lit "Execution_Scope "
            ++ (scope_text scope
                ++ (lit " never runs a "
                    ++ (c.lower_side
                        ++ (lit " query, so " ++ (header ++ lit " must be blank.")))))))

  abbrev pub expected_of : Result Raised Value → Result Refusal (Option Value)
  expected_of (ok v) = ok (some v)
  expected_of (err (conversion message)) = err (problem ErrorCode.type_conversion_error message)
  expected_of (err uncaught) = err crashed

  -- `_read_row` on `Expected_Value`
  unfoldable pub read_expected :
      ComparisonType → ExecutionScope → ResultType → Result Refusal (Option Value)
  unfolding requires_expected_value is_missing normalize comparison_text lit
  read_expected comparison scope result_type =
      let raw = row (lit "Expected_Value") in
      if is_missing raw
      then if requires_expected_value comparison scope
        then err (
            problem ErrorCode.missing_expected_value (
              lit "Comparison_Type "
              ++ (comparison_text comparison ++ lit " needs an Expected_Value.")))
        else ok none
      else expected_of (normalize py raw result_type (lit "Expected_Value"))

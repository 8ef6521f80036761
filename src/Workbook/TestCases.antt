-- ===== src/Workbook/TestCases.antt =====
-- workbook/testcases.py: reading the rows of the test-case sheet.
pub mod Runnable
pub mod Examples
pub mod Rows
use execution_auto.Base.{
  ℕ, Bool, true, false, not, ◌&&◌, ◌||◌, Option, none, some, List, [], ◌∷◌, ◌++◌, map, keep, ◌==◌,
  if◌then◌else◌, Text, lit, text_eq, mem_text, is_empty, strip, join, str_nat, lookup_text, Result,
  ok, err, ◌>>=◌, require, and_then, or_raise,
}
use execution_auto.Models.{
  ExecutionScope, source_target, source_only, target_only, uses_source, uses_target, scope_text,
  ComparisonType, comparison_text, ResultType, result_type_text, TestStatus, Platform,
}
use execution_auto.Models.Codes.{ErrorCode}
use execution_auto.Evaluation.Decimal.{Decimal, le, zero_decimal}
use execution_auto.Evaluation.Values.{Number, finite, special, Scalar, Value, Python}
use execution_auto.Evaluation.Normalization.{
  Raised, conversion, uncaught, is_missing, as_text, normalize,
}
use execution_auto.Evaluation.Comparisons.{
  supports, is_two_sided, is_source_target, requires_expected_value,
}
use execution_auto.Security.SqlGuard.{
  Rejection, empty_sql, no_statement, no_keyword, too_long, many_statements, wrong_start,
  forbidden_keyword, max_sql_length, assert_read_only,
}
use execution_auto.Workbook.Definitions.{Definition, Problem, Sheet}
use execution_auto.Workbook.Cells.{
  Row, Refusal, rejection_text, scopes, comparison_types, result_types, sorted_result_types,
  find_member, underscore, is_bracket, drop_brackets, drop_last_brackets, strip_brackets, yes_words,
  no_words, detail_columns, is_boolean, scope_or, comparison_or, result_type_or, problem_at,
  text_of, as_member, as_enabled, section_name, raw_text, bounded_below, tolerance, tolerances,
  refused, crashed,
}
use execution_auto.Workbook.RowChecks.{
  SideColumns, source_columns, target_columns, section_header, sql_header, problem, requires_text,
  check_section, check_sql, expected_of, read_expected,
}

module _ (py : Python) (row : Row) (row_number : ℕ) (test_id : Text) where
  abbrev not_one_of : Text → Text → List Text → Text
  not_one_of header found allowed =
      header
      ++ (lit " '" ++ (found ++ (lit "' is not one of: " ++ (join (lit ", ") allowed ++ lit "."))))

  abbrev pub tolerances_or_problem :
      Result Text (Decimal × Decimal) → Result Refusal (Decimal × Decimal)
  tolerances_or_problem (ok t) = ok t
  tolerances_or_problem (err message) =
      err (problem_at row_number test_id ErrorCode.invalid_tolerance message)

  abbrev pub details_of : List Text → List (Text × Text)
  details_of [] = []
  details_of (h ∷ hs) = (h, text_of py (row h)) ∷ details_of hs

  -- `_read_row` of a row that is not enabled
  abbrev pub disabled_definition : Definition
  disabled_definition = record {
    test_id = test_id;
    row_number = row_number;
    enabled = false;
    scope = scope_or (as_member py scope_text scopes (text_of py (row (lit "Execution_Scope"))));
    comparison =
        comparison_or (
          as_member py comparison_text comparison_types (text_of py (row (lit "Comparison_Type"))));
    result_type =
        result_type_or
          (as_member py result_type_text result_types (text_of py (row (lit "Result_Type"))));
    source_section = [];
    target_section = [];
    source_sql = [];
    target_sql = [];
    expected_value = none;
    expected_raw = Scalar.null;
    absolute_tolerance = zero_decimal;
    percentage_tolerance = zero_decimal;
    details = details_of detail_columns;
  }

  -- `_read_row` of an enabled row
  unfoldable pub read_enabled : List Text → Result Refusal Definition
  unfolding as_member text_of check_section check_sql read_expected tolerances section_name supports
      is_two_sided is_source_target lit join
  read_enabled known =
      let scope_found = text_of py (row (lit "Execution_Scope")) in
      let comparison_found = text_of py (row (lit "Comparison_Type")) in
      let result_type_found = text_of py (row (lit "Result_Type")) in
      and_then
        (or_raise (as_member py scope_text scopes scope_found) (
          problem_at row_number test_id ErrorCode.invalid_scope
            (not_one_of (lit "Execution_Scope") scope_found (map scope_text scopes))))
        (λ scope.
          and_then
            (or_raise (as_member py comparison_text comparison_types comparison_found) (
              problem_at row_number test_id ErrorCode.invalid_comparison_type (
                lit "Comparison_Type '"
                ++ (comparison_found
                    ++ (lit "' is not implemented. Supported: "
                        ++ (join (lit ", ") (map comparison_text comparison_types) ++ lit "."))))))
            (λ comparison.
              and_then
                (or_raise (as_member py result_type_text result_types result_type_found) (
                  problem_at row_number test_id ErrorCode.invalid_result_type (
                    not_one_of (lit "Result_Type") result_type_found
                      (map result_type_text result_types))))
                (λ result_type.
                  and_then
                    (require (supports comparison result_type) (
                      problem_at row_number test_id ErrorCode.invalid_result_type (
                        lit "Comparison_Type "
                        ++ (comparison_text comparison
                            ++ (lit " needs a Result_Type of "
                                ++ (join (lit ", ") (
                                      map result_type_text
                                        (keep (supports comparison) sorted_result_types))
                                    ++ (lit ", not "
                                        ++ (result_type_text result_type ++ lit "."))))))))
                    (λ supported.
                      and_then
                        (require (not (is_two_sided comparison && not (is_source_target scope))) (
                          problem_at row_number test_id ErrorCode.invalid_comparison_type (
                            lit "Comparison_Type "
                            ++ (comparison_text comparison
                                ++ (lit
                                      " compares two sides, so it needs Execution_Scope SOURCE_TARGET, not "
                                    ++ (scope_text scope ++ lit "."))))))
                        (λ sided. and_then (tolerances_or_problem (tolerances py row)) (λ allowed.
                          and_then
                            (check_section py row row_number test_id scope known source_columns)
                            (λ source_section.
                              and_then
                                (check_section py row row_number test_id scope known target_columns)
                                (λ target_section.
                                  and_then
                                    (check_sql py row row_number test_id scope source_columns)
                                    (λ source_sql.
                                      and_then
                                        (check_sql py row row_number test_id scope target_columns)
                                        (λ target_sql.
                                          and_then
                                            (read_expected py row row_number test_id comparison
                                              scope result_type)
                                            (λ expected. ok (record {
                                              test_id = test_id;
                                              row_number = row_number;
                                              enabled = true;
                                              scope = scope;
                                              comparison = comparison;
                                              result_type = result_type;
                                              source_section = section_name py (
                                                  text_of py (row (section_header source_columns)));
                                              target_section = section_name py (
                                                  text_of py (row (section_header target_columns)));
                                              source_sql =
                                                  text_of py (row (sql_header source_columns));
                                              target_sql =
                                                  text_of py (row (sql_header target_columns));
                                              expected_value = expected;
                                              expected_raw = row (lit "Expected_Value");
                                              absolute_tolerance = allowed.0;
                                              percentage_tolerance = allowed.1;
                                              details = details_of detail_columns;
                                            }))))))))))))

-- A row's definition or problem, ahead of those behind it
abbrev pub add_row : Result Refusal Definition → Option Sheet → Option Sheet
add_row (ok d) (some s) = some (record s { definitions = d ∷ s.definitions })
add_row (err (refused p)) (some s) = some (record s { problems = p ∷ s.problems })
add_row (err crashed) s = none
add_row _ none = none

module _ (py : Python) where
  -- `_read_row` behind the check of the id; an Enabled that is neither is a problem.
  abbrev pub read_by_enabled : List Text → ℕ → Row → Text → Option Bool → Result Refusal Definition
  read_by_enabled known row_number row test_id (some true) =
      read_enabled py row row_number test_id known
  read_by_enabled known row_number row test_id (some false) =
      ok (disabled_definition py row row_number test_id)
  read_by_enabled known row_number row test_id none = err (
      problem_at row_number test_id ErrorCode.invalid_enabled (
        lit "Enabled must be Yes or No (found '"
        ++ (text_of py (row (lit "Enabled")) ++ lit "').")))

  -- `_read_row`, with the ids that have been seen, each on its row
  unfoldable pub read_row :
      List Text → List (Text × ℕ) → ℕ → Row → Result Refusal Definition × List (Text × ℕ)
  unfolding text_of as_enabled read_enabled lookup_text is_empty lit str_nat
  read_row known seen row_number row =
      let test_id = text_of py (row (lit "Test_ID")) in
      if is_empty test_id
      then (
        err (
            problem_at row_number [] ErrorCode.missing_test_id
              (lit "Test_ID is empty but required.")),
        seen,
      )
      else elim (lookup_text test_id seen) [
        | some first ↦ (
          err (
              problem_at row_number test_id ErrorCode.duplicate_test_id (
                lit "Test_ID '"
                ++ (test_id
                    ++ (lit "' is already used on row "
                        ++ (str_nat first ++ lit "; ids must be unique."))))),
          seen,
        )
        | none ↦ (
          read_by_enabled known row_number row test_id
              (as_enabled py (text_of py (row (lit "Enabled")))),
          (test_id, row_number) ∷ seen,
        )
      ]

  -- The loop of `read_test_cases`, over the rows that are not blank
  unfoldable pub read_rows : List Text → List (Text × ℕ) → List (ℕ × Row) → Option Sheet
  unfolding read_row
  read_rows known seen [] = some (record { definitions = []; problems = [] })
  read_rows known seen ((row_number, row) ∷ rows) =
      let (result, seen') = read_row known seen row_number row in
      add_row result (read_rows known seen' rows)

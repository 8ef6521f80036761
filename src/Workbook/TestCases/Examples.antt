-- ===== src/Workbook/TestCases/Examples.antt =====
-- Rows of a sheet, read.
use execution_auto.Base.{
  ◌+◌, occurs, ◌≡◌, refl, true, none, some, List, [], ◌∷◌, if◌then◌else◌, Text, lit, text_eq, ok,
  pos, and_then,
}
use execution_auto.Models.{
  Platform, TestStatus, source_only, scope_text, comparison_text, result_type_text, uses_source,
  uses_target, ComparisonType, ResultType,
}
use execution_auto.Evaluation.Decimal.{zero_decimal}
use execution_auto.Evaluation.Values.{Scalar, Value, Python}
use execution_auto.Security.SqlGuard.{allowed_first_tokens, forbidden_tokens}
use execution_auto.Workbook.Definitions.{Definition, Sheet}
use execution_auto.Models.Codes.{ErrorCode}
use execution_auto.Workbook.TestCases.Rows.{
  definition_row, problem_row, input_row, read_rows-covers,
}
use execution_auto.Workbook.Cells.{Row, detail_columns}
use execution_auto.Workbook.TestCases.{read_enabled, read_rows, details_of}
use execution_auto.Workbook.TestCases.Runnable.{IsRunnable, read_enabled_sound}

abbrev pub plain_python : Python
plain_python = record {
  casefold = λ t. t;
  upper = λ t. t;
  str_of = λ s. [];
  str_of_value = λ v. [];
  decimal_of_text = λ t. none;
  fromisoformat = λ t. none;
  format_decimal = λ d. [];
  format_instant = λ t. [];
  format_moment = λ m. [];
}

-- A row with the sides' queries and EXPECTED_EQUAL against 3.
abbrev pub good_row : Row
unfolding lit text_eq
good_row header =
    if text_eq header (lit "Execution_Scope")
    then Scalar.text (lit "SOURCE-ONLY")
    else if text_eq header (lit "Comparison_Type")
    then Scalar.text (lit "EXPECTED_EQUAL")
    else if text_eq header (lit "Result_Type")
    then Scalar.text (lit "INTEGER")
    else if text_eq header (lit "Source_Profile_Section")
    then Scalar.text (lit "[source]")
    else if text_eq header (lit "Source_SQL")
    then Scalar.text (lit "SELECT 3")
    else if text_eq header (lit "Expected_Value")
    then Scalar.integer (pos 3)
    else Scalar.null

abbrev pub known : List Text
unfolding lit
known = lit "source" ∷ lit "target" ∷ []

unfoldable pub good : Definition
unfolding lit detail_columns good_row
good = record {
  test_id = b'T' ∷ [];
  row_number = 5;
  enabled = true;
  scope = source_only;
  comparison = ComparisonType.expected_equal;
  result_type = ResultType.integer;
  source_section = lit "source";
  target_section = [];
  source_sql = lit "SELECT 3";
  target_sql = [];
  expected_value = some (Value.int (pos 3));
  expected_raw = Scalar.integer (pos 3);
  absolute_tolerance = zero_decimal;
  percentage_tolerance = zero_decimal;
  details = details_of plain_python good_row 5 (b'T' ∷ []) detail_columns;
}

pub reads_good_row : read_enabled plain_python good_row 5 (b'T' ∷ []) known ≡ ok good
unfolding read_enabled good_row good known and_then scope_text comparison_text result_type_text
    uses_source uses_target allowed_first_tokens forbidden_tokens detail_columns lit
reads_good_row = refl

read_enabled_sound_example : IsRunnable known good
read_enabled_sound_example =
    read_enabled_sound plain_python good_row 5 (b'T' ∷ []) known good reads_good_row

abbrev one_sheet : Sheet
unfolding lit
one_sheet = record {
  definitions = [];
  problems =
      record {
        row_number = 5;
        test_id = [];
        code = ErrorCode.missing_test_id;
        message = lit "Test_ID is empty but required.";
        platform = Platform.workbook;
        status = TestStatus.config_error;
      }
      ∷ [];
}

read_rows-covers_example :
    occurs problem_row 5 one_sheet.problems + occurs definition_row 5 one_sheet.definitions
    ≡ occurs input_row 5 ((5, λ header. Scalar.null) ∷ [])
unfolding read_rows
read_rows-covers_example =
    read_rows-covers plain_python known [] ((5, λ header. Scalar.null) ∷ []) one_sheet 5 refl

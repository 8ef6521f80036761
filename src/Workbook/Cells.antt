-- ===== src/Workbook/Cells.antt =====
-- workbook/testcases.py, workbook/sheetio.py, workbook/columns.py: what is read of the cells of a row.
-- A row is the function that has the cell under each header, and null where the column or the cell
-- is missing, as `_value` reads it.
use execution_auto.Base.{
  ℕ, Bool, true, false, ◌&&◌, ◌||◌, Option, none, some, List, [], ◌∷◌, ◌++◌, map, ◌==◌,
  if◌then◌else◌, Text, lit, text_eq, mem_text, is_empty, strip, str_nat, Result, ok, err, ◌>>=◌,
}
use execution_auto.Models.{
  ExecutionScope, source_target, source_only, target_only, ComparisonType, ResultType, TestStatus,
  Platform,
}
use execution_auto.Models.Codes.{ErrorCode}
use execution_auto.Evaluation.Decimal.{Decimal, le, zero_decimal}
use execution_auto.Evaluation.Values.{Number, finite, Scalar, Python}
use execution_auto.Evaluation.Normalization.{is_missing, as_text}
use execution_auto.Security.SqlGuard.{
  Rejection, empty_sql, no_statement, no_keyword, too_long, many_statements, wrong_start,
  forbidden_keyword, max_sql_length,
}
use execution_auto.Workbook.Definitions.{Problem}

abbrev pub Row : Type 0
Row = Text → Scalar

-- A row that cannot be executed, or an exception that no reader catches.
pub data Refusal : Type 0 where
  refused : Problem → Refusal
  crashed : Refusal

-- The message of the guard's exception
unfoldable pub rejection_text : Text → Rejection → Text
unfolding lit str_nat
rejection_text label empty_sql = label ++ lit " is empty"
rejection_text label no_statement = label ++ lit " contains no executable statement"
rejection_text label no_keyword = label ++ lit " does not start with a SQL keyword"
rejection_text label (too_long n) =
    label
    ++ (lit " is "
        ++ (str_nat n
            ++ (lit " characters, above the " ++ (str_nat max_sql_length ++ lit " limit"))))
rejection_text label (many_statements n) =
    label
    ++ (lit " contains "
        ++ (str_nat n ++ lit " statements — exactly one read-only statement is allowed"))
rejection_text label (wrong_start token) =
    label ++ (lit " must start with SELECT or WITH (found '" ++ (token ++ lit "')"))
rejection_text label (forbidden_keyword token reason) =
    label ++ (lit " contains forbidden keyword '" ++ (token ++ (lit "' (" ++ (reason ++ lit ")"))))

abbrev pub scopes : List ExecutionScope
scopes = source_target ∷ source_only ∷ target_only ∷ []

abbrev pub comparison_types : List ComparisonType
comparison_types =
    ComparisonType.equal ∷ ComparisonType.equal_abs_tolerance ∷ ComparisonType.equal_pct_tolerance
    ∷ ComparisonType.expected_equal ∷ ComparisonType.expected_zero
    ∷ ComparisonType.less_than_or_equal ∷ ComparisonType.greater_than_or_equal
    ∷ ComparisonType.non_zero ∷ ComparisonType.boolean_true
    ∷ ComparisonType.text_case_insensitive_equal ∷ ComparisonType.no_comparison ∷ []

abbrev pub result_types : List ResultType
result_types =
    ResultType.integer ∷ ResultType.number ∷ ResultType.text ∷ ResultType.boolean
    ∷ ResultType.datetime ∷ []

-- The types in the order of their names
abbrev pub sorted_result_types : List ResultType
sorted_result_types =
    ResultType.boolean ∷ ResultType.datetime ∷ ResultType.integer ∷ ResultType.number
    ∷ ResultType.text ∷ []

-- `enum(candidate)`
unfoldable pub find_member : {A : Type 0} → (A → Text) → List A → Text → Option A
unfolding text_eq
find_member text_of_member [] candidate = none
find_member text_of_member (a ∷ members) candidate =
    if text_eq (text_of_member a) candidate
    then some a
    else find_member text_of_member members candidate

abbrev pub underscore : ℕ → ℕ
underscore c = if c == b' ' || c == b'-' then b'_' else c

abbrev pub is_bracket : ℕ → Bool
is_bracket c = c == b'[' || c == b']'

-- `text.strip("[]")`
unfoldable pub drop_brackets : Text → Text
drop_brackets [] = []
drop_brackets (c ∷ s) = let rest = drop_brackets s in if is_bracket c then rest else c ∷ s

unfoldable pub drop_last_brackets : Text → Text
unfolding is_empty
drop_last_brackets [] = []
drop_last_brackets (c ∷ s) =
    let rest = drop_last_brackets s in if is_bracket c && is_empty rest then [] else c ∷ rest

unfoldable pub strip_brackets : Text → Text
unfolding drop_brackets drop_last_brackets
strip_brackets s = drop_last_brackets (drop_brackets s)

-- `_YES_WORDS` and `_NO_WORDS`
unfoldable pub yes_words : List Text
unfolding lit
yes_words = lit "yes" ∷ lit "y" ∷ lit "true" ∷ lit "t" ∷ lit "1" ∷ lit "enabled" ∷ []

unfoldable pub no_words : List Text
unfolding lit
no_words = lit "no" ∷ lit "n" ∷ lit "false" ∷ lit "f" ∷ lit "0" ∷ lit "disabled" ∷ []

-- The columns of `DEFINITION_COLUMNS` that a definition keeps as details
unfoldable pub detail_columns : List Text
unfolding lit
detail_columns =
    lit "Domain"
    ∷ lit "Flow"
    ∷ lit "Test_Name"
    ∷ lit "Execution_Scope"
    ∷ lit "Comparison_Type"
    ∷ lit "Result_Type"
    ∷ lit "Source_Profile_Section"
    ∷ lit "Source_Object"
    ∷ lit "Target_Profile_Section"
    ∷ lit "Target_Object"
    ∷ lit "Severity"
    ∷ lit "Owner"
    ∷ lit "Tags"
    ∷ []

-- `isinstance(raw, bool)`
abbrev pub is_boolean : Scalar → Bool
is_boolean (Scalar.boolean b) = true
is_boolean _ = false

-- `… or ExecutionScope.SOURCE_TARGET`, and so on
abbrev pub scope_or : Option ExecutionScope → ExecutionScope
scope_or (some s) = s
scope_or none = source_target

abbrev pub comparison_or : Option ComparisonType → ComparisonType
comparison_or (some c) = c
comparison_or none = ComparisonType.no_comparison

abbrev pub result_type_or : Option ResultType → ResultType
result_type_or (some t) = t
result_type_or none = ResultType.text

abbrev pub problem_at : ℕ → Text → ErrorCode → Text → Refusal
problem_at row_number test_id code message = refused (record {
  row_number = row_number;
  test_id = test_id;
  code = code;
  message = message;
  platform = Platform.workbook;
  status = TestStatus.config_error;
})

module _ (py : Python) where
  -- `text_of`, which `_text` takes of a cell
  unfoldable pub text_of : Scalar → Text
  unfolding as_text
  text_of Scalar.null = []
  text_of value = as_text py value

  -- `_as_member`
  unfoldable pub as_member : {A : Type 0} → (A → Text) → List A → Text → Option A
  unfolding find_member strip
  as_member text_of_member members text =
      find_member text_of_member members (map underscore (py.upper (strip text)))

  unfoldable pub as_enabled : Text → Option Bool
  unfolding strip mem_text yes_words no_words
  as_enabled text =
      let folded = py.casefold (strip text) in
      if mem_text folded yes_words
      then some true
      else if mem_text folded no_words
      then some false
      else none

  -- `_section`
  unfoldable pub section_name : Text → Text
  unfolding strip strip_brackets
  section_name text = py.casefold (strip_brackets (strip text))

  -- `f"{raw}"`
  abbrev pub raw_text : Scalar → Text
  raw_text (Scalar.text s) = s
  raw_text value = py.str_of value

  abbrev pub bounded_below : Text → Option Number → Result Text Decimal
  bounded_below message (some (finite d)) = if le zero_decimal d then ok d else err message
  bounded_below message _ = err message

  -- One header of `_tolerances`
  unfoldable pub tolerance : Text → Scalar → Result Text Decimal
  unfolding is_missing as_text le lit
  tolerance header raw =
      let message =
        header ++ (lit " must be a number of 0 or more (found '" ++ (raw_text raw ++ lit "').")) in
      if is_missing raw
      then ok zero_decimal
      else if is_boolean raw
      then err message
      else bounded_below message (py.decimal_of_text (as_text py raw))

  -- `_tolerances`
  unfoldable pub tolerances : Row → Result Text (Decimal × Decimal)
  unfolding tolerance lit
  tolerances row = do
    absolute ← tolerance (lit "Absolute_Tolerance") (row (lit "Absolute_Tolerance"))
    percentage ← tolerance (lit "Percentage_Tolerance") (row (lit "Percentage_Tolerance"))
    ok (absolute, percentage)

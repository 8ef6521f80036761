-- ===== src/Runner/Records.antt =====
-- models.py: the records of the first engine, and what a summary counts.
pub mod Clean
use execution_auto.Base.{
  ℕ, zero, suc, ◌+◌, ◌-◌, Bool, true, false, not, ◌&&◌, ◌||◌, Option, none, some, List, [], ◌∷◌,
  if◌then◌else◌, ltb, ◌==◌, length, Text, lit, text_eq,
}
use execution_auto.Models.{ExecutionScope, DatabaseType}
use execution_auto.Evaluation.Decimal.{Decimal}
use execution_auto.Evaluation.Values.{Number, Scalar}
use execution_auto.Runner.Kinds.{ComparisonRule}

-- `ExecutionStatus`
pub data ExecutionStatus : Type 0 where
  pass fail profiled validated not_executed error skipped : ExecutionStatus

-- A number for each status, by which two are compared
unfoldable pub status_index : ExecutionStatus → ℕ
status_index pass = 0
status_index fail = 1
status_index profiled = 2
status_index validated = 3
status_index not_executed = 4
status_index error = 5
status_index skipped = 6

abbrev pub is_status : ExecutionStatus → ExecutionStatus → Bool
is_status s t = status_index s == status_index t

-- `ErrorSide`; `nowhere` is the member `NONE`.
pub data ErrorSide : Type 0 where
  source target comparison workbook nowhere : ErrorSide

-- `TestCase`. The fields that the runner does not read, `enabled` and `extras`, are left out.
pub record TestCase : Type 0 where
  pub test_case_id : Text
  pub row_number : ℕ
  pub source_type : Option DatabaseType
  pub source_connection : Text
  pub target_connection : Text
  pub source_sql : Text
  pub target_sql : Text
  pub execution_scope : ExecutionScope
  pub comparison_rule : ComparisonRule
  pub tolerance : Decimal
  pub timeout_seconds : ℕ

-- `ExecutionResult`
pub record ExecutionResult : Type 0 where
  pub test_case_id : Text
  pub row_number : ℕ
  pub status : ExecutionStatus
  pub executed_at : ℕ
  pub run_id : Text
  pub duration_ms : ℕ
  pub source_result : Scalar
  pub target_result : Scalar
  pub variance : Option Number
  pub remarks : Text
  pub error_side : ErrorSide
  pub error_code : Text

-- workbook/reader.py `InvalidRow` and `SkippedRow`: a row with its message or its reason
pub record RowNote : Type 0 where
  pub row_number : ℕ
  pub test_case_id : Text
  pub note : Text

-- workbook/reader.py `WorkbookRead`, without the columns
pub record WorkbookRead : Type 0 where
  pub test_cases : List TestCase
  pub skipped : List RowNote
  pub invalid : List RowNote

-- `RunSummary`; the paths are left out.
pub record RunSummary : Type 0 where
  pub run_id : Text
  pub started_at : ℕ
  pub finished_at : ℕ
  pub results : List ExecutionResult

abbrev pub result_row : ExecutionResult → ℕ
result_row r = r.row_number

abbrev pub case_row : TestCase → ℕ
case_row c = c.row_number

abbrev pub note_row : RowNote → ℕ
note_row n = n.row_number

-- `RunSummary._count`
unfoldable pub count : ExecutionStatus → List ExecutionResult → ℕ
unfolding status_index
count s [] = 0
count s (r ∷ rs) = (if is_status r.status s then 1 else 0) + count s rs

-- `RunSummary.syntax_errors`
unfoldable pub count_code : Text → List ExecutionResult → ℕ
unfolding text_eq
count_code code [] = 0
count_code code (r ∷ rs) = (if text_eq r.error_code code then 1 else 0) + count_code code rs

unfoldable pub syntax_errors : RunSummary → ℕ
unfolding count_code lit
syntax_errors s = count_code (lit "SQL_SYNTAX_ERROR") s.results

-- `RunSummary.stopped_by_validation`
unfoldable pub stopped_by_validation : RunSummary → Bool
unfolding count
stopped_by_validation s = ltb 0 (count not_executed s.results)

-- `RunSummary.executed`
unfoldable pub executed : RunSummary → ℕ
unfolding count
executed s =
    length s.results
    - count skipped s.results
    - count not_executed s.results
    - count validated s.results

-- `RunSummary.is_clean`
unfoldable pub is_clean : RunSummary → Bool
unfolding count
is_clean s =
    count fail s.results == 0 && (count error s.results == 0 && count not_executed s.results == 0)

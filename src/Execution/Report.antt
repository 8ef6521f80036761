-- ===== src/Execution/Report.antt =====
-- execution/engine.py: `TestOutcome`, `RunReport` and what the report counts.
pub mod Totals
use execution_auto.Base.{
  ℕ, zero, suc, ◌+◌, Bool, true, false, not, ◌&&◌, ◌||◌, Option, none, some, List, [], ◌∷◌, ◌++◌,
  map, if◌then◌else◌, leb, ◌==◌, length, keep, sort_by, Text, lit, text_eq,
}
use execution_auto.Models.{TestStatus, Platform}
use execution_auto.Models.Codes.{ErrorCode, code_text}
use execution_auto.Evaluation.Decimal.{Decimal}
use execution_auto.Evaluation.Values.{Cell}
use execution_auto.Workbook.Observations.{status_eq}

-- `TestOutcome`
pub record Outcome : Type 0 where
  pub row_number : ℕ
  pub test_id : Text
  pub status : TestStatus
  pub platform : Platform
  pub error_code : Text
  pub error_detail : Text
  pub observation : Text
  pub source_result : Cell
  pub target_result : Cell
  pub actual_value : Cell
  pub variance : Option Decimal
  pub variance_percentage : Option Decimal
  pub source_duration_ms : Option ℕ
  pub target_duration_ms : Option ℕ
  pub executed_at : Option ℕ
  pub run_id : Text

-- One row of the `Syntax Validation` sheet
pub record ValidationRow : Type 0 where
  pub run_id : Text
  pub checked_at : ℕ
  pub test_id : Text
  pub row_number : ℕ
  pub result : Text
  pub platform : Platform
  pub error_code : Text
  pub error_detail : Text

-- `RunReport`
pub record Report : Type 0 where
  pub run_id : Text
  pub started_at : ℕ
  pub completed_at : ℕ
  pub workbook_path : Text
  pub outcomes : List Outcome
  pub template_version : Text
  pub output_path : Option Text
  pub dry_run : Bool
  pub stopped_by_validation : Bool
  pub warnings : List Text
  pub connections : List Text
  pub validation_rows : List ValidationRow

-- `RunReport._count` for one status
unfoldable pub count : TestStatus → List Outcome → ℕ
unfolding status_eq
count s [] = 0
count s (o ∷ os) = (if status_eq o.status s then 1 else 0) + count s os

-- `RunReport.enabled_tests`
unfoldable pub enabled_tests : List Outcome → ℕ
unfolding status_eq
enabled_tests [] = 0
enabled_tests (o ∷ os) =
    (if status_eq o.status TestStatus.disabled then 0 else 1) + enabled_tests os

-- `passed`, `failed`, `profiled`, `syntax_errors`, `not_executed` and `disabled`
abbrev pub passed : Report → ℕ
passed r = count TestStatus.pass r.outcomes

abbrev pub failed : Report → ℕ
failed r = count TestStatus.fail r.outcomes

abbrev pub profiled : Report → ℕ
profiled r = count TestStatus.profiled r.outcomes

abbrev pub syntax_errors : Report → ℕ
syntax_errors r = count TestStatus.syntax_error r.outcomes

abbrev pub not_executed : Report → ℕ
not_executed r = count TestStatus.not_executed r.outcomes

abbrev pub disabled : Report → ℕ
disabled r = count TestStatus.disabled r.outcomes

-- `blocked_error`: a status counts once, so the sum is the count of the four.
unfoldable pub blocked_error : Report → ℕ
unfolding count
blocked_error r =
    count TestStatus.error r.outcomes
    + count TestStatus.syntax_error r.outcomes
    + count TestStatus.blocked r.outcomes
    + count TestStatus.config_error r.outcomes

pub data Overall : Type 0 where
  no_tests fail error incomplete pass : Overall

-- `overall_status`
unfoldable pub overall_status : Report → Overall
unfolding enabled_tests count blocked_error
overall_status r =
    if enabled_tests r.outcomes == 0
    then no_tests
    else if not (failed r == 0)
    then fail
    else if not (blocked_error r == 0)
    then error
    else if not (not_executed r == 0)
    then incomplete
    else pass

-- `is_clean`
unfoldable pub is_clean : Report → Bool
unfolding overall_status
is_clean r = elim (overall_status r) [ Overall.pass ↦ true | _ ↦ false ]

-- `validation_failures`
unfoldable pub validation_failures : Report → List Outcome
unfolding keep text_eq code_text
validation_failures r =
    keep
      (λ o.
        text_eq o.error_code (code_text ErrorCode.syntax_error)
        || text_eq o.error_code (code_text ErrorCode.syntax_check_failed))
      r.outcomes

abbrev pub outcome_row : Outcome → ℕ
outcome_row o = o.row_number

-- `_Outcomes.sorted`
abbrev pub sort_by_row : List Outcome → List Outcome
sort_by_row os = sort_by outcome_row os

-- ===== src/Workbook/Definitions.antt =====
-- workbook/testcases.py: a validated row, a row that cannot be executed, and the sheet of both.
use execution_auto.Base.{
  ℕ, Bool, not, ◌&&◌, Option, none, some, List, [], ◌∷◌, ◌++◌, if◌then◌else◌, keep, Text, lit,
  is_empty, mem_text, lookup_text,
}
use execution_auto.Models.{
  ExecutionScope, uses_source, uses_target, ComparisonType, ResultType, TestStatus, Platform,
}
use execution_auto.Models.Codes.{ErrorCode}
use execution_auto.Evaluation.Decimal.{Decimal}
use execution_auto.Evaluation.Values.{Scalar, Value}

-- `TestDefinition`
pub record Definition : Type 0 where
  pub test_id : Text
  pub row_number : ℕ
  pub enabled : Bool
  pub scope : ExecutionScope
  pub comparison : ComparisonType
  pub result_type : ResultType
  pub source_section : Text
  pub target_section : Text
  pub source_sql : Text
  pub target_sql : Text
  pub expected_value : Option Value
  pub expected_raw : Scalar
  pub absolute_tolerance : Decimal
  pub percentage_tolerance : Decimal
  pub details : List (Text × Text)

abbrev detail_or_empty : Option Text → Text
detail_or_empty none = []
detail_or_empty (some t) = t

-- `TestDefinition.domain` and `.name`
unfoldable pub domain : Definition → Text
unfolding lookup_text lit
domain d = detail_or_empty (lookup_text (lit "Domain") d.details)

unfoldable pub name : Definition → Text
unfolding lookup_text lit
name d = detail_or_empty (lookup_text (lit "Test_Name") d.details)

-- `tuple(dict.fromkeys(texts))`: without the repetitions.
unfoldable pub distinct_from : List Text → List Text → List Text
unfolding mem_text
distinct_from seen [] = []
distinct_from seen (t ∷ ts) =
    let old = distinct_from seen ts in
    let new = t ∷ distinct_from (t ∷ seen) ts in if mem_text t seen then old else new

unfoldable pub distinct : List Text → List Text
unfolding distinct_from
distinct ts = distinct_from [] ts

abbrev pub needed : Bool → Bool → Text → List Text
needed enabled uses section =
    if enabled && (uses && not (is_empty section)) then section ∷ [] else []

-- `TestDefinition.sections`
unfoldable pub sections : Definition → List Text
unfolding distinct uses_source uses_target is_empty
sections d = distinct (
    needed d.enabled (uses_source d.scope) d.source_section
    ++ needed d.enabled (uses_target d.scope) d.target_section)

-- `DefinitionProblem`; its platform and status have the defaults where a row gives no others.
pub record Problem : Type 0 where
  pub row_number : ℕ
  pub test_id : Text
  pub code : ErrorCode
  pub message : Text
  pub platform : Platform
  pub status : TestStatus

-- The rows of `TestCaseSheet`
pub record Sheet : Type 0 where
  pub definitions : List Definition
  pub problems : List Problem

-- `TestCaseSheet.enabled` and `.disabled`
unfoldable pub enabled_tests : Sheet → List Definition
unfolding keep
enabled_tests s = keep (λ d. d.enabled) s.definitions

unfoldable pub disabled_tests : Sheet → List Definition
unfolding keep
disabled_tests s = keep (λ d. not d.enabled) s.definitions

all_sections : List Definition → List Text
unfolding sections
all_sections [] = []
all_sections (d ∷ ds) = sections d ++ all_sections ds

-- `TestCaseSheet.required_sections`
unfoldable pub required_sections : Sheet → List Text
unfolding all_sections enabled_tests distinct
required_sections s = distinct (all_sections (enabled_tests s))

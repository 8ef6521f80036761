-- ===== src/Models.antt =====
-- models.py: the vocabulary of the reconciliation template. Each enumeration has its members as
-- constructors and its strings, Python's `.value`, as a function.
pub mod Codes
use execution_auto.Base.{Bool, true, false, Text, lit}

-- `ExecutionScope`
pub data ExecutionScope : Type 0 where
  source_target source_only target_only : ExecutionScope

unfoldable pub uses_source : ExecutionScope → Bool
uses_source source_target = true
uses_source source_only = true
uses_source target_only = false

unfoldable pub uses_target : ExecutionScope → Bool
uses_target source_target = true
uses_target source_only = false
uses_target target_only = true

unfoldable pub scope_text : ExecutionScope → Text
unfolding lit
scope_text source_target = lit "SOURCE_TARGET"
scope_text source_only = lit "SOURCE_ONLY"
scope_text target_only = lit "TARGET_ONLY"

-- `ComparisonType`
pub data ComparisonType : Type 0 where
  equal equal_abs_tolerance equal_pct_tolerance expected_equal expected_zero : ComparisonType
  less_than_or_equal greater_than_or_equal non_zero boolean_true : ComparisonType
  text_case_insensitive_equal no_comparison : ComparisonType

unfoldable pub comparison_text : ComparisonType → Text
unfolding lit
comparison_text equal = lit "EQUAL"
comparison_text equal_abs_tolerance = lit "EQUAL_ABS_TOLERANCE"
comparison_text equal_pct_tolerance = lit "EQUAL_PCT_TOLERANCE"
comparison_text expected_equal = lit "EXPECTED_EQUAL"
comparison_text expected_zero = lit "EXPECTED_ZERO"
comparison_text less_than_or_equal = lit "LESS_THAN_OR_EQUAL"
comparison_text greater_than_or_equal = lit "GREATER_THAN_OR_EQUAL"
comparison_text non_zero = lit "NON_ZERO"
comparison_text boolean_true = lit "BOOLEAN_TRUE"
comparison_text text_case_insensitive_equal = lit "TEXT_CASE_INSENSITIVE_EQUAL"
comparison_text no_comparison = lit "NO_COMPARISON"

-- `ResultType`
pub data ResultType : Type 0 where
  integer number text boolean datetime : ResultType

unfoldable pub result_type_text : ResultType → Text
unfolding lit
result_type_text integer = lit "INTEGER"
result_type_text number = lit "NUMBER"
result_type_text text = lit "TEXT"
result_type_text boolean = lit "BOOLEAN"
result_type_text datetime = lit "DATETIME"

-- `TestStatus`
pub data TestStatus : Type 0 where
  pass fail profiled validated error syntax_error blocked config_error not_executed : TestStatus
  disabled : TestStatus

unfoldable pub status_text : TestStatus → Text
unfolding lit
status_text pass = lit "PASS"
status_text fail = lit "FAIL"
status_text profiled = lit "PROFILED"
status_text validated = lit "VALIDATED"
status_text error = lit "ERROR"
status_text syntax_error = lit "SYNTAX ERROR"
status_text blocked = lit "BLOCKED"
status_text config_error = lit "CONFIG ERROR"
status_text not_executed = lit "NOT EXECUTED"
status_text disabled = lit "DISABLED"

-- `Platform`; `nowhere` is the member `NONE`.
pub data Platform : Type 0 where
  source target comparison workbook profile executor nowhere : Platform

unfoldable pub platform_text : Platform → Text
unfolding lit
platform_text source = lit "SOURCE"
platform_text target = lit "TARGET"
platform_text comparison = lit "COMPARISON"
platform_text workbook = lit "WORKBOOK"
platform_text profile = lit "PROFILE"
platform_text executor = lit "EXECUTOR"
platform_text nowhere = lit ""

-- `RunMode`
pub data RunMode : Type 0 where
  validate execute : RunMode

-- `DatabaseType`
pub data DatabaseType : Type 0 where
  oracle sqlserver : DatabaseType

unfoldable pub database_type_text : DatabaseType → Text
unfolding lit
database_type_text oracle = lit "oracle"
database_type_text sqlserver = lit "sqlserver"

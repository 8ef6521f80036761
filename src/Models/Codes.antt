-- ===== src/Models/Codes.antt =====
-- models.py: `ErrorCode`, the stable reasons that stand in the `Error_Code` column.
use execution_auto.Base.{Text, lit}

pub data ErrorCode : Type 0 where
  invalid_profile forbidden_secret_key unsupported_profile_version unsupported_template_version :
      ErrorCode
  missing_credentials missing_source_section missing_target_section unexpected_source_section :
      ErrorCode
  unexpected_target_section missing_test_id duplicate_test_id invalid_enabled : ErrorCode
  invalid_scope invalid_comparison_type invalid_result_type invalid_tolerance : ErrorCode
  missing_source_sql missing_target_sql unexpected_source_sql unexpected_target_sql : ErrorCode
  missing_expected_value unsafe_sql syntax_error syntax_check_failed : ErrorCode
  connection_failed query_timeout query_execution_failed non_scalar_result : ErrorCode
  null_result type_conversion_error run_stopped dry_run : ErrorCode
  unexpected_error value_mismatch tolerance_exceeded percentage_tolerance_exceeded : ErrorCode
  zero_source_baseline expected_zero_failed threshold_exceeded non_zero_failed : ErrorCode
  boolean_not_true workbook_read_failed output_write_failed : ErrorCode

-- `code.value`
unfoldable pub code_text : ErrorCode → Text
unfolding lit
code_text invalid_profile = lit "INVALID_PROFILE"
code_text forbidden_secret_key = lit "FORBIDDEN_SECRET_KEY"
code_text unsupported_profile_version = lit "UNSUPPORTED_PROFILE_VERSION"
code_text unsupported_template_version = lit "UNSUPPORTED_TEMPLATE_VERSION"
code_text missing_credentials = lit "MISSING_CREDENTIALS"
code_text missing_source_section = lit "MISSING_SOURCE_SECTION"
code_text missing_target_section = lit "MISSING_TARGET_SECTION"
code_text unexpected_source_section = lit "UNEXPECTED_SOURCE_SECTION"
code_text unexpected_target_section = lit "UNEXPECTED_TARGET_SECTION"
code_text missing_test_id = lit "MISSING_TEST_ID"
code_text duplicate_test_id = lit "DUPLICATE_TEST_ID"
code_text invalid_enabled = lit "INVALID_ENABLED"
code_text invalid_scope = lit "INVALID_SCOPE"
code_text invalid_comparison_type = lit "INVALID_COMPARISON_TYPE"
code_text invalid_result_type = lit "INVALID_RESULT_TYPE"
code_text invalid_tolerance = lit "INVALID_TOLERANCE"
code_text missing_source_sql = lit "MISSING_SOURCE_SQL"
code_text missing_target_sql = lit "MISSING_TARGET_SQL"
code_text unexpected_source_sql = lit "UNEXPECTED_SOURCE_SQL"
code_text unexpected_target_sql = lit "UNEXPECTED_TARGET_SQL"
code_text missing_expected_value = lit "MISSING_EXPECTED_VALUE"
code_text unsafe_sql = lit "UNSAFE_SQL"
code_text syntax_error = lit "SYNTAX_ERROR"
code_text syntax_check_failed = lit "SYNTAX_CHECK_FAILED"
code_text connection_failed = lit "CONNECTION_FAILED"
code_text query_timeout = lit "QUERY_TIMEOUT"
code_text query_execution_failed = lit "QUERY_EXECUTION_FAILED"
code_text non_scalar_result = lit "NON_SCALAR_RESULT"
code_text null_result = lit "NULL_RESULT"
code_text type_conversion_error = lit "TYPE_CONVERSION_ERROR"
code_text run_stopped = lit "RUN_STOPPED"
code_text dry_run = lit "DRY_RUN"
code_text unexpected_error = lit "UNEXPECTED_ERROR"
code_text value_mismatch = lit "VALUE_MISMATCH"
code_text tolerance_exceeded = lit "TOLERANCE_EXCEEDED"
code_text percentage_tolerance_exceeded = lit "PERCENTAGE_TOLERANCE_EXCEEDED"
code_text zero_source_baseline = lit "ZERO_SOURCE_BASELINE"
code_text expected_zero_failed = lit "EXPECTED_ZERO_FAILED"
code_text threshold_exceeded = lit "THRESHOLD_EXCEEDED"
code_text non_zero_failed = lit "NON_ZERO_FAILED"
code_text boolean_not_true = lit "BOOLEAN_NOT_TRUE"
code_text workbook_read_failed = lit "WORKBOOK_READ_FAILED"
code_text output_write_failed = lit "OUTPUT_WRITE_FAILED"

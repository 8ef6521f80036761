-- ===== src/Runner/Sides.antt =====
-- runner.py: the sides of a test case, the executor factory that they are asked of, the refusal of
-- their SQL, and the result of a case that is not run.
use execution_auto.Base.{ℕ, Bool, Option, none, some, List, [], ◌∷◌, Text, lit, Result, ok, err}
use execution_auto.Models.{
  ExecutionScope, source_target, source_only, target_only, uses_source, uses_target, DatabaseType,
}
use execution_auto.Evaluation.Values.{Scalar}
use execution_auto.Security.SqlGuard.{assert_read_only}
use execution_auto.Security.Redaction.{sanitize_text}
use execution_auto.Database.Failures.{Failure, FailureClass}
use execution_auto.Workbook.Cells.{rejection_text}
use execution_auto.Runner.Kinds.{Formats}
use execution_auto.Runner.Records.{ExecutionStatus, ErrorSide, TestCase, ExecutionResult}

-- database/base.py `QuerySide`
pub data QuerySide : Type 0 where
  source_side target_side : QuerySide

-- The executor factory and its executors, of type `E`. `engine_of` is absent where the factory has no such
-- method; `validate_syntax` returns `none` where it returns.
pub record Factory (W E : Type 0) : Type 0 where
  pub engine_of : Option (Text → QuerySide → Result Failure (Option DatabaseType))
  pub get_executor : Text → DatabaseType → Text → QuerySide → W → Result Failure E × W
  pub test_connection : E → W → W
  pub execute_scalar : E → Text → ℕ → W → Result Failure Scalar × W
  pub validate_syntax : E → Text → ℕ → W → Option Failure × W
  pub close_all : W → W

-- What the runner takes from the run-time library: text forms, the masking of secrets, and `re.search`
pub record Tools : Type 0 where
  pub formats : Formats
  pub mask : Text → Text
  pub search : Text → Bool → Text → Bool

-- security/redaction.py `_MAX_MESSAGE_LENGTH`
abbrev pub max_message_length : ℕ
max_message_length = 300

unfoldable pub sides_of : ExecutionScope → List QuerySide
sides_of source_target = source_side ∷ target_side ∷ []
sides_of source_only = source_side ∷ []
sides_of target_only = target_side ∷ []

-- Whether the scope names the side
unfoldable pub uses_side : QuerySide → ExecutionScope → Bool
unfolding uses_source uses_target
uses_side source_side scope = uses_source scope
uses_side target_side scope = uses_target scope

unfoldable pub sql_of : QuerySide → TestCase → Text
sql_of source_side c = c.source_sql
sql_of target_side c = c.target_sql

unfoldable pub connection_of : QuerySide → TestCase → Text
connection_of source_side c = c.source_connection
connection_of target_side c = c.target_connection

-- The engine that the workbook declares for a side; the target's is SQL Server.
unfoldable pub declared_type : QuerySide → TestCase → Option DatabaseType
declared_type source_side c = c.source_type
declared_type target_side c = some DatabaseType.sqlserver

unfoldable pub error_side_of : QuerySide → ErrorSide
error_side_of source_side = ErrorSide.source
error_side_of target_side = ErrorSide.target

-- `f"{error_side.value.capitalize()} query"`
unfoldable pub side_label : QuerySide → Text
unfolding lit
side_label source_side = lit "Source query"
side_label target_side = lit "Target query"

unfoldable pub execution_code : QuerySide → Text
unfolding lit
execution_code source_side = lit "SOURCE_EXEC_FAILED"
execution_code target_side = lit "TARGET_EXEC_FAILED"

-- `_error_code`: an error of the framework keeps the expected code.
unfoldable pub error_code : FailureClass → Text → Text
unfolding lit
error_code FailureClass.unexpected expected = lit "UNEXPECTED_ERROR"
error_code _ expected = expected

-- The first side whose SQL the guard refuses, with the message
unfoldable pub refused_side : TestCase → List QuerySide → Option (QuerySide × Text)
unfolding sql_of assert_read_only rejection_text side_label
refused_side c [] = none
refused_side c (side ∷ sides) =
    let later = refused_side c sides in
    elim (assert_read_only (some (sql_of side c))) [
      | ok sql ↦ later
      | err e ↦ some (side, rejection_text (side_label side) e)
    ]

-- A result without values, as for a row that was not run
unfoldable pub settled :
    Tools → Text → ℕ → ExecutionStatus → ℕ → Text → Text → ErrorSide → Text → ExecutionResult
unfolding sanitize_text
settled t test_id row verdict at run_id detail side code = record {
  test_case_id = test_id;
  row_number = row;
  status = verdict;
  executed_at = at;
  run_id = run_id;
  duration_ms = 0;
  source_result = Scalar.null;
  target_result = Scalar.null;
  variance = none;
  remarks = sanitize_text t.mask detail max_message_length;
  error_side = side;
  error_code = code;
}

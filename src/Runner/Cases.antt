-- ===== src/Runner/Cases.antt =====
-- runner.py: what is done with one test case. The executor factory is a parameter: the world behind it is a
-- state that each call may change, and what a call raises is a value. The lines of the log are left out.
pub mod Compile
pub mod Verdicts
use execution_auto.Base.{
  ℕ, Bool, true, false, Option, none, some, List, [], ◌∷◌, ◌++◌, if◌then◌else◌, Text, lit, Result,
  ok, err,
}
use execution_auto.Models.{
  ExecutionScope, source_target, source_only, target_only, uses_source, uses_target, DatabaseType,
}
use execution_auto.Evaluation.Values.{Number, Scalar}
use execution_auto.Security.SqlGuard.{assert_read_only}
use execution_auto.Security.Redaction.{sanitize_text, sanitize_error}
use execution_auto.Database.Failures.{Failure, FailureClass}
use execution_auto.Workbook.Cells.{rejection_text}
use execution_auto.Execution.World.{Clock}
use execution_auto.Runner.Kinds.{
  Fault, comparison_error, invalid_operation, ComparisonOutcome, Formats,
}
use execution_auto.Runner.Comparators.{variance_of, compare}
use execution_auto.Runner.Records.{ExecutionStatus, ErrorSide, TestCase, ExecutionResult}
use execution_auto.Runner.Sides.{
  Factory, QuerySide, Tools, connection_of, declared_type, error_code, error_side_of,
  execution_code, max_message_length, refused_side, settled, side_label, sides_of, source_side,
  sql_of, target_side, uses_side,
}

module _ {W E : Type 0} (x : Factory W E) where
  -- `_engine_of`
  unfoldable pub engine_of : Text → QuerySide → Option DatabaseType → Option DatabaseType
  engine_of connection side declared = elim x.engine_of [
    | none ↦ declared
    | some ask ↦ elim (ask connection side) [ ok engine ↦ engine | err e ↦ declared ]
  ]

  -- `declared or self._engine_of(connection_name, side, None)`, or SQL Server
  unfoldable pub engine_used : TestCase → QuerySide → DatabaseType
  unfolding engine_of declared_type connection_of
  engine_used c side = elim (declared_type side c) [
    | some engine ↦ engine
    | none ↦ elim (engine_of (connection_of side c) side none) [
      | some engine ↦ engine
      | none ↦ DatabaseType.sqlserver
    ]
  ]

  -- `_executor_for`
  unfoldable pub executor_for : TestCase → QuerySide → W → Result Failure E × W
  unfolding engine_used connection_of
  executor_for c side w =
      x.get_executor (connection_of side c) (engine_used c side) c.test_case_id side w

  -- One side of `execute_case`: the executor, what the log asks of it, and the query
  unfoldable pub ask_side : TestCase → QuerySide → W → Result Failure Scalar × W
  unfolding executor_for sql_of
  ask_side c side w =
      let (found, w1) = executor_for c side w in
      elim found [
        | ok executor ↦
            x.execute_scalar executor (sql_of side c) c.timeout_seconds
              (x.test_connection executor w1)
        | err e ↦ (err e, w1)
      ]

  -- The same where the scope names the side; a side that it does not name is never opened.
  unfoldable pub ask_if : Bool → TestCase → QuerySide → W → Result Failure Scalar × W
  unfolding ask_side
  ask_if false c side w = (ok Scalar.null, w)
  ask_if true c side w = ask_side c side w

-- `variance if variance is not None else variance_of(source_value, target_value)`
unfoldable pub gap_of : Tools → Option Number → Scalar → Scalar → Result Fault (Option Number)
unfolding variance_of
gap_of t (some n) source target = ok (some n)
gap_of t none source target = variance_of t.formats source target

-- `PROFILED` where no verdict was asked for
unfoldable pub verdict_of : ComparisonOutcome → ExecutionStatus
verdict_of o =
    if o.profiled
    then ExecutionStatus.profiled
    else if o.passed
    then ExecutionStatus.pass
    else ExecutionStatus.fail

-- A result of `execute_case`, or the exception that it does not catch
abbrev pub Executed : Type 0
Executed = Result Fault ExecutionResult

module _ {W E : Type 0} (t : Tools) (clock : Clock W) (x : Factory W E) (run_id : Text) where
  -- `finish` of `execute_case`: the variance that is given, or that of the two values
  unfoldable pub finish_case :
      TestCase
      → ℕ
      → ℕ
      → Scalar
      → Scalar
      → ExecutionStatus
      → Text
      → ErrorSide
      → Text
      → Option Number
      → W
      → Executed × W
  unfolding gap_of sanitize_text
  finish_case c started executed_at source target verdict detail side code given w =
      elim (gap_of t given source target) [
        | err e ↦ (err e, w)
        | ok gap ↦
            let (ended, w1) = clock.perf_counter w in
            (
              ok (record {
                test_case_id = c.test_case_id;
                row_number = c.row_number;
                status = verdict;
                executed_at = executed_at;
                run_id = run_id;
                duration_ms = clock.elapsed_ms started ended;
                source_result = source;
                target_result = target;
                variance = gap;
                remarks = sanitize_text t.mask detail max_message_length;
                error_side = side;
                error_code = code;
              }),
              w1,
            )
      ]

  -- A query that raised
  unfoldable pub failed_side : TestCase → ℕ → ℕ → QuerySide → Scalar → Failure → W → Executed × W
  unfolding finish_case sanitize_error error_code execution_code error_side_of
  failed_side c started executed_at side source e w =
      finish_case c started executed_at source Scalar.null ExecutionStatus.error
        (sanitize_error t.mask e.type_name e.message max_message_length) (error_side_of side)
        (error_code e.class (execution_code side)) none w

  -- The comparison of the two values
  unfoldable pub judge : TestCase → ℕ → ℕ → Scalar → Scalar → W → Executed × W
  unfolding compare finish_case verdict_of lit
  judge c started executed_at source target w =
      elim (compare t.formats c.comparison_rule source target c.tolerance c.execution_scope) [
        | ok o ↦
            finish_case c started executed_at source target (verdict_of o) o.remarks
              ErrorSide.nowhere [] o.variance w
        | err (comparison_error message) ↦
            finish_case c started executed_at source target ExecutionStatus.error message
              ErrorSide.comparison (lit "COMPARISON_FAILED") none w
        | err invalid_operation ↦ (err invalid_operation, w)
      ]

  -- The target, and then the comparison
  unfoldable pub ask_target : TestCase → ℕ → ℕ → Scalar → W → Executed × W
  unfolding ask_if failed_side judge uses_side
  ask_target c started executed_at source w =
      let (answer, w1) = ask_if x (uses_side target_side c.execution_scope) c target_side w in
      elim answer [
        | ok target ↦ judge c started executed_at source target w1
        | err e ↦ failed_side c started executed_at target_side source e w1
      ]

  -- The source, and then the target
  unfoldable pub ask_source : TestCase → ℕ → ℕ → W → Executed × W
  unfolding ask_if failed_side ask_target uses_side
  ask_source c started executed_at w =
      let (answer, w1) = ask_if x (uses_side source_side c.execution_scope) c source_side w in
      elim answer [
        | ok source ↦ ask_target c started executed_at source w1
        | err e ↦ failed_side c started executed_at source_side Scalar.null e w1
      ]

  -- `execute_case`
  unfoldable pub execute_case : TestCase → W → Executed × W
  unfolding refused_side sides_of finish_case error_side_of ask_source lit
  execute_case c w =
      let (started, w1) = clock.perf_counter w in
      let (executed_at, w2) = clock.now w1 in
      elim (refused_side c (sides_of c.execution_scope)) [
        | none ↦ ask_source c started executed_at w2
        | some (side, message) ↦
            finish_case c started executed_at Scalar.null Scalar.null ExecutionStatus.error message
              (error_side_of side) (lit "SQL_REJECTED") none w2
      ]

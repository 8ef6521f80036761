-- ===== src/Runner/Cases/Compile.antt =====
-- runner.py `check_dialects`, `validate_cases` and `_validate_one`: no query is executed. The rows of the
-- `Syntax Validation` sheet are left out, as the log is.
use execution_auto.Base.{
  ℕ, Bool, true, false, Option, none, some, List, [], ◌∷◌, ◌++◌, if◌then◌else◌, Text, lit, mem_text,
  ok, err,
}
use execution_auto.Security.SqlGuard.{assert_read_only}
use execution_auto.Security.Redaction.{sanitize_error}
use execution_auto.Database.Failures.{Failure, FailureClass}
use execution_auto.Workbook.Cells.{rejection_text}
use execution_auto.Runner.Dialect.{describe_incompatibility}
use execution_auto.Runner.Records.{ExecutionStatus, ErrorSide, TestCase, ExecutionResult}
use execution_auto.Runner.Sides.{
  QuerySide, Factory, Tools, sides_of, sql_of, connection_of, declared_type, error_side_of,
  side_label, settled, max_message_length,
}
use execution_auto.Runner.Cases.{engine_of, executor_for}

-- `_validation_failure`
unfoldable pub validation_failure :
    Tools → TestCase → Text → ℕ → ErrorSide → Text → Text → ExecutionResult
unfolding settled
validation_failure t c run_id checked_at side code detail =
    settled t c.test_case_id c.row_number ExecutionStatus.error checked_at run_id detail side code

-- What the checks so far remember: the connections that could not be asked, and what to warn of
pub record Notes : Type 0 where
  pub unavailable : List Text
  pub warnings : List Text

-- `except SyntaxCheckUnavailableError`
unfoldable pub note_unavailable : Tools → Text → Failure → Notes → Notes
unfolding mem_text sanitize_error lit
note_unavailable t connection e n = if mem_text connection n.unavailable then n else record {
  unavailable = connection ∷ n.unavailable;
  warnings =
      n.warnings
      ++ (lit "["
          ++ (connection
              ++ (lit
                    "] could not be asked to check SQL before running it, so its queries were not validated: "
                  ++ sanitize_error t.mask e.type_name e.message max_message_length)))
        ∷ [];
}

abbrev pub is_unavailable : FailureClass → Bool
is_unavailable FailureClass.check_unavailable = true
is_unavailable _ = false

module _ {W E : Type 0} (t : Tools) (x : Factory W E) (run_id : Text) (checked_at : ℕ) where
  -- The first side of a case that is written for another engine than its connection's
  unfoldable pub mismatch : TestCase → List QuerySide → Option ExecutionResult
  unfolding engine_of declared_type connection_of sql_of describe_incompatibility validation_failure
      error_side_of side_label lit
  mismatch c [] = none
  mismatch c (side ∷ sides) =
      let later = mismatch c sides in
      elim (engine_of x (connection_of side c) side (declared_type side c)) [
        | none ↦ later
        | some engine ↦ elim (describe_incompatibility t.search (sql_of side c) engine) [
          | none ↦ later
          | some message ↦ some (
              validation_failure t c run_id checked_at (error_side_of side)
                (lit "SQL_DIALECT_MISMATCH") (side_label side ++ (lit ": " ++ message)))
        ]
      ]

  -- `check_dialects`
  unfoldable pub check_dialects : List TestCase → List ExecutionResult
  unfolding mismatch sides_of
  check_dialects [] = []
  check_dialects (c ∷ cs) =
      let rest = check_dialects cs in
      elim (mismatch c (sides_of c.execution_scope)) [ none ↦ rest | some r ↦ r ∷ rest ]

  -- `_executor_for(case, side).validate_syntax(…)`
  unfoldable pub compile_side : TestCase → QuerySide → W → Option Failure × W
  unfolding executor_for sql_of
  compile_side c side w =
      let (found, w1) = executor_for x c side w in
      elim found [
        | ok executor ↦ x.validate_syntax executor (sql_of side c) c.timeout_seconds w1
        | err e ↦ (some e, w1)
      ]

  -- `_validate_one`, over the sides that are left
  unfoldable pub validate_sides :
      TestCase → List QuerySide → Notes → W → Option ExecutionResult × Notes × W
  unfolding rejection_text side_label validation_failure error_side_of compile_side note_unavailable
      connection_of sanitize_error lit
  validate_sides c [] n w = (none, n, w)
  validate_sides c (side ∷ sides) n w =
      let (answer, w1) = compile_side c side w in
      elim (assert_read_only (some (sql_of side c))) [
        | err e ↦ (
          some (
              validation_failure t c run_id checked_at (error_side_of side) (lit "SQL_REJECTED")
                (rejection_text (side_label side) e)),
          n,
          w,
        )
        | ok sql ↦ elim answer [
          | none ↦ validate_sides c sides n w1
          | some e ↦
              if is_unavailable e.class
              then validate_sides c sides (note_unavailable t (connection_of side c) e n) w1
              else (
                some (
                    validation_failure t c run_id checked_at (error_side_of side)
                      (lit "SQL_SYNTAX_ERROR")
                      (sanitize_error t.mask e.type_name e.message max_message_length)),
                n,
                w1,
              )
        ]
      ]

  -- `validate_cases`: the cases that compiled, the failures, and the state
  unfoldable pub validate_cases :
      List TestCase → Notes → W → List TestCase × List ExecutionResult × Notes × W
  unfolding validate_sides sides_of
  validate_cases [] n w = ([], [], n, w)
  validate_cases (c ∷ cs) n w =
      let (failure, n1, w1) = validate_sides c (sides_of c.execution_scope) n w in
      let (passed, failures, n2, w2) = validate_cases cs n1 w1 in
      elim failure [
        | none ↦ (c ∷ passed, failures, n2, w2)
        | some r ↦ (passed, r ∷ failures, n2, w2)
      ]

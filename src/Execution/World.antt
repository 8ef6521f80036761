-- ===== src/Execution/World.antt =====
-- execution/engine.py `Executors`, database/base.py `QueryExecutor`: what the engine needs of the
-- open connections. The world behind them, servers and clock, is a state that each call may change;
-- what a call raises is a value.
use execution_auto.Base.{ℕ, Option, List, Text, Result}
use execution_auto.Evaluation.Values.{Scalar}
use execution_auto.Database.Failures.{Failure}

pub record Clock (W : Type 0) : Type 0 where
  -- `datetime.now(UTC)`, to the second
  pub now : W → ℕ × W
  pub perf_counter : W → ℕ × W
  -- `_elapsed_ms`, between two readings of `perf_counter`
  pub elapsed_ms : ℕ → ℕ → ℕ

pub record Executors (W : Type 0) : Type 0 where
  pub sections : List Text
  -- The sections that failed to open, each with the reason.
  pub open_all : W → List (Text × Text) × W
  -- `executor_for(section).validate_syntax(sql, timeout)`; `none` is the normal return.
  pub validate_syntax : Text → Text → ℕ → W → Option Failure × W
  -- `executor_for(section).execute_scalar(sql, timeout)`
  pub execute_scalar : Text → Text → ℕ → W → Result Failure Scalar × W
  pub database_name : Text → Text
  pub close_all : W → W

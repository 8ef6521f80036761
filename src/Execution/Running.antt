-- ===== src/Execution/Running.antt =====
-- execution/engine.py, pass 2: the tests that pass 1 cleared are executed, one after another.
pub mod Stops
pub mod Comparable
use execution_auto.Base.{
  ℕ, Bool, true, false, not, ◌&&◌, ◌||◌, Option, none, some, List, [], ◌∷◌, ◌++◌, if◌then◌else◌,
  Text, lit, is_empty, Result, ok, err,
}
use execution_auto.Models.{TestStatus, Platform}
use execution_auto.Models.Codes.{ErrorCode}
use execution_auto.Evaluation.Values.{Scalar, Value}
use execution_auto.Evaluation.Normalization.{Raised, conversion, uncaught, is_missing, normalize}
use execution_auto.Evaluation.Comparisons.{Request, Verdict, actual}
use execution_auto.Evaluation.Comparisons.Rules.{compare}
use execution_auto.Database.Failures.{Failure, FailureClass}
use execution_auto.Workbook.Definitions.{Definition}
use execution_auto.Execution.Report.{Outcome}
use execution_auto.Execution.Outcomes.{
  Side, sides_of, source_side, target_side, side_text, platform_of_side, section_of, sql_of, BySide,
  get, Extras, no_extras, Setting, outcome, not_executed_outcome,
}
use execution_auto.Execution.World.{Clock, Executors}
use execution_auto.Execution.Validation.{failure_detail}

-- The code of a failed query, by the class of what it raised.
unfoldable pub query_code : FailureClass → ErrorCode
query_code FailureClass.timed_out = ErrorCode.query_timeout
query_code FailureClass.non_scalar = ErrorCode.non_scalar_result
query_code FailureClass.connection_failed = ErrorCode.connection_failed
query_code FailureClass.unexpected = ErrorCode.unexpected_error
query_code _ = ErrorCode.query_execution_failed

-- BLOCKED where the code is CONNECTION_FAILED
unfoldable pub query_status : FailureClass → TestStatus
query_status FailureClass.connection_failed = TestStatus.blocked
query_status _ = TestStatus.error

-- What the queries of one test have produced so far.
pub record Gathered : Type 0 where
  pub raw : BySide Scalar
  pub durations : BySide ℕ
  pub databases : BySide Text

abbrev pub nothing_gathered : Gathered
nothing_gathered = record { raw = []; durations = []; databases = [] }

abbrev pub extras_of : ℕ → Gathered → Extras
extras_of executed_at g = record no_extras {
  executed_at = some executed_at;
  raw = g.raw;
  durations = g.durations;
  databases = g.databases;
}

-- An exception that no handler of the engine catches: it ends the run.
pub data Escape : Type 0 where
  escaped : Escape

module _ (s : Setting) where
  -- `_query_failure`
  unfoldable pub query_failure : Definition → Side → Failure → ℕ → Gathered → Outcome
  unfolding query_code query_status failure_detail
  query_failure d side e executed_at g =
      outcome s d (query_status e.class) (platform_of_side side) (some (query_code e.class))
        (failure_detail s e) (extras_of executed_at g)

  -- `ErrorCode.NULL_RESULT if value is None or …`
  abbrev pub conversion_code : Scalar → ErrorCode
  conversion_code value =
      if is_missing value then ErrorCode.null_result else ErrorCode.type_conversion_error

  abbrev pub conversion_failure : Definition → Side → Scalar → Text → ℕ → Gathered → Outcome
  conversion_failure d side value message executed_at g =
      outcome s d TestStatus.error (platform_of_side side) (some (conversion_code value)) message
        (extras_of executed_at g)

  -- The values as their declared type: all of them, or the outcome of the first that is refused.
  unfoldable pub normalize_all :
      Definition → ℕ → Gathered → BySide Scalar → Result Escape (Result Outcome (BySide Value))
  unfolding normalize is_missing lit
  normalize_all d executed_at g [] = ok (ok [])
  normalize_all d executed_at g ((side, value) ∷ rest) =
      let later = normalize_all d executed_at g rest in
      elim (normalize s.services.py value d.result_type
        (lit "The " ++ (side_text side ++ lit " result"))) [
          | err uncaught ↦ err escaped
          | err (conversion message) ↦
              ok (err (conversion_failure d side value message executed_at g))
          | ok v ↦ elim later [
            | err e ↦ err e
            | ok (err o) ↦ ok (err o)
            | ok (ok vs) ↦ ok (ok ((side, v) ∷ vs))
          ]
        ]

  -- `ComparisonRequest(...)`
  abbrev pub request_of : Definition → BySide Value → Request
  request_of d values = record {
    comparison = d.comparison;
    scope = d.scope;
    result_type = d.result_type;
    source = get source_side values;
    target = get target_side values;
    expected = d.expected_value;
    absolute_tolerance = d.absolute_tolerance;
    percentage_tolerance = d.percentage_tolerance;
  }

  -- `Platform.COMPARISON if result.status is TestStatus.FAIL else Platform.NONE`
  abbrev platform_of_status : TestStatus → Platform
  platform_of_status TestStatus.fail = Platform.comparison
  platform_of_status _ = Platform.nowhere

  abbrev pub decided_outcome :
      Definition → ℕ → Gathered → BySide Value → Request → Result Text Verdict → Outcome
  decided_outcome d executed_at g values request (err message) =
      outcome s d TestStatus.error Platform.comparison (some ErrorCode.type_conversion_error)
        message (extras_of executed_at g)
  decided_outcome d executed_at g values request (ok v) =
      outcome s d v.status (platform_of_status v.status) v.error_code v.detail (record {
        executed_at = some executed_at;
        raw = g.raw;
        normalized = values;
        durations = g.durations;
        databases = g.databases;
        variance = v.variance;
        variance_percentage = v.variance_percentage;
        actual = actual request;
      })

  -- `_execute_one` behind the queries
  unfoldable pub decide : Definition → ℕ → Gathered → Result Escape Outcome
  unfolding normalize_all compare actual get
  decide d executed_at g = elim (normalize_all d executed_at g g.raw) [
    | err e ↦ err e
    | ok (err o) ↦ ok o
    | ok (ok values) ↦
        let request = request_of d values in
        ok (decided_outcome d executed_at g values request (compare s.services.py request))
  ]

-- `outcome.status in {TestStatus.ERROR, TestStatus.BLOCKED}`
abbrev pub stops : TestStatus → Bool
stops TestStatus.error = true
stops TestStatus.blocked = true
stops _ = false

abbrev pub stop_reason : Definition → Text
stop_reason d =
    lit "Stopped after " ++ (d.test_id ++ lit " errored, because Continue_On_Test_Error = No.")

abbrev pub cons_outcome : Outcome → Result Escape (List Outcome) → Result Escape (List Outcome)
cons_outcome o (ok os) = ok (o ∷ os)
cons_outcome o (err e) = err e

module _ (s : Setting) where
  abbrev pub settle_sides : Definition → ℕ → Result Outcome Gathered → Result Escape Outcome
  settle_sides d executed_at (err o) = ok o
  settle_sides d executed_at (ok g) = decide s d executed_at g

  -- `stopped_reason` after a test; it is empty while the run goes on.
  abbrev pub reason_after : Definition → Outcome → Text
  reason_after d o =
      if not s.control.continue_on_test_error && stops o.status then stop_reason d else []

  abbrev pub not_run : Text → List Definition → List Outcome
  not_run reason [] = []
  not_run reason (d ∷ ds) =
      not_executed_outcome s reason ErrorCode.run_stopped d ∷ not_run reason ds

module _ {W : Type 0} (clock : Clock W) (x : Executors W) (s : Setting) where
  -- The loop of `_execute_one` over the sides.
  unfoldable pub run_sides : Definition → ℕ → List Side → Gathered → W → Result Outcome Gathered × W
  unfolding query_failure
  run_sides d executed_at [] g w = (ok g, w)
  run_sides d executed_at (side ∷ sides) g w =
      let databases = g.databases ++ (side, x.database_name (section_of d side)) ∷ [] in
      let (started, w1) = clock.perf_counter w in
      let (answer, w2) =
        x.execute_scalar (section_of d side) (sql_of d side) s.control.query_timeout_seconds w1 in
      let (ended, w3) = clock.perf_counter w2 in
      let durations = g.durations ++ (side, clock.elapsed_ms started ended) ∷ [] in
      elim answer [
        | err e ↦ (
          err (
              query_failure s d side e executed_at
                (record { raw = g.raw; durations = durations; databases = databases })),
          w3,
        )
        | ok value ↦
            run_sides d executed_at sides
              (record {
                raw = g.raw ++ (side, value) ∷ [];
                durations = durations;
                databases = databases;
              })
              w3
      ]

  -- `_execute_one`
  unfoldable pub execute_one : Definition → W → Result Escape Outcome × W
  unfolding run_sides decide sides_of
  execute_one d w =
      let (executed_at, w1) = clock.now w in
      let (gathered, w2) = run_sides d executed_at (sides_of d.scope) nothing_gathered w1 in
      (settle_sides s d executed_at gathered, w2)

  -- `_run_tests`; once there is a reason, every test behind is NOT EXECUTED.
  unfoldable pub run_tests : List Definition → W → Result Escape (List Outcome) × W
  unfolding execute_one not_executed_outcome
  run_tests [] w = (ok [], w)
  run_tests (d ∷ ds) w =
      let (result, w1) = execute_one d w in
      elim result [
        | err e ↦ (err e, w1)
        | ok o ↦
            if is_empty (reason_after s d o)
            then (let (later, w2) = run_tests ds w1 in (cons_outcome o later, w2))
            else (ok (o ∷ not_run s (reason_after s d o) ds), w1)
      ]

-- ===== src/Runner/Runs.antt =====
-- runner.py `run`, `_execute_all` and `_finish`: one run over what `read_workbook` returned. The result file and
-- the log are left out.
pub mod Covers
pub mod Complete
pub mod Gate
use execution_auto.Base.{
  ℕ, Bool, true, false, not, ◌&&◌, ◌||◌, Option, none, some, List, [], ◌∷◌, ◌++◌, map,
  if◌then◌else◌, keep, sort_by, Text, lit, mem_text, Result, ok, err,
}
use execution_auto.Models.{RunMode, validate, execute}
use execution_auto.Execution.World.{Clock}
use execution_auto.Runner.Kinds.{Fault}
use execution_auto.Runner.Records.{
  ExecutionStatus, is_status, status_index, ErrorSide, TestCase, ExecutionResult, RowNote,
  WorkbookRead, RunSummary, result_row,
}
use execution_auto.Runner.Sides.{Factory, Tools, settled}
use execution_auto.Runner.Cases.{execute_case}
use execution_auto.Runner.Cases.Compile.{check_dialects, validate_cases}
use execution_auto.Runner.Selection.{OnSyntaxError, continue, stop, RunOptions, Selected, select}

-- How a run ends without a summary: by a `WorkbookError`, or by an exception of a case
pub data RunFailure : Type 0 where
  workbook_error : Text → RunFailure
  crashed : Fault → RunFailure

abbrev pub Results : Type 0
Results = List ExecutionResult

module _ (t : Tools) (run_id : Text) (at : ℕ) where
  -- `_skipped_result`
  unfoldable pub skipped_result : RowNote → ExecutionResult
  unfolding settled
  skipped_result n =
      settled t n.test_case_id n.row_number ExecutionStatus.skipped at run_id n.note
        ErrorSide.nowhere []

  -- `_workbook_error_result`
  unfoldable pub workbook_error_result : RowNote → ExecutionResult
  unfolding settled lit
  workbook_error_result n =
      settled t n.test_case_id n.row_number ExecutionStatus.error at run_id n.note
        ErrorSide.workbook (lit "WORKBOOK_ROW_INVALID")

  -- `_skipped_result` of a case
  unfoldable pub skipped_case : Text → TestCase → ExecutionResult
  unfolding skipped_result
  skipped_case reason c =
      skipped_result
        (record { row_number = c.row_number; test_case_id = c.test_case_id; note = reason })

  -- `_validated`
  unfoldable pub validated_result : TestCase → ExecutionResult
  unfolding settled
  validated_result c =
      settled t c.test_case_id c.row_number ExecutionStatus.validated at run_id [] ErrorSide.nowhere
        []

  -- `_not_executed`
  unfoldable pub not_executed_result : TestCase → ExecutionResult
  unfolding settled
  not_executed_result c =
      settled t c.test_case_id c.row_number ExecutionStatus.not_executed at run_id []
        ErrorSide.nowhere []

  -- The rows that are decided before anything is opened
  unfoldable pub undecided : WorkbookRead → List (TestCase × Text) → Results
  unfolding skipped_result workbook_error_result skipped_case
  undecided read others =
      map workbook_error_result read.invalid
      ++ (map skipped_result read.skipped ++ map (λ o. skipped_case (o.1) (o.0)) others)

-- The results so far, and those that follow if nothing is raised
abbrev pub with_results : Results → Result Fault Results → Result Fault Results
with_results rs (ok later) = ok (rs ++ later)
with_results rs (err e) = err e

-- `opts.mode is RunMode.VALIDATE or opts.on_syntax_error is OnSyntaxError.STOP`
unfoldable pub compiles_first : RunMode → OnSyntaxError → Bool
compiles_first validate s = true
compiles_first execute stop = true
compiles_first execute continue = false

-- `validation.gate_closed`
unfoldable pub is_closed : Results → Bool
is_closed [] = false
is_closed (r ∷ rs) = true

module _ {W E : Type 0} (t : Tools) (clock : Clock W) (x : Factory W E) (options : RunOptions) where
  -- The cases after a `--fail-fast` stop
  unfoldable pub halted : List TestCase → W → Results × W
  unfolding skipped_case lit
  halted [] w = ([], w)
  halted (c ∷ cs) w =
      let (at, w1) = clock.now w in
      (map (skipped_case t options.run_id at (lit "Stopped by --fail-fast")) (c ∷ cs), w1)

  -- `opts.fail_fast and result.status is not ExecutionStatus.PASS`
  abbrev pub is_stop : ExecutionResult → Bool
  is_stop r = options.fail_fast && not (is_status r.status ExecutionStatus.pass)

  -- `_execute_all`
  unfoldable pub execute_all : List TestCase → W → Result Fault Results × W
  unfolding halted status_index
  execute_all [] w = (ok [], w)
  execute_all (c ∷ cs) w =
      let (executed, w1) = execute_case t clock x options.run_id c w in
      let (rest, w2) = execute_all cs w1 in
      let (later, w3) = halted cs w1 in
      elim executed [
        | err e ↦ (err e, w1)
        | ok r ↦ if is_stop r then (ok (r ∷ later), w3) else (with_results (r ∷ []) rest, w2)
      ]

  -- The branch that the mode, the option and the gate choose after the compile pass
  unfoldable pub after_compiling :
      RunMode → OnSyntaxError → Bool → List TestCase → W → Result Fault Results × W
  unfolding execute_all validated_result not_executed_result
  after_compiling mode stop true passed w =
      let (at, w1) = clock.now w in (ok (map (not_executed_result t options.run_id at) passed), w1)
  after_compiling validate stop false passed w =
      let (at, w1) = clock.now w in (ok (map (validated_result t options.run_id at) passed), w1)
  after_compiling validate continue closed passed w =
      let (at, w1) = clock.now w in (ok (map (validated_result t options.run_id at) passed), w1)
  after_compiling execute stop false passed w = execute_all passed w
  after_compiling execute continue closed passed w = execute_all passed w

  -- The compile pass and what follows it; the results begin with the failures.
  unfoldable pub compile_and_go : Results → List TestCase → W → Result Fault Results × W
  unfolding after_compiling
  compile_and_go mismatches cases w =
      let (checked_at, w1) = clock.now w in
      let (passed, failures, notes, w2) =
        validate_cases t x options.run_id checked_at cases
          (record { unavailable = []; warnings = [] }) w1 in
      let (rest, w3) =
        after_compiling options.mode options.on_syntax_error (is_closed (mismatches ++ failures))
          passed w2 in
      (with_results failures rest, w3)

  -- With or without the compile pass
  unfoldable pub go_on : Results → List TestCase → W → Result Fault Results × W
  unfolding compiles_first compile_and_go execute_all
  go_on mismatches paired w =
      if compiles_first options.mode options.on_syntax_error
      then compile_and_go mismatches paired w
      else execute_all paired w

  -- The body of the `try` in `run`
  unfoldable pub decide : List TestCase → W → Result Fault Results × W
  unfolding check_dialects keep mem_text go_on
  decide selected w =
      let (checked_at, w1) = clock.now w in
      let mismatches = check_dialects t x options.run_id checked_at selected in
      let paired =
        keep (λ c. not (mem_text c.test_case_id (map (λ r. r.test_case_id) mismatches))) selected in
      let (rest, w2) = go_on mismatches paired w1 in (with_results mismatches rest, w2)

  -- `_finish`, and below it with the `finally` of `run`, in the order of the two branches
  unfoldable pub summary : ℕ → Results → ℕ → RunSummary
  unfolding sort_by
  summary started all_results finished = record {
    run_id = options.run_id;
    started_at = started;
    finished_at = finished;
    results = sort_by result_row all_results;
  }

  unfoldable pub finish_run : ℕ → Results → W → RunSummary × W
  unfolding compiles_first summary
  finish_run started results w =
      if compiles_first options.mode options.on_syntax_error
      then (summary started results (clock.now (x.close_all w)).0, (clock.now (x.close_all w)).1)
      else (summary started results (clock.now w).0, x.close_all (clock.now w).1)

  -- `run`
  unfoldable pub run : (Text → Text) → WorkbookRead → W → Result RunFailure RunSummary × W
  unfolding select undecided decide finish_run sort_by
  run casefold read w =
      let (started, w1) = clock.now w in
      elim (select casefold read.test_cases options) [
        | err message ↦ (err (workbook_error message), w1)
        | ok s ↦
            let early = sort_by result_row (undecided t options.run_id started read s.others) in
            let (decided, w2) = decide s.chosen w1 in
            elim decided [
              | err e ↦ (err (crashed e), x.close_all w2)
              | ok rs ↦ let (report, w3) = finish_run started (early ++ rs) w2 in (ok report, w3)
            ]
      ]

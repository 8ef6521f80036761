-- ===== src/Runner/Runs/Complete.antt =====
-- runner.py `run`: every row of the sheet has its results in the summary, in row order.
use execution_auto.Base.{
  ℕ, ◌+◌, ◌≡◌, refl, subst, Bool, true, false, List, [], ◌++◌, map, Text, occurs, occurs-append,
  occurs-map, InOrder, sort_by, sort_by-InOrder, occurs-sort_by, arith, Result, ok, err, inl, inr,
  Bool-cases, Result-cases,
}
use execution_auto.Models.{RunMode, validate, execute}
use execution_auto.Execution.World.{Clock}
use execution_auto.Runner.Records.{
  TestCase, WorkbookRead, RunSummary, result_row, case_row, note_row,
}
use execution_auto.Runner.Sides.{Factory, Tools, settled}
use execution_auto.Runner.Cases.Compile.{Notes, check_dialects, validate_cases}
use execution_auto.Runner.Selection.{OnSyntaxError, continue, stop, RunOptions, select}
use execution_auto.Runner.Selection.Partition.{other_row, Distinct, select-covers, select-Distinct}
use execution_auto.Runner.Runs.{
  RunFailure, Results, undecided, skipped_result, workbook_error_result, skipped_case,
  validated_result, not_executed_result, is_closed, after_compiling, compile_and_go, compiles_first,
  go_on, decide, summary, finish_run, run,
}
use execution_auto.Runner.Runs.Covers.{
  CountOn, paired, ids_in, check_dialects-covers, validate_cases-covers, settled-covers,
  with_results-covers, execute_all-covers,
}

-- The summary, if there is one, has `k` results on the row `n`, and is in row order.
abbrev Complete : ℕ → ℕ → Result RunFailure RunSummary → Type 0
Complete n k (ok s) = (occurs result_row n s.results ≡ k) × InOrder result_row s.results
Complete n k (err e) = Unit

module _ {W E : Type 0} (t : Tools) (clock : Clock W) (x : Factory W E) (options : RunOptions)
    (n : ℕ) where
  after_compiling-covers :
      (mode : RunMode) (choice : OnSyntaxError) (closed : Bool) (cs : List TestCase) (w : W)
      → CountOn n
          (occurs case_row n cs)
          (after_compiling t clock x options mode choice closed cs w).0
  unfolding after_compiling validated_result not_executed_result settled
  after_compiling-covers validate stop true cs w = settled-covers n _ cs (λ c. refl)
  after_compiling-covers validate stop false cs w = settled-covers n _ cs (λ c. refl)
  after_compiling-covers validate continue closed cs w = settled-covers n _ cs (λ c. refl)
  after_compiling-covers execute stop true cs w = settled-covers n _ cs (λ c. refl)
  after_compiling-covers execute stop false cs w = execute_all-covers t clock x options n cs w
  after_compiling-covers execute continue closed cs w = execute_all-covers t clock x options n cs w

  compile_and_go-covers :
      (ms : Results) (cs : List TestCase) (w : W)
      → CountOn n (occurs case_row n cs) (compile_and_go t clock x options ms cs w).0
  unfolding compile_and_go
  compile_and_go-covers ms cs w =
      let (at, w1) = clock.now w in
      let notes : Notes = record { unavailable = []; warnings = [] } in
      let (passed, failures, notes', w2) = validate_cases t x options.run_id at cs notes w1 in
      with_results-covers n (occurs result_row n failures) (occurs case_row n passed)
        (occurs case_row n cs) failures
        (after_compiling t clock x options options.mode options.on_syntax_error
          (is_closed (ms ++ failures)) passed w2).0
        (omega (arith, validate_cases-covers t x options.run_id at n cs notes w1)) refl
        (after_compiling-covers options.mode options.on_syntax_error (is_closed (ms ++ failures))
          passed w2)

  go_on-covers :
      (ms : Results) (cs : List TestCase) (w : W)
      → CountOn n (occurs case_row n cs) (go_on t clock x options ms cs w).0
  unfolding go_on
  go_on-covers ms cs w = elim (Bool-cases (compiles_first options.mode options.on_syntax_error)) [
    | inl first ↦ rw (first, CountOn) (compile_and_go-covers ms cs w)
    | inr later ↦ rw (later, CountOn) (execute_all-covers t clock x options n cs w)
  ]

  decide-covers :
      (cs : List TestCase) (w : W)
      → Distinct cs
      → CountOn n (occurs case_row n cs) (decide t clock x options cs w).0
  unfolding decide
  decide-covers cs w d =
      let (at, w1) = clock.now w in
      let ms = check_dialects t x options.run_id at cs in
      let left = paired (ids_in ms) cs in
      with_results-covers n (occurs result_row n ms) (occurs case_row n left) (occurs case_row n cs)
        ms (go_on t clock x options ms left w1).0
        (check_dialects-covers t x options.run_id at n cs d) refl (go_on-covers ms left w1)

module _ {W E : Type 0} (t : Tools) (clock : Clock W) (x : Factory W E) (options : RunOptions)
    (n : ℕ) where
  undecided-covers :
      (at : ℕ) (read : WorkbookRead) (others : List (TestCase × Text))
      → occurs result_row n (undecided t options.run_id at read others)
        ≡ occurs note_row n read.invalid
          + (occurs note_row n read.skipped + occurs other_row n others)
  unfolding undecided workbook_error_result skipped_result skipped_case settled
  undecided-covers at read others =
      let invalid = map (workbook_error_result t options.run_id at) read.invalid in
      let skipped = map (skipped_result t options.run_id at) read.skipped in
      let left_out = map (λ o. skipped_case t options.run_id at (o.1) (o.0)) others in
      omega (
        arith,
        occurs-append result_row n invalid (skipped ++ left_out),
        occurs-append result_row n skipped left_out,
        occurs-map result_row note_row n (workbook_error_result t options.run_id at) read.invalid
            (λ r. refl),
        occurs-map result_row note_row n (skipped_result t options.run_id at) read.skipped
            (λ r. refl),
        occurs-map result_row other_row n (λ o. skipped_case t options.run_id at (o.1) (o.0)) others
            (λ o. refl),
      )

  finish_run-Complete :
      (started k : ℕ) (early rs : Results) (w : W)
      → occurs result_row n early + occurs result_row n rs ≡ k
      → Complete n k (ok (finish_run t clock x options started (early ++ rs) w).0)
  unfolding finish_run summary
  finish_run-Complete started k early rs w h =
      elim (Bool-cases (compiles_first options.mode options.on_syntax_error)) [
        | inl first ↦
            rw (first, Complete)
              (
                omega (
                  arith,
                  h,
                  occurs-sort_by result_row n (early ++ rs),
                  occurs-append result_row n early rs,
                ),
                sort_by-InOrder result_row (early ++ rs),
              )
        | inr later ↦
            rw (later, Complete)
              (
                omega (
                  arith,
                  h,
                  occurs-sort_by result_row n (early ++ rs),
                  occurs-append result_row n early rs,
                ),
                sort_by-InOrder result_row (early ++ rs),
              )
      ]

  run-Complete :
      (casefold : Text → Text) (read : WorkbookRead) (w : W)
      → Distinct read.test_cases
      → Complete n
          (occurs note_row n read.invalid
            + (occurs note_row n read.skipped + occurs case_row n read.test_cases))
          (run t clock x options casefold read w).0
  unfolding run
  run-Complete casefold read w d =
      let (started, w1) = clock.now w in
      elim (Result-cases (select casefold read.test_cases options)) [
        | inr (message, refused) ↦ rw (refused, Complete) tt
        | inl (s, accepted) ↦
            let early = sort_by result_row (undecided t options.run_id started read s.others) in
            let (decided, w2) = decide t clock x options s.chosen w1 in
            let counted =
              decide-covers t clock x options n s.chosen w1
                (select-Distinct casefold read.test_cases options s accepted d) in
            elim (Result-cases decided) [
              | inr (e, raised) ↦ rw (accepted, raised, Complete) tt
              | inl (rs, returned) ↦
                  let on_row = subst (CountOn n (occurs case_row n s.chosen)) returned counted in
                  rw (accepted, returned, Complete)
                    (finish_run-Complete started _ early rs w2 (
                      omega (
                        arith,
                        on_row,
                        select-covers n casefold read.test_cases options s accepted,
                        occurs-sort_by result_row n
                            (undecided t options.run_id started read s.others),
                        undecided-covers started read s.others,
                      )))
            ]
      ]

module _ {W E : Type 0} (t : Tools) (clock : Clock W) (x : Factory W E) (options : RunOptions)
    (casefold : Text → Text) (read : WorkbookRead) (w : W) (distinct : Distinct read.test_cases)
    (s : RunSummary) (returned : (run t clock x options casefold read w).0 ≡ ok s) where
  -- Where the ids of the cases are distinct and a run returns a summary, the summary has on every row exactly as
  -- many results as the sheet has invalid rows, skipped rows and cases there, and its results are in row order,
  -- whatever the options, the dialects, the databases and the cases did.
  pub run-covers :
      (n : ℕ)
      → (occurs result_row n s.results
          ≡ occurs note_row n read.invalid
            + (occurs note_row n read.skipped + occurs case_row n read.test_cases))
        × InOrder result_row s.results
  run-covers n =
      subst (Complete n _) returned (run-Complete t clock x options n casefold read w distinct)

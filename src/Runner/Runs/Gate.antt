-- ===== src/Runner/Runs/Gate.antt =====
-- runner.py: the world behind a run that executes nothing. A property of the world stands for all that only the
-- execution of a query could change.
use execution_auto.Base.{
  ◌≡◌, sym, subst, ℕ, if◌then◌else◌, arith, Bool, true, false, some, List, [], ◌∷◌, ◌++◌, sort_by,
  Text, inl, inr, Option-cases, Bool-cases, Result-cases,
}
use execution_auto.Models.{RunMode, validate, execute, DatabaseType}
use execution_auto.Security.SqlGuard.{assert_read_only}
use execution_auto.Execution.World.{Clock}
use execution_auto.Runner.Records.{TestCase, WorkbookRead, result_row}
use execution_auto.Runner.Sides.{QuerySide, Factory, Tools, sides_of, sql_of, connection_of}
use execution_auto.Runner.Cases.{engine_used, executor_for}
use execution_auto.Runner.Cases.Compile.{
  Notes, is_unavailable, note_unavailable, compile_side, validate_sides, validate_cases,
}
use execution_auto.Runner.Selection.{OnSyntaxError, continue, stop, RunOptions, select}
use execution_auto.Runner.Runs.{
  Results, execute_all, is_closed, undecided, after_compiling, compile_and_go, compiles_first,
  go_on, decide, finish_run, run,
}

module _ {W E : Type 0} (t : Tools) (clock : Clock W) (x : Factory W E) (P : W → Type 0)
    (now_keeps : (w : W) → P w → P (clock.now w).1)
    (open_keeps : (connection : Text) (engine : DatabaseType) (test_id : Text) (side : QuerySide)
        (w : W)
      → P w
      → P (x.get_executor connection engine test_id side w).1)
    (check_keeps : (executor : E) (sql : Text) (timeout : ℕ) (w : W)
      → P w
      → P (x.validate_syntax executor sql timeout w).1)
    (close_keeps : (w : W) → P w → P (x.close_all w)) where
  module _ (run_id : Text) (at : ℕ) where
    compile_side-keeps :
        (c : TestCase) (side : QuerySide) (w : W) → P w → P (compile_side t x run_id at c side w).1
    unfolding compile_side executor_for
    compile_side-keeps c side w h =
        let (found, w1) = executor_for x c side w in
        let h1 = open_keeps (connection_of side c) (engine_used x c side) c.test_case_id side w h in
        elim (Result-cases found) [
          | inl (executor, opened) ↦
              rw (opened, compile_side)
                (check_keeps executor (sql_of side c) c.timeout_seconds w1 h1)
          | inr (e, raised) ↦ rw (raised, compile_side) h1
        ]

    validate_sides-keeps :
        (c : TestCase) (sides : List QuerySide) (n : Notes) (w : W)
        → P w
        → P (validate_sides t x run_id at c sides n w).2
    unfolding validate_sides
    validate_sides-keeps c [] n w h = h
    validate_sides-keeps c (side ∷ sides) n w h =
        let (answer, w1) = compile_side t x run_id at c side w in
        let h1 = compile_side-keeps c side w h in
        elim (Result-cases (assert_read_only (some (sql_of side c)))) [
          | inr (e, refused) ↦ rw (refused, validate_sides) h
          | inl (sql, fine) ↦ elim (Option-cases answer) [
            | inl compiled ↦
                rw (fine, compiled, validate_sides) (validate_sides-keeps c sides n w1 h1)
            | inr (e, failed) ↦ elim (Bool-cases (is_unavailable e.class)) [
              | inl unavailable ↦
                  rw (fine, failed, unavailable, validate_sides)
                    (validate_sides-keeps c sides (note_unavailable t (connection_of side c) e n) w1
                      h1)
              | inr rejected ↦ rw (fine, failed, rejected, validate_sides) h1
            ]
          ]
        ]

    validate_cases-keeps :
        (cs : List TestCase) (n : Notes) (w : W) → P w → P (validate_cases t x run_id at cs n w).3
    unfolding validate_cases
    validate_cases-keeps [] n w h = h
    validate_cases-keeps (c ∷ cs) n w h =
        let (failure, n1, w1) = validate_sides t x run_id at c (sides_of c.execution_scope) n w in
        let rest =
          validate_cases-keeps cs n1 w1
            (validate_sides-keeps c (sides_of c.execution_scope) n w h) in
        elim (Option-cases failure) [
          | inl compiled ↦ rw (compiled, validate_cases) rest
          | inr (r, failed) ↦ rw (failed, validate_cases) rest
        ]

  module _ (options : RunOptions) where
    -- Nothing is executed after a pass that was only to validate.
    after_validate-keeps :
        (choice : OnSyntaxError) (closed : Bool) (cs : List TestCase) (w : W)
        → P w
        → P (after_compiling t clock x options validate choice closed cs w).1
    unfolding after_compiling
    after_validate-keeps stop true cs w h = now_keeps w h
    after_validate-keeps stop false cs w h = now_keeps w h
    after_validate-keeps continue closed cs w h = now_keeps w h

    -- Whether nothing is executed after the compile pass
    abbrev Idle : RunMode → OnSyntaxError → Bool → Type 0
    Idle validate choice closed = Unit
    Idle execute stop true = Unit
    Idle execute stop false = ⊥
    Idle execute continue closed = ⊥

    after_compiling-keeps :
        (mode : RunMode) (choice : OnSyntaxError) (closed : Bool) (cs : List TestCase) (w : W)
        → Idle mode choice closed
        → P w
        → P (after_compiling t clock x options mode choice closed cs w).1
    unfolding after_compiling
    after_compiling-keeps validate choice closed cs w idle h =
        after_validate-keeps choice closed cs w h
    after_compiling-keeps execute stop true cs w idle h = now_keeps w h
    after_compiling-keeps execute stop false cs w idle h = absurd idle
    after_compiling-keeps execute continue closed cs w idle h = absurd idle

    validate-Idle :
        (closed : Bool) → options.mode ≡ validate → Idle options.mode options.on_syntax_error closed
    validate-Idle closed only = subst (λ m. Idle m options.on_syntax_error closed) (sym only) tt

    stop-Idle :
        (mode : RunMode) (choice : OnSyntaxError) (closed : Bool)
        → choice ≡ stop
        → closed ≡ true
        → Idle mode choice closed
    stop-Idle validate choice closed stops shut = tt
    stop-Idle execute stop true stops shut = tt
    stop-Idle execute stop false stops shut = absurd (cc)
    stop-Idle execute continue closed stops shut = absurd (cc)

    -- What the compile pass says of the cases, read at the world `w`
    abbrev pub compiled : List TestCase → W → List TestCase × Results × Notes × W
    compiled cs w =
        validate_cases t x options.run_id (clock.now w).0 cs
          (record { unavailable = []; warnings = [] }) (clock.now w).1

    compile_and_go-keeps :
        (ms : Results) (cs : List TestCase) (w : W)
        → Idle options.mode options.on_syntax_error (is_closed (ms ++ (compiled cs w).1))
        → P w
        → P (compile_and_go t clock x options ms cs w).1
    unfolding compile_and_go
    compile_and_go-keeps ms cs w idle h =
        let (at, w1) = clock.now w in
        let (passed, failures, notes', w2) = compiled cs w in
        after_compiling-keeps options.mode options.on_syntax_error (is_closed (ms ++ failures))
          passed w2 idle (validate_cases-keeps options.run_id at cs _ w1 (now_keeps w h))

    -- With On_Syntax_Error = stop, one row for another engine or one failure of the compile pass is
    -- enough that no query is executed after it: whatever the clock, the opening and the compiling
    -- keep, it keeps. So a row for another engine stops the rows that are correctly paired, although
    -- comments in runner.py say that those still run.
    pub compile_and_go-stop-keeps :
        (ms : Results) (cs : List TestCase) (w : W)
        → options.on_syntax_error ≡ stop
        → is_closed (ms ++ (compiled cs w).1) ≡ true
        → P w
        → P (compile_and_go t clock x options ms cs w).1
    compile_and_go-stop-keeps ms cs w stops shut h =
        compile_and_go-keeps ms cs w (stop-Idle options.mode options.on_syntax_error _ stops shut) h

    go_on-keeps :
        (ms : Results) (cs : List TestCase) (w : W)
        → options.mode ≡ validate
        → P w
        → P (go_on t clock x options ms cs w).1
    unfolding go_on compiles_first
    go_on-keeps ms cs w only h =
        let first : compiles_first options.mode options.on_syntax_error ≡ true =
          ground (arith, only) in
        subst
          (λ b.
            P
              (if b
                then compile_and_go t clock x options ms cs w
                else execute_all t clock x options cs w).1)
          (sym first) (compile_and_go-keeps ms cs w (validate-Idle _ only) h)

    decide-keeps :
        (cs : List TestCase) (w : W)
        → options.mode ≡ validate
        → P w
        → P (decide t clock x options cs w).1
    unfolding decide
    decide-keeps cs w only h = let (at, w1) = clock.now w in go_on-keeps _ _ w1 only (now_keeps w h)

    finish_run-keeps :
        (started : ℕ) (rs : Results) (w : W) → P w → P (finish_run t clock x options started rs w).1
    unfolding finish_run
    finish_run-keeps started rs w h =
        elim (Bool-cases (compiles_first options.mode options.on_syntax_error)) [
          | inl first ↦ rw (first, finish_run) (now_keeps (x.close_all w) (close_keeps w h))
          | inr later ↦ rw (later, finish_run) (close_keeps (clock.now w).1 (now_keeps w h))
        ]

    -- A run that is only to validate executes no query: whatever of the world the clock, the opening, the
    -- compiling and the closing keep, the run keeps.
    pub run-validate-keeps :
        (casefold : Text → Text) (read : WorkbookRead) (w : W)
        → options.mode ≡ validate
        → P w
        → P (run t clock x options casefold read w).1
    unfolding run
    run-validate-keeps casefold read w only h =
        let (started, w1) = clock.now w in
        elim (Result-cases (select casefold read.test_cases options)) [
          | inr (message, refused) ↦ rw (refused, run) (now_keeps w h)
          | inl (s, accepted) ↦
              let (decided, w2) = decide t clock x options s.chosen w1 in
              let kept = decide-keeps s.chosen w1 only (now_keeps w h) in
              elim (Result-cases decided) [
                | inr (e, raised) ↦ rw (accepted, raised, run) (close_keeps w2 kept)
                | inl (rs, returned) ↦
                    rw (accepted, returned, run)
                      (finish_run-keeps started
                        (sort_by result_row (undecided t options.run_id started read s.others)
                          ++ rs)
                        w2 kept)
              ]
        ]

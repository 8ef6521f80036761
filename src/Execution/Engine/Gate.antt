-- ===== src/Execution/Engine/Gate.antt =====
-- execution/engine.py: the world behind a run that executes nothing. A property of the world stands for
-- all that only the execution of a query could change.
use execution_auto.Base.{
  ℕ, ◌≡◌, subst, Bool, true, false, some, List, [], ◌∷◌, arith, Text, inl, inr, Option-cases,
  Bool-cases, Result, ok, err,
}
use execution_auto.Models.{RunMode, validate, execute}
use execution_auto.Workbook.Definitions.{Definition}
use execution_auto.Execution.Report.{Outcome, Report}
use execution_auto.Execution.Outcomes.{Side, sides_of, section_of, sql_of, Services, Setting}
use execution_auto.Execution.World.{Clock, Executors}
use execution_auto.Execution.Validation.{
  Checks, Validation, is_unavailable, note_unavailable, validate_sides, validate_one, validate_from,
  validate_tests, start_checks,
}
use execution_auto.Execution.Running.{Escape, run_tests}
use execution_auto.Execution.Engine.{
  Plan, split_blocked, Passes, passed_pass_two, after_validation, execute_tests, RunFailure,
  executable_of, stops_before_databases, passes_or_failure, run_connected, run_passes,
  close_connections, finish, setting_of, run_plan,
}

module _ {W : Type 0} (clock : Clock W) (x : Executors W) (P : W → Type 0)
    (now_keeps : (w : W) → P w → P (clock.now w).1)
    (open_keeps : (w : W) → P w → P (x.open_all w).1)
    (check_keeps : (section sql : Text) (timeout : ℕ) (w : W)
      → P w
      → P (x.validate_syntax section sql timeout w).1)
    (close_keeps : (w : W) → P w → P (x.close_all w)) where
  module _ (s : Setting) where
    validate_sides-keeps :
        (d : Definition) (at : ℕ) (sides : List Side) (unchecked : Bool) (c : Checks) (w : W)
        → P w
        → P (validate_sides x s d at sides unchecked c w).3
    unfolding validate_sides
    validate_sides-keeps d at [] unchecked c w h = h
    validate_sides-keeps d at (side ∷ sides) unchecked c w h =
        let section = section_of d side in
        let (raised, w') =
          x.validate_syntax section (sql_of d side) s.control.query_timeout_seconds w in
        let h' = check_keeps section (sql_of d side) s.control.query_timeout_seconds w h in
        elim (Option-cases raised) [
          | inl fine ↦ rw (fine, validate_sides) (validate_sides-keeps d at sides unchecked c w' h')
          | inr (e, failed) ↦ elim (Bool-cases (is_unavailable e.class)) [
            | inl unavailable ↦
                rw (failed, validate_sides, unavailable)
                  (validate_sides-keeps d at sides true (note_unavailable s section e c) w' h')
            | inr refused ↦ rw (failed, validate_sides, refused) h'
          ]
        ]

    validate_from-keeps :
        (at : ℕ) (ds : List Definition) (c : Checks) (w : W)
        → P w
        → P (validate_from x s at ds c w).1
    unfolding validate_from validate_one
    validate_from-keeps at [] c w h = h
    validate_from-keeps at (d ∷ ds) c w h =
        let (failure, unchecked, c', w') = validate_sides x s d at (sides_of d.scope) false c w in
        validate_from-keeps at ds c' w' (validate_sides-keeps d at (sides_of d.scope) false c w h)

    -- The pass keeps `P` if it closed the gate or was only to validate.
    abbrev Guarded : RunMode → Result Escape Passes × W → Type 0
    Guarded execute (ok p, w) = p.gate_closed ≡ true → P w
    Guarded execute (err e, w) = Unit
    Guarded validate (r, w) = P w

    pass_two-Guarded :
        (blocked : List Outcome) (v : Validation) (r : Result Escape (List Outcome)) (w : W)
        → Guarded execute (passed_pass_two clock x s blocked v r, w)
    pass_two-Guarded blocked v (ok os) w = λ closed. ground arith
    pass_two-Guarded blocked v (err e) w = tt

    after_validation-Guarded :
        (mode : RunMode) (blocked : List Outcome) (v : Validation) (fs : List Outcome) (w : W)
        → P w
        → Guarded mode (after_validation clock x s mode blocked v fs w)
    unfolding after_validation
    after_validation-Guarded validate blocked v (f ∷ fs) w h = h
    after_validation-Guarded execute blocked v (f ∷ fs) w h = λ _. h
    after_validation-Guarded validate blocked v [] w h = h
    after_validation-Guarded execute blocked v [] w h =
        let (results, w') = run_tests clock x s v.passed w in pass_two-Guarded blocked v results w'

    execute_tests-Guarded :
        (mode : RunMode) (ds : List Definition) (w : W)
        → P w
        → Guarded mode (execute_tests clock x s mode ds w)
    unfolding execute_tests validate_tests
    execute_tests-Guarded mode ds w h =
        let (failures, w1) = x.open_all w in
        let split = split_blocked s failures ds in
        let (at, w2) = clock.now w1 in
        let (v, w3) = validate_from x s at split.runnable start_checks w2 in
        after_validation-Guarded mode split.blocked v v.failures w3
          (validate_from-keeps at split.runnable start_checks w2 (now_keeps w1 (open_keeps w h)))

    -- The same of what `run_passes` makes of it, with the connections.
    abbrev Safe : RunMode → Result RunFailure Passes × List Text × W → Type 0
    Safe execute (ok p, c, w) = p.gate_closed ≡ true → P w
    Safe execute (err e, c, w) = Unit
    Safe validate (r, c, w) = P w

    returned-Safe :
        (mode : RunMode) (r : Result Escape Passes) (c : List Text) (w : W)
        → Guarded mode (r, w)
        → Safe mode (passes_or_failure clock s r, c, w)
    returned-Safe validate r c w h = h
    returned-Safe execute (ok p) c w h = h
    returned-Safe execute (err e) c w h = tt

    run_passes-Safe :
        (p : Plan) (mode : RunMode) (w : W) → P w → Safe mode (run_passes clock s p mode (some x) w)
    unfolding run_passes run_connected
    run_passes-Safe p validate w h =
        ground (arith, execute_tests-Guarded validate (executable_of p) w h)
    run_passes-Safe p execute w h = elim (Bool-cases p.control.dry_run) [
      | inl dry ↦ rw (dry, Safe) (λ _. h)
      | inr wet ↦ elim (Bool-cases (stops_before_databases p)) [
        | inl stopped ↦ rw (wet, stopped, Safe) (λ _. h)
        | inr fine ↦
            let (results, w') = execute_tests clock x s execute (executable_of p) w in
            rw (wet, fine)
              (returned-Safe execute results x.sections w'
                (execute_tests-Guarded execute (executable_of p) w h))
      ]
    ]

    -- The same of the report.
    abbrev Spared : RunMode → Result RunFailure Report × W → Type 0
    Spared execute (ok r, w) = r.stopped_by_validation ≡ true → P w
    Spared execute (err e, w) = Unit
    Spared validate (r, w) = P w

    finish-Spared :
        (p : Plan) (started : ℕ) (mode : RunMode) (r : Result RunFailure Passes) (c : List Text)
        (w : W)
        → Safe mode (r, c, w)
        → Spared mode (finish clock s p started (r, c, w) (some x))
    unfolding close_connections
    finish-Spared p started validate (ok passes) c w h = now_keeps (x.close_all w) (close_keeps w h)
    finish-Spared p started validate (err e) c w h = close_keeps w h
    finish-Spared p started execute (ok passes) c w h =
        λ closed. now_keeps (x.close_all w) (close_keeps w (h closed))
    finish-Spared p started execute (err e) c w h = tt

  run_plan-Spared :
      (services : Services) (run_id : Text) (p : Plan) (mode : RunMode) (started : ℕ) (w : W)
      → P w
      → Spared
          (setting_of services run_id p)
          mode
          (run_plan clock services run_id p mode (some x) started w)
  unfolding run_plan
  run_plan-Spared services run_id p mode started w h =
      let s = setting_of services run_id p in
      let (passes, connections, w') = run_passes clock s p mode (some x) w in
      finish-Spared s p started mode passes connections w' (run_passes-Safe s p mode w h)

  -- Take any property of the world that reading the clock, opening the connections, checking a
  -- statement and closing the connections keep. A run that only validates keeps it, whatever it
  -- returns: it executes no query.
  pub run_plan-validate-keeps :
      (services : Services) (run_id : Text) (p : Plan) (started : ℕ) (w : W)
      → P w
      → P (run_plan clock services run_id p validate (some x) started w).1
  run_plan-validate-keeps services run_id p started w h =
      run_plan-Spared services run_id p validate started w h

  -- The same property is kept by a run that was to execute, when its report says that validation
  -- stopped it: behind a failed check no query was executed, not even of a test that passed.
  pub run_plan-gate-keeps :
      (services : Services) (run_id : Text) (p : Plan) (started : ℕ) (w w' : W) (r : Report)
      → P w
      → run_plan clock services run_id p execute (some x) started w ≡ (ok r, w')
      → r.stopped_by_validation ≡ true
      → P w'
  run_plan-gate-keeps services run_id p started w w' r h e =
      subst (Spared (setting_of services run_id p) execute) e
        (run_plan-Spared services run_id p execute started w h)

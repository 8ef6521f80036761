-- ===== src/Execution/Validation/Covers.antt =====
-- execution/engine.py, pass 1: how many tests pass and fail on each row.
use execution_auto.Base.{
  ℕ, ◌+◌, ◌≡◌, refl, Bool, true, false, Option, none, some, List, [], ◌∷◌, arith, occurs, inl, inr,
  Option-cases, Bool-cases,
}
use execution_auto.Workbook.Definitions.{Definition}
use execution_auto.Workbook.TestCases.Rows.{definition_row}
use execution_auto.Execution.Report.{Outcome, outcome_row}
use execution_auto.Execution.Outcomes.{Side, sides_of, section_of, sql_of, Setting, outcome}
use execution_auto.Execution.World.{Clock, Executors}
use execution_auto.Execution.Validation.{
  Checks, is_unavailable, note_unavailable, validate_sides, validate_one, validate_from,
  validate_tests, start_checks,
}

-- A failure, if there is one, is on the row.
abbrev OnRow : ℕ → Option Outcome → Type 0
OnRow n none = Unit
OnRow n (some o) = o.row_number ≡ n

module _ {W : Type 0} (x : Executors W) (s : Setting) where
  validate_sides-OnRow :
      (d : Definition) (at : ℕ) (sides : List Side) (unchecked : Bool) (c : Checks) (w : W)
      → OnRow d.row_number (validate_sides x s d at sides unchecked c w).0
  unfolding validate_sides outcome
  validate_sides-OnRow d at [] unchecked c w = tt
  validate_sides-OnRow d at (side ∷ sides) unchecked c w =
      let (raised, w') =
        x.validate_syntax (section_of d side) (sql_of d side) s.control.query_timeout_seconds w in
      elim (Option-cases raised) [
        | inl fine ↦ rw (fine, OnRow) (validate_sides-OnRow d at sides unchecked c w')
        | inr (e, failed) ↦ elim (Bool-cases (is_unavailable e.class)) [
          | inl unavailable ↦
              rw (failed, unavailable, OnRow)
                (validate_sides-OnRow d at sides true (note_unavailable s (section_of d side) e c)
                  w')
          | inr refused ↦ rw (failed, refused, OnRow) refl
        ]
      ]

  validate_from-covers :
      (n at : ℕ) (ds : List Definition) (c : Checks) (w : W)
      → let v = (validate_from x s at ds c w).0 in
        occurs outcome_row n v.failures + occurs definition_row n v.passed
        ≡ occurs definition_row n ds
  unfolding validate_from validate_one
  validate_from-covers n at [] c w = refl
  validate_from-covers n at (d ∷ ds) c w =
      let (failure, unchecked, c', w') = validate_sides x s d at (sides_of d.scope) false c w in
      ground (
        arith,
        validate_sides-OnRow d at (sides_of d.scope) false c w,
        validate_from-covers n at ds c' w',
      )

  -- Pass 1 loses no test and makes none up.
  pub validate_tests-covers :
      (clock : Clock W) (n : ℕ) (ds : List Definition) (w : W)
      → let v = (validate_tests x s clock ds w).0 in
        occurs outcome_row n v.failures + occurs definition_row n v.passed
        ≡ occurs definition_row n ds
  unfolding validate_tests
  validate_tests-covers clock n ds w =
      validate_from-covers n (clock.now w).0 ds start_checks (clock.now w).1

-- ===== src/Runner/Cases/Verdicts.antt =====
-- runner.py `execute_case`: which row a result stands for, what PASS says of it, and when no query is sent.
use execution_auto.Base.{
  ◌≡◌, ◌≢◌, refl, subst, true, Option, none, some, List, [], ◌∷◌, Text, lit, ok, err, inl, inr,
  Option-cases, Result-cases, arith, ℕ,
}
use execution_auto.Models.{ExecutionScope, source_target, source_only, target_only}
use execution_auto.Evaluation.Values.{Number, Scalar}
use execution_auto.Database.Failures.{Failure}
use execution_auto.Security.SqlGuard.{Rejection, assert_read_only}
use execution_auto.Workbook.Cells.{rejection_text}
use execution_auto.Execution.World.{Clock}
use execution_auto.Runner.Kinds.{comparison_error, invalid_operation, ComparisonOutcome}
use execution_auto.Runner.Comparators.{variance_of, classify, compare}
use execution_auto.Runner.Comparators.Meaning.{Reconciles, compare_sound}
use execution_auto.Runner.Records.{
  ExecutionStatus, is_status, status_index, ErrorSide, TestCase, ExecutionResult,
}
use execution_auto.Runner.Sides.{
  uses_side, sql_of, side_label, error_side_of, QuerySide, source_side, target_side, Factory, Tools,
  sides_of, refused_side,
}
use execution_auto.Runner.Cases.{
  ask_if, gap_of, Executed, finish_case, verdict_of, failed_side, judge, ask_target, ask_source,
  execute_case,
}

-- The result stands for the case, and PASS says that its values reconcile.
abbrev Sound : Tools → TestCase → Executed → Type 0
Sound t c (err e) = Unit
Sound t c (ok r) =
    (r.row_number ≡ c.row_number)
    × (r.test_case_id ≡ c.test_case_id)
    × (is_status r.status ExecutionStatus.pass ≡ true
        → Reconciles c.comparison_rule c.tolerance c.execution_scope
            (classify t.formats r.source_result) (classify t.formats r.target_result))

verdict_of-pass :
    (o : ComparisonOutcome) → is_status (verdict_of o) ExecutionStatus.pass ≡ true → o.passed ≡ true
unfolding verdict_of status_index
verdict_of-pass o h = ground arith

not_pass : is_status ExecutionStatus.error ExecutionStatus.pass ≢ true
unfolding status_index
not_pass h = cc

module _ {W E : Type 0} (t : Tools) (clock : Clock W) (x : Factory W E) (run_id : Text)
    (c : TestCase) (started at : ℕ) where
  finish_case-Sound :
      (source target : Scalar) (verdict : ExecutionStatus) (detail : Text) (side : ErrorSide)
      (code : Text) (given : Option Number) (w : W)
      → (is_status verdict ExecutionStatus.pass ≡ true
          → Reconciles c.comparison_rule c.tolerance c.execution_scope
              (classify t.formats source)
              (classify t.formats target))
      → Sound t c
          (finish_case t clock x run_id c started at source target verdict detail side code given
            w).0
  unfolding finish_case
  finish_case-Sound source target verdict detail side code given w h =
      elim (Result-cases (gap_of t given source target)) [
        | inl (gap, found) ↦ rw (found, Sound) (refl, refl, h)
        | inr (e, raised) ↦ rw (raised, Sound) tt
      ]

  judge-Sound :
      (source target : Scalar) (w : W)
      → Sound t c (judge t clock x run_id c started at source target w).0
  unfolding judge
  judge-Sound source target w =
      let compared =
        compare t.formats c.comparison_rule source target c.tolerance c.execution_scope in
      elim (Result-cases compared) [
        | inl (o, found) ↦
            rw (found, Sound)
              (finish_case-Sound source target (verdict_of o) o.remarks ErrorSide.nowhere []
                o.variance w
                (λ passed.
                  compare_sound t.formats source target c.tolerance o c.comparison_rule
                    c.execution_scope found (verdict_of-pass o passed)))
        | inr (invalid_operation, raised) ↦ rw (raised, Sound) tt
        | inr (comparison_error message, raised) ↦
            rw (raised, Sound)
              (finish_case-Sound source target ExecutionStatus.error message ErrorSide.comparison
                (lit "COMPARISON_FAILED") none w (λ passed. absurd (not_pass passed)))
      ]

  failed_side-Sound :
      (side : QuerySide) (source : Scalar) (e : Failure) (w : W)
      → Sound t c (failed_side t clock x run_id c started at side source e w).0
  unfolding failed_side
  failed_side-Sound side source e w =
      finish_case-Sound source Scalar.null ExecutionStatus.error _ _ _ none w
        (λ passed. absurd (not_pass passed))

  ask_target-Sound :
      (source : Scalar) (w : W) → Sound t c (ask_target t clock x run_id c started at source w).0
  unfolding ask_target
  ask_target-Sound source w =
      let asked = ask_if x (uses_side target_side c.execution_scope) c target_side w in
      elim (Result-cases (asked.0)) [
        | inl (target, found) ↦ rw (found, Sound) (judge-Sound source target (asked.1))
        | inr (e, raised) ↦ rw (raised, Sound) (failed_side-Sound target_side source e (asked.1))
      ]

  ask_source-Sound : (w : W) → Sound t c (ask_source t clock x run_id c started at w).0
  unfolding ask_source
  ask_source-Sound w =
      let asked = ask_if x (uses_side source_side c.execution_scope) c source_side w in
      elim (Result-cases (asked.0)) [
        | inl (source, found) ↦ rw (found, Sound) (ask_target-Sound source (asked.1))
        | inr (e, raised) ↦
            rw (raised, Sound) (failed_side-Sound source_side Scalar.null e (asked.1))
      ]

module _ {W E : Type 0} (t : Tools) (clock : Clock W) (x : Factory W E) (run_id : Text)
    (c : TestCase) (w : W) where
  execute_case-Sound : Sound t c (execute_case t clock x run_id c w).0
  unfolding execute_case
  execute_case-Sound =
      let began = clock.perf_counter w in
      let executed = clock.now (began.1) in
      elim (Option-cases (refused_side c (sides_of c.execution_scope))) [
        | inl fine ↦
            rw (fine, Sound)
              (ask_source-Sound t clock x run_id c (began.0) (executed.0) (executed.1))
        | inr ((side, message), refused) ↦
            rw (refused, Sound)
              (finish_case-Sound t clock x run_id c (began.0) (executed.0) Scalar.null Scalar.null
                ExecutionStatus.error message (error_side_of side) (lit "SQL_REJECTED") none
                (executed.1) (λ passed. absurd (not_pass passed)))
      ]

  module _ (r : ExecutionResult) (returned : (execute_case t clock x run_id c w).0 ≡ ok r) where
    sound : Sound t c (ok r)
    sound = subst (Sound t c) returned execute_case-Sound

    -- The result of a case has its row and its id.
    pub execute_case-case_row : (r.row_number ≡ c.row_number) × (r.test_case_id ≡ c.test_case_id)
    execute_case-case_row = let (row, test_id, passed) = sound in (row, test_id)

    -- A result that is PASS carries the two values that were compared, and they reconcile under the rule of the
    -- case, its tolerance and its scope.
    pub execute_case-Reconciles :
        is_status r.status ExecutionStatus.pass ≡ true
        → Reconciles c.comparison_rule c.tolerance c.execution_scope
            (classify t.formats r.source_result)
            (classify t.formats r.target_result)
    execute_case-Reconciles pass = let (row, test_id, passed) = sound in passed pass

module _ (c : TestCase) where
  refused_first :
      (side : QuerySide) (sides : List QuerySide) (e : Rejection)
      → assert_read_only (some (sql_of side c)) ≡ err e
      → (found : QuerySide × Text) × (refused_side c (side ∷ sides) ≡ some found)
  unfolding refused_side
  refused_first side sides e refused =
      ((side, rejection_text (side_label side) e), rw (refused, refused_side) refl)

  refused_later :
      (side : QuerySide) (sides : List QuerySide) (found : QuerySide × Text)
      → refused_side c sides ≡ some found
      → (first : QuerySide × Text) × (refused_side c (side ∷ sides) ≡ some first)
  unfolding refused_side
  refused_later side sides found later =
      elim (Result-cases (assert_read_only (some (sql_of side c)))) [
        | inl (sql, fine) ↦ (found, rw (fine, refused_side) later)
        | inr (e, refused) ↦ refused_first side sides e refused
      ]

  -- A side that the scope names, and that the guard refuses, is found before any other step.
  refused_side-sides_of :
      (scope : ExecutionScope) (side : QuerySide) (e : Rejection)
      → uses_side side scope ≡ true
      → assert_read_only (some (sql_of side c)) ≡ err e
      → (found : QuerySide × Text) × (refused_side c (sides_of scope) ≡ some found)
  unfolding sides_of uses_side
  refused_side-sides_of source_target source_side e used refused =
      refused_first source_side (target_side ∷ []) e refused
  refused_side-sides_of source_target target_side e used refused =
      let (found, later) = refused_first target_side [] e refused in
      refused_later source_side (target_side ∷ []) found later
  refused_side-sides_of source_only source_side e used refused =
      refused_first source_side [] e refused
  refused_side-sides_of source_only target_side e used refused = absurd (cc)
  refused_side-sides_of target_only source_side e used refused = absurd (cc)
  refused_side-sides_of target_only target_side e used refused =
      refused_first target_side [] e refused

-- The case ended as an ERROR with the code of refused SQL.
abbrev pub IsRejected : Executed → Type 0
IsRejected (err e) = ⊥
IsRejected (ok r) =
    (is_status r.status ExecutionStatus.error ≡ true) × (r.error_code ≡ lit "SQL_REJECTED")

module _ {W E : Type 0} (t : Tools) (clock : Clock W) (run_id : Text) (c : TestCase) (w : W) where
  -- Where the guard refuses the SQL of a side that the scope names, the case ends as an ERROR with the code
  -- SQL_REJECTED, and nothing of it, the state of the databases included, depends on the executors.
  pub execute_case-refused_side :
      (x y : Factory W E) (side : QuerySide) (e : Rejection)
      → uses_side side c.execution_scope ≡ true
      → assert_read_only (some (sql_of side c)) ≡ err e
      → IsRejected (execute_case t clock x run_id c w).0
        × (execute_case t clock y run_id c w ≡ execute_case t clock x run_id c w)
  unfolding execute_case finish_case gap_of variance_of classify status_index
  execute_case-refused_side x y side e used refused =
      let (found, first) = refused_side-sides_of c c.execution_scope side e used refused in
      (rw (first, execute_case, IsRejected) (refl, refl), rw (first, execute_case) refl)

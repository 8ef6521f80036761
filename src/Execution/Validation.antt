-- ===== src/Execution/Validation.antt =====
-- execution/engine.py, pass 1: every query is compiled, and none is executed.
pub mod Covers
use execution_auto.Base.{
  ℕ, zero, suc, ◌+◌, ◌-◌, Bool, true, false, not, ◌&&◌, ◌||◌, Option, none, some, List, [], ◌∷◌,
  ◌++◌, map, if◌then◌else◌, leb, length, Text, lit, mem_text, take, is_empty, join, str_nat,
}
use execution_auto.Models.{TestStatus, status_text, Platform}
use execution_auto.Models.Codes.{ErrorCode}
use execution_auto.Database.Failures.{Failure, FailureClass, describe_object_access_failure}
use execution_auto.Security.Redaction.{sanitize_error}
use execution_auto.Workbook.Definitions.{Definition}
use execution_auto.Execution.Report.{Outcome, ValidationRow}
use execution_auto.Execution.Outcomes.{
  Side, source_side, target_side, sides_of, platform_of_side, section_of, sql_of, Extras, no_extras,
  Setting, outcome, id_or_row,
}
use execution_auto.Execution.World.{Clock, Executors}

-- The status and code of a failed check, by the class of what it raised.
unfoldable pub check_status : FailureClass → TestStatus × ErrorCode
check_status FailureClass.syntax_rejected = (TestStatus.syntax_error, ErrorCode.syntax_error)
check_status FailureClass.timed_out = (TestStatus.error, ErrorCode.query_timeout)
check_status FailureClass.connection_failed = (TestStatus.blocked, ErrorCode.connection_failed)
check_status _ = (TestStatus.error, ErrorCode.syntax_check_failed)

-- `sanitize_error`, with the advice appended where there is some
unfoldable pub failure_detail : Setting → Failure → Text
unfolding sanitize_error describe_object_access_failure
failure_detail s e =
    let detail =
      sanitize_error s.services.mask e.type_name e.message s.control.error_detail_max_length in
    let advice = describe_object_access_failure s.services.py.casefold detail in
    if is_empty advice then detail else detail ++ (lit " " ++ advice)

-- What pass 1 remembers: the sections that could not be asked, and what to warn about.
pub record Checks : Type 0 where
  pub unavailable : List Text
  pub warnings : List Text

-- `except SyntaxCheckUnavailableError`
unfoldable pub note_unavailable : Setting → Text → Failure → Checks → Checks
unfolding sanitize_error mem_text
note_unavailable s section e c = if mem_text section c.unavailable then c else record {
  unavailable = section ∷ c.unavailable;
  warnings =
      c.warnings
      ++ (lit "["
          ++ (section
              ++ (lit
                    "] could not be asked to check SQL before running it, so its queries were not validated: "
                  ++ sanitize_error s.services.mask e.type_name e.message
                      s.control.error_detail_max_length)))
        ∷ [];
}

abbrev pub is_unavailable : FailureClass → Bool
is_unavailable FailureClass.check_unavailable = true
is_unavailable _ = false

module _ {W : Type 0} (x : Executors W) (s : Setting) where
  -- `_validation_failure`
  unfoldable pub validation_failure : Definition → Side → Failure → ℕ → Outcome
  unfolding check_status failure_detail
  validation_failure d side e checked_at =
      let (status, code) = check_status e.class in
      outcome s d status (platform_of_side side) (some code) (failure_detail s e)
        (record no_extras {
          executed_at = some checked_at;
          databases = (side, x.database_name (section_of d side)) ∷ [];
        })

  -- The loop of `_validate_one` over the sides. The flag is whether a side went unchecked.
  unfoldable pub validate_sides :
      Definition → ℕ → List Side → Bool → Checks → W → Option Outcome × Bool × Checks × W
  unfolding validation_failure note_unavailable
  validate_sides d checked_at [] unchecked c w = (none, unchecked, c, w)
  validate_sides d checked_at (side ∷ sides) unchecked c w =
      let (raised, w') =
        x.validate_syntax (section_of d side) (sql_of d side) s.control.query_timeout_seconds w in
      elim raised [
        | none ↦ validate_sides d checked_at sides unchecked c w'
        | some e ↦
            if is_unavailable e.class
            then validate_sides d checked_at sides true (note_unavailable s (section_of d side) e c)
                w'
            else (some (validation_failure d side e checked_at), unchecked, c, w')
      ]

  -- `_validate_one`
  unfoldable pub validate_one : Definition → ℕ → Checks → W → Option Outcome × Bool × Checks × W
  unfolding validate_sides sides_of
  validate_one d checked_at c w = validate_sides d checked_at (sides_of d.scope) false c w

  -- `_validation_row`
  abbrev validation_row : Definition → ℕ → Text → Platform → Text → Text → ValidationRow
  validation_row d checked_at result platform code detail = record {
    run_id = s.run_id;
    checked_at = checked_at;
    test_id = d.test_id;
    row_number = d.row_number;
    result = result;
    platform = platform;
    error_code = code;
    error_detail = detail;
  }

  abbrev row_of : Definition → ℕ → Option Outcome → Bool → ValidationRow
  row_of d checked_at none unchecked =
      validation_row d checked_at (if unchecked then lit "NOT CHECKED" else lit "OK")
        Platform.nowhere [] []
  row_of d checked_at (some o) unchecked =
      validation_row d checked_at (status_text o.status) o.platform o.error_code o.error_detail

-- `_Validation`
pub record Validation : Type 0 where
  pub passed : List Definition
  pub failures : List Outcome
  pub rows : List ValidationRow
  pub checks : Checks

abbrev pub start_checks : Checks
start_checks = record { unavailable = []; warnings = [] }

-- The test's own part of the result, ahead of that of the tests behind it.
abbrev pub add_checked : Definition → Option Outcome → ValidationRow → Validation → Validation
add_checked d none row v = record v { passed = d ∷ v.passed; rows = row ∷ v.rows }
add_checked d (some o) row v = record v { failures = o ∷ v.failures; rows = row ∷ v.rows }

module _ {W : Type 0} (x : Executors W) (s : Setting) where
  -- The loop of `_validate_tests`
  unfoldable pub validate_from : ℕ → List Definition → Checks → W → Validation × W
  unfolding validate_one lit
  validate_from checked_at [] c w =
      (record { passed = []; failures = []; rows = []; checks = c }, w)
  validate_from checked_at (d ∷ ds) c w =
      let (failure, unchecked, c', w') = validate_one x s d checked_at c w in
      let (v, w'') = validate_from checked_at ds c' w' in
      (add_checked d failure (row_of x s d checked_at failure unchecked) v, w'')

  -- `_validate_tests`
  unfoldable pub validate_tests : Clock W → List Definition → W → Validation × W
  unfolding validate_from
  validate_tests clock ds w =
      let (checked_at, w') = clock.now w in validate_from checked_at ds start_checks w'

-- `_NAMED_IN_GATE_MESSAGE`
abbrev named_in_gate_message : ℕ
named_in_gate_message = 5

abbrev names_of : ℕ → List Outcome → List Text
names_of n [] = []
names_of zero (o ∷ os) = []
names_of (suc n) (o ∷ os) = id_or_row o.test_id o.row_number ∷ names_of n os

-- `_gate_reason`
unfoldable pub gate_reason : List Outcome → Text
unfolding lit join str_nat
gate_reason failures =
    let named = join (lit ", ") (names_of named_in_gate_message failures) in
    let remainder = length failures - named_in_gate_message in
    let more = if leb remainder 0 then [] else lit " and " ++ (str_nat remainder ++ lit " more") in
    lit "Nothing was executed: "
    ++ (str_nat (length failures)
        ++ (lit " test(s) failed the pre-execution SQL check ("
            ++ (named ++ (more ++ lit "). Fix that SQL and run again."))))

-- ===== src/Execution/Outcomes.antt =====
-- execution/engine.py: how each kind of outcome is made.
use execution_auto.Base.{
  ℕ, Bool, true, false, Option, none, some, List, [], ◌∷◌, ◌++◌, if◌then◌else◌, Text, lit, text_eq,
  insert_text, is_empty, join, str_nat,
}
use execution_auto.Models.{
  ExecutionScope, uses_source, uses_target, scope_text, TestStatus, status_text, Platform,
  platform_text,
}
use execution_auto.Models.Codes.{ErrorCode, code_text}
use execution_auto.Evaluation.Decimal.{Decimal}
use execution_auto.Evaluation.Values.{Scalar, Value, Python, Cell}
use execution_auto.Evaluation.Normalization.{display, display_cell}
use execution_auto.Security.Redaction.{sanitize_text}
use execution_auto.Workbook.Definitions.{Definition, Problem, domain, name}
use execution_auto.Workbook.Observations.{Rule, template_for, fill_template}
use execution_auto.Workbook.Control.{RunControl}
use execution_auto.Execution.Report.{Outcome}

-- The two sides of a test; `"source"` and `"target"` in the source.
pub data Side : Type 0 where
  source_side target_side : Side

unfoldable pub sides_of : ExecutionScope → List Side
unfolding uses_source uses_target
sides_of scope =
    (if uses_source scope then source_side ∷ [] else [])
    ++ (if uses_target scope then target_side ∷ [] else [])

abbrev pub side_text : Side → Text
side_text source_side = lit "source"
side_text target_side = lit "target"

-- `_PLATFORM_OF_SIDE`
abbrev pub platform_of_side : Side → Platform
platform_of_side source_side = Platform.source
platform_of_side target_side = Platform.target

-- `_PLATFORM_OF_SIDE.get(section, Platform.EXECUTOR)`
unfoldable pub platform_of_section : Text → Platform
unfolding text_eq lit
platform_of_section section =
    if text_eq section (lit "source")
    then Platform.source
    else if text_eq section (lit "target")
    then Platform.target
    else Platform.executor

abbrev pub section_of : Definition → Side → Text
section_of d source_side = d.source_section
section_of d target_side = d.target_section

abbrev pub sql_of : Definition → Side → Text
sql_of d source_side = d.source_sql
sql_of d target_side = d.target_sql

-- A dictionary with the sides as keys
abbrev pub BySide : Type 0 → Type 0
BySide A = List (Side × A)

abbrev pub same_side : Side → Side → Bool
same_side source_side source_side = true
same_side target_side target_side = true
same_side _ _ = false

unfoldable pub get : {A : Type 0} → Side → BySide A → Option A
get s [] = none
get s ((t, a) ∷ m) = if same_side s t then some a else get s m

-- The keyword arguments of `_outcome`
pub record Extras : Type 0 where
  pub executed_at : Option ℕ
  pub raw : BySide Scalar
  pub normalized : BySide Value
  pub durations : BySide ℕ
  pub databases : BySide Text
  pub variance : Option Decimal
  pub variance_percentage : Option Decimal
  pub actual : Option Value

abbrev pub no_extras : Extras
no_extras = record {
  executed_at = none;
  raw = [];
  normalized = [];
  durations = [];
  databases = [];
  variance = none;
  variance_percentage = none;
  actual = none;
}

abbrev raw_cell : Option Scalar → Cell
raw_cell none = Cell.empty
raw_cell (some s) = Cell.raw s

abbrev value_cell : Option Value → Cell → Cell
value_cell none other = other
value_cell (some v) other = Cell.normalized v

-- `normalized.get(side, raw.get(side))`
unfoldable pub result_cell : Side → Extras → Cell
unfolding get
result_cell s x = value_cell (get s x.normalized) (raw_cell (get s x.raw))

unfoldable pub database_names : BySide Text → List Text
unfolding insert_text is_empty
database_names [] = []
database_names ((s, n) ∷ m) =
    let rest = database_names m in if is_empty n then rest else insert_text n rest

abbrev pub code_or_empty : Option ErrorCode → Text
code_or_empty none = []
code_or_empty (some c) = code_text c

-- What the engine takes from elsewhere: the run-time library, and the masking patterns.
pub record Services : Type 0 where
  pub py : Python
  pub mask : Text → Text

-- What every outcome of one run is made with.
pub record Setting : Type 0 where
  pub services : Services
  pub rules : List Rule
  pub control : RunControl
  pub run_id : Text

abbrev pub detail_of : Setting → Text → Text
detail_of s detail = sanitize_text s.services.mask detail s.control.error_detail_max_length

abbrev pub show_decimal : Python → Option Decimal → Text
show_decimal py none = []
show_decimal py (some d) = display py (some (Value.dec d))

-- `render_template`, under the rule that is selected
unfoldable pub observe : Setting → TestStatus → Platform → Text → List (Text × Text) → Text
unfolding template_for fill_template sanitize_text
observe s status platform code values =
    sanitize_text s.services.mask (fill_template (template_for s.rules status platform code) values)
      s.control.observation_max_length

-- The dictionary `values` of `_outcome`
unfoldable pub template_values :
    Setting → Definition → TestStatus → Platform → Text → Text → Extras → Cell → List (Text × Text)
unfolding lit
template_values s d status platform code detail x actual =
    let py = s.services.py in
    (lit "test_id", d.test_id)
    ∷ (lit "test_name", name d)
    ∷ (lit "domain", domain d)
    ∷ (lit "status", status_text status)
    ∷ (lit "platform", platform_text platform)
    ∷ (lit "error_code", code)
    ∷ (lit "error_detail", detail)
    ∷ (lit "source_result", display_cell py (result_cell source_side x))
    ∷ (lit "target_result", display_cell py (result_cell target_side x))
    ∷ (lit "actual_value", display_cell py actual)
    ∷ (lit "expected_value", display py d.expected_value)
    ∷ (lit "variance", show_decimal py x.variance)
    ∷ (lit "variance_percentage", show_decimal py x.variance_percentage)
    ∷ (lit "absolute_tolerance", display py (some (Value.dec d.absolute_tolerance)))
    ∷ (lit "percentage_tolerance", display py (some (Value.dec d.percentage_tolerance)))
    ∷ (lit "timeout_seconds", str_nat s.control.query_timeout_seconds)
    ∷ (lit "execution_scope", scope_text d.scope)
    ∷ (lit "database", join (lit ", ") (database_names x.databases))
    ∷ []

abbrev actual_cell : Option Value → Bool → Cell → Cell → Cell
actual_cell (some v) uses source target = Cell.normalized v
actual_cell none true source target = target
actual_cell none false source target = source

-- `_outcome`
unfoldable pub outcome :
    Setting → Definition → TestStatus → Platform → Option ErrorCode → Text → Extras → Outcome
unfolding sanitize_text observe template_values result_cell get uses_target
outcome s d status platform code detail x =
    let error_code = code_or_empty code in
    let detail_text = detail_of s detail in
    let source = result_cell source_side x in
    let target = result_cell target_side x in
    let actual = actual_cell x.actual (uses_target d.scope) source target in
    record {
      row_number = d.row_number;
      test_id = d.test_id;
      status = status;
      platform = platform;
      error_code = error_code;
      error_detail = detail_text;
      observation =
          observe s status platform error_code
            (template_values s d status platform error_code detail_text x actual);
      source_result = source;
      target_result = target;
      actual_value = actual;
      variance = x.variance;
      variance_percentage = x.variance_percentage;
      source_duration_ms = get source_side x.durations;
      target_duration_ms = get target_side x.durations;
      executed_at = x.executed_at;
      run_id = s.run_id;
    }

-- `_validated_outcome`
unfoldable pub validated_outcome : Setting → Definition → Outcome
validated_outcome s d =
    outcome s d TestStatus.validated Platform.nowhere none
      (lit "Query compiled. Not executed: this was a validation run.") no_extras

-- `_disabled_outcome`
unfoldable pub disabled_outcome : Setting → Definition → Outcome
disabled_outcome s d =
    outcome s d TestStatus.disabled Platform.workbook none (lit "Enabled = No.") no_extras

-- `_not_executed`
unfoldable pub not_executed_outcome : Setting → Text → ErrorCode → Definition → Outcome
not_executed_outcome s reason code d =
    outcome s d TestStatus.not_executed Platform.executor (some code) reason no_extras

-- `_blocked`
unfoldable pub blocked_outcome : Setting → Definition → Text → Text → Outcome
unfolding platform_of_section
blocked_outcome s d section reason =
    outcome s d TestStatus.blocked (platform_of_section section) (some ErrorCode.connection_failed)
      (lit "The [" ++ (section ++ (lit "] connection could not be opened. " ++ reason))) no_extras

-- `problem.test_id or f"row {problem.row_number}"`
abbrev pub id_or_row : Text → ℕ → Text
id_or_row [] row = lit "row " ++ str_nat row
id_or_row (c ∷ s) row = c ∷ s

-- `_problem_outcome`
unfoldable pub problem_outcome : Setting → ℕ → Problem → Outcome
unfolding sanitize_text observe lit
problem_outcome s executed_at p =
    let detail = detail_of s p.message in
    record {
      row_number = p.row_number;
      test_id = p.test_id;
      status = p.status;
      platform = p.platform;
      error_code = code_text p.code;
      error_detail = detail;
      observation = observe s p.status p.platform (code_text p.code) (
          (lit "test_id", id_or_row p.test_id p.row_number)
          ∷ (lit "status", status_text p.status)
          ∷ (lit "platform", platform_text p.platform)
          ∷ (lit "error_code", code_text p.code)
          ∷ (lit "error_detail", detail)
          ∷ []);
      source_result = Cell.empty;
      target_result = Cell.empty;
      actual_value = Cell.empty;
      variance = none;
      variance_percentage = none;
      source_duration_ms = none;
      target_duration_ms = none;
      executed_at = some executed_at;
      run_id = s.run_id;
    }

-- ===== src/Workbook/Examples.antt =====
-- The choice between concrete rules.
use execution_auto.Base.{
  and_then, ◌≡◌, refl, Bool, true, false, Option, none, some, List, [], ◌∷◌, inl, inr, Text, lit,
  err,
}
use execution_auto.Workbook.Control.{RunControl, Settings, new_file, build, known_settings}
use execution_auto.Workbook.Control.Limits.{IsLimited, build-IsLimited}
use execution_auto.Workbook.TestCases.Examples.{plain_python}
use execution_auto.Evaluation.Values.{Scalar}
use execution_auto.Models.{TestStatus, Platform}
use execution_auto.Workbook.Observations.{
  Rule, select, reject_duplicates, fill_template, placeholders,
}
use execution_auto.Workbook.Observations.Selection.{Listed, IsCovering, select-exact, select_sound}

abbrev rule : Option Platform → Option Text → Bool → Rule
rule p c on = record {
  row_number = 2;
  status = TestStatus.error;
  platform = p;
  error_code = c;
  template = [];
  enabled = on;
}

abbrev exact : Rule
exact = rule (some Platform.source) (some (b'T' ∷ [])) true

abbrev rules : List Rule
rules = rule none none true ∷ exact ∷ rule (some Platform.source) none false ∷ []

select-exact_example : select rules TestStatus.error Platform.source (b'T' ∷ []) ≡ some exact
unfolding reject_duplicates
select-exact_example =
    select-exact rules TestStatus.error Platform.source (b'T' ∷ []) exact refl (inr (inl refl)) refl
      refl

select_sound_example :
    Listed (rule none none true) rules
    × (true ≡ true)
    × IsCovering TestStatus.error Platform.target (b'X' ∷ []) (rule none none true)
unfolding select
select_sound_example =
    select_sound rules TestStatus.error Platform.target (b'X' ∷ []) (rule none none true) refl

rejects_twice : reject_duplicates (exact ∷ rule none none true ∷ exact ∷ []) ≡ err (2, 2)
unfolding reject_duplicates
rejects_twice = refl

fills_names_it_knows :
    fill_template
      (lit "{test_id} {{status} {other} {")
      ((lit "test_id", lit "T1") ∷ (lit "status", lit "S") ∷ [])
    ≡ lit "T1 {S {other} {"
unfolding fill_template lit placeholders
fills_names_it_knows = refl

abbrev settings : Settings
unfolding lit
settings =
    (lit "dryrun", Scalar.text (lit "yes"))
    ∷ (lit "requirereadonlysql", Scalar.boolean true)
    ∷ (lit "unknown", Scalar.null)
    ∷ []

abbrev dry_control : RunControl
unfolding lit
dry_control = record {
  template_version = [];
  query_timeout_seconds = 0;
  max_parallel_workers = 1;
  continue_on_test_error = true;
  stop_on_critical_config_error = true;
  observation_max_length = 300;
  error_detail_max_length = 500;
  output_mode = new_file;
  output_directory_env = [];
  evidence_directory_env = [];
  dry_run = true;
  require_read_only_sql = true;
  warnings = lit "Run Control: ignoring unsupported setting 'unknown'." ∷ [];
  defaulted = false;
}

build-IsLimited_example : IsLimited dry_control
unfolding build and_then lit settings dry_control known_settings
build-IsLimited_example = build-IsLimited plain_python settings dry_control refl

-- ===== src/Execution/Running/Comparable.antt =====
-- workbook/testcases.py and evaluation/comparisons.py together: comparing a test that was read.
use execution_auto.Base.{ℕ, ◌≡◌, true, List, Text, ok, err}
use execution_auto.Models.{uses_source, uses_target}
use execution_auto.Evaluation.Values.{Value, Python}
use execution_auto.Evaluation.Comparisons.Rules.{compare}
use execution_auto.Evaluation.Comparisons.Total.{Holds, compare_comparable}
use execution_auto.Workbook.Definitions.{Definition}
use execution_auto.Workbook.Cells.{Row}
use execution_auto.Workbook.TestCases.{read_enabled}
use execution_auto.Workbook.TestCases.Runnable.{read_enabled_sound}
use execution_auto.Execution.Outcomes.{source_side, target_side, BySide, get, Setting}
use execution_auto.Execution.Running.{request_of}

-- For an enabled test as the reader returns it, comparing values of the declared type, one for each
-- side that the scope uses, raises no `ComparisonError`: the checks of the reader leave none to the
-- comparison. What decimal arithmetic raises by itself is outside the model.
pub read_enabled-compare :
    (py : Python) (row : Row) (row_number : ℕ) (test_id : Text) (known : List Text) (d : Definition)
    (s : Setting) (values : BySide Value) (message : Text)
    → read_enabled py row row_number test_id known ≡ ok d
    → (uses_source d.scope ≡ true → Holds d.result_type (get source_side values))
    → (uses_target d.scope ≡ true → Holds d.result_type (get target_side values))
    → ¬ (compare py (request_of s d values) ≡ err message)
read_enabled-compare py row row_number test_id known d s values message read source target =
    let runnable = read_enabled_sound py row row_number test_id known d read in
    compare_comparable py (request_of s d values) message (record {
      supported = runnable.supported;
      sided = runnable.sided;
      has_source = source;
      has_target = target;
      has_expected = runnable.expected;
    })

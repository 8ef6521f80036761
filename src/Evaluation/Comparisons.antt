-- ===== src/Evaluation/Comparisons.antt =====
-- evaluation/comparisons.py: the comparisons that a workbook may select. A raised `ComparisonError`
-- is `err` with its message. The comparisons themselves stand in `Rules`.
pub mod Rules
pub mod Total
pub mod Outcome
use execution_auto.Base.{
  ℕ, Bool, true, false, not, ◌&&◌, Option, none, some, List, [], ◌∷◌, ◌++◌, if◌then◌else◌, Text,
  lit, text_eq, Result, ok, err, keep, ◌>>=◌,
}
use execution_auto.Models.{
  ExecutionScope, source_target, uses_source, uses_target, ComparisonType, ResultType, TestStatus,
}
use execution_auto.Models.Codes.{ErrorCode}
use execution_auto.Evaluation.Decimal.{
  Decimal, of_int, le, eq, sub, abs, mul, div, is_zero_decimal, hundred, zero_decimal,
}
use execution_auto.Evaluation.Values.{Value, Python, option_eq, value_eq}
use execution_auto.Evaluation.Normalization.{is_zero, display}

-- `ComparisonRequest`
pub record Request : Type 0 where
  pub comparison : ComparisonType
  pub scope : ExecutionScope
  pub result_type : ResultType
  pub source : Option Value
  pub target : Option Value
  pub expected : Option Value
  pub absolute_tolerance : Decimal
  pub percentage_tolerance : Decimal

-- `ComparisonResult`
pub record Verdict : Type 0 where
  pub status : TestStatus
  pub error_code : Option ErrorCode
  pub variance : Option Decimal
  pub variance_percentage : Option Decimal
  pub detail : Text

-- The side's name and its value, if the scope uses the side and it has one.
abbrev pub produced : Bool → Text → Option Value → List (Text × Value)
produced true side (some v) = (side, v) ∷ []
produced _ side _ = []

unfoldable pub executed_of : ExecutionScope → Option Value → Option Value → List (Text × Value)
unfolding lit uses_source uses_target
executed_of scope source target =
    produced (uses_source scope) (lit "source") source
    ++ produced (uses_target scope) (lit "target") target

-- `ComparisonRequest.executed`
unfoldable pub executed : Request → List (Text × Value)
unfolding executed_of
executed r = executed_of r.scope r.source r.target

abbrev target_first : Bool → Option Value → Option Value → Option Value
target_first true (some v) source = some v
target_first _ _ source = source

-- `ComparisonRequest.actual`
unfoldable pub actual : Request → Option Value
unfolding uses_target
actual r = target_first (uses_target r.scope) r.target r.source

-- `NUMERIC_COMPARISONS`
unfoldable pub is_numeric_comparison : ComparisonType → Bool
is_numeric_comparison ComparisonType.equal_abs_tolerance = true
is_numeric_comparison ComparisonType.equal_pct_tolerance = true
is_numeric_comparison ComparisonType.expected_zero = true
is_numeric_comparison ComparisonType.less_than_or_equal = true
is_numeric_comparison ComparisonType.greater_than_or_equal = true
is_numeric_comparison ComparisonType.non_zero = true
is_numeric_comparison _ = false

-- `TWO_SIDED_COMPARISONS`
unfoldable pub is_two_sided : ComparisonType → Bool
is_two_sided ComparisonType.equal = true
is_two_sided ComparisonType.equal_abs_tolerance = true
is_two_sided ComparisonType.equal_pct_tolerance = true
is_two_sided _ = false

abbrev is_numeric_type : ResultType → Bool
is_numeric_type ResultType.integer = true
is_numeric_type ResultType.number = true
is_numeric_type _ = false

abbrev is_boolean_type : ResultType → Bool
is_boolean_type ResultType.boolean = true
is_boolean_type _ = false

abbrev is_text_type : ResultType → Bool
is_text_type ResultType.text = true
is_text_type _ = false

-- `result_type in supported_result_types(comparison)`
unfoldable pub supports : ComparisonType → ResultType → Bool
unfolding is_numeric_comparison
supports ComparisonType.boolean_true t = is_boolean_type t
supports ComparisonType.text_case_insensitive_equal t = is_text_type t
supports c t = if is_numeric_comparison c then is_numeric_type t else true

-- `scope is ExecutionScope.SOURCE_TARGET`
unfoldable pub is_source_target : ExecutionScope → Bool
is_source_target source_target = true
is_source_target _ = false

-- `requires_expected_value`
unfoldable pub requires_expected_value : ComparisonType → ExecutionScope → Bool
unfolding is_source_target
requires_expected_value ComparisonType.expected_equal scope = true
requires_expected_value ComparisonType.less_than_or_equal scope = true
requires_expected_value ComparisonType.greater_than_or_equal scope = true
requires_expected_value ComparisonType.text_case_insensitive_equal scope =
    not (is_source_target scope)
requires_expected_value _ scope = false

-- `_decimal_of`
unfoldable pub decimal_of : Option Value → Option Decimal
decimal_of (some (Value.int n)) = some (of_int n)
decimal_of (some (Value.dec d)) = some d
decimal_of _ = none

abbrev difference : Option Decimal → Option Decimal → Option Decimal
difference (some s) (some t) = some (sub t s)
difference _ _ = none

-- `_variance`
unfoldable pub variance : Request → Option Decimal
unfolding decimal_of
variance r = difference (decimal_of r.source) (decimal_of r.target)

-- `_variance_percentage`
unfoldable pub variance_percentage : Option Decimal → Option Decimal → Option Decimal
variance_percentage (some s) (some v) =
    if is_zero_decimal s then none else some (mul (div v (abs s)) hundred)
variance_percentage _ _ = none

-- `_require_numeric`
unfoldable pub require_numeric : Option Value → Text → Result Text Decimal
unfolding decimal_of lit
require_numeric v label = elim (decimal_of v) [
  | none ↦ err (lit "The " ++ (label ++ lit " value is not numeric, so it cannot be compared."))
  | some d ↦ ok d
]

abbrev pub verdict :
    TestStatus → Option ErrorCode → Option Decimal → Option Decimal → Text → Verdict
verdict s c v p d = record {
  status = s;
  error_code = c;
  variance = v;
  variance_percentage = p;
  detail = d;
}

-- `_text`
abbrev pub or_empty : Python → Option Value → Text
or_empty py none = []
or_empty py (some (Value.str s)) = s
or_empty py (some v) = py.str_of_value v

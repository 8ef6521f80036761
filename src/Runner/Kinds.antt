-- ===== src/Runner/Kinds.antt =====
-- evaluation/comparators.py: the kinds of a scalar, what a comparison returns and raises, and the
-- operators of Python's decimals and moments that it uses.
use execution_auto.Base.{
  Bool, false, not, Option, none, some, if◌then◌else◌, Text, lit, ℤ, pos, eq_ℤ, ◌-ℤ◌, ◌*ℤ◌,
}
use execution_auto.Evaluation.Decimal.{Decimal, eq, sub}
use execution_auto.Evaluation.Values.{
  infinity, nan, signalling_nan, Number, finite, special, Moment, Python,
}

-- models.py `ComparisonRule`
pub data ComparisonRule : Type 0 where
  equal expected_zero numeric_tolerance no_comparison : ComparisonRule

unfoldable pub rule_text : ComparisonRule → Text
unfolding lit
rule_text equal = lit "equal"
rule_text expected_zero = lit "expected_zero"
rule_text numeric_tolerance = lit "numeric_tolerance"
rule_text no_comparison = lit "no_comparison"

-- A scalar as `_classify` returns it: its `ValueKind` with the normalized value
pub data Classified : Type 0 where
  null : Classified
  numeric : Number → Classified
  textual : Text → Classified
  temporal : Moment → Classified

unfoldable pub kind_text : Classified → Text
unfolding lit
kind_text null = lit "null"
kind_text (numeric n) = lit "numeric"
kind_text (textual t) = lit "text"
kind_text (temporal m) = lit "temporal"

-- What a comparison raises: a `ComparisonError`, or the `InvalidOperation` of Python's decimals.
pub data Fault : Type 0 where
  comparison_error : Text → Fault
  invalid_operation : Fault

-- `ComparisonOutcome`
pub record ComparisonOutcome : Type 0 where
  pub passed : Bool
  pub variance : Option Number
  pub remarks : Text
  pub profiled : Bool

-- Python's text forms of a finite `Decimal` after `normalize`: `str` of what `quantize(Decimal(1))`
-- returns, or of the number where that raises, and `format` with "f"
pub record Formats : Type 0 where
  pub py : Python
  pub whole : Decimal → Text
  pub fixed : Decimal → Text

-- `datetime(d.year, d.month, d.day)`, a date being a count of days
abbrev pub midnight : ℤ → Moment
midnight d = record { wall = d *ℤ pos 86400000000; offset = none }

-- `a == b` of `Decimal`; `none` is `InvalidOperation`.
unfoldable pub number_eq : Number → Number → Option Bool
unfolding eq
number_eq (special signalling_nan) b = none
number_eq a (special signalling_nan) = none
number_eq (finite a) (finite b) = some (eq a b)
number_eq (special (infinity s)) (special (infinity t)) = some (if s then t else not t)
number_eq a b = some false

-- `a - b` of `Decimal`; an infinity is negative where it says true.
unfoldable pub number_sub : Number → Number → Option Number
unfolding sub
number_sub (special signalling_nan) b = none
number_sub a (special signalling_nan) = none
number_sub (special nan) b = some (special nan)
number_sub a (special nan) = some (special nan)
number_sub (finite a) (finite b) = some (finite (sub a b))
number_sub (special (infinity s)) (finite b) = some (special (infinity s))
number_sub (finite a) (special (infinity t)) = some (special (infinity (not t)))
number_sub (special (infinity s)) (special (infinity t)) =
    if (if s then t else not t) then none else some (special (infinity s))

-- `a == b` of `datetime`: a naive one never equals an aware one.
unfoldable pub moment_eq : Moment → Moment → Bool
unfolding ◌-ℤ◌
moment_eq a b = elim a.offset [
  | none ↦ elim b.offset [ none ↦ eq_ℤ a.wall b.wall | some t ↦ false ]
  | some s ↦ elim b.offset [ none ↦ false | some t ↦ eq_ℤ (a.wall -ℤ s) (b.wall -ℤ t) ]
]

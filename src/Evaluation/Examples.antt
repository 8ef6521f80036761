-- ===== src/Evaluation/Examples.antt =====
-- Readings and comparisons of concrete values, and the theorems about them where their premises hold.
use execution_auto.Base.{◌≡◌, ◌↔◌, refl, none, some, [], Text, lit, Result, ok, err, pos}
use execution_auto.Models.{source_target, ComparisonType, ResultType, TestStatus}
use execution_auto.Evaluation.Decimal.{of_int}
use execution_auto.Evaluation.Values.{Scalar, Value, Python, option_eq}
use execution_auto.Evaluation.Normalization.{uncaught, normalize}
use execution_auto.Evaluation.Normalization.Typed.{
  HasType, normalize-HasType, Escapes, normalize_uncaught,
}
use execution_auto.Evaluation.Comparisons.{Request, Verdict, executed, supports, is_source_target}
use execution_auto.Evaluation.Comparisons.Rules.{
  compare, comparisons, compare_expected_equal, compare_equal, one_sided,
}
use execution_auto.Evaluation.Comparisons.Total.{compare_comparable}
use execution_auto.Evaluation.Comparisons.Outcome.{AllSatisfy, compare_pass}

-- A run-time library that knows no text as a number or a date.
abbrev plain_python : Python
plain_python = record {
  casefold = λ t. t;
  upper = λ t. t;
  str_of = λ s. [];
  str_of_value = λ v. [];
  decimal_of_text = λ t. none;
  fromisoformat = λ t. none;
  format_decimal = λ d. [];
  format_instant = λ t. [];
  format_moment = λ m. [];
}

abbrev three_against_four : ComparisonType → Request
three_against_four c = record {
  comparison = c;
  scope = source_target;
  result_type = ResultType.integer;
  source = some (Value.int (pos 3));
  target = some (Value.int (pos 4));
  expected = some (Value.int (pos 3));
  absolute_tolerance = of_int (pos 0);
  percentage_tolerance = of_int (pos 0);
}

normalize-HasType_example : HasType ResultType.integer (Value.int (pos 3))
unfolding normalize
normalize-HasType_example =
    normalize-HasType plain_python (Scalar.integer (pos 3)) ResultType.integer (lit "x")
      (Value.int (pos 3)) refl

-- The start of the year 1 on a clock that is an hour ahead of UTC
abbrev before_the_years : Scalar
before_the_years = Scalar.moment (record { wall = pos 0; offset = some (pos 3600000000) })

normalize_uncaught_example :
    (normalize plain_python before_the_years ResultType.datetime (lit "x") ≡ err uncaught)
    ↔ Escapes plain_python before_the_years ResultType.datetime
normalize_uncaught_example =
    normalize_uncaught plain_python before_the_years ResultType.datetime (lit "x")

compare_comparable_example :
    ¬ (compare plain_python (three_against_four ComparisonType.equal) ≡ err (lit "refused"))
unfolding supports is_source_target
compare_comparable_example =
    compare_comparable plain_python (three_against_four ComparisonType.equal) (lit "refused")
      (record {
        supported = refl;
        sided = λ h. refl;
        has_source = λ h. tt;
        has_target = λ h. tt;
        has_expected = λ h. tt;
      })

abbrev verdict_in : Result Text Verdict → Verdict
verdict_in (ok v) = v
verdict_in (err e) = record {
  status = TestStatus.error;
  error_code = none;
  variance = none;
  variance_percentage = none;
  detail = [];
}

abbrev verdict : ComparisonType → Verdict
unfolding compare comparisons compare_expected_equal compare_equal
verdict c = verdict_in (compare plain_python (three_against_four c))

compare_pass_example :
    ((verdict ComparisonType.expected_equal).status ≡ TestStatus.pass)
    ↔ AllSatisfy
        (λ v. option_eq (some v) (some (Value.int (pos 3))))
        (executed (three_against_four ComparisonType.expected_equal))
unfolding verdict compare comparisons compare_expected_equal option_eq executed one_sided
compare_pass_example =
    compare_pass plain_python (three_against_four ComparisonType.expected_equal)
      (λ v. option_eq (some v) (some (Value.int (pos 3)))) (verdict ComparisonType.expected_equal)
      refl refl

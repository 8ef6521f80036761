-- ===== src/Runner/Comparators.antt =====
-- evaluation/comparators.py: the kinds of a scalar, and the comparison rules of the first engine.
pub mod Meaning
pub mod Complete
use execution_auto.Base.{
  Bool, true, false, not, ◌&&◌, ◌||◌, Option, none, some, List, [], ◌∷◌, ◌++◌, map, if◌then◌else◌,
  Text, lit, text_eq, is_empty, strip, join, Result, ok, err, and_then, require, ℤ, pos, eq_ℤ, ◌-ℤ◌,
  ◌*ℤ◌,
}
use execution_auto.Models.{
  ExecutionScope, source_target, source_only, target_only, uses_source, uses_target, scope_text,
}
use execution_auto.Evaluation.Decimal.{
  Decimal, of_int, eq, le, sub, abs, is_integral, is_zero_decimal, zero_decimal,
}
use execution_auto.Evaluation.Values.{
  Special, infinity, nan, signalling_nan, Number, finite, special, Moment, Scalar, Python,
  int_of_bool,
}
use execution_auto.Runner.Kinds.{
  Classified, ComparisonOutcome, ComparisonRule, Fault, Formats, comparison_error, equal,
  expected_zero, invalid_operation, kind_text, midnight, moment_eq, no_comparison, null, number_eq,
  number_sub, numeric, numeric_tolerance, rule_text, temporal, textual,
}

module _ (f : Formats) where
  -- `_classify` of a text that is not blank
  unfoldable pub classify_text : Text → Classified
  classify_text t = elim (f.py.decimal_of_text t) [ none ↦ textual t | some n ↦ numeric n ]

  -- `_classify`
  unfoldable pub classify : Scalar → Classified
  unfolding classify_text strip is_empty ◌*ℤ◌
  classify Scalar.null = null
  classify (Scalar.boolean b) = numeric (finite (of_int (int_of_bool b)))
  classify (Scalar.integer n) = numeric (finite (of_int n))
  classify (Scalar.floating n) = numeric n
  classify (Scalar.decimal n) = numeric n
  classify (Scalar.moment m) = temporal m
  classify (Scalar.day d) = temporal (midnight d)
  classify (Scalar.text s) = if is_empty (strip s) then null else classify_text (strip s)

  -- `to_decimal` of what `_classify` returned
  unfoldable pub finite_of : Text → Classified → Result Fault Decimal
  unfolding lit
  finite_of label (numeric (finite d)) = ok d
  finite_of label (numeric (special x)) =
      err (comparison_error (label ++ lit " result is not a finite number"))
  finite_of label null =
      err (comparison_error (label ++ lit " result is NULL and cannot be compared numerically"))
  finite_of label (textual t) =
      err (comparison_error (label ++ lit " result is not numeric (text)"))
  finite_of label (temporal m) =
      err (comparison_error (label ++ lit " result is not numeric (temporal)"))

  unfoldable pub to_decimal : Scalar → Text → Result Fault Decimal
  unfolding finite_of classify
  to_decimal value label = finite_of label (classify value)

  -- `variance_of`, of what `_classify` returned
  unfoldable pub difference : Classified → Classified → Result Fault (Option Number)
  unfolding number_sub
  difference (numeric a) (numeric b) = elim (number_sub a b) [
    | none ↦ err invalid_operation
    | some n ↦ ok (some n)
  ]
  difference a b = ok none

  unfoldable pub variance_of : Scalar → Scalar → Result Fault (Option Number)
  unfolding difference classify
  variance_of source target = difference (classify source) (classify target)

  -- `_display` of a `Decimal`
  unfoldable pub display_number : Number → Result Fault Text
  unfolding is_integral
  display_number (finite d) = ok (if is_integral d then f.whole d else f.fixed d)
  display_number (special signalling_nan) = err invalid_operation
  display_number n = ok (f.py.str_of (Scalar.decimal n))

  -- `_display` of a scalar
  unfoldable pub display_scalar : Scalar → Result Fault Text
  unfolding display_number
  display_scalar (Scalar.decimal n) = display_number n
  display_scalar value = ok (f.py.str_of value)

  -- `_display` of what `_classify` returned
  unfoldable pub display : Classified → Result Fault Text
  unfolding display_number lit
  display null = ok (lit "None")
  display (numeric n) = display_number n
  display (textual t) = ok t
  display (temporal m) = ok (f.py.str_of (Scalar.moment m))

  -- `_require_both_sides`
  unfoldable pub require_both_sides : ComparisonRule → ExecutionScope → Result Fault (Unit {0})
  unfolding rule_text scope_text lit
  require_both_sides rule source_target = ok tt
  require_both_sides rule scope = err (
      comparison_error (
        lit "comparison rule '"
        ++ (rule_text rule
            ++ (lit "' compares both sides and cannot be used with Execution_Scope "
                ++ scope_text scope))))

  -- `_require_comparable` and `==`, of what `_classify` returned
  unfoldable pub values_eq : Classified → Classified → Result Fault Bool
  unfolding number_eq moment_eq text_eq kind_text lit
  values_eq null null = err (comparison_error (lit "both source and target results are NULL"))
  values_eq null b = err (comparison_error (lit "source result is NULL"))
  values_eq a null = err (comparison_error (lit "target result is NULL"))
  values_eq (numeric a) (numeric b) = elim (number_eq a b) [
    | none ↦ err invalid_operation
    | some same ↦ ok same
  ]
  values_eq (textual s) (textual t) = ok (text_eq s t)
  values_eq (temporal m) (temporal n) = ok (moment_eq m n)
  values_eq a b = err (
      comparison_error (
        lit "incompatible result types: source is "
        ++ (kind_text a ++ (lit ", target is " ++ kind_text b))))

  unfoldable pub equal_remarks : Bool → Classified → Classified → Result Fault Text
  unfolding display kind_text lit
  equal_remarks true a b =
      ok (lit "Source and target " ++ (kind_text a ++ lit " results are equal."))
  equal_remarks false a b = and_then (display a) (λ shown. and_then (display b) (λ shown'.
      ok (lit "Mismatch: source " ++ (shown ++ (lit " != target " ++ (shown' ++ lit "."))))))

  -- `EqualComparator.compare`
  unfoldable pub compare_equal : Scalar → Scalar → ExecutionScope → Result Fault ComparisonOutcome
  unfolding require_both_sides values_eq classify equal_remarks variance_of
  compare_equal source target scope = and_then (require_both_sides equal scope) (λ both.
      and_then (values_eq (classify source) (classify target)) (λ same.
        and_then (equal_remarks same (classify source) (classify target)) (λ said.
          and_then (variance_of source target) (λ gap.
            ok (record { passed = same; variance = gap; remarks = said; profiled = false })))))

  -- The sides that a scope names, each with its label and its number
  unfoldable pub checked_sides :
      ExecutionScope → Scalar → Scalar → Result Fault (List (Text × Decimal))
  unfolding uses_source to_decimal lit
  checked_sides source_target source target = and_then (to_decimal source (lit "Source")) (λ a.
      and_then (to_decimal target (lit "Target"))
        (λ b. ok ((lit "source", a) ∷ (lit "target", b) ∷ [])))
  checked_sides source_only source target =
      and_then (to_decimal source (lit "Source")) (λ a. ok ((lit "source", a) ∷ []))
  checked_sides target_only source target =
      and_then (to_decimal target (lit "Target")) (λ b. ok ((lit "target", b) ∷ []))

  -- `[f"{label} {_display(value)}" for label, value in checked if value != 0]`
  unfoldable pub offenders : List (Text × Decimal) → List Text
  unfolding is_zero_decimal is_integral lit
  offenders [] = []
  offenders ((label, d) ∷ checked) =
      let rest = offenders checked in
      let shown = label ++ (lit " " ++ (if is_integral d then f.whole d else f.fixed d)) in
      if is_zero_decimal d then rest else shown ∷ rest

  -- `checked[0][1] - checked[1][1]` of two sides, or the value of the only one
  unfoldable pub zero_variance : List (Text × Decimal) → Option Number
  unfolding sub
  zero_variance [] = none
  zero_variance (a ∷ []) = some (finite (a.1))
  zero_variance (a ∷ b ∷ rest) = some (finite (sub (a.1) (b.1)))

  -- The outcome by the offending sides
  unfoldable pub zero_outcome : List Text → List (Text × Decimal) → ComparisonOutcome
  unfolding zero_variance join lit
  zero_outcome [] checked = record {
    passed = true;
    variance = zero_variance checked;
    remarks =
        lit "Mismatch count is 0 on " ++ (join (lit " and ") (map (λ c. c.0) checked) ++ lit ".");
    profiled = false;
  }
  zero_outcome (o ∷ os) checked = record {
    passed = false;
    variance = zero_variance checked;
    remarks = lit "Expected 0 but found " ++ (join (lit " and ") (o ∷ os) ++ lit ".");
    profiled = false;
  }

  -- `ExpectedZeroComparator.compare`
  unfoldable pub compare_zero : Scalar → Scalar → ExecutionScope → Result Fault ComparisonOutcome
  unfolding checked_sides offenders zero_outcome
  compare_zero source target scope =
      and_then (checked_sides scope source target)
        (λ checked. ok (zero_outcome (offenders checked) checked))

  abbrev pub show : Decimal → Text
  show d = if is_integral d then f.whole d else f.fixed d

  -- `NumericToleranceComparator.compare`; a tolerance is finite.
  unfoldable pub compare_tolerance :
      Scalar → Scalar → Decimal → ExecutionScope → Result Fault ComparisonOutcome
  unfolding require_both_sides to_decimal le sub abs is_integral lit
  compare_tolerance source target tolerance scope =
      and_then (require_both_sides numeric_tolerance scope) (λ both.
        and_then
          (require (le zero_decimal tolerance) (
            comparison_error
              (lit "tolerance must not be negative (got " ++ (show tolerance ++ lit ")"))))
          (λ nonnegative. and_then (to_decimal source (lit "Source")) (λ a.
            and_then (to_decimal target (lit "Target")) (λ b.
              let gap = abs (sub a b) in
              let verdict =
                if le gap tolerance
                then lit " is within tolerance "
                else lit " exceeds tolerance " in
              ok (record {
                passed = le gap tolerance;
                variance = some (finite (sub a b));
                remarks =
                    lit "Difference " ++ (show gap ++ (verdict ++ (show tolerance ++ lit ".")));
                profiled = false;
              })))))

  -- One `label value` of `NoComparisonComparator.compare`, where the value is not `None`
  unfoldable pub recorded : Text → Scalar → Result Fault (List Text)
  unfolding display_scalar lit
  recorded label Scalar.null = ok []
  recorded label value =
      and_then (display_scalar value) (λ shown. ok ((label ++ (lit " " ++ shown)) ∷ []))

  unfoldable pub recorded_detail : List Text → Text
  unfolding join lit
  recorded_detail [] = lit "no value returned"
  recorded_detail (t ∷ ts) = join (lit ", ") (t ∷ ts)

  -- `NoComparisonComparator.compare`
  unfoldable pub compare_nothing : Scalar → Scalar → Result Fault ComparisonOutcome
  unfolding recorded recorded_detail lit
  compare_nothing source target = and_then (recorded (lit "source") source) (λ first.
      and_then (recorded (lit "target") target) (λ second. ok (record {
        passed = false;
        variance = none;
        remarks =
            lit "Recorded without comparison: " ++ (recorded_detail (first ++ second) ++ lit ".");
        profiled = true;
      })))

  -- `compare`
  unfoldable pub compare :
      ComparisonRule → Scalar → Scalar → Decimal → ExecutionScope → Result Fault ComparisonOutcome
  unfolding compare_equal compare_zero compare_tolerance compare_nothing
  compare equal source target tolerance scope = compare_equal source target scope
  compare expected_zero source target tolerance scope = compare_zero source target scope
  compare numeric_tolerance source target tolerance scope =
      compare_tolerance source target tolerance scope
  compare no_comparison source target tolerance scope = compare_nothing source target

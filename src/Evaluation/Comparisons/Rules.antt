-- ===== src/Evaluation/Comparisons/Rules.antt =====
-- evaluation/comparisons.py: the comparison functions, and the registry that `compare` looks up.
use execution_auto.Base.{
  Bool, false, not, ◌&&◌, Option, none, some, List, [], ◌∷◌, ◌++◌, if◌then◌else◌, Text, lit,
  text_eq, Result, ok, err, ◌>>=◌,
}
use execution_auto.Models.{TestStatus, ComparisonType}
use execution_auto.Models.Codes.{ErrorCode}
use execution_auto.Evaluation.Decimal.{
  Decimal, le, sub, abs, mul, div, is_zero_decimal, hundred, zero_decimal,
}
use execution_auto.Evaluation.Values.{Value, Python, option_eq}
use execution_auto.Evaluation.Normalization.{is_zero, display}
use execution_auto.Evaluation.Comparisons.{
  Request, Verdict, verdict, executed, decimal_of, variance, variance_percentage, require_numeric,
  or_empty, is_source_target,
}

-- `[(side, value) for side, value in executed if not holds(value)]`, the first of them. The rule is
-- applied to every value, and raises if it raises at any.
unfoldable pub first_failure :
    (Value → Result Text Bool) → List (Text × Value) → Result Text (Option (Text × Value))
first_failure holds [] = ok none
first_failure holds ((side, v) ∷ rest) = do
  passed ← holds v
  later ← first_failure holds rest
  ok (if passed then later else some (side, v))

-- `value is True`
abbrev pub is_true : Value → Bool
is_true (Value.bool b) = b
is_true _ = false

module _ (py : Python) where
  abbrev pub show : Value → Text
  show v = display py (some v)

  abbrev pub show_dec : Decimal → Text
  show_dec d = display py (some (Value.dec d))

  -- `_equal`
  unfoldable pub compare_equal : Request → Result Text Verdict
  compare_equal r =
      let v = variance r in
      let p = variance_percentage (decimal_of r.source) v in
      if option_eq r.source r.target
      then ok (
          verdict TestStatus.pass none v p
            (lit "Source and target both returned " ++ (display py r.target ++ lit ".")))
      else ok (
          verdict TestStatus.fail (some ErrorCode.value_mismatch) v p (
            lit "Source returned "
            ++ (display py r.source
                ++ (lit " but target returned " ++ (display py r.target ++ lit ".")))))

  abbrev within_absolute : Request → Decimal → Decimal → Verdict
  within_absolute r source target =
      let tolerance = r.absolute_tolerance in
      let v = sub target source in
      let d = abs v in
      let p = variance_percentage (some source) (some v) in
      if le d tolerance
      then verdict TestStatus.pass none (some v) p (
          lit "Difference "
          ++ (show_dec d
              ++ (lit " is within the absolute tolerance " ++ (show_dec tolerance ++ lit "."))))
      else verdict TestStatus.fail (some ErrorCode.tolerance_exceeded) (some v) p (
          lit "Difference "
          ++ (show_dec d
              ++ (lit " exceeds the absolute tolerance "
                  ++ (show_dec tolerance
                      ++ (lit " (source "
                          ++ (show_dec source
                              ++ (lit ", target " ++ (show_dec target ++ lit ")."))))))))

  -- `_equal_abs_tolerance`
  unfoldable pub compare_abs_tolerance : Request → Result Text Verdict
  compare_abs_tolerance r = do
    source ← require_numeric r.source (lit "source")
    target ← require_numeric r.target (lit "target")
    ok (within_absolute r source target)

  -- The branch of `_equal_pct_tolerance` where the source is zero.
  abbrev from_zero : Request → Decimal → Decimal → Verdict
  from_zero r source target =
      let tolerance = r.absolute_tolerance in
      let v = sub target source in
      let d = abs v in
      if is_zero_decimal target
      then verdict TestStatus.pass none (some v) (some zero_decimal)
          (lit "Source and target are both 0.")
      else if not (le tolerance zero_decimal) && le d tolerance
      then verdict TestStatus.pass none (some v) none (
          lit "Source is 0, so the percentage is undefined; difference "
          ++ (show_dec d
              ++ (lit " is within the absolute tolerance " ++ (show_dec tolerance ++ lit "."))))
      else verdict TestStatus.fail (some ErrorCode.zero_source_baseline) (some v) none (
          lit "Source is 0 and target is "
          ++ (show_dec target
              ++ lit
                  ", so a percentage cannot be calculated. Set Absolute_Tolerance to state how much drift from zero is acceptable."))

  abbrev within_percentage : Request → Decimal → Decimal → Verdict
  within_percentage r source target =
      let tolerance = r.percentage_tolerance in
      let v = sub target source in
      let p = mul (div v (abs source)) hundred in
      if le (abs p) tolerance
      then verdict TestStatus.pass none (some v) (some p) (
          lit "Variance "
          ++ (show_dec p
              ++ (lit "% is within the percentage tolerance " ++ (show_dec tolerance ++ lit "%."))))
      else verdict TestStatus.fail (some ErrorCode.percentage_tolerance_exceeded) (some v) (some p)
          (lit "Variance "
            ++ (show_dec p
                ++ (lit "% exceeds the percentage tolerance "
                    ++ (show_dec tolerance
                        ++ (lit "% (source "
                            ++ (show_dec source
                                ++ (lit ", target " ++ (show_dec target ++ lit ")."))))))))

  -- `_equal_pct_tolerance`
  unfoldable pub compare_pct_tolerance : Request → Result Text Verdict
  compare_pct_tolerance r = do
    source ← require_numeric r.source (lit "source")
    target ← require_numeric r.target (lit "target")
    ok (
        if is_zero_decimal source
        then from_zero r source target
        else within_percentage r source target)

  -- `", ".join(f"{side} {display(value)}" for side, value in executed)`
  unfoldable pub seen : List (Text × Value) → Text
  unfolding lit
  seen [] = []
  seen ((side, v) ∷ []) = side ++ (lit " " ++ show v)
  seen ((side, v) ∷ e ∷ rest) = side ++ (lit " " ++ (show v ++ (lit ", " ++ seen (e ∷ rest))))

  abbrev pub settle :
      Request → ErrorCode → Text → (Text → Text → Text) → Option (Text × Value) → Verdict
  settle r code passed describe_fail (some (side, v)) =
      verdict TestStatus.fail (some code) (variance r)
        (variance_percentage (decimal_of r.source) (variance r)) (describe_fail side (show v))
  settle r code passed describe_fail none =
      verdict TestStatus.pass none (variance r)
        (variance_percentage (decimal_of r.source) (variance r)) passed

  abbrev pub one_sided_on :
      Request
      → (Value → Result Text Bool)
      → ErrorCode
      → (Text → Text)
      → (Text → Text → Text)
      → List (Text × Value)
      → Result Text Verdict
  one_sided_on r holds code describe_pass describe_fail [] =
      err (lit "There is no executed value to compare.")
  one_sided_on r holds code describe_pass describe_fail (e ∷ rest) = do
    failure ← first_failure holds (e ∷ rest)
    ok (settle r code (describe_pass (seen (e ∷ rest))) describe_fail failure)

  -- `_one_sided`
  unfoldable pub one_sided :
      Request
      → (Value → Result Text Bool)
      → ErrorCode
      → (Text → Text)
      → (Text → Text → Text)
      → Result Text Verdict
  unfolding executed variance variance_percentage decimal_of first_failure seen lit
  one_sided r holds code describe_pass describe_fail =
      one_sided_on r holds code describe_pass describe_fail (executed r)

  -- `_expected_equal`
  unfoldable pub compare_expected_equal : Request → Result Text Verdict
  compare_expected_equal r =
      one_sided r (λ v. ok (option_eq (some v) r.expected)) ErrorCode.value_mismatch
        (λ shown.
          lit "Executed value equals the expected "
          ++ (display py r.expected ++ (lit " (" ++ (shown ++ lit ")."))))
        (λ side shown.
          lit "Expected "
          ++ (display py r.expected
              ++ (lit " but the " ++ (side ++ (lit " query returned " ++ (shown ++ lit "."))))))

  -- `_expected_zero`
  unfoldable pub compare_expected_zero : Request → Result Text Verdict
  compare_expected_zero r =
      one_sided r (λ v. ok (is_zero v)) ErrorCode.expected_zero_failed
        (λ shown. lit "Expected 0 and found 0 (" ++ (shown ++ lit ")."))
        (λ side shown.
          lit "Expected 0 but the " ++ (side ++ (lit " query returned " ++ (shown ++ lit "."))))

  -- `_less_than_or_equal`
  unfoldable pub compare_less_than_or_equal : Request → Result Text Verdict
  compare_less_than_or_equal r = do
    limit ← require_numeric r.expected (lit "expected")
    one_sided r (λ v. require_numeric (some v) (lit "executed") >>= λ d. ok (le d limit))
        ErrorCode.threshold_exceeded
        (λ shown.
          lit "Executed value is at most " ++ (show_dec limit ++ (lit " (" ++ (shown ++ lit ")."))))
        (λ side shown.
          lit "The "
          ++ (side
              ++ (lit " query returned "
                  ++ (shown ++ (lit ", above the limit " ++ (show_dec limit ++ lit "."))))))

  -- `_greater_than_or_equal`
  unfoldable pub compare_greater_than_or_equal : Request → Result Text Verdict
  compare_greater_than_or_equal r = do
    floor ← require_numeric r.expected (lit "expected")
    one_sided r (λ v. require_numeric (some v) (lit "executed") >>= λ d. ok (le floor d))
        ErrorCode.threshold_exceeded
        (λ shown.
          lit "Executed value is at least "
          ++ (show_dec floor ++ (lit " (" ++ (shown ++ lit ")."))))
        (λ side shown.
          lit "The "
          ++ (side
              ++ (lit " query returned "
                  ++ (shown ++ (lit ", below the minimum " ++ (show_dec floor ++ lit "."))))))

  -- `_non_zero`
  unfoldable pub compare_non_zero : Request → Result Text Verdict
  compare_non_zero r =
      one_sided r (λ v. ok (not (is_zero v))) ErrorCode.non_zero_failed
        (λ shown. lit "Executed value is not zero (" ++ (shown ++ lit ")."))
        (λ side shown.
          lit "The "
          ++ (side
              ++ (lit " query returned " ++ (shown ++ lit "; a non-zero value was required."))))

  -- `_boolean_true`
  unfoldable pub compare_boolean_true : Request → Result Text Verdict
  compare_boolean_true r =
      one_sided r (λ v. ok (is_true v)) ErrorCode.boolean_not_true
        (λ shown. lit "Executed value is TRUE (" ++ (shown ++ lit ")."))
        (λ side shown.
          lit "The " ++ (side ++ (lit " query returned " ++ (shown ++ lit "; TRUE was required."))))

  abbrev pub same_folded : Text → Text → Bool
  same_folded s t = text_eq (py.casefold s) (py.casefold t)

  abbrev compare_texts : Text → Text → Verdict
  compare_texts source target =
      if same_folded source target
      then verdict TestStatus.pass none none none
          (lit "Source and target text match ignoring case ('" ++ (target ++ lit "')."))
      else verdict TestStatus.fail (some ErrorCode.value_mismatch) none none (
          lit "Source returned '"
          ++ (source ++ (lit "' but target returned '" ++ (target ++ lit "'."))))

  -- `_text_case_insensitive_equal`
  unfoldable pub compare_text_case_insensitive : Request → Result Text Verdict
  compare_text_case_insensitive r =
      if is_source_target r.scope
      then ok (compare_texts (or_empty py r.source) (or_empty py r.target))
      else one_sided r (λ v. ok (same_folded (or_empty py (some v)) (or_empty py r.expected)))
          ErrorCode.value_mismatch
          (λ shown.
            lit "Executed text matches '"
            ++ (or_empty py r.expected ++ (lit "' ignoring case (" ++ (shown ++ lit ")."))))
          (λ side shown.
            lit "Expected '"
            ++ (or_empty py r.expected
                ++ (lit "' but the " ++ (side ++ (lit " query returned " ++ (shown ++ lit "."))))))

  -- `_no_comparison`
  unfoldable pub record_only : Request → Result Text Verdict
  record_only r = ok (
      verdict TestStatus.profiled none (variance r) none
        (lit "Profiled without a pass/fail rule (" ++ (seen (executed r) ++ lit ").")))

  -- `COMPARISONS`
  unfoldable pub comparisons : ComparisonType → Request → Result Text Verdict
  comparisons ComparisonType.equal = compare_equal
  comparisons ComparisonType.equal_abs_tolerance = compare_abs_tolerance
  comparisons ComparisonType.equal_pct_tolerance = compare_pct_tolerance
  comparisons ComparisonType.expected_equal = compare_expected_equal
  comparisons ComparisonType.expected_zero = compare_expected_zero
  comparisons ComparisonType.less_than_or_equal = compare_less_than_or_equal
  comparisons ComparisonType.greater_than_or_equal = compare_greater_than_or_equal
  comparisons ComparisonType.non_zero = compare_non_zero
  comparisons ComparisonType.boolean_true = compare_boolean_true
  comparisons ComparisonType.text_case_insensitive_equal = compare_text_case_insensitive
  comparisons ComparisonType.no_comparison = record_only

  -- `compare`
  unfoldable pub compare : Request → Result Text Verdict
  compare r = comparisons r.comparison r

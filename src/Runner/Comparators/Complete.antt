-- ===== src/Runner/Comparators/Complete.antt =====
-- evaluation/comparators.py: results that reconcile are passed.
use execution_auto.Base.{
  ◌≡◌, refl, subst, sym, true, Option, List, [], ◌∷◌, Text, lit, text_eq_refl, Result, ok, err,
  and_then, require-true, and_then-ok,
}
use execution_auto.Models.{ExecutionScope, source_target, source_only, target_only}
use execution_auto.Evaluation.Decimal.{Decimal, le, sub, abs, is_zero_decimal, zero_decimal}
use execution_auto.Evaluation.Values.{Number, finite, special, Scalar}
use execution_auto.Runner.Kinds.{
  ComparisonRule, equal, expected_zero, numeric_tolerance, no_comparison, Classified, null, numeric,
  textual, temporal, Fault, ComparisonOutcome, Formats,
}
use execution_auto.Runner.Comparators.{
  classify, finite_of, to_decimal, values_eq, variance_of, require_both_sides, equal_remarks,
  checked_sides, offenders, zero_outcome, compare_equal, compare_zero, compare_tolerance, compare,
}
use execution_auto.Runner.Comparators.Meaning.{Same, IsZero, IsWithin, Reconciles}

-- The comparison returns, and passes.
abbrev pub Passes : Result Fault ComparisonOutcome → Type 0
Passes (ok o) = o.passed ≡ true
Passes (err e) = ⊥

Passes-and_then :
    {A : Type 0} (m : Result Fault A) (f : A → Result Fault ComparisonOutcome) (a : A)
    → m ≡ ok a
    → Passes (f a)
    → Passes (and_then m f)
unfolding and_then
Passes-and_then m f a h passes = rw (h, and_then) passes

values_eq_complete : (f : Formats) (a b : Classified) → Same a b → values_eq f a b ≡ ok true
unfolding values_eq
values_eq_complete f (numeric a) (numeric b) same = rw (same, values_eq) refl
values_eq_complete f (textual s) (textual t) same =
    subst (λ u. values_eq f (textual s) (textual u) ≡ ok true) same
      (rw (text_eq_refl s, values_eq) refl)
values_eq_complete f (temporal m) (temporal n) same = rw (same, values_eq) refl
values_eq_complete f null b same = absurd same
values_eq_complete f (numeric a) null same = absurd same
values_eq_complete f (numeric a) (textual t) same = absurd same
values_eq_complete f (numeric a) (temporal n) same = absurd same
values_eq_complete f (textual s) null same = absurd same
values_eq_complete f (textual s) (numeric b) same = absurd same
values_eq_complete f (textual s) (temporal n) same = absurd same
values_eq_complete f (temporal m) null same = absurd same
values_eq_complete f (temporal m) (numeric b) same = absurd same
values_eq_complete f (temporal m) (textual t) same = absurd same

-- A classified value that is zero
zero_number :
    (c : Classified)
    → IsZero c
    → (d : Decimal) × (c ≡ numeric (finite d)) × (is_zero_decimal d ≡ true)
zero_number (numeric (finite d)) zero = (d, refl, zero)
zero_number (numeric (special x)) zero = absurd zero
zero_number null zero = absurd zero
zero_number (textual t) zero = absurd zero
zero_number (temporal m) zero = absurd zero

near_numbers :
    (tolerance : Decimal) (a b : Classified)
    → IsWithin tolerance a b
    → (d : Decimal) × (e : Decimal) × (a ≡ numeric (finite d))
      × (b ≡ numeric (finite e))
      × (le (abs (sub d e)) tolerance ≡ true)
near_numbers tolerance (numeric (finite d)) (numeric (finite e)) near = (d, e, refl, refl, near)
near_numbers tolerance (numeric (finite d)) null near = absurd near
near_numbers tolerance (numeric (finite d)) (numeric (special x)) near = absurd near
near_numbers tolerance (numeric (finite d)) (textual t) near = absurd near
near_numbers tolerance (numeric (finite d)) (temporal m) near = absurd near
near_numbers tolerance (numeric (special x)) b near = absurd near
near_numbers tolerance null b near = absurd near
near_numbers tolerance (textual t) b near = absurd near
near_numbers tolerance (temporal m) b near = absurd near

module _ (f : Formats) (label : Text) (value : Scalar) (d : Decimal) where
  to_decimal-finite : classify f value ≡ numeric (finite d) → to_decimal f value label ≡ ok d
  unfolding to_decimal finite_of
  to_decimal-finite h = subst (λ c. finite_of f label c ≡ ok d) (sym h) refl

module _ (f : Formats) (source target : Scalar) (tolerance : Decimal) where
  compare_equal_complete :
      (gap : Option Number)
      → variance_of f source target ≡ ok gap
      → Same (classify f source) (classify f target)
      → Passes (compare_equal f source target source_target)
  unfolding compare_equal require_both_sides equal_remarks
  compare_equal_complete gap found same = Passes-and_then _ _ tt refl (
      Passes-and_then _ _ true (values_eq_complete f (classify f source) (classify f target) same)
        (Passes-and_then _ _ _ refl (Passes-and_then _ _ gap found refl)))

  compare_tolerance_complete :
      le zero_decimal tolerance ≡ true
      → IsWithin tolerance (classify f source) (classify f target)
      → Passes (compare_tolerance f source target tolerance source_target)
  unfolding compare_tolerance require_both_sides
  compare_tolerance_complete nonnegative near =
      let (d, e, is_d, is_e, within) =
        near_numbers tolerance (classify f source) (classify f target) near in
      Passes-and_then _ _ tt refl (
        Passes-and_then _ _ tt (require-true (le zero_decimal tolerance) _ nonnegative) (
          Passes-and_then _ _ d (to_decimal-finite f (lit "Source") source d is_d)
            (Passes-and_then _ _ e (to_decimal-finite f (lit "Target") target e is_e) within)))

module _ (f : Formats) (source target : Scalar) (tolerance : Decimal) where
  -- Sides that are zero leave no offender.
  zero_passes :
      (checked : List (Text × Decimal))
      → offenders f checked ≡ []
      → Passes (ok (zero_outcome f (offenders f checked) checked))
  unfolding zero_outcome
  zero_passes checked h = rw (h, zero_outcome) refl

  zero_alone :
      (label : Text) (d : Decimal) → is_zero_decimal d ≡ true → offenders f ((label, d) ∷ []) ≡ []
  unfolding offenders
  zero_alone label d zero = rw (zero, offenders) refl

  zero_both :
      (label label' : Text) (d e : Decimal)
      → is_zero_decimal d ≡ true
      → is_zero_decimal e ≡ true
      → offenders f ((label, d) ∷ (label', e) ∷ []) ≡ []
  unfolding offenders
  zero_both label label' d e zero zero' = rw (zero, zero', offenders) refl

  checked_one :
      (d : Decimal)
      → classify f source ≡ numeric (finite d)
      → checked_sides f source_only source target ≡ ok ((lit "source", d) ∷ [])
  unfolding checked_sides
  checked_one d is_d = and_then-ok _ _ d _ (to_decimal-finite f (lit "Source") source d is_d) refl

  checked_other :
      (e : Decimal)
      → classify f target ≡ numeric (finite e)
      → checked_sides f target_only source target ≡ ok ((lit "target", e) ∷ [])
  unfolding checked_sides
  checked_other e is_e = and_then-ok _ _ e _ (to_decimal-finite f (lit "Target") target e is_e) refl

  checked_both :
      (d e : Decimal)
      → classify f source ≡ numeric (finite d)
      → classify f target ≡ numeric (finite e)
      → checked_sides f source_target source target
        ≡ ok ((lit "source", d) ∷ (lit "target", e) ∷ [])
  unfolding checked_sides
  checked_both d e is_d is_e =
      and_then-ok _ _ d _ (to_decimal-finite f (lit "Source") source d is_d)
        (and_then-ok _ _ e _ (to_decimal-finite f (lit "Target") target e is_e) refl)

  compare_zero_complete :
      (scope : ExecutionScope)
      → Reconciles expected_zero tolerance scope (classify f source) (classify f target)
      → Passes (compare_zero f source target scope)
  unfolding compare_zero
  compare_zero_complete source_only zeros =
      let (d, is_d, zero) = zero_number (classify f source) zeros in
      Passes-and_then _ _ _ (checked_one d is_d)
        (zero_passes ((lit "source", d) ∷ []) (zero_alone (lit "source") d zero))
  compare_zero_complete target_only zeros =
      let (e, is_e, zero) = zero_number (classify f target) zeros in
      Passes-and_then _ _ _ (checked_other e is_e)
        (zero_passes ((lit "target", e) ∷ []) (zero_alone (lit "target") e zero))
  compare_zero_complete source_target zeros =
      let (d, is_d, zero) = zero_number (classify f source) (zeros.0) in
      let (e, is_e, zero') = zero_number (classify f target) (zeros.1) in
      Passes-and_then _ _ _ (checked_both d e is_d is_e) (
        zero_passes ((lit "source", d) ∷ (lit "target", e) ∷ [])
          (zero_both (lit "source") (lit "target") d e zero zero'))

  -- Where the tolerance is not negative and the variance of the results raises nothing, results that are what the
  -- rule asks, at the sides that the scope names, are passed.
  pub compare-Passes :
      (rule : ComparisonRule) (scope : ExecutionScope) (gap : Option Number)
      → le zero_decimal tolerance ≡ true
      → variance_of f source target ≡ ok gap
      → Reconciles rule tolerance scope (classify f source) (classify f target)
      → Passes (compare f rule source target tolerance scope)
  unfolding compare
  compare-Passes equal source_target gap nonnegative found same =
      compare_equal_complete f source target tolerance gap found same
  compare-Passes equal source_only gap nonnegative found none_asked = absurd none_asked
  compare-Passes equal target_only gap nonnegative found none_asked = absurd none_asked
  compare-Passes expected_zero scope gap nonnegative found zeros = compare_zero_complete scope zeros
  compare-Passes numeric_tolerance source_target gap nonnegative found near =
      compare_tolerance_complete f source target tolerance nonnegative near
  compare-Passes numeric_tolerance source_only gap nonnegative found none_asked = absurd none_asked
  compare-Passes numeric_tolerance target_only gap nonnegative found none_asked = absurd none_asked
  compare-Passes no_comparison scope gap nonnegative found none_asked = absurd none_asked

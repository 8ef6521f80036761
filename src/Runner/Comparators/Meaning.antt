-- ===== src/Runner/Comparators/Meaning.antt =====
-- evaluation/comparators.py: what a passed comparison says of the two results.
use execution_auto.Base.{
  ◌≡◌, refl, subst, sym, true, some, List, [], ◌∷◌, Text, lit, text_eq_sound, ok, and_then_ok,
  ok_injective, inl, inr, Bool-cases, Option-cases, arith,
}
use execution_auto.Models.{ExecutionScope, source_target, source_only, target_only}
use execution_auto.Evaluation.Decimal.{Decimal, le, sub, abs, is_zero_decimal}
use execution_auto.Evaluation.Values.{finite, Scalar}
use execution_auto.Runner.Kinds.{
  ComparisonRule, equal, expected_zero, numeric_tolerance, no_comparison, Classified, null, numeric,
  textual, temporal, ComparisonOutcome, Formats, number_eq, moment_eq,
}
use execution_auto.Runner.Comparators.{
  classify, finite_of, zero_outcome, require_both_sides, to_decimal, values_eq, checked_sides,
  offenders, compare_equal, compare_zero, compare_tolerance, compare_nothing, compare,
}

-- Two results of one kind that are the same; NULL is the same as nothing.
abbrev pub Same : Classified → Classified → Type 0
Same (numeric a) (numeric b) = number_eq a b ≡ some true
Same (textual s) (textual t) = s ≡ t
Same (temporal m) (temporal n) = moment_eq m n ≡ true
Same _ _ = ⊥

abbrev pub IsZero : Classified → Type 0
IsZero (numeric (finite d)) = is_zero_decimal d ≡ true
IsZero _ = ⊥

abbrev pub IsWithin : Decimal → Classified → Classified → Type 0
IsWithin tolerance (numeric (finite a)) (numeric (finite b)) = le (abs (sub a b)) tolerance ≡ true
IsWithin _ _ _ = ⊥

-- What a rule asks of the two results; a side that the scope does not name is not asked.
abbrev pub Reconciles : ComparisonRule → Decimal → ExecutionScope → Classified → Classified → Type 0
Reconciles equal tolerance source_target a b = Same a b
Reconciles expected_zero tolerance source_target a b = IsZero a × IsZero b
Reconciles expected_zero tolerance source_only a b = IsZero a
Reconciles expected_zero tolerance target_only a b = IsZero b
Reconciles numeric_tolerance tolerance source_target a b = IsWithin tolerance a b
Reconciles _ _ _ _ _ = ⊥

values_eq_sound : (f : Formats) (a b : Classified) → values_eq f a b ≡ ok true → Same a b
unfolding values_eq
values_eq_sound f (numeric a) (numeric b) h = elim (Option-cases (number_eq a b)) [
  | inl raised ↦ absurd (ground arith)
  | inr (same, found) ↦ ground arith
]
values_eq_sound f (textual s) (textual t) h = text_eq_sound s t (ground arith)
values_eq_sound f (temporal m) (temporal n) h = ground arith
values_eq_sound f null b h = absurd (ground arith)
values_eq_sound f (numeric a) null h = absurd (cc)
values_eq_sound f (numeric a) (textual t) h = absurd (cc)
values_eq_sound f (numeric a) (temporal n) h = absurd (cc)
values_eq_sound f (textual s) null h = absurd (cc)
values_eq_sound f (textual s) (numeric b) h = absurd (cc)
values_eq_sound f (textual s) (temporal n) h = absurd (cc)
values_eq_sound f (temporal m) null h = absurd (cc)
values_eq_sound f (temporal m) (numeric b) h = absurd (cc)
values_eq_sound f (temporal m) (textual t) h = absurd (cc)

module _ (f : Formats) (label : Text) where
  finite_of_sound :
      (c : Classified) (d : Decimal) → finite_of f label c ≡ ok d → c ≡ numeric (finite d)
  unfolding finite_of
  finite_of_sound c d h = ground arith

-- A rule that needs both sides returns only where the scope names both.
pub two_sided :
    (f : Formats) (rule : ComparisonRule) (scope : ExecutionScope) (u : Unit {0})
    → require_both_sides f rule scope ≡ ok u
    → scope ≡ source_target
unfolding require_both_sides
two_sided f rule source_target u h = refl
two_sided f rule source_only u h = absurd (cc)
two_sided f rule target_only u h = absurd (cc)

module _ (f : Formats) (checked : List (Text × Decimal)) where
  no_offenders : (os : List Text) → (zero_outcome f os checked).passed ≡ true → os ≡ []
  unfolding zero_outcome
  no_offenders [] passed = refl
  no_offenders (o ∷ os) passed = absurd (cc)

  offenders_cons :
      (label : Text) (d : Decimal)
      → offenders f ((label, d) ∷ checked) ≡ []
      → (is_zero_decimal d ≡ true) × (offenders f checked ≡ [])
  unfolding offenders
  offenders_cons label d h = elim (Bool-cases (is_zero_decimal d)) [
    | inl zero ↦ (zero, ground arith)
    | inr other ↦ absurd (ground arith)
  ]

module _ (f : Formats) (label : Text) (value : Scalar) (d : Decimal) where
  IsZero-to_decimal :
      to_decimal f value label ≡ ok d → is_zero_decimal d ≡ true → IsZero (classify f value)
  unfolding to_decimal
  IsZero-to_decimal read zero =
      subst IsZero (sym (finite_of_sound f label (classify f value) d read)) zero

module _ (f : Formats) (source target : Scalar) (tolerance : Decimal) where
  checked_sides_sound :
      (scope : ExecutionScope) (checked : List (Text × Decimal))
      → checked_sides f scope source target ≡ ok checked
      → offenders f checked ≡ []
      → Reconciles expected_zero tolerance scope (classify f source) (classify f target)
  unfolding checked_sides
  checked_sides_sound source_target checked h none_left =
      let (a, e1, h1) = and_then_ok _ _ _ h in
      let (b, e2, h2) = and_then_ok _ _ _ h1 in
      let all_zero =
        subst (λ cs. offenders f cs ≡ []) (sym (ok_injective _ _ _ refl h2)) none_left in
      let (zero, rest) = offenders_cons f ((lit "target", b) ∷ []) (lit "source") a all_zero in
      let (zero', behind) = offenders_cons f [] (lit "target") b rest in
      (
        IsZero-to_decimal f (lit "Source") source a e1 zero,
        IsZero-to_decimal f (lit "Target") target b e2 zero',
      )
  checked_sides_sound source_only checked h none_left =
      let (a, e1, h1) = and_then_ok _ _ _ h in
      let all_zero =
        subst (λ cs. offenders f cs ≡ []) (sym (ok_injective _ _ _ refl h1)) none_left in
      let (zero, behind) = offenders_cons f [] (lit "source") a all_zero in
      IsZero-to_decimal f (lit "Source") source a e1 zero
  checked_sides_sound target_only checked h none_left =
      let (b, e1, h1) = and_then_ok _ _ _ h in
      let all_zero =
        subst (λ cs. offenders f cs ≡ []) (sym (ok_injective _ _ _ refl h1)) none_left in
      let (zero, behind) = offenders_cons f [] (lit "target") b all_zero in
      IsZero-to_decimal f (lit "Target") target b e1 zero

module _ (f : Formats) (source target : Scalar) (tolerance : Decimal) (o : ComparisonOutcome) where
  compare_equal_sound :
      (scope : ExecutionScope)
      → compare_equal f source target scope ≡ ok o
      → o.passed ≡ true
      → Reconciles equal tolerance scope (classify f source) (classify f target)
  unfolding compare_equal
  compare_equal_sound scope h passed =
      let (both, e1, h1) = and_then_ok _ _ _ h in
      let (same, e2, h2) = and_then_ok _ _ _ h1 in
      let (said, e3, h3) = and_then_ok _ _ _ h2 in
      let (gap, e4, h4) = and_then_ok _ _ _ h3 in
      let equal_values : same ≡ true =
        subst (λ p. p.passed ≡ true) (sym (ok_injective _ _ _ refl h4)) passed in
      subst (λ c. Reconciles equal tolerance c (classify f source) (classify f target))
        (sym (two_sided f equal scope both e1))
        (values_eq_sound f (classify f source) (classify f target) (ground arith))

  compare_tolerance_sound :
      (scope : ExecutionScope)
      → compare_tolerance f source target tolerance scope ≡ ok o
      → o.passed ≡ true
      → Reconciles numeric_tolerance tolerance scope (classify f source) (classify f target)
  unfolding compare_tolerance to_decimal
  compare_tolerance_sound scope h passed =
      let (both, e1, h1) = and_then_ok _ _ _ h in
      let (nonnegative, e2, h2) = and_then_ok _ _ _ h1 in
      let (a, e3, h3) = and_then_ok _ _ _ h2 in
      let (b, e4, h4) = and_then_ok _ _ _ h3 in
      let within : le (abs (sub a b)) tolerance ≡ true =
        subst (λ p. p.passed ≡ true) (sym (ok_injective _ _ _ refl h4)) passed in
      subst (λ c. Reconciles numeric_tolerance tolerance c (classify f source) (classify f target))
        (sym (two_sided f numeric_tolerance scope both e1))
        (subst (λ c. IsWithin tolerance c (classify f target))
          (sym (finite_of_sound f (lit "Source") (classify f source) a e3))
          (subst (IsWithin tolerance (numeric (finite a)))
            (sym (finite_of_sound f (lit "Target") (classify f target) b e4)) within))

  compare_zero_sound :
      (scope : ExecutionScope)
      → compare_zero f source target scope ≡ ok o
      → o.passed ≡ true
      → Reconciles expected_zero tolerance scope (classify f source) (classify f target)
  unfolding compare_zero
  compare_zero_sound scope h passed =
      let (checked, e1, h1) = and_then_ok _ _ _ h in
      let zero_passed = subst (λ p. p.passed ≡ true) (sym (ok_injective _ _ _ refl h1)) passed in
      checked_sides_sound f source target tolerance scope checked e1
        (no_offenders f checked (offenders f checked) zero_passed)

  compare_nothing_sound : compare_nothing f source target ≡ ok o → o.passed ≡ true → ⊥
  unfolding compare_nothing
  compare_nothing_sound h passed =
      let (first, e1, h1) = and_then_ok _ _ _ h in
      let (second, e2, h2) = and_then_ok _ _ _ h1 in
      let nothing = subst (λ p. p.passed ≡ true) (sym (ok_injective _ _ _ refl h2)) passed in
      absurd (cc)

  -- A comparison that passes says of the results what its rule asks, at the sides that the scope names: EQUAL
  -- that they are of one kind and the same, EXPECTED_ZERO that each is the number zero, NUMERIC_TOLERANCE that
  -- they are numbers no further apart than the tolerance. So no NULL passes, and NO_COMPARISON never does.
  pub compare_sound :
      (rule : ComparisonRule) (scope : ExecutionScope)
      → compare f rule source target tolerance scope ≡ ok o
      → o.passed ≡ true
      → Reconciles rule tolerance scope (classify f source) (classify f target)
  unfolding compare
  compare_sound equal scope h passed = compare_equal_sound scope h passed
  compare_sound expected_zero scope h passed = compare_zero_sound scope h passed
  compare_sound numeric_tolerance scope h passed = compare_tolerance_sound scope h passed
  compare_sound no_comparison scope h passed = absurd (compare_nothing_sound h passed)

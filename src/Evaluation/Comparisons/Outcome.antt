-- ===== src/Evaluation/Comparisons/Outcome.antt =====
-- evaluation/comparisons.py: statuses and codes of a verdict, and the rule behind a pass.
use mathlib.Core.Path.{subst}
use mathlib.Core.Option.{some-injective}
use execution_auto.Base.{
  ◌≡◌, ◌≢◌, refl, sym, lit, Bool, true, Option, none, some, List, [], ◌∷◌, arith, Text, Result, ok,
  err, inl, inr, Bool-cases, Result-cases, All, not, ◌⊎◌, ◌↔◌,
}
use execution_auto.Models.{ComparisonType, TestStatus}
use execution_auto.Models.Codes.{ErrorCode}
use execution_auto.Evaluation.Values.{Value, Python, option_eq}
use execution_auto.Evaluation.Normalization.{is_zero}
use execution_auto.Evaluation.Comparisons.{
  Request, Verdict, executed, require_numeric, is_source_target,
}
use execution_auto.Evaluation.Comparisons.Rules.{
  first_failure, one_sided_on, one_sided, is_true, compare_equal, compare_abs_tolerance,
  compare_pct_tolerance, compare_expected_equal, compare_expected_zero, compare_less_than_or_equal,
  compare_greater_than_or_equal, compare_non_zero, compare_boolean_true,
  compare_text_case_insensitive, record_only, comparisons, compare,
}

-- A pass has no error code, and a failure has one.
abbrev pub Decided : Verdict → Type 0
Decided v =
    ((v.status ≡ TestStatus.pass) × (v.error_code ≡ none))
    ⊎ ((v.status ≡ TestStatus.fail) × ((c : ErrorCode) × (v.error_code ≡ some c)))

abbrev Decides : Result Text Verdict → Type 0
Decides (ok v) = Decided v
Decides (err e) = Unit

module _ (py : Python) where
  one_sided-Decides :
      (r : Request) (holds : Value → Result Text Bool) (code : ErrorCode) (p : Text → Text)
      (f : Text → Text → Text)
      → Decides (one_sided py r holds code p f)
  unfolding one_sided
  one_sided-Decides r holds code p f = ground arith

  comparisons-Decides :
      (c : ComparisonType) (r : Request)
      → c ≢ ComparisonType.no_comparison
      → Decides (comparisons py c r)
  unfolding comparisons compare_expected_equal compare_expected_zero compare_non_zero
      compare_boolean_true compare_less_than_or_equal compare_greater_than_or_equal compare_equal
      compare_abs_tolerance compare_pct_tolerance compare_text_case_insensitive
  comparisons-Decides ComparisonType.equal r n = ground arith
  comparisons-Decides ComparisonType.equal_abs_tolerance r n = ground arith
  comparisons-Decides ComparisonType.equal_pct_tolerance r n = ground arith
  comparisons-Decides ComparisonType.expected_equal r n = one_sided-Decides r _ _ _ _
  comparisons-Decides ComparisonType.expected_zero r n = one_sided-Decides r _ _ _ _
  comparisons-Decides ComparisonType.less_than_or_equal r n =
      elim (Result-cases (require_numeric r.expected (lit "expected"))) [
        | inl (d, e) ↦ rw e (one_sided-Decides r _ _ _ _)
        | inr (m, e) ↦ rw e tt
      ]
  comparisons-Decides ComparisonType.greater_than_or_equal r n =
      elim (Result-cases (require_numeric r.expected (lit "expected"))) [
        | inl (d, e) ↦ rw e (one_sided-Decides r _ _ _ _)
        | inr (m, e) ↦ rw e tt
      ]
  comparisons-Decides ComparisonType.non_zero r n = one_sided-Decides r _ _ _ _
  comparisons-Decides ComparisonType.boolean_true r n = one_sided-Decides r _ _ _ _
  comparisons-Decides ComparisonType.text_case_insensitive_equal r n =
      elim (Bool-cases (is_source_target r.scope)) [
        | inl both ↦ rw both (ground arith)
        | inr one ↦ rw one (one_sided-Decides r _ _ _ _)
      ]
  comparisons-Decides ComparisonType.no_comparison r n = absurd (n refl)

  -- A comparison other than NO_COMPARISON decides: its verdict is PASS with no error code, or FAIL
  -- with one.
  pub compare_decides :
      (r : Request) (v : Verdict)
      → r.comparison ≢ ComparisonType.no_comparison
      → compare py r ≡ ok v
      → Decided v
  unfolding compare
  compare_decides r v n h = subst Decides h (comparisons-Decides r.comparison r n)

  -- NO_COMPARISON never passes and never fails: whatever the values are, it is PROFILED.
  pub compare_profiles :
      (r : Request)
      → r.comparison ≡ ComparisonType.no_comparison
      → (v : Verdict) × (compare py r ≡ ok v)
        × (v.status ≡ TestStatus.profiled)
        × (v.error_code ≡ none)
  unfolding compare comparisons record_only
  compare_profiles r e =
      subst
        (λ c.
          (v : Verdict) × (comparisons py c r ≡ ok v)
          × (v.status ≡ TestStatus.profiled)
          × (v.error_code ≡ none))
        (sym e) (_, refl, refl, refl)

-- Every executed value satisfies the rule.
abbrev pub AllSatisfy : (Value → Bool) → List (Text × Value) → Type 0
AllSatisfy rule = All (λ e. rule e.1 ≡ true)

first_failure-AllSatisfy :
    (rule : Value → Bool) (es : List (Text × Value))
    → first_failure (λ v. ok (rule v)) es ≡ ok none
    → AllSatisfy rule es
unfolding first_failure
first_failure-AllSatisfy rule [] h = tt
first_failure-AllSatisfy rule (e ∷ es) h =
    elim (Result-cases (first_failure (λ v. ok (rule v)) es)) [
      | inl (o, later) ↦ ground (arith, first_failure-AllSatisfy rule es)
      | inr (m, later) ↦ absurd (ground arith)
    ]

AllSatisfy-first_failure :
    (rule : Value → Bool) (es : List (Text × Value))
    → AllSatisfy rule es
    → first_failure (λ v. ok (rule v)) es ≡ ok none
unfolding first_failure
AllSatisfy-first_failure rule [] h = refl
AllSatisfy-first_failure rule (e ∷ es) h = rw (AllSatisfy-first_failure rule es h.1, h.0)

module _ (py : Python) (r : Request) (rule : Value → Bool) (code : ErrorCode) where
  module _ (p : Text → Text) (f : Text → Text → Text) (v : Verdict) where
    one_sided_on_pass :
        (es : List (Text × Value))
        → one_sided_on py r (λ x. ok (rule x)) code p f es ≡ ok v
        → (v.status ≡ TestStatus.pass) ↔ AllSatisfy rule es
    one_sided_on_pass [] h = absurd (cc)
    one_sided_on_pass (x ∷ es) h = elim (Result-cases (first_failure (λ y. ok (rule y)) (x ∷ es))) [
      | inl (none, e) ↦
          ((λ passed. first_failure-AllSatisfy rule (x ∷ es) e), (λ all. ground arith))
      | inl (some y, e) ↦ (
        (λ passed. absurd (ground arith)),
        (λ all. absurd (ground (arith, AllSatisfy-first_failure rule (x ∷ es) all))),
      )
      | inr (m, e) ↦ absurd (ground arith)
    ]

    one_sided_pass :
        one_sided py r (λ x. ok (rule x)) code p f ≡ ok v
        → (v.status ≡ TestStatus.pass) ↔ AllSatisfy rule (executed r)
    unfolding one_sided
    one_sided_pass h = one_sided_on_pass (executed r) h

-- The rule of each comparison that looks at one value at a time and cannot raise.
abbrev pub rule_of : Request → ComparisonType → Option (Value → Bool)
rule_of r ComparisonType.expected_equal = some (λ v. option_eq (some v) r.expected)
rule_of r ComparisonType.expected_zero = some is_zero
rule_of r ComparisonType.non_zero = some (λ v. not (is_zero v))
rule_of r ComparisonType.boolean_true = some is_true
rule_of r _ = none

module _ (py : Python) where
  comparisons_pass :
      (c : ComparisonType) (r : Request) (rule : Value → Bool) (v : Verdict)
      → rule_of r c ≡ some rule
      → comparisons py c r ≡ ok v
      → (v.status ≡ TestStatus.pass) ↔ AllSatisfy rule (executed r)
  unfolding comparisons compare_expected_equal compare_expected_zero compare_non_zero
      compare_boolean_true
  comparisons_pass ComparisonType.expected_equal r rule v e h =
      subst (λ q. (v.status ≡ TestStatus.pass) ↔ AllSatisfy q (executed r)) (some-injective _ _ e)
        (one_sided_pass py r (λ x. option_eq (some x) r.expected) _ _ _ v h)
  comparisons_pass ComparisonType.expected_zero r rule v e h =
      subst (λ q. (v.status ≡ TestStatus.pass) ↔ AllSatisfy q (executed r)) (some-injective _ _ e)
        (one_sided_pass py r (is_zero) _ _ _ v h)
  comparisons_pass ComparisonType.non_zero r rule v e h =
      subst (λ q. (v.status ≡ TestStatus.pass) ↔ AllSatisfy q (executed r)) (some-injective _ _ e)
        (one_sided_pass py r (λ x. not (is_zero x)) _ _ _ v h)
  comparisons_pass ComparisonType.boolean_true r rule v e h =
      subst (λ q. (v.status ≡ TestStatus.pass) ↔ AllSatisfy q (executed r)) (some-injective _ _ e)
        (one_sided_pass py r (is_true) _ _ _ v h)
  comparisons_pass _ r rule v e h = absurd (cc)

  -- EXPECTED_EQUAL, EXPECTED_ZERO, NON_ZERO and BOOLEAN_TRUE pass exactly when every value that
  -- the test executed satisfies the rule: under SOURCE_TARGET, both of them.
  pub compare_pass :
      (r : Request) (rule : Value → Bool) (v : Verdict)
      → rule_of r r.comparison ≡ some rule
      → compare py r ≡ ok v
      → (v.status ≡ TestStatus.pass) ↔ AllSatisfy rule (executed r)
  unfolding compare
  compare_pass r = comparisons_pass r.comparison r

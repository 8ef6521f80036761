-- ===== src/Evaluation/Comparisons/Total.antt =====
-- evaluation/comparisons.py: the requests that a comparison is made for, and their verdicts.
use execution_auto.Base.{
  ◌≡◌, refl, Bool, true, Option, none, some, List, [], ◌∷◌, arith, Text, lit, Result, ok, err,
  if◌then◌else◌, ◌>>=◌, inl, inr, Bool-cases, All, All-map,
}
use execution_auto.Models.Codes.{ErrorCode}
use execution_auto.Models.{
  ExecutionScope, source_target, source_only, target_only, uses_source, uses_target, ComparisonType,
  ResultType,
}
use execution_auto.Evaluation.Decimal.{Decimal, le}
use execution_auto.Evaluation.Values.{Value, Python, option_eq}
use execution_auto.Evaluation.Normalization.Typed.{HasType}
use execution_auto.Evaluation.Comparisons.{
  Request, Verdict, executed_of, require_numeric, supports, is_two_sided, requires_expected_value,
  is_numeric_comparison, is_source_target,
}
use execution_auto.Evaluation.Comparisons.Rules.{
  first_failure, one_sided, compare_equal, compare_abs_tolerance, compare_pct_tolerance,
  compare_expected_equal, compare_expected_zero, compare_less_than_or_equal,
  compare_greater_than_or_equal, compare_non_zero, compare_boolean_true,
  compare_text_case_insensitive, record_only, comparisons, compare,
}

-- A value is there and has the type.
abbrev pub Holds : ResultType → Option Value → Type 0
Holds t none = ⊥
Holds t (some v) = HasType t v

-- What the row reader and normalization together promise of a request.
pub record IsComparable (r : Request) : Type 0 where
  pub supported : supports r.comparison r.result_type ≡ true
  pub sided : is_two_sided r.comparison ≡ true → is_source_target r.scope ≡ true
  pub has_source : uses_source r.scope ≡ true → Holds r.result_type r.source
  pub has_target : uses_target r.scope ≡ true → Holds r.result_type r.target
  pub has_expected :
      requires_expected_value r.comparison r.scope ≡ true → Holds r.result_type r.expected

abbrev pub Returns {ℓ} : {A : Type ℓ} → Result Text A → Type ℓ
Returns {A = A} m = (a : A) × (m ≡ ok a)

-- A value of a numeric type is a number.
numeric_value :
    (t : ResultType) (c : ComparisonType) (o : Option Value) (label : Text)
    → is_numeric_comparison c ≡ true
    → supports c t ≡ true
    → Holds t o
    → Returns (require_numeric o label)
unfolding require_numeric supports is_numeric_comparison
numeric_value t c none label n s h = absurd h
numeric_value ResultType.integer c (some (Value.int n)) label _ s h = (_, refl)
numeric_value ResultType.number c (some (Value.dec d)) label _ s h = (_, refl)
numeric_value t c o label n s h = ground arith

first_failure-Returns :
    (holds : Value → Result Text Bool) (es : List (Text × Value))
    → All (λ e. Returns (holds e.1)) es
    → Returns (first_failure holds es)
unfolding first_failure
first_failure-Returns holds [] h = (none, refl)
first_failure-Returns holds ((side, v) ∷ es) ((b, e), h) =
    let (o, later) = first_failure-Returns holds es h in
    ((if b then o else some (side, v)), rw (e, later))

-- The executed values of a request are there and have its type.
executed_fields :
    (t : ResultType) (scope : ExecutionScope) (source target : Option Value)
    → (uses_source scope ≡ true → Holds t source)
    → (uses_target scope ≡ true → Holds t target)
    → (e : Text × Value) × (es : List (Text × Value)) × (executed_of scope source target ≡ e ∷ es)
      × All (λ p. HasType t p.1) (e ∷ es)
unfolding executed_of uses_source uses_target
executed_fields t source_target (some s) (some v) hs ht = (_, _, refl, (hs refl, (ht refl, tt)))
executed_fields t source_target none v hs ht = absurd (hs refl)
executed_fields t source_target (some s) none hs ht = absurd (ht refl)
executed_fields t source_only (some s) v hs ht = (_, _, refl, (hs refl, tt))
executed_fields t source_only none v hs ht = absurd (hs refl)
executed_fields t target_only s (some v) hs ht = (_, _, refl, (ht refl, tt))
executed_fields t target_only s none hs ht = absurd (ht refl)

module _ (py : Python) where
  -- A one-sided rule that applies to every value of the type returns a verdict.
  one_sided-Returns :
      (r : Request) (holds : Value → Result Text Bool) (code : ErrorCode) (p : Text → Text)
      (f : Text → Text → Text)
      → IsComparable r
      → ((v : Value) → HasType r.result_type v → Returns (holds v))
      → Returns (one_sided py r holds code p f)
  unfolding one_sided
  one_sided-Returns r holds code p f c total =
      let (e, es, shape, typed) =
        executed_fields r.result_type r.scope r.source r.target c.has_source c.has_target in
      let (o, found) =
        first_failure-Returns holds (e ∷ es) (All-map (λ q h. total q.1 h) (e ∷ es) typed) in
      rw (shape, found) (_, refl)

  threshold-Returns :
      (r : Request) (f : Decimal → Result Text Verdict) (label : Text)
      → is_numeric_comparison r.comparison ≡ true
      → supports r.comparison r.result_type ≡ true
      → Holds r.result_type r.expected
      → ((d : Decimal) → Returns (f d))
      → Returns (require_numeric r.expected label >>= f)
  threshold-Returns r f label n s h total =
      let (d, e) = numeric_value r.result_type r.comparison r.expected label n s h in rw e (total d)

  executed_number :
      (r : Request) (v : Value) (f : Decimal → Bool)
      → is_numeric_comparison r.comparison ≡ true
      → supports r.comparison r.result_type ≡ true
      → HasType r.result_type v
      → Returns (require_numeric (some v) (lit "executed") >>= λ d. ok (f d))
  executed_number r v f n s h =
      let (d, e) = numeric_value r.result_type r.comparison (some v) (lit "executed") n s h in
      rw e (f d, refl)

  both_numeric :
      (r : Request) (f : Decimal → Decimal → Result Text Verdict)
      → is_numeric_comparison r.comparison ≡ true
      → supports r.comparison r.result_type ≡ true
      → Holds r.result_type r.source
      → Holds r.result_type r.target
      → ((d e : Decimal) → Returns (f d e))
      → Returns (
          require_numeric r.source (lit "source") >>= λ s.
          require_numeric r.target (lit "target") >>= λ t. f s t)
  both_numeric r f n s hs ht total =
      let (d, e) = numeric_value r.result_type r.comparison r.source (lit "source") n s hs in
      let (d', e') = numeric_value r.result_type r.comparison r.target (lit "target") n s ht in
      rw (e, e') (total d d')

  uses_both :
      (scope : ExecutionScope)
      → is_source_target scope ≡ true
      → (uses_source scope ≡ true) × (uses_target scope ≡ true)
  unfolding is_source_target uses_source uses_target
  uses_both source_target h = (refl, refl)
  uses_both source_only h = absurd (cc)
  uses_both target_only h = absurd (cc)

  sides :
      (r : Request) (c : ComparisonType)
      → r.comparison ≡ c
      → is_two_sided c ≡ true
      → IsComparable r
      → Holds r.result_type r.source × Holds r.result_type r.target
  sides r c e two h =
      let (s, t) = uses_both r.scope (h.sided (rw e two)) in (h.has_source s, h.has_target t)

  expects :
      (r : Request) (c : ComparisonType)
      → r.comparison ≡ c
      → requires_expected_value c r.scope ≡ true
      → IsComparable r
      → Holds r.result_type r.expected
  expects r c e needed h = h.has_expected (rw e needed)

  comparisons-Returns :
      (c : ComparisonType) (r : Request)
      → r.comparison ≡ c
      → IsComparable r
      → Returns (comparisons py c r)
  unfolding comparisons compare_expected_equal compare_expected_zero compare_non_zero
      compare_boolean_true compare_less_than_or_equal compare_greater_than_or_equal compare_equal
      compare_abs_tolerance compare_pct_tolerance compare_text_case_insensitive record_only
      is_numeric_comparison is_two_sided requires_expected_value
  comparisons-Returns ComparisonType.equal r e h = elim (Bool-cases (option_eq r.source r.target)) [
    | inl same ↦ rw same (_, refl)
    | inr differ ↦ rw differ (_, refl)
  ]
  comparisons-Returns ComparisonType.equal_abs_tolerance r e h =
      let (s, t) = sides r ComparisonType.equal_abs_tolerance e refl h in
      both_numeric r (λ d e. ok _) (rw e) h.supported s t (λ d e. (_, refl))
  comparisons-Returns ComparisonType.equal_pct_tolerance r e h =
      let (s, t) = sides r ComparisonType.equal_pct_tolerance e refl h in
      both_numeric r (λ d e. ok _) (rw e) h.supported s t (λ d e. (_, refl))
  comparisons-Returns ComparisonType.expected_equal r e h =
      one_sided-Returns r _ _ _ _ h (λ v typed. (_, refl))
  comparisons-Returns ComparisonType.expected_zero r e h =
      one_sided-Returns r _ _ _ _ h (λ v typed. (_, refl))
  comparisons-Returns ComparisonType.less_than_or_equal r e h =
      threshold-Returns r _ _ (rw e) h.supported
        (expects r ComparisonType.less_than_or_equal e refl h)
        (λ limit.
          one_sided-Returns r _ _ _ _ h
            (λ v typed. executed_number r v (λ d. le d limit) (rw e) h.supported typed))
  comparisons-Returns ComparisonType.greater_than_or_equal r e h =
      threshold-Returns r _ _ (rw e) h.supported
        (expects r ComparisonType.greater_than_or_equal e refl h)
        (λ floor.
          one_sided-Returns r _ _ _ _ h
            (λ v typed. executed_number r v (λ d. le floor d) (rw e) h.supported typed))
  comparisons-Returns ComparisonType.non_zero r e h =
      one_sided-Returns r _ _ _ _ h (λ v typed. (_, refl))
  comparisons-Returns ComparisonType.boolean_true r e h =
      one_sided-Returns r _ _ _ _ h (λ v typed. (_, refl))
  comparisons-Returns ComparisonType.text_case_insensitive_equal r e h =
      elim (Bool-cases (is_source_target r.scope)) [
        | inl both ↦ rw both (_, refl)
        | inr one ↦ rw one (one_sided-Returns r _ _ _ _ h (λ v typed. (_, refl)))
      ]
  comparisons-Returns ComparisonType.no_comparison r e h = (_, refl)

  compare-Returns : (r : Request) → IsComparable r → Returns (compare py r)
  unfolding compare
  compare-Returns r h = comparisons-Returns r.comparison r refl h

  -- For a request whose comparison supports its type and has the sides that it needs, and whose
  -- values are there and of that type, no comparison raises a `ComparisonError`. What decimal
  -- arithmetic raises by itself beyond its range of exponents is no `ComparisonError`, and is outside
  -- the model.
  pub compare_comparable :
      (r : Request) (message : Text) → IsComparable r → ¬ (compare py r ≡ err message)
  compare_comparable r message h refused = let (v, returned) = compare-Returns r h in cc

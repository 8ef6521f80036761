-- ===== src/Workbook/TestCases/Rows.antt =====
-- workbook/testcases.py `read_test_cases`: the entries of the sheet, counted by row number.
use execution_auto.Base.{
  ℕ, ◌+◌, ◌≡◌, refl, subst, Bool, true, false, Option, none, some, List, [], ◌∷◌, arith, ◌==◌,
  if◌then◌else◌, Text, lit, lookup_text, is_empty, occurs, Result, ok, err, and_then, require,
  or_raise, inl, inr, Option-cases, Bool-cases,
}
use execution_auto.Evaluation.Decimal.{Decimal}
use execution_auto.Models.{ExecutionScope, ComparisonType, ResultType}
use execution_auto.Evaluation.Values.{Value, Python}
use execution_auto.Evaluation.Normalization.{Raised, conversion, uncaught, is_missing}
use execution_auto.Evaluation.Comparisons.{requires_expected_value}
use execution_auto.Workbook.Definitions.{Definition, Problem, Sheet}
use execution_auto.Workbook.Cells.{Row, Refusal, refused, crashed, as_enabled, text_of}
use execution_auto.Workbook.RowChecks.{
  SideColumns, source_columns, target_columns, check_section, check_sql, expected_of, read_expected,
}
use execution_auto.Workbook.TestCases.{
  tolerances_or_problem, read_enabled, read_by_enabled, read_row, add_row, read_rows,
}

abbrev pub definition_row : Definition → ℕ
definition_row d = d.row_number

abbrev pub problem_row : Problem → ℕ
problem_row p = p.row_number

abbrev pub input_row : ℕ × Row → ℕ
input_row r = r.0

-- A problem, if there is one, is on the row.
abbrev RefusedOn : {A : Type 0} → ℕ → Result Refusal A → Type 0
RefusedOn n (err (refused p)) = p.row_number ≡ n
RefusedOn n _ = Unit

-- The test or the problem is on the row.
abbrev ReadOn : ℕ → Result Refusal Definition → Type 0
ReadOn n (ok d) = d.row_number ≡ n
ReadOn n (err (refused p)) = p.row_number ≡ n
ReadOn n (err crashed) = Unit

step :
    {A : Type 0} (n : ℕ) (m : Result Refusal A) (f : A → Result Refusal Definition)
    → RefusedOn n m
    → ((a : A) → ReadOn n (f a))
    → ReadOn n (and_then m f)
unfolding and_then
step n (ok a) f h k = k a
step n (err (refused p)) f h k = h
step n (err crashed) f h k = tt

require-RefusedOn : (p : Problem) (b : Bool) → RefusedOn p.row_number (require b (refused p))
require-RefusedOn p true = tt
require-RefusedOn p false = refl

or_raise-RefusedOn :
    {A : Type 0} (p : Problem) (o : Option A) → RefusedOn p.row_number (or_raise o (refused p))
or_raise-RefusedOn p (some a) = tt
or_raise-RefusedOn p none = refl

module _ (py : Python) (row : Row) (n : ℕ) (id : Text) where
  check_section-RefusedOn :
      (scope : ExecutionScope) (known : List Text) (c : SideColumns)
      → RefusedOn n (check_section py row n id scope known c)
  unfolding check_section
  check_section-RefusedOn scope known c = ground arith

  check_sql-RefusedOn :
      (scope : ExecutionScope) (c : SideColumns) → RefusedOn n (check_sql py row n id scope c)
  unfolding check_sql
  check_sql-RefusedOn scope c = ground arith

  expected_of-RefusedOn : (r : Result Raised Value) → RefusedOn n (expected_of py row n id r)
  expected_of-RefusedOn (ok v) = tt
  expected_of-RefusedOn (err (conversion m)) = refl
  expected_of-RefusedOn (err uncaught) = tt

  read_expected-RefusedOn :
      (c : ComparisonType) (scope : ExecutionScope) (t : ResultType)
      → RefusedOn n (read_expected py row n id c scope t)
  unfolding read_expected
  read_expected-RefusedOn c scope t = elim (Bool-cases (is_missing (row (lit "Expected_Value")))) [
    | inr given ↦ rw (given, RefusedOn) (expected_of-RefusedOn _)
    | inl missing ↦ elim (Bool-cases (requires_expected_value c scope)) [
      | inl needed ↦ rw (missing, needed, RefusedOn) refl
      | inr free ↦ rw (missing, free, RefusedOn) tt
    ]
  ]

  tolerances-RefusedOn :
      (r : Result Text (Decimal × Decimal)) → RefusedOn n (tolerances_or_problem py row n id r)
  tolerances-RefusedOn (ok t) = tt
  tolerances-RefusedOn (err m) = refl

  read_enabled-ReadOn : (known : List Text) → ReadOn n (read_enabled py row n id known)
  unfolding read_enabled
  read_enabled-ReadOn known = step n _ _ (or_raise-RefusedOn _ _) (λ scope.
      step n _ _ (or_raise-RefusedOn _ _) (λ c. step n _ _ (or_raise-RefusedOn _ _) (λ t.
        step n _ _ (require-RefusedOn _ _) (λ u1. step n _ _ (require-RefusedOn _ _) (λ u2.
          step n _ _ (tolerances-RefusedOn _) (λ a.
            step n _ _ (check_section-RefusedOn scope known source_columns) (λ u3.
              step n _ _ (check_section-RefusedOn scope known target_columns) (λ u4.
                step n _ _ (check_sql-RefusedOn scope source_columns) (λ u5.
                  step n _ _ (check_sql-RefusedOn scope target_columns)
                    (λ u6. step n _ _ (read_expected-RefusedOn c scope t) (λ v. refl)))))))))))

module _ (py : Python) (known : List Text) where
  read_by_enabled-ReadOn :
      (n : ℕ) (row : Row) (id : Text) (o : Option Bool)
      → ReadOn n (read_by_enabled py known n row id o)
  read_by_enabled-ReadOn n row id (some true) = read_enabled-ReadOn py row n id known
  read_by_enabled-ReadOn n row id (some false) = refl
  read_by_enabled-ReadOn n row id none = refl

  read_row-ReadOn :
      (seen : List (Text × ℕ)) (n : ℕ) (row : Row) → ReadOn n (read_row py known seen n row).0
  unfolding read_row
  read_row-ReadOn seen n row =
      let id = text_of py (row (lit "Test_ID")) in
      elim (Bool-cases (is_empty id)) [
        | inl empty ↦ rw (empty, ReadOn) refl
        | inr named ↦ elim (Option-cases (lookup_text id seen)) [
          | inl fresh ↦
              rw (named, fresh)
                (read_by_enabled-ReadOn n row id (as_enabled py (text_of py (row (lit "Enabled")))))
          | inr (first, twice) ↦ rw (named, twice, ReadOn) refl
        ]
      ]

-- The sheet, if the reading ends, has `k` entries on the row `n`.
abbrev SheetOn : ℕ → ℕ → Option Sheet → Type 0
SheetOn n k none = Unit
SheetOn n k (some s) = occurs problem_row n s.problems + occurs definition_row n s.definitions ≡ k

add_row-SheetOn :
    (n k m : ℕ) (r : Result Refusal Definition) (s : Option Sheet)
    → ReadOn m r
    → SheetOn n k s
    → SheetOn n ((if m == n then 1 else 0) + k) (add_row r s)
add_row-SheetOn n k m (ok d) (some s) h hs = ground arith
add_row-SheetOn n k m (err (refused p)) (some s) h hs = ground arith
add_row-SheetOn n k m (err crashed) s h hs = tt
add_row-SheetOn n k m (ok d) none h hs = tt
add_row-SheetOn n k m (err (refused p)) none h hs = tt

read_rows-SheetOn :
    (py : Python) (known : List Text) (n : ℕ) (seen : List (Text × ℕ)) (rows : List (ℕ × Row))
    → SheetOn n (occurs input_row n rows) (read_rows py known seen rows)
unfolding read_rows
read_rows-SheetOn py known n seen [] = refl
read_rows-SheetOn py known n seen ((m, row) ∷ rows) =
    let (result, seen') = read_row py known seen m row in
    add_row-SheetOn n (occurs input_row n rows) m result (read_rows py known seen' rows)
      (read_row-ReadOn py known seen m row) (read_rows-SheetOn py known n seen' rows)

-- When the sheet is read, every row that is not blank is there exactly once, as a test or as a
-- problem, under its own row number, whatever was read before.
pub read_rows-covers :
    (py : Python) (known : List Text) (seen : List (Text × ℕ)) (rows : List (ℕ × Row)) (s : Sheet)
    (n : ℕ)
    → read_rows py known seen rows ≡ some s
    → occurs problem_row n s.problems + occurs definition_row n s.definitions
      ≡ occurs input_row n rows
read_rows-covers py known seen rows s n e =
    subst (SheetOn n (occurs input_row n rows)) e (read_rows-SheetOn py known n seen rows)

-- ===== src/Runner/Runs/Covers.antt =====
-- runner.py `run`: every row of the sheet has its result in the summary.
use execution_auto.Base.{
  ℕ, ◌+◌, ◌≡◌, refl, subst, false, not, Option, none, some, List, [], ◌∷◌, map, keep, Text,
  text_eq_refl, text_eq_comm, mem_text, occurs, occurs-append, occurs-map, arith, Result, ok, err,
  inl, inr, Bool-cases, Option-cases, Result-cases,
}
use execution_auto.Execution.World.{Clock}
use execution_auto.Runner.Kinds.{Fault}
use execution_auto.Security.SqlGuard.{assert_read_only}
use execution_auto.Runner.Dialect.{describe_incompatibility}
use execution_auto.Runner.Records.{TestCase, ExecutionResult, result_row, case_row}
use execution_auto.Runner.Sides.{
  QuerySide, Factory, Tools, sides_of, sql_of, connection_of, declared_type, settled,
}
use execution_auto.Runner.Cases.{engine_of, execute_case}
use execution_auto.Runner.Cases.Verdicts.{execute_case-case_row}
use execution_auto.Runner.Cases.Compile.{
  Notes, validation_failure, is_unavailable, note_unavailable, compile_side, mismatch,
  check_dialects, validate_sides, validate_cases,
}
use execution_auto.Runner.Selection.{RunOptions}
use execution_auto.Runner.Selection.Partition.{ids_of, Distinct}
use execution_auto.Runner.Runs.{
  Results, halted, skipped_case, skipped_result, with_results, is_stop, execute_all,
}

abbrev Names : TestCase → Option ExecutionResult → Type 0
Names c none = Unit
Names c (some r) = (r.row_number ≡ c.row_number) × (r.test_case_id ≡ c.test_case_id)

abbrev pub ids_in : Results → List Text
ids_in rs = map (λ r. r.test_case_id) rs

module _ {W E : Type 0} (t : Tools) (x : Factory W E) (run_id : Text) (at : ℕ) where
  mismatch-Names :
      (c : TestCase) (sides : List QuerySide) → Names c (mismatch t x run_id at c sides)
  unfolding mismatch validation_failure settled
  mismatch-Names c [] = tt
  mismatch-Names c (side ∷ sides) =
      elim (Option-cases (engine_of x (connection_of side c) side (declared_type side c))) [
        | inl unknown ↦ rw (unknown, Names) (mismatch-Names c sides)
        | inr (engine, known) ↦
            elim (Option-cases (describe_incompatibility t.search (sql_of side c) engine)) [
              | inl fits ↦ rw (known, fits, Names) (mismatch-Names c sides)
              | inr (message, found) ↦ rw (known, found, Names) (refl, refl)
            ]
      ]

  validate_sides-Names :
      (c : TestCase) (sides : List QuerySide) (n : Notes) (w : W)
      → Names c (validate_sides t x run_id at c sides n w).0
  unfolding validate_sides validation_failure settled
  validate_sides-Names c [] n w = tt
  validate_sides-Names c (side ∷ sides) n w =
      let (answer, w1) = compile_side t x run_id at c side w in
      elim (Result-cases (assert_read_only (some (sql_of side c)))) [
        | inr (e, refused) ↦ rw (refused, Names) (refl, refl)
        | inl (sql, fine) ↦ elim (Option-cases answer) [
          | inl compiled ↦ rw (fine, compiled, Names) (validate_sides-Names c sides n w1)
          | inr (e, failed) ↦ elim (Bool-cases (is_unavailable e.class)) [
            | inl unavailable ↦
                rw (fine, failed, unavailable, Names)
                  (validate_sides-Names c sides (note_unavailable t (connection_of side c) e n) w1)
            | inr rejected ↦ rw (fine, failed, rejected, Names) (refl, refl)
          ]
        ]
      ]

  pub validate_cases-covers :
      (k : ℕ) (cs : List TestCase) (n : Notes) (w : W)
      → let v = validate_cases t x run_id at cs n w in
        occurs case_row k v.0 + occurs result_row k v.1 ≡ occurs case_row k cs
  unfolding validate_cases
  validate_cases-covers k [] n w = omega arith
  validate_cases-covers k (c ∷ cs) n w =
      let (failure, n1, w1) = validate_sides t x run_id at c (sides_of c.execution_scope) n w in
      ground (
        arith,
        validate_sides-Names c (sides_of c.execution_scope) n w,
        validate_cases-covers k cs n1 w1,
      )

module _ {W E : Type 0} (t : Tools) (x : Factory W E) (run_id : Text) (at : ℕ) where
  -- An id that no case has is no id of a mismatch.
  check_dialects-fresh :
      (i : Text) (cs : List TestCase)
      → mem_text i (ids_of cs) ≡ false
      → mem_text i (ids_in (check_dialects t x run_id at cs)) ≡ false
  unfolding check_dialects mem_text
  check_dialects-fresh i [] h = refl
  check_dialects-fresh i (c ∷ cs) h = ground (
    arith,
    mismatch-Names t x run_id at c (sides_of c.execution_scope),
    check_dialects-fresh i cs,
  )

-- The cases that are not among the ids
abbrev pub paired : List Text → List TestCase → List TestCase
paired ids cs = keep (λ c. not (mem_text c.test_case_id ids)) cs

paired-fresh :
    (i : Text) (ids : List Text) (cs : List TestCase)
    → mem_text i (ids_of cs) ≡ false
    → paired (i ∷ ids) cs ≡ paired ids cs
unfolding keep mem_text
paired-fresh i ids [] h = refl
paired-fresh i ids (c ∷ cs) h = ground (arith, paired-fresh i ids cs, text_eq_comm c.test_case_id i)

module _ {W E : Type 0} (t : Tools) (x : Factory W E) (run_id : Text) (at k : ℕ) where
  -- `k` counts the results of the mismatches and the cases that are left.
  abbrev pub parted : Results → List TestCase → ℕ
  parted ms cs = occurs result_row k ms + occurs case_row k (paired (ids_in ms) cs)

  parted-none :
      (c : TestCase) (ms : Results) (cs : List TestCase)
      → mem_text c.test_case_id (ids_in ms) ≡ false
      → parted ms (c ∷ cs) ≡ occurs case_row k (c ∷ []) + parted ms cs
  unfolding keep mem_text
  parted-none c ms cs h = ground arith

  parted-some :
      (c : TestCase) (r : ExecutionResult) (ms : Results) (cs : List TestCase)
      → Names c (some r)
      → mem_text c.test_case_id (ids_of cs) ≡ false
      → parted (r ∷ ms) (c ∷ cs) ≡ occurs case_row k (c ∷ []) + parted ms cs
  unfolding keep mem_text
  parted-some c r ms cs named h = ground (
    arith,
    text_eq_refl c.test_case_id,
    paired-fresh r.test_case_id (ids_in ms) cs,
    named.0,
    named.1,
  )

  check_dialects-nil : parted (check_dialects t x run_id at []) [] ≡ 0
  unfolding check_dialects
  check_dialects-nil = refl

  check_dialects-none :
      (c : TestCase) (cs : List TestCase)
      → mismatch t x run_id at c (sides_of c.execution_scope) ≡ none
      → check_dialects t x run_id at cs ≡ check_dialects t x run_id at (c ∷ cs)
  unfolding check_dialects
  check_dialects-none c cs fits = rw (fits, check_dialects) refl

  check_dialects-some :
      (c : TestCase) (cs : List TestCase) (r : ExecutionResult)
      → mismatch t x run_id at c (sides_of c.execution_scope) ≡ some r
      → r ∷ check_dialects t x run_id at cs ≡ check_dialects t x run_id at (c ∷ cs)
  unfolding check_dialects
  check_dialects-some c cs r found = rw (found, check_dialects) refl

  -- Each case is a mismatch or is left, and none is both.
  pub check_dialects-covers :
      (cs : List TestCase)
      → Distinct cs
      → parted (check_dialects t x run_id at cs) cs ≡ occurs case_row k cs
  check_dialects-covers [] d = check_dialects-nil
  check_dialects-covers (c ∷ cs) d =
      let ms = check_dialects t x run_id at cs in
      let rest = check_dialects-covers cs (d.1) in
      elim (Option-cases (mismatch t x run_id at c (sides_of c.execution_scope))) [
        | inl fits ↦
            subst (λ found. parted found (c ∷ cs) ≡ occurs case_row k (c ∷ cs))
              (check_dialects-none c cs fits)
              (omega (
                arith,
                rest,
                parted-none c ms cs (check_dialects-fresh t x run_id at c.test_case_id cs (d.0)),
              ))
        | inr (r, found) ↦
            subst (λ found. parted found (c ∷ cs) ≡ occurs case_row k (c ∷ cs))
              (check_dialects-some c cs r found)
              (omega (
                arith,
                rest,
                parted-some c r ms cs
                    (subst (Names c) found
                      (mismatch-Names t x run_id at c (sides_of c.execution_scope)))
                    (d.0),
              ))
      ]

-- A list of results, if there is one, has `k` of them on the row `n`.
abbrev pub CountOn : ℕ → ℕ → Result Fault Results → Type 0
CountOn n k (ok rs) = occurs result_row n rs ≡ k
CountOn n k (err e) = Unit

module _ (n : ℕ) where
  pub settled-covers :
      (f : TestCase → ExecutionResult) (cs : List TestCase)
      → ((c : TestCase) → result_row (f c) ≡ case_row c)
      → occurs result_row n (map f cs) ≡ occurs case_row n cs
  settled-covers f cs same = occurs-map result_row case_row n f cs same

  pub with_results-covers :
      (k m sum : ℕ) (rs : Results) (later : Result Fault Results)
      → k + m ≡ sum
      → occurs result_row n rs ≡ k
      → CountOn n m later
      → CountOn n sum (with_results rs later)
  with_results-covers k m sum rs (ok later) total h h' =
      omega (arith, h, h', total, occurs-append result_row n rs later)
  with_results-covers k m sum rs (err e) total h h' = tt

module _ {W E : Type 0} (t : Tools) (clock : Clock W) (x : Factory W E) (options : RunOptions)
    (n : ℕ) where
  halted-covers :
      (cs : List TestCase) (w : W)
      → occurs result_row n (halted t clock x options cs w).0 ≡ occurs case_row n cs
  unfolding halted skipped_case skipped_result settled
  halted-covers [] w = refl
  halted-covers (c ∷ cs) w = settled-covers n _ (c ∷ cs) (λ d. refl)

  pub execute_all-covers :
      (cs : List TestCase) (w : W)
      → CountOn n (occurs case_row n cs) (execute_all t clock x options cs w).0
  unfolding execute_all
  execute_all-covers [] w = refl
  execute_all-covers (c ∷ cs) w =
      let (executed, w1) = execute_case t clock x options.run_id c w in
      elim (Result-cases executed) [
        | inr (e, raised) ↦ rw (raised, CountOn) tt
        | inl (r, returned) ↦
            let here : occurs result_row n (r ∷ []) ≡ occurs case_row n (c ∷ []) =
              ground (arith, (execute_case-case_row t clock x options.run_id c w r returned).0) in
            elim (Bool-cases (is_stop t clock x options r)) [
              | inl stopped ↦
                  rw (returned, stopped, CountOn) (ground (arith, here, halted-covers cs w1))
              | inr goes_on ↦
                  rw (returned, goes_on, CountOn)
                    (with_results-covers n (occurs case_row n (c ∷ [])) (occurs case_row n cs)
                      (occurs case_row n (c ∷ cs)) (r ∷ []) (execute_all t clock x options cs w1).0
                      (omega arith) here (execute_all-covers cs w1))
            ]
      ]

-- ===== src/Runner/Selection/Partition.antt =====
-- runner.py `_select`: no case is lost or doubled, and ids stay distinct.
use execution_auto.Base.{
  ℕ, zero, suc, ◌+◌, ◌≡◌, refl, subst, Bool, false, not, Option, none, some, List, [], ◌∷◌, ◌++◌,
  map, keep, take, drop, Text, lit, mem_text, occurs, occurs-append, occurs-keep, occurs-map,
  occurs-take-drop, arith, ok, and_then_ok, ok_injective, ℤ, pos, negsuc, inl, inr, Bool-cases,
}
use execution_auto.Runner.Records.{TestCase, case_row}
use execution_auto.Runner.Selection.{
  RunOptions, Selected, split_by, is_wanted, named_or_raise, by_ids, row_range, by_rows, by_limit,
  select,
}

abbrev pub other_row : TestCase × Text → ℕ
other_row o = case_row (o.0)

-- How many cases on the row `n` are selected, or not selected
abbrev pub total : ℕ → Selected → ℕ
total n s = occurs case_row n s.chosen + occurs other_row n s.others

module _ (n : ℕ) where
  others-covers :
      (reason : Text) (old : List (TestCase × Text)) (cs : List TestCase)
      → occurs other_row n (old ++ map (λ c. (c, reason)) cs)
        ≡ occurs other_row n old + occurs case_row n cs
  others-covers reason old cs = omega (
    arith,
    occurs-append other_row n old (map (λ c. (c, reason)) cs),
    occurs-map other_row case_row n (λ c. (c, reason)) cs (λ c. refl),
  )

  split_by-covers :
      (wanted : TestCase → Bool) (reason : Text) (s : Selected)
      → total n (split_by wanted reason s) ≡ total n s
  unfolding split_by
  split_by-covers wanted reason s = omega (
    arith,
    others-covers reason s.others (keep (λ c. not (wanted c)) s.chosen),
    occurs-keep case_row n wanted s.chosen,
  )

  named_or_raise-covers :
      (casefold : Text → Text) (ids unknown : List Text) (s r : Selected)
      → named_or_raise casefold ids unknown s ≡ ok r
      → total n r ≡ total n s
  unfolding named_or_raise
  named_or_raise-covers casefold ids [] s r h =
      subst (λ k. total n k ≡ total n s) (ok_injective _ _ _ refl h)
        (split_by-covers (is_wanted casefold ids) (lit "Not selected by --case") s)
  named_or_raise-covers casefold ids (u ∷ us) s r h = absurd (cc)

  by_ids-covers :
      (casefold : Text → Text) (ids : List Text) (s r : Selected)
      → by_ids casefold ids s ≡ ok r
      → total n r ≡ total n s
  unfolding by_ids
  by_ids-covers casefold [] s r h =
      subst (λ k. total n k ≡ total n s) (ok_injective _ _ _ refl h) refl
  by_ids-covers casefold (i ∷ ids) s r h = named_or_raise-covers casefold (i ∷ ids) _ s r h

  row_range-covers :
      (start end : Option ℤ) (s r : Selected) → row_range start end s ≡ ok r → total n r ≡ total n s
  unfolding row_range
  row_range-covers start end s r h =
      let (positive, e1, h1) = and_then_ok _ _ _ h in
      let (ordered, e2, h2) = and_then_ok _ _ _ h1 in
      subst (λ k. total n k ≡ total n s) (ok_injective _ _ _ refl h2) (split_by-covers _ _ s)

  by_rows-covers :
      (start end : Option ℤ) (s r : Selected) → by_rows start end s ≡ ok r → total n r ≡ total n s
  unfolding by_rows
  by_rows-covers none none s r h =
      subst (λ k. total n k ≡ total n s) (ok_injective _ _ _ refl h) refl
  by_rows-covers (some k) end s r h = row_range-covers (some k) end s r h
  by_rows-covers none (some k) s r h = row_range-covers none (some k) s r h

  by_limit-covers :
      (limit : Option ℤ) (s r : Selected) → by_limit limit s ≡ ok r → total n r ≡ total n s
  unfolding by_limit
  by_limit-covers none s r h = subst (λ k. total n k ≡ total n s) (ok_injective _ _ _ refl h) refl
  by_limit-covers (some (negsuc k)) s r h = absurd (cc)
  by_limit-covers (some (pos k)) s r h =
      subst (λ q. total n q ≡ total n s) (ok_injective _ _ _ refl h)
        (omega (
          arith,
          others-covers (lit "Beyond --limit") s.others (drop k s.chosen),
          occurs-take-drop case_row n k s.chosen,
        ))

  -- Where the options are accepted, each row of the sheet has as many cases among the selected and the others
  -- together as among the cases given: none is lost, none is doubled.
  pub select-covers :
      (casefold : Text → Text) (cases : List TestCase) (options : RunOptions) (s : Selected)
      → select casefold cases options ≡ ok s
      → occurs case_row n s.chosen + occurs other_row n s.others ≡ occurs case_row n cases
  unfolding select
  select-covers casefold cases options s h =
      let (named, e1, h1) = and_then_ok _ _ _ h in
      let (placed, e2, h2) = and_then_ok _ _ _ h1 in
      omega (
        arith,
        by_limit-covers options.limit placed s h2,
        by_rows-covers options.start_row options.end_row named placed e2,
        by_ids-covers casefold options.case_ids (record { chosen = cases; others = [] }) named e1,
      )

abbrev pub ids_of : List TestCase → List Text
ids_of cs = map (λ c. c.test_case_id) cs

-- No two cases have the same id, as `read_workbook` makes sure.
abbrev pub Distinct : List TestCase → Type 0
Distinct [] = Unit
Distinct (c ∷ cs) = (mem_text c.test_case_id (ids_of cs) ≡ false) × Distinct cs

module _ (p : TestCase → Bool) where
  keep-fresh :
      (i : Text) (cs : List TestCase)
      → mem_text i (ids_of cs) ≡ false
      → mem_text i (ids_of (keep p cs)) ≡ false
  unfolding keep mem_text
  keep-fresh i [] h = refl
  keep-fresh i (c ∷ cs) h = ground (arith, keep-fresh i cs)

  keep-Distinct : (cs : List TestCase) → Distinct cs → Distinct (keep p cs)
  unfolding keep
  keep-Distinct [] h = tt
  keep-Distinct (c ∷ cs) h = elim (Bool-cases (p c)) [
    | inl kept ↦ rw (kept, Distinct) (keep-fresh c.test_case_id cs (h.0), keep-Distinct cs (h.1))
    | inr left_out ↦ rw (left_out, Distinct) (keep-Distinct cs (h.1))
  ]

take-fresh :
    (k : ℕ) (i : Text) (cs : List TestCase)
    → mem_text i (ids_of cs) ≡ false
    → mem_text i (ids_of (take k cs)) ≡ false
unfolding take mem_text
take-fresh zero i cs h = refl
take-fresh (suc k) i [] h = refl
take-fresh (suc k) i (c ∷ cs) h = ground (arith, take-fresh k i cs)

take-Distinct : (k : ℕ) (cs : List TestCase) → Distinct cs → Distinct (take k cs)
unfolding take
take-Distinct zero cs h = tt
take-Distinct (suc k) [] h = tt
take-Distinct (suc k) (c ∷ cs) h = (take-fresh k c.test_case_id cs (h.0), take-Distinct k cs (h.1))

row_range-Distinct :
    (start end : Option ℤ) (s r : Selected)
    → row_range start end s ≡ ok r
    → Distinct s.chosen
    → Distinct r.chosen
unfolding row_range split_by
row_range-Distinct start end s r h d =
    let (positive, e1, h1) = and_then_ok _ _ _ h in
    let (ordered, e2, h2) = and_then_ok _ _ _ h1 in
    subst (λ k. Distinct k.chosen) (ok_injective _ _ _ refl h2) (keep-Distinct _ s.chosen d)

by_rows-Distinct :
    (start end : Option ℤ) (s r : Selected)
    → by_rows start end s ≡ ok r
    → Distinct s.chosen
    → Distinct r.chosen
unfolding by_rows
by_rows-Distinct none none s r h d = subst (λ k. Distinct k.chosen) (ok_injective _ _ _ refl h) d
by_rows-Distinct (some k) end s r h d = row_range-Distinct (some k) end s r h d
by_rows-Distinct none (some k) s r h d = row_range-Distinct none (some k) s r h d

by_limit-Distinct :
    (limit : Option ℤ) (s r : Selected)
    → by_limit limit s ≡ ok r
    → Distinct s.chosen
    → Distinct r.chosen
unfolding by_limit
by_limit-Distinct none s r h d = subst (λ k. Distinct k.chosen) (ok_injective _ _ _ refl h) d
by_limit-Distinct (some (negsuc k)) s r h d = absurd (cc)
by_limit-Distinct (some (pos k)) s r h d =
    subst (λ q. Distinct q.chosen) (ok_injective _ _ _ refl h) (take-Distinct k s.chosen d)

module _ (casefold : Text → Text) where
  named_or_raise-Distinct :
      (ids unknown : List Text) (s r : Selected)
      → named_or_raise casefold ids unknown s ≡ ok r
      → Distinct s.chosen
      → Distinct r.chosen
  unfolding named_or_raise split_by
  named_or_raise-Distinct ids [] s r h d =
      subst (λ k. Distinct k.chosen) (ok_injective _ _ _ refl h)
        (keep-Distinct (is_wanted casefold ids) s.chosen d)
  named_or_raise-Distinct ids (u ∷ us) s r h d = absurd (cc)

  by_ids-Distinct :
      (ids : List Text) (s r : Selected)
      → by_ids casefold ids s ≡ ok r
      → Distinct s.chosen
      → Distinct r.chosen
  unfolding by_ids
  by_ids-Distinct [] s r h d = subst (λ k. Distinct k.chosen) (ok_injective _ _ _ refl h) d
  by_ids-Distinct (i ∷ ids) s r h d = named_or_raise-Distinct (i ∷ ids) _ s r h d

  pub select-Distinct :
      (cases : List TestCase) (options : RunOptions) (s : Selected)
      → select casefold cases options ≡ ok s
      → Distinct cases
      → Distinct s.chosen
  unfolding select
  select-Distinct cases options s h d =
      let (named, e1, h1) = and_then_ok _ _ _ h in
      let (placed, e2, h2) = and_then_ok _ _ _ h1 in
      by_limit-Distinct options.limit placed s h2 (
        by_rows-Distinct options.start_row options.end_row named placed e2
          (by_ids-Distinct options.case_ids (record { chosen = cases; others = [] }) named e1 d))

-- ===== src/Runner/Selection.antt =====
-- runner.py `RunOptions` and `_select`: the cases that the options leave in, and the others with a reason.
pub mod Partition
use execution_auto.Base.{
  ℕ, suc, ◌^◌, Bool, true, false, not, ◌&&◌, Option, none, some, List, [], ◌∷◌, ◌++◌, map,
  if◌then◌else◌, keep, take, drop, Text, lit, mem_text, join, str_nat, sort_texts, Result, ok, err,
  and_then, require, ℤ, pos, negsuc, leb_ℤ,
}
use execution_auto.Models.{RunMode}
use execution_auto.Runner.Records.{TestCase}

-- models.py `OnSyntaxError`
pub data OnSyntaxError : Type 0 where
  continue stop : OnSyntaxError

-- `RunOptions`, without the options of the output file
pub record RunOptions : Type 0 where
  pub case_ids : List Text
  pub limit : Option ℤ
  pub fail_fast : Bool
  pub mode : RunMode
  pub on_syntax_error : OnSyntaxError
  pub start_row : Option ℤ
  pub end_row : Option ℤ
  pub run_id : Text

unfoldable pub str_int : ℤ → Text
unfolding str_nat
str_int (pos n) = str_nat n
str_int (negsuc n) = lit "-" ++ str_nat (suc n)

-- The cases that are selected, and those that are not, each with the reason
pub record Selected : Type 0 where
  pub chosen : List TestCase
  pub others : List (TestCase × Text)

-- The cases of a test, and the others under one reason
unfoldable pub split_by : (TestCase → Bool) → Text → Selected → Selected
unfolding keep
split_by wanted reason s = record {
  chosen = keep wanted s.chosen;
  others = s.others ++ map (λ c. (c, reason)) (keep (λ c. not (wanted c)) s.chosen);
}

module _ (casefold : Text → Text) where
  -- The ids that no selected case has, sorted
  unfoldable pub unknown_ids : List Text → List TestCase → List Text
  unfolding keep mem_text sort_texts
  unknown_ids ids cases =
      sort_texts
        (keep (λ i. not (mem_text (casefold i) (map (λ c. casefold c.test_case_id) cases))) ids)

  abbrev pub is_wanted : List Text → TestCase → Bool
  is_wanted ids c = mem_text (casefold c.test_case_id) (map casefold ids)

  -- The split by the ids, or the error that lists the unknown ones
  unfoldable pub named_or_raise : List Text → List Text → Selected → Result Text Selected
  unfolding split_by mem_text join lit
  named_or_raise ids [] s = ok (split_by (is_wanted ids) (lit "Not selected by --case") s)
  named_or_raise ids (u ∷ us) s = err (
      lit "No enabled test case matches --case "
      ++ (join (lit ", ") (u ∷ us) ++ lit ". Check the id and that the row is enabled."))

  -- `if options.case_ids`
  unfoldable pub by_ids : List Text → Selected → Result Text Selected
  unfolding keep mem_text unknown_ids named_or_raise
  by_ids [] s = ok s
  by_ids (i ∷ ids) s =
      named_or_raise (i ∷ ids) (unknown_ids (i ∷ ids) (keep (is_wanted (i ∷ ids)) s.chosen)) s

-- `_NO_END_ROW`
abbrev pub no_end_row : ℕ
no_end_row = 2 ^ 63

abbrev pub or_default : Option ℤ → ℤ → ℤ
or_default none d = d
or_default (some n) d = n

unfoldable pub shown_end : Option ℤ → Text
unfolding str_int lit
shown_end none = lit "end"
shown_end (some n) = str_int n

abbrev pub is_between : ℤ → ℤ → TestCase → Bool
is_between first last c = leb_ℤ first (pos c.row_number) && leb_ℤ (pos c.row_number) last

-- `end < start`, where an end is given
abbrev pub is_after : Option ℤ → ℤ → Bool
is_after none first = false
is_after (some last) first = not (leb_ℤ first last)

unfoldable pub row_range : Option ℤ → Option ℤ → Selected → Result Text Selected
unfolding split_by str_int shown_end lit
row_range start end s =
    let first = or_default start (pos 1) in
    and_then
      (require (leb_ℤ (pos 1) first)
        (lit "--start-row must be 1 or greater (got " ++ (str_int first ++ lit ")")))
      (λ positive.
        and_then
          (require (not (is_after end first)) (
            lit "--end-row ("
            ++ (shown_end end
                ++ (lit ") must be greater than or equal to --start-row ("
                    ++ (str_int first ++ lit ")")))))
          (λ ordered. ok (
            split_by (is_between first (or_default end (pos no_end_row)))
              (lit "Outside --start-row "
                ++ (str_int first ++ (lit "/--end-row " ++ shown_end end)))
              s)))

-- `if options.start_row is not None or options.end_row is not None`
unfoldable pub by_rows : Option ℤ → Option ℤ → Selected → Result Text Selected
unfolding row_range
by_rows none none s = ok s
by_rows (some n) end s = row_range (some n) end s
by_rows none (some n) s = row_range none (some n) s

-- `if options.limit is not None`
unfoldable pub by_limit : Option ℤ → Selected → Result Text Selected
unfolding take drop str_int lit
by_limit none s = ok s
by_limit (some (negsuc n)) s =
    err (lit "--limit must be 0 or greater (got " ++ (str_int (negsuc n) ++ lit ")"))
by_limit (some (pos n)) s = ok (record {
  chosen = take n s.chosen;
  others = s.others ++ map (λ c. (c, lit "Beyond --limit")) (drop n s.chosen);
})

-- `_select`
unfoldable pub select : (Text → Text) → List TestCase → RunOptions → Result Text Selected
unfolding by_ids by_rows by_limit
select casefold cases options =
    and_then (by_ids casefold options.case_ids (record { chosen = cases; others = [] })) (λ named.
      and_then (by_rows options.start_row options.end_row named)
        (λ placed. by_limit options.limit placed))

-- ===== src/Workbook/Observations.antt =====
-- workbook/observations.py: the wording of an outcome, chosen by its status, platform and code.
pub mod Selection
use execution_auto.Base.{
  ℕ, Bool, true, false, not, ◌&&◌, ◌||◌, Option, none, some, List, [], ◌∷◌, ◌++◌, if◌then◌else◌,
  leb, ◌==◌, Text, lit, text_eq, mem_text, is_empty, lookup_text, Result, ok, err,
}
use execution_auto.Models.{TestStatus, Platform}

abbrev status_index : TestStatus → ℕ
status_index TestStatus.pass = 0
status_index TestStatus.fail = 1
status_index TestStatus.profiled = 2
status_index TestStatus.validated = 3
status_index TestStatus.error = 4
status_index TestStatus.syntax_error = 5
status_index TestStatus.blocked = 6
status_index TestStatus.config_error = 7
status_index TestStatus.not_executed = 8
status_index TestStatus.disabled = 9

-- `a is b`, on statuses
unfoldable pub status_eq : TestStatus → TestStatus → Bool
status_eq s t = status_index s == status_index t

abbrev platform_index : Platform → ℕ
platform_index Platform.source = 0
platform_index Platform.target = 1
platform_index Platform.comparison = 2
platform_index Platform.workbook = 3
platform_index Platform.profile = 4
platform_index Platform.executor = 5
platform_index Platform.nowhere = 6

unfoldable pub platform_eq : Option Platform → Option Platform → Bool
platform_eq none none = true
platform_eq (some p) (some q) = platform_index p == platform_index q
platform_eq _ _ = false

unfoldable pub code_eq : Option Text → Option Text → Bool
unfolding text_eq
code_eq none none = true
code_eq (some s) (some t) = text_eq s t
code_eq _ _ = false

-- `ObservationRule`; `none` in a key field means ANY.
pub record Rule : Type 0 where
  pub row_number : ℕ
  pub status : TestStatus
  pub platform : Option Platform
  pub error_code : Option Text
  pub template : Text
  pub enabled : Bool

pub record Key : Type 0 where
  pub status : TestStatus
  pub platform : Option Platform
  pub error_code : Option Text

-- `ObservationRule.key`
abbrev pub key : Rule → Key
key r = record { status = r.status; platform = r.platform; error_code = r.error_code }

unfoldable pub key_eq : Key → Key → Bool
unfolding status_eq platform_eq code_eq
key_eq a b =
    status_eq a.status b.status
    && (platform_eq a.platform b.platform && code_eq a.error_code b.error_code)

-- `self._index().get(k)`: of enabled rules with one key, the index keeps the last.
unfoldable pub index_get : Key → List Rule → Option Rule
unfolding key_eq
index_get k [] = none
index_get k (r ∷ rs) = elim (index_get k rs) [
  | some later ↦ some later
  | none ↦ if r.enabled && key_eq (key r) k then some r else none
]

unfoldable pub or_else {ℓ} : {A : Type ℓ} → Option A → Option A → Option A
or_else (some a) b = some a
or_else none b = b

-- `error_code or None`
abbrev pub some_code : Text → Option Text
some_code [] = none
some_code (c ∷ s) = some (c ∷ s)

abbrev pub at_key : TestStatus → Option Platform → Option Text → Key
at_key s p c = record { status = s; platform = p; error_code = c }

-- `ObservationRules.select`
unfoldable pub select : List Rule → TestStatus → Platform → Text → Option Rule
unfolding index_get or_else
select rules s p c = or_else (index_get (at_key s (some p) (some_code c)) rules) (
    or_else (index_get (at_key s (some p) none) rules) (
      or_else (index_get (at_key s none (some_code c)) rules)
        (index_get (at_key s none none) rules)))

-- `BUILT_IN_OBSERVATIONS`, with what stands in for a status that it lacks
unfoldable pub built_in : TestStatus → Text
unfolding lit
built_in TestStatus.pass = lit "{test_id} passed. {error_detail}"
built_in TestStatus.fail = lit "{test_id} failed ({error_code}). {error_detail}"
built_in TestStatus.profiled = lit "{test_id} profiled: actual {actual_value}. {error_detail}"
built_in TestStatus.error = lit "{test_id} errored on {platform} ({error_code}). {error_detail}"
built_in TestStatus.syntax_error =
    lit "{test_id} was not executed: {platform} refused to compile its SQL. {error_detail}"
built_in TestStatus.blocked = lit "{test_id} was blocked ({error_code}). {error_detail}"
built_in TestStatus.config_error = lit "{test_id} is misconfigured ({error_code}). {error_detail}"
built_in TestStatus.not_executed = lit "{test_id} was not executed. {error_detail}"
built_in TestStatus.disabled = lit "{test_id} is disabled in the workbook and was not executed."
built_in TestStatus.validated = lit "{test_id}: {status} ({error_code})."

abbrev template_or : Option Rule → Text → Text
template_or (some r) fallback = r.template
template_or none fallback = fallback

-- `ObservationRules.template_for`
unfoldable pub template_for : List Rule → TestStatus → Platform → Text → Text
unfolding select built_in
template_for rules s p c = template_or (select rules s p c) (built_in s)

-- `_reject_duplicates`: the keys of the enabled rules, each but once; otherwise the two rows.
unfoldable pub find_key : Key → List (Key × ℕ) → Option ℕ
unfolding key_eq
find_key k [] = none
find_key k ((j, row) ∷ seen) = if key_eq j k then some row else find_key k seen

unfoldable pub reject_duplicates_from : List (Key × ℕ) → List Rule → Result (ℕ × ℕ) (Unit {0})
unfolding find_key
reject_duplicates_from seen [] = ok tt
reject_duplicates_from seen (r ∷ rs) =
    let skipped = reject_duplicates_from seen rs in
    let added = reject_duplicates_from ((key r, r.row_number) ∷ seen) rs in
    if not r.enabled
    then skipped
    else elim (find_key (key r) seen) [ some first ↦ err (first, r.row_number) | none ↦ added ]

unfoldable pub reject_duplicates : List Rule → Result (ℕ × ℕ) (Unit {0})
unfolding reject_duplicates_from
reject_duplicates rules = reject_duplicates_from [] rules

-- `PLACEHOLDERS`
unfoldable pub placeholders : List Text
unfolding lit
placeholders =
    lit "test_id"
    ∷ lit "test_name"
    ∷ lit "domain"
    ∷ lit "status"
    ∷ lit "platform"
    ∷ lit "error_code"
    ∷ lit "error_detail"
    ∷ lit "source_result"
    ∷ lit "target_result"
    ∷ lit "actual_value"
    ∷ lit "expected_value"
    ∷ lit "variance"
    ∷ lit "variance_percentage"
    ∷ lit "absolute_tolerance"
    ∷ lit "percentage_tolerance"
    ∷ lit "timeout_seconds"
    ∷ lit "execution_scope"
    ∷ lit "database"
    ∷ []

-- The characters of `_PLACEHOLDER_RE`: a letter or `_` first, then digits too.
abbrev name_start : ℕ → Bool
name_start c = (leb b'A' c && leb c b'Z') || ((leb b'a' c && leb c b'z') || c == b'_')

abbrev extends_name : Text → ℕ → Bool
extends_name [] c = name_start c
extends_name (d ∷ w) c = name_start c || (leb b'0' c && leb c b'9')

abbrev value_or_empty : Option Text → Text
value_or_empty none = []
value_or_empty (some t) = t

-- `replace(match)`, on the name between the braces
unfoldable pub fill : List (Text × Text) → Text → Text
unfolding mem_text lookup_text
fill values name =
    if mem_text name placeholders
    then value_or_empty (lookup_text name values)
    else b'{' ∷ (name ++ b'}' ∷ [])

-- `_PLACEHOLDER_RE.sub(replace, template)`: `some w` behind an opening brace, of whose name `w` has
-- been read. A name holds no brace, so a match is found where its last opening brace stands.
unfoldable pub render_from : List (Text × Text) → Option Text → Text → Text
unfolding fill is_empty
render_from values none [] = []
render_from values (some w) [] = b'{' ∷ w
render_from values none (c ∷ s) =
    let opened = render_from values (some []) s in
    let plain = c ∷ render_from values none s in if c == b'{' then opened else plain
render_from values (some w) (c ∷ s) =
    let longer = render_from values (some (w ++ c ∷ [])) s in
    let filled = fill values w ++ render_from values none s in
    let reopened = (b'{' ∷ w) ++ render_from values (some []) s in
    let plain = (b'{' ∷ (w ++ c ∷ [])) ++ render_from values none s in
    if extends_name w c
    then longer
    else if c == b'}' && not (is_empty w)
    then filled
    else if c == b'{'
    then reopened
    else plain

-- The substitution of `render_template`; the caller sanitizes what it fills.
unfoldable pub fill_template : Text → List (Text × Text) → Text
unfolding render_from
fill_template template values = render_from values none template

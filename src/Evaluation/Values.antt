-- ===== src/Evaluation/Values.antt =====
-- models.py `ScalarValue` and normalization.py `NormalizedValue`, with Python's `==` on the latter,
-- and the parts of the language's run-time library that the model takes as they come.
use execution_auto.Base.{
  Bool, true, false, Option, none, some, Text, text_eq, if◌then◌else◌, ℤ, pos, eq_ℤ,
}
use execution_auto.Evaluation.Decimal.{Decimal, of_int, eq}

-- The values that are not finite; an infinity has a sign.
pub data Special : Type 0 where
  infinity : Bool → Special
  nan signalling_nan : Special

-- A `Decimal`, or a float by its `repr`
pub data Number : Type 0 where
  finite : Decimal → Number
  special : Special → Number

-- A `datetime`: microseconds on the wall clock since the start of the year 1, and the offset from UTC
-- if it is aware.
pub record Moment : Type 0 where
  pub wall : ℤ
  pub offset : Option ℤ

-- `ScalarValue`. A float is the number that its `repr` writes; a date is the
-- count of days from the start of the year 1.
pub data Scalar : Type 0 where
  null : Scalar
  boolean : Bool → Scalar
  integer : ℤ → Scalar
  floating : Number → Scalar
  decimal : Number → Scalar
  text : Text → Scalar
  moment : Moment → Scalar
  day : ℤ → Scalar

-- `NormalizedValue`: a datetime is always in UTC, so it is one instant, in microseconds.
pub data Value : Type 0 where
  int : ℤ → Value
  dec : Decimal → Value
  str : Text → Value
  bool : Bool → Value
  instant : ℤ → Value

abbrev pub int_of_bool : Bool → ℤ
int_of_bool b = if b then pos 1 else pos 0

-- A value that Python compares as a number; a `bool` is an `int`.
unfoldable pub as_number : Value → Option Decimal
as_number (int n) = some (of_int n)
as_number (dec d) = some d
as_number (bool b) = some (of_int (int_of_bool b))
as_number (str s) = none
as_number (instant t) = none

-- `a == b`
unfoldable pub value_eq : Value → Value → Bool
unfolding as_number eq text_eq
value_eq (str s) (str t) = text_eq s t
value_eq (instant s) (instant t) = eq_ℤ s t
value_eq a b = elim (as_number a) [
  | none ↦ false
  | some x ↦ elim (as_number b) [ none ↦ false | some y ↦ eq x y ]
]

-- `a == b` where either may be `None`
unfoldable pub option_eq : Option Value → Option Value → Bool
unfolding value_eq
option_eq none none = true
option_eq none (some b) = false
option_eq (some a) none = false
option_eq (some a) (some b) = value_eq a b

-- What the program takes from the run-time library and its tables: Unicode case mapping, the text
-- forms of numbers and dates, and their parsing. `none` is a raised `InvalidOperation` or
-- `ValueError`.
pub record Python : Type 0 where
  pub casefold : Text → Text
  pub upper : Text → Text
  pub str_of : Scalar → Text
  pub str_of_value : Value → Text
  pub decimal_of_text : Text → Option Number
  pub fromisoformat : Text → Option Moment
  pub format_decimal : Decimal → Text
  pub format_instant : ℤ → Text
  pub format_moment : Moment → Text

-- What an output cell holds: nothing, a normalized value, or a driver's scalar as it came.
pub data Cell : Type 0 where
  empty : Cell
  normalized : Value → Cell
  raw : Scalar → Cell

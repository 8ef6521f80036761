-- ===== src/Evaluation/Normalization.antt =====
-- evaluation/normalization.py: reading a driver's scalar as the type that the workbook declared.
pub mod Typed
use execution_auto.Base.{
  ℕ, Bool, true, false, ◌&&◌, ◌||◌, Option, none, some, List, [], ◌∷◌, ◌++◌, ◌==◌, if◌then◌else◌,
  Text, lit, mem_text, is_blank, strip, Result, ok, err, ℤ, pos, eq_ℤ, leb_ℤ, abs_ℤ, leb, ◌^◌, ◌-ℤ◌,
  ◌*ℤ◌,
}
use execution_auto.Models.{ResultType, result_type_text}
use execution_auto.Evaluation.Decimal.{Decimal, of_int, is_integral, to_int, is_zero_decimal}
use execution_auto.Evaluation.Values.{Number, finite, special, Moment, Scalar, Value, Python, Cell}

-- What `normalize` raises: `TypeConversionError` with its message, or another exception, which no
-- caller catches.
pub data Raised : Type 0 where
  conversion : Text → Raised
  uncaught : Raised

-- `value is None or (isinstance(value, str) and not value.strip())`
unfoldable pub is_missing : Scalar → Bool
unfolding is_blank
is_missing Scalar.null = true
is_missing (Scalar.text s) = is_blank s
is_missing _ = false

-- `_TRUE_WORDS` and `_FALSE_WORDS`
unfoldable pub true_words : List Text
unfolding lit
true_words = lit "true" ∷ lit "t" ∷ lit "yes" ∷ lit "y" ∷ lit "1" ∷ []

unfoldable pub false_words : List Text
unfolding lit
false_words = lit "false" ∷ lit "f" ∷ lit "no" ∷ lit "n" ∷ lit "0" ∷ []

-- `text.replace("Z", "+00:00")`
unfoldable pub replace_z : Text → Text
unfolding lit
replace_z [] = []
replace_z (c ∷ s) = (if c == b'Z' then lit "+00:00" else c ∷ []) ++ replace_z s

-- Whether the microseconds since the start of the year 1 are in the years 1 to 9999
unfoldable pub in_years : ℤ → Bool
in_years t = leb_ℤ (pos 0) t && leb_ℤ t (pos 315537897599999999)

-- A `datetime` in UTC: one with an offset is moved by it, and one without is taken to be in UTC.
-- `astimezone` raises `OverflowError` where that leaves the years 1 to 9999; this is `none`.
unfoldable pub to_utc : Moment → Option ℤ
unfolding ◌-ℤ◌ in_years
to_utc m = elim m.offset [
  | none ↦ some m.wall
  | some o ↦ if in_years (m.wall -ℤ o) then some (m.wall -ℤ o) else none
]

abbrev pub day_microseconds : ℤ
day_microseconds = pos 86400000000

-- `str` and an f-string raise `ValueError` at an `int` of more than 4300 digits, the interpreter's
-- limit.
unfoldable pub written_limit : ℕ
written_limit = 10 ^ 4300

unfoldable pub is_unwritable : Scalar → Bool
is_unwritable (Scalar.integer n) = leb written_limit (abs_ℤ n)
is_unwritable value = false

abbrev pub missing_message : ResultType → Text → Text
missing_message result_type label =
    label
    ++ (lit " is NULL or empty, so it cannot be read as "
        ++ (result_type_text result_type ++ lit "."))

module _ (py : Python) where
  open py use {casefold, str_of, str_of_value, decimal_of_text, fromisoformat, format_decimal}
  open py use {format_instant, format_moment}

  -- `_refuse`, where writing the value may raise
  unfoldable pub refuse {ℓ} : {A : Type ℓ} → Scalar → ResultType → Text → Result Raised A
  unfolding lit result_type_text is_unwritable
  refuse value result_type label =
      if is_unwritable value
      then err uncaught
      else err (
          conversion (
            label
            ++ (lit " is not a valid "
                ++ (result_type_text result_type
                    ++ (lit " value (found '" ++ (str_of value ++ lit "')."))))))

  abbrev finite_or_refuse : Number → Scalar → ResultType → Text → Result Raised Decimal
  finite_or_refuse (finite d) value result_type label = ok d
  finite_or_refuse (special x) value result_type label = refuse value result_type label

  -- `_to_decimal`; it is reached with no `None`, and with no `bool` but from `_as_integer` and
  -- `_as_number`, which refuse one first.
  unfoldable pub to_decimal : Scalar → ResultType → Text → Result Raised Decimal
  unfolding refuse strip is_unwritable
  to_decimal (Scalar.decimal n) result_type label =
      finite_or_refuse n (Scalar.decimal n) result_type label
  to_decimal (Scalar.floating n) result_type label =
      finite_or_refuse n (Scalar.floating n) result_type label
  to_decimal (Scalar.integer n) result_type label =
      if is_unwritable (Scalar.integer n) then err uncaught else ok (of_int n)
  to_decimal (Scalar.boolean b) result_type label = refuse (Scalar.boolean b) result_type label
  to_decimal (Scalar.text s) result_type label = elim (decimal_of_text (strip s)) [
    | none ↦ refuse (Scalar.text s) result_type label
    | some n ↦ finite_or_refuse n (Scalar.text s) result_type label
  ]
  to_decimal value result_type label = refuse value result_type label

  abbrev whole_or_refuse : Decimal → Scalar → ResultType → Text → Result Raised Value
  whole_or_refuse d value result_type label =
      if is_integral d then ok (Value.int (to_int d)) else refuse value result_type label

  abbrev whole : Result Raised Decimal → Scalar → ResultType → Text → Result Raised Value
  whole (ok d) value result_type label = whole_or_refuse d value result_type label
  whole (err e) value result_type label = err e

  -- `_as_integer`
  unfoldable pub as_integer : Scalar → ResultType → Text → Result Raised Value
  unfolding to_decimal refuse
  as_integer (Scalar.boolean b) result_type label = refuse (Scalar.boolean b) result_type label
  as_integer (Scalar.integer n) result_type label = ok (Value.int n)
  as_integer value result_type label =
      whole (to_decimal value result_type label) value result_type label

  abbrev as_dec : Result Raised Decimal → Result Raised Value
  as_dec (ok d) = ok (Value.dec d)
  as_dec (err e) = err e

  -- `_as_number`
  unfoldable pub as_number : Scalar → ResultType → Text → Result Raised Value
  unfolding to_decimal refuse
  as_number (Scalar.boolean b) result_type label = refuse (Scalar.boolean b) result_type label
  as_number value result_type label = as_dec (to_decimal value result_type label)

  -- `_as_text`
  unfoldable pub as_text : Scalar → Text
  unfolding strip
  as_text (Scalar.text s) = strip s
  as_text value = strip (str_of value)

  -- `int(value) in (0, 1)`, where `int` cuts a fraction off
  -- `_as_text`, where writing the value may raise
  abbrev text_or_raise : Scalar → Result Raised Value
  text_or_raise value = if is_unwritable value then err uncaught else ok (Value.str (as_text value))

  abbrev truth_of : ℤ → Scalar → ResultType → Text → Result Raised Value
  truth_of n value result_type label =
      if eq_ℤ n (pos 0)
      then ok (Value.bool false)
      else if eq_ℤ n (pos 1)
      then ok (Value.bool true)
      else refuse value result_type label

  abbrev truth_of_word : Text → Scalar → ResultType → Text → Result Raised Value
  truth_of_word word value result_type label =
      if mem_text word true_words
      then ok (Value.bool true)
      else if mem_text word false_words
      then ok (Value.bool false)
      else refuse value result_type label

  -- `_as_boolean`
  unfoldable pub as_boolean : Scalar → ResultType → Text → Result Raised Value
  unfolding refuse strip mem_text
  as_boolean (Scalar.boolean b) result_type label = ok (Value.bool b)
  as_boolean (Scalar.integer n) result_type label = truth_of n (Scalar.integer n) result_type label
  as_boolean (Scalar.decimal (finite d)) result_type label =
      truth_of (to_int d) (Scalar.decimal (finite d)) result_type label
  -- `int` raises `ValueError` at a NaN and `OverflowError` at an infinity.
  as_boolean (Scalar.decimal (special x)) result_type label = err uncaught
  as_boolean (Scalar.floating (finite d)) result_type label =
      if is_integral d
      then truth_of (to_int d) (Scalar.floating (finite d)) result_type label
      else refuse (Scalar.floating (finite d)) result_type label
  as_boolean (Scalar.text s) result_type label =
      truth_of_word (casefold (strip s)) (Scalar.text s) result_type label
  as_boolean value result_type label = refuse value result_type label

  -- `astimezone`, or the exception that it raises
  abbrev instant_or_raise : Option ℤ → Result Raised Value
  instant_or_raise none = err uncaught
  instant_or_raise (some t) = ok (Value.instant t)

  -- `_as_datetime`
  unfoldable pub as_datetime : Scalar → ResultType → Text → Result Raised Value
  unfolding refuse strip replace_z to_utc ◌*ℤ◌
  as_datetime (Scalar.moment m) result_type label = instant_or_raise (to_utc m)
  as_datetime (Scalar.day d) result_type label = ok (Value.instant (d *ℤ day_microseconds))
  as_datetime (Scalar.text s) result_type label = elim (fromisoformat (replace_z (strip s))) [
    | none ↦ refuse (Scalar.text s) result_type label
    | some m ↦ instant_or_raise (to_utc m)
  ]
  as_datetime value result_type label = refuse value result_type label

  abbrev read_as : ResultType → Scalar → Text → Result Raised Value
  read_as ResultType.integer value label = as_integer value ResultType.integer label
  read_as ResultType.number value label = as_number value ResultType.number label
  read_as ResultType.text value label = text_or_raise value
  read_as ResultType.boolean value label = as_boolean value ResultType.boolean label
  read_as ResultType.datetime value label = as_datetime value ResultType.datetime label

  -- `normalize`
  unfoldable pub normalize : Scalar → ResultType → Text → Result Raised Value
  unfolding is_missing as_integer as_number as_text as_boolean as_datetime is_unwritable
  normalize value result_type label =
      if is_missing value
      then err (conversion (missing_message result_type label))
      else read_as result_type value label

  -- `display`
  unfoldable pub display : Option Value → Text
  unfolding lit
  display none = []
  display (some (Value.bool true)) = lit "TRUE"
  display (some (Value.bool false)) = lit "FALSE"
  display (some (Value.dec d)) = format_decimal d
  display (some (Value.instant t)) = format_instant t
  display (some v) = str_of_value v

  -- `display` of a scalar that was not normalized
  unfoldable pub display_scalar : Scalar → Text
  unfolding lit
  display_scalar Scalar.null = []
  display_scalar (Scalar.boolean true) = lit "TRUE"
  display_scalar (Scalar.boolean false) = lit "FALSE"
  display_scalar (Scalar.decimal (finite d)) = format_decimal d
  display_scalar (Scalar.moment m) = format_moment m
  display_scalar value = str_of value

  unfoldable pub display_cell : Cell → Text
  unfolding display display_scalar
  display_cell Cell.empty = []
  display_cell (Cell.normalized v) = display (some v)
  display_cell (Cell.raw s) = display_scalar s

-- `is_zero`
unfoldable pub is_zero : Value → Bool
unfolding is_zero_decimal
is_zero (Value.int n) = eq_ℤ n (pos 0)
is_zero (Value.dec d) = is_zero_decimal d
is_zero _ = false

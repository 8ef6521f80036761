-- ===== src/Evaluation/Normalization/Typed.antt =====
-- evaluation/normalization.py: the types of what is returned, and what is refused.
use mathlib.Core.Path.{subst}
use execution_auto.Base.{
  ◌≡◌, ◌↔◌, ◌≤◌, refl, true, false, if◌then◌else◌, is_blank, Bool-cases, pos, negsuc, arith, Option,
  none, some, inl, inr, Option-cases, Text, strip, Result, ok, err,
}
use execution_auto.Models.{ResultType}
use execution_auto.Evaluation.Values.{Special, finite, special, Moment, Scalar, Value, Python}
use execution_auto.Evaluation.Normalization.{
  Raised, conversion, uncaught, is_missing, as_integer, as_number, as_boolean, as_datetime,
  missing_message, normalize, replace_z, to_utc, is_unwritable, written_limit,
}

-- The values that a `Result_Type` stands for.
abbrev pub HasType : ResultType → Value → Type 0
HasType ResultType.integer (Value.int n) = Unit
HasType ResultType.number (Value.dec d) = Unit
HasType ResultType.text (Value.str s) = Unit
HasType ResultType.boolean (Value.bool b) = Unit
HasType ResultType.datetime (Value.instant t) = Unit
HasType _ _ = ⊥

-- What a reader returned, if it returned, has the type.
abbrev Reads : ResultType → Result Raised Value → Type 0
Reads t (ok v) = HasType t v
Reads t (err e) = Unit

module _ (py : Python) where
  as_integer-Reads :
      (s : Scalar) (label : Text)
      → Reads ResultType.integer (as_integer py s ResultType.integer label)
  unfolding as_integer
  as_integer-Reads (Scalar.boolean b) label = tt
  as_integer-Reads (Scalar.integer n) label = tt
  as_integer-Reads (Scalar.decimal n) label = ground arith
  as_integer-Reads (Scalar.floating n) label = ground arith
  as_integer-Reads (Scalar.text s) label = ground arith
  as_integer-Reads _ label = tt

  as_number-Reads :
      (s : Scalar) (label : Text) → Reads ResultType.number (as_number py s ResultType.number label)
  unfolding as_number
  as_number-Reads (Scalar.boolean b) label = tt
  as_number-Reads (Scalar.integer n) label = ground arith
  as_number-Reads (Scalar.decimal n) label = ground arith
  as_number-Reads (Scalar.floating n) label = ground arith
  as_number-Reads (Scalar.text s) label = ground arith
  as_number-Reads _ label = tt

  as_boolean-Reads :
      (s : Scalar) (label : Text)
      → Reads ResultType.boolean (as_boolean py s ResultType.boolean label)
  unfolding as_boolean
  as_boolean-Reads (Scalar.boolean b) label = tt
  as_boolean-Reads (Scalar.integer n) label = ground arith
  as_boolean-Reads (Scalar.decimal (finite d)) label = ground arith
  as_boolean-Reads (Scalar.decimal (special x)) label = tt
  as_boolean-Reads (Scalar.floating (finite d)) label = ground arith
  as_boolean-Reads (Scalar.text s) label = ground arith
  as_boolean-Reads _ label = tt

  as_datetime-Reads :
      (s : Scalar) (label : Text)
      → Reads ResultType.datetime (as_datetime py s ResultType.datetime label)
  unfolding as_datetime
  as_datetime-Reads (Scalar.moment m) label = ground arith
  as_datetime-Reads (Scalar.integer n) label = ground arith
  as_datetime-Reads (Scalar.text s) label = ground arith
  as_datetime-Reads _ label = tt

  normalize-Reads : (s : Scalar) (t : ResultType) (label : Text) → Reads t (normalize py s t label)
  unfolding normalize
  normalize-Reads s ResultType.integer label = ground (arith, as_integer-Reads s label)
  normalize-Reads s ResultType.number label = ground (arith, as_number-Reads s label)
  normalize-Reads s ResultType.text label = ground arith
  normalize-Reads s ResultType.boolean label = ground (arith, as_boolean-Reads s label)
  normalize-Reads s ResultType.datetime label = ground (arith, as_datetime-Reads s label)

  -- A value that `normalize` returns is one of the declared type.
  pub normalize-HasType :
      (s : Scalar) (t : ResultType) (label : Text) (v : Value)
      → normalize py s t label ≡ ok v
      → HasType t v
  normalize-HasType s t label v h = subst (Reads t) h (normalize-Reads s t label)

  -- A missing value, NULL or blank text, is refused under every declared type with a conversion
  -- error, never read as zero or false.
  pub normalize_missing :
      (s : Scalar) (t : ResultType) (label : Text)
      → is_missing s ≡ true
      → (message : Text) × (normalize py s t label ≡ err (conversion message))
  unfolding normalize
  normalize_missing s t label h = (missing_message t label, rw h)

  -- The moment that a reading as DATETIME starts from
  abbrev pub moment_of : Scalar → Option Moment
  moment_of (Scalar.moment m) = some m
  moment_of (Scalar.text s) = if is_blank s then none else py.fromisoformat (replace_z (strip s))
  moment_of value = none

  -- What makes a reading raise an exception that is no conversion error
  pub data Escapes (s : Scalar) (t : ResultType) : Type 0 where
    not_finite :
        (x : Special) → s ≡ Scalar.decimal (special x) → t ≡ ResultType.boolean → Escapes s t
    too_long : is_unwritable s ≡ true → ¬ (t ≡ ResultType.integer) → Escapes s t
    out_of_years :
        (m : Moment)
        → moment_of s ≡ some m
        → to_utc m ≡ none
        → t ≡ ResultType.datetime
        → Escapes s t

  as_datetime_uncaught :
      (s : Scalar) (label : Text)
      → is_missing s ≡ false
      → as_datetime py s ResultType.datetime label ≡ err uncaught
      → Escapes s ResultType.datetime
  unfolding as_datetime is_unwritable is_missing
  as_datetime_uncaught (Scalar.moment m) label given h = out_of_years m refl (ground arith) refl
  as_datetime_uncaught (Scalar.integer n) label given h = too_long (ground arith) (λ e. cc)
  as_datetime_uncaught (Scalar.text s) label given h =
      elim (Option-cases (py.fromisoformat (replace_z (strip s)))) [
        | inl e ↦ absurd (ground arith)
        | inr (m, e) ↦ out_of_years m (rw (given, e) refl) (ground arith) refl
      ]
  as_datetime_uncaught s label given h = absurd (ground arith)

  normalize-Escapes :
      (s : Scalar) (t : ResultType) (label : Text)
      → normalize py s t label ≡ err uncaught
      → Escapes s t
  unfolding normalize as_integer as_number as_boolean is_unwritable
  normalize-Escapes (Scalar.decimal (special x)) ResultType.boolean label h = not_finite x refl refl
  normalize-Escapes (Scalar.integer n) ResultType.number label h = too_long (ground arith) (λ e. cc)
  normalize-Escapes (Scalar.integer n) ResultType.boolean label h =
      too_long (ground arith) (λ e. cc)
  normalize-Escapes (Scalar.integer n) ResultType.text label h = too_long (ground arith) (λ e. cc)
  normalize-Escapes s ResultType.datetime label h = elim (Bool-cases (is_missing s)) [
    | inl missing ↦ absurd (ground arith)
    | inr given ↦ as_datetime_uncaught s label given (ground arith)
  ]
  normalize-Escapes s t label h = absurd (ground arith)

  -- An integer that is too long to write is no truth value.
  two_written : 2 ≤ written_limit
  unfolding written_limit
  two_written = ground arith

  too_long_uncaught :
      (s : Scalar) (t : ResultType) (label : Text)
      → is_unwritable s ≡ true
      → ¬ (t ≡ ResultType.integer)
      → normalize py s t label ≡ err uncaught
  unfolding normalize as_number as_boolean as_datetime is_unwritable
  too_long_uncaught (Scalar.integer n) ResultType.integer label h other = absurd (other refl)
  too_long_uncaught (Scalar.integer (pos n)) ResultType.boolean label h other =
      ground (arith, two_written)
  too_long_uncaught (Scalar.integer (negsuc n)) ResultType.boolean label h other =
      ground (arith, two_written)
  too_long_uncaught (Scalar.integer n) ResultType.number label h other = ground arith
  too_long_uncaught (Scalar.integer n) ResultType.text label h other = ground arith
  too_long_uncaught (Scalar.integer n) ResultType.datetime label h other = ground arith
  too_long_uncaught s t label h other = absurd (cc)

  out_of_years_uncaught :
      (s : Scalar) (m : Moment) (label : Text)
      → moment_of s ≡ some m
      → to_utc m ≡ none
      → normalize py s ResultType.datetime label ≡ err uncaught
  unfolding normalize as_datetime
  out_of_years_uncaught (Scalar.moment m') m label e late = ground arith
  out_of_years_uncaught (Scalar.text s) m label e late = elim (Bool-cases (is_blank s)) [
    | inl blank ↦ absurd (ground arith)
    | inr written ↦ ground arith
  ]
  out_of_years_uncaught s m label e late = absurd (cc)

  Escapes-normalize :
      (s : Scalar) (t : ResultType) (label : Text)
      → Escapes s t
      → normalize py s t label ≡ err uncaught
  unfolding normalize as_boolean
  Escapes-normalize s t label (not_finite x e e') = rw (e, e') refl
  Escapes-normalize s t label (too_long e other) = too_long_uncaught s t label e other
  Escapes-normalize s t label (out_of_years m e late e') =
      rw e' (out_of_years_uncaught s m label e late)

  -- Reading raises an exception that is no conversion error exactly at a NaN or an infinity of the
  -- driver's `Decimal` read as BOOLEAN, at an integer of more than 4300 digits read as another type
  -- than INTEGER, and at an aware moment read as DATETIME whose instant in UTC is not in the years 1
  -- to 9999.
  pub normalize_uncaught :
      (s : Scalar) (t : ResultType) (label : Text)
      → (normalize py s t label ≡ err uncaught) ↔ Escapes s t
  normalize_uncaught s t label = (normalize-Escapes s t label, Escapes-normalize s t label)

-- ===== src/Workbook/Control/Limits.antt =====
-- workbook/run_control.py `_build`: the limits of the settings.
use execution_auto.Base.{
  ℕ, ◌≤◌, ◌≡◌, refl, subst, true, Option, none, some, arith, Text, lit, ℤ, pos, negsuc, Result, ok,
  err, and_then_ok, ok_injective, inl, inr, Bool-cases,
}
use execution_auto.Evaluation.Decimal.{is_integral, to_int}
use execution_auto.Evaluation.Values.{
  infinity, nan, signalling_nan, Number, finite, special, Scalar, Python,
}
use execution_auto.Evaluation.Normalization.{is_missing, as_text}
use execution_auto.Workbook.Cells.{is_boolean}
use execution_auto.Workbook.Control.{
  RunControl, ControlError, in_range, range_error, whole_in_range, integer, Settings, setting,
  build,
}

-- What a returned number is bound by
abbrev Within : ℕ → ℕ → Result ControlError ℕ → Type 0
Within minimum maximum (ok n) = (minimum ≤ n) × (n ≤ maximum)
Within minimum maximum (err e) = Unit

module _ (py : Python) where
  in_range-Within :
      (minimum maximum : ℕ) (e : ControlError) (z : ℤ)
      → Within minimum maximum (in_range py minimum maximum e z)
  in_range-Within minimum maximum e (pos n) = ground arith
  in_range-Within minimum maximum e (negsuc n) = tt

  whole_in_range-Within :
      (minimum maximum : ℕ) (e : ControlError) (o : Option Number)
      → Within minimum maximum (whole_in_range py minimum maximum e o)
  whole_in_range-Within minimum maximum e none = tt
  whole_in_range-Within minimum maximum e (some (special nan)) = tt
  whole_in_range-Within minimum maximum e (some (special signalling_nan)) = tt
  whole_in_range-Within minimum maximum e (some (special (infinity s))) = tt
  whole_in_range-Within minimum maximum e (some (finite d)) = elim (Bool-cases (is_integral d)) [
    | inl whole ↦ rw (whole, Within) (in_range-Within minimum maximum e (to_int d))
    | inr fraction ↦ rw (fraction, Within) tt
  ]

  integer-Within :
      (value : Scalar) (name : Text) (default minimum maximum : ℕ)
      → minimum ≤ default
      → default ≤ maximum
      → Within minimum maximum (integer py value name default minimum maximum)
  unfolding integer
  integer-Within value name default minimum maximum low high =
      elim (Bool-cases (is_missing value)) [
        | inl missing ↦ rw (missing, Within) (low, high)
        | inr given ↦ elim (Bool-cases (is_boolean value)) [
          | inl truth ↦ rw (given, truth, Within) tt
          | inr number ↦
              rw (given, number)
                (whole_in_range-Within minimum maximum (range_error py name value minimum maximum)
                  (py.decimal_of_text (as_text py value)))
        ]
      ]

  bounded_result :
      (minimum maximum n : ℕ) (r : Result ControlError ℕ)
      → Within minimum maximum r
      → r ≡ ok n
      → (minimum ≤ n) × (n ≤ maximum)
  bounded_result minimum maximum n r h e = subst (Within minimum maximum) e h

-- The limits that the settings of a run keep
pub record IsLimited (c : RunControl) : Type 0 where
  pub timeout : c.query_timeout_seconds ≤ 3600
  pub sequential : c.max_parallel_workers ≡ 1
  pub observation : (40 ≤ c.observation_max_length) × (c.observation_max_length ≤ 4000)
  pub error_detail : (40 ≤ c.error_detail_max_length) × (c.error_detail_max_length ≤ 4000)
  pub read_only : c.require_read_only_sql ≡ true

-- Settings that are read without an error are within their limits: a timeout setting of at most
-- 3600, where 0 stands for no limit on a query, one worker, texts of 40 to 4000 characters, and
-- read-only SQL required, whatever the sheet says.
pub build-IsLimited :
    (py : Python) (raw : Settings) (c : RunControl) → build py raw ≡ ok c → IsLimited c
unfolding build
build-IsLimited py raw c h =
    let (version, _, h1) = and_then_ok _ _ _ h in
    let (workers, working, h2) = and_then_ok _ _ _ h1 in
    let (read_only, _, h3) = and_then_ok _ _ _ h2 in
    let (timeout, timing, h4) = and_then_ok _ _ _ h3 in
    let (continues, _, h5) = and_then_ok _ _ _ h4 in
    let (stops, _, h6) = and_then_ok _ _ _ h5 in
    let (observation, observing, h7) = and_then_ok _ _ _ h6 in
    let (detail, detailing, h8) = and_then_ok _ _ _ h7 in
    let (mode, _, h9) = and_then_ok _ _ _ h8 in
    let (dry_run, _, h10) = and_then_ok _ _ _ h9 in
    let ws =
      bounded_result py 1 64 workers _
        (integer-Within py (setting (lit "maxparallelworkers") raw) (lit "Max_Parallel_Workers") 1 1
          64 (omega arith) (omega arith))
        working in
    subst IsLimited (ok_injective _ _ _ refl h10) (record {
      timeout =
          (bounded_result py 0 3600 timeout _
            (integer-Within py (setting (lit "querytimeoutseconds") raw)
              (lit "Query_Timeout_Seconds") 0 0 3600 (omega arith) (omega arith))
            timing).1;
      sequential = ground arith;
      observation =
          bounded_result py 40 4000 observation _
            (integer-Within py (setting (lit "observationmaxlength") raw)
              (lit "Observation_Max_Length") 300 40 4000 (omega arith) (omega arith))
            observing;
      error_detail =
          bounded_result py 40 4000 detail _
            (integer-Within py (setting (lit "errordetailmaxlength") raw)
              (lit "Error_Detail_Max_Length") 500 40 4000 (omega arith) (omega arith))
            detailing;
      read_only = refl;
    })

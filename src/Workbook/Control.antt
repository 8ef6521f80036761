-- ===== src/Workbook/Control.antt =====
-- workbook/run_control.py: how a run behaves, and the reading of the settings. The settings are a
-- dictionary from the folded name to the cell, as `_collect_settings` returns it.
pub mod Limits
use execution_auto.Base.{
  ℕ, Bool, true, false, ◌&&◌, ◌||◌, Option, none, some, List, [], ◌∷◌, ◌++◌, if◌then◌else◌, leb,
  Text, lit, mem_text, is_empty, strip, join, str_nat, text_eq, lookup_text, ℤ, pos, negsuc, Result,
  ok, err, and_then,
}
use execution_auto.Models.Codes.{ErrorCode}
use execution_auto.Evaluation.Decimal.{is_integral, to_int}
use execution_auto.Evaluation.Values.{
  infinity, nan, signalling_nan, Number, finite, special, Scalar, Python,
}
use execution_auto.Evaluation.Normalization.{is_missing, as_text}
use execution_auto.Workbook.Cells.{text_of, raw_text, is_boolean}

-- `OutputMode`
pub data OutputMode : Type 0 where
  new_file in_place : OutputMode

-- `RunControl`
pub record RunControl : Type 0 where
  pub template_version : Text
  pub query_timeout_seconds : ℕ
  pub max_parallel_workers : ℕ
  pub continue_on_test_error : Bool
  pub stop_on_critical_config_error : Bool
  pub observation_max_length : ℕ
  pub error_detail_max_length : ℕ
  pub output_mode : OutputMode
  pub output_directory_env : Text
  pub evidence_directory_env : Text
  pub dry_run : Bool
  pub require_read_only_sql : Bool
  pub warnings : List Text
  pub defaulted : Bool

-- `ConfigurationError`, or an exception that is not one, at a number that is not finite: `int`
-- raises `OverflowError` at an infinity, and `to_integral_value` raises `InvalidOperation` at a
-- signalling NaN. A quiet NaN differs from itself, and is refused as out of range.
pub data ControlError : Type 0 where
  misconfigured : ErrorCode → Text → ControlError
  not_finite : ControlError

-- `_TRUE_WORDS` and `_FALSE_WORDS`
unfoldable pub true_words : List Text
unfolding lit
true_words = lit "yes" ∷ lit "y" ∷ lit "true" ∷ lit "t" ∷ lit "1" ∷ lit "on" ∷ lit "enabled" ∷ []

unfoldable pub false_words : List Text
unfolding lit
false_words = lit "no" ∷ lit "n" ∷ lit "false" ∷ lit "f" ∷ lit "0" ∷ lit "off" ∷ lit "disabled" ∷ []

-- `SUPPORTED_TEMPLATE_VERSIONS`, sorted
unfoldable pub supported_versions : List Text
unfolding lit
supported_versions = lit "1.0" ∷ lit "2.0" ∷ lit "2.1" ∷ []

-- The names that `_build` knows, folded by `_normalize_setting`
unfoldable pub known_settings : List Text
unfolding lit
known_settings =
    lit "templateversion"
    ∷ lit "querytimeoutseconds"
    ∷ lit "maxparallelworkers"
    ∷ lit "continueontesterror"
    ∷ lit "stoponcriticalconfigerror"
    ∷ lit "observationmaxlength"
    ∷ lit "errordetailmaxlength"
    ∷ lit "outputmode"
    ∷ lit "outputdirectoryenv"
    ∷ lit "evidencedirectoryenv"
    ∷ lit "dryrun"
    ∷ lit "requirereadonlysql"
    ∷ []

abbrev pub Settings : Type 0
Settings = List (Text × Scalar)

abbrev cell_or_null : Option Scalar → Scalar
cell_or_null (some s) = s
cell_or_null none = Scalar.null

-- `raw.get(key)`
unfoldable pub setting : Text → Settings → Scalar
unfolding lookup_text
setting key raw = cell_or_null (lookup_text key raw)

-- The warnings about keys that are not known
unfoldable pub ignored : Settings → List Text
unfolding known_settings mem_text lit
ignored [] = []
ignored ((key, value) ∷ raw) =
    let rest = ignored raw in
    if mem_text key known_settings
    then rest
    else (lit "Run Control: ignoring unsupported setting '" ++ (key ++ lit "'.")) ∷ rest

module _ (py : Python) where
  -- `_range_error`
  unfoldable pub range_error : Text → Scalar → ℕ → ℕ → ControlError
  unfolding lit str_nat
  range_error name value minimum maximum = misconfigured ErrorCode.invalid_profile (
      lit "Run Control: "
      ++ (name
          ++ (lit " must be a whole number between "
              ++ (str_nat minimum
                  ++ (lit " and "
                      ++ (str_nat maximum
                          ++ (lit " (found '" ++ (raw_text py value ++ lit "')."))))))))

  abbrev pub in_range : ℕ → ℕ → ControlError → ℤ → Result ControlError ℕ
  in_range minimum maximum e (pos n) = if leb minimum n && leb n maximum then ok n else err e
  in_range minimum maximum e (negsuc n) = err e

  abbrev pub whole_in_range : ℕ → ℕ → ControlError → Option Number → Result ControlError ℕ
  whole_in_range minimum maximum e none = err e
  whole_in_range minimum maximum e (some (special nan)) = err e
  whole_in_range minimum maximum e (some (special signalling_nan)) = err not_finite
  whole_in_range minimum maximum e (some (special (infinity s))) = err not_finite
  whole_in_range minimum maximum e (some (finite d)) =
      if is_integral d then in_range minimum maximum e (to_int d) else err e

  -- `_integer`, of the cell
  unfoldable pub integer : Scalar → Text → ℕ → ℕ → ℕ → Result ControlError ℕ
  unfolding is_missing as_text is_integral to_int
  integer value name default minimum maximum =
      let e = range_error name value minimum maximum in
      if is_missing value
      then ok default
      else if is_boolean value
      then err e
      else whole_in_range minimum maximum e (py.decimal_of_text (as_text py value))

  abbrev pub truth : Text → ControlError → Result ControlError Bool
  truth word e =
      if mem_text word true_words
      then ok true
      else if mem_text word false_words
      then ok false
      else err e

  -- `_boolean`, of the cell
  unfoldable pub boolean : Scalar → Text → Bool → Result ControlError Bool
  unfolding is_missing text_of mem_text true_words false_words lit
  boolean (Scalar.boolean b) name default = ok b
  boolean value name default =
      if is_missing value
      then ok default
      else truth (py.casefold (text_of py value)) (
          misconfigured ErrorCode.invalid_profile (
            lit "Run Control: "
            ++ (name ++ (lit " must be Yes or No (found '" ++ (raw_text py value ++ lit "').")))))

  -- `_output_mode`, of the cell
  unfoldable pub output_mode_of : Scalar → Result ControlError OutputMode
  unfolding text_of is_empty strip text_eq lit
  output_mode_of value =
      let text = text_of py value in
      let word = py.upper (strip text) in
      if is_empty text
      then ok new_file
      else if text_eq word (lit "NEW_FILE")
      then ok new_file
      else if text_eq word (lit "IN_PLACE")
      then ok in_place
      else err (
          misconfigured ErrorCode.unsupported_template_version (
            lit "Run Control: Output_Mode '"
            ++ (text ++ lit "' is not supported (allowed: NEW_FILE, IN_PLACE).")))

  abbrev template_version_of : Text → Result ControlError Text
  template_version_of version =
      if is_empty version || mem_text version supported_versions
      then ok version
      else err (
          misconfigured ErrorCode.unsupported_template_version (
            lit "Run Control: Template_Version '"
            ++ (version
                ++ (lit "' is not supported by this executor (supported: "
                    ++ (join (lit ", ") supported_versions ++ lit ").")))))

  abbrev workers_warning : ℕ → List Text
  workers_warning workers =
      if leb workers 1
      then []
      else (lit "Run Control: Max_Parallel_Workers = "
          ++ (str_nat workers
              ++ lit ", but this build executes sequentially; 1 worker is being used."))
        ∷ []

  abbrev read_only_warning : Bool → List Text
  read_only_warning true = []
  read_only_warning false =
      lit
        "Run Control: Require_Read_Only_SQL = No is ignored. Read-only SQL validation is a security requirement and cannot be switched off from the workbook."
      ∷ []

  -- `_build`
  unfoldable pub build : Settings → Result ControlError RunControl
  unfolding setting ignored integer boolean output_mode_of text_of mem_text is_empty
      supported_versions join lit str_nat
  build raw =
      let cell = λ (key : Text). setting key raw in
      and_then (template_version_of (text_of py (cell (lit "templateversion")))) (λ version.
        and_then (integer (cell (lit "maxparallelworkers")) (lit "Max_Parallel_Workers") 1 1 64)
          (λ workers.
            and_then (boolean (cell (lit "requirereadonlysql")) (lit "Require_Read_Only_SQL") true)
              (λ read_only.
                and_then
                  (integer (cell (lit "querytimeoutseconds")) (lit "Query_Timeout_Seconds") 0 0
                    3600)
                  (λ timeout.
                    and_then
                      (boolean (cell (lit "continueontesterror")) (lit "Continue_On_Test_Error")
                        true)
                      (λ continues.
                        and_then
                          (boolean (cell (lit "stoponcriticalconfigerror"))
                            (lit "Stop_On_Critical_Config_Error") true)
                          (λ stops.
                            and_then
                              (integer (cell (lit "observationmaxlength"))
                                (lit "Observation_Max_Length") 300 40 4000)
                              (λ observation.
                                and_then
                                  (integer (cell (lit "errordetailmaxlength"))
                                    (lit "Error_Detail_Max_Length") 500 40 4000)
                                  (λ detail.
                                    and_then (output_mode_of (cell (lit "outputmode"))) (λ mode.
                                      and_then (boolean (cell (lit "dryrun")) (lit "Dry_Run") false)
                                        (λ dry_run. ok (record {
                                          template_version = version;
                                          query_timeout_seconds = timeout;
                                          max_parallel_workers =
                                              if leb workers 1 then workers else 1;
                                          continue_on_test_error = continues;
                                          stop_on_critical_config_error = stops;
                                          observation_max_length = observation;
                                          error_detail_max_length = detail;
                                          output_mode = mode;
                                          output_directory_env =
                                              text_of py (cell (lit "outputdirectoryenv"));
                                          evidence_directory_env =
                                              text_of py (cell (lit "evidencedirectoryenv"));
                                          dry_run = dry_run;
                                          require_read_only_sql = true;
                                          warnings =
                                              ignored raw
                                              ++ (workers_warning workers
                                                  ++ read_only_warning read_only);
                                          defaulted = false;
                                        })))))))))))

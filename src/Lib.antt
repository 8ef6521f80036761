-- ===== src/Lib.antt =====
-- A model of the reconciliation executor: it reads test cases from a workbook, checks and executes
-- their SQL on a source and a target database, compares the results and reports every test.
--
-- The paths below start at src/migration_reconciliation/.
--
-- - Base: numbers, lists, texts (lists of code points) and results that the other modules share.
-- - Models: the enumerations of models.py; Models.Codes: ErrorCode.
-- - Security.SqlGuard: security/sql_guard.py. `assert_read_only` is the whole guard; the loop of
--   `strip_comments_and_literals` runs on the text's length as fuel, which is enough since every
--   turn consumes a character. Security.Redaction: security/redaction.py, with the masking
--   patterns as a parameter.
-- - Evaluation.Decimal and Evaluation.Values: the numbers and values that evaluation/ computes with;
--   Evaluation.Normalization: evaluation/normalization.py; Evaluation.Comparisons and its child
--   Rules: evaluation/comparisons.py. The record `Python` holds what is taken from the run-time
--   library: case folding, and the reading and writing of numbers and dates.
-- - Database.Failures: the exceptions of errors.py that a handler tells apart, and the advice of
--   database/failures.py.
-- - Workbook.Definitions: the records of workbook/testcases.py; Workbook.Cells, Workbook.RowChecks
--   and Workbook.TestCases: its reader of rows, where a row is the function from header to cell;
--   Workbook.Observations: the rules and templates of workbook/observations.py; Workbook.Control:
--   the settings of workbook/run_control.py and their limits.
-- - Execution: execution/engine.py. Report has `TestOutcome` and `RunReport`, Outcomes the builders of
--   outcomes, World the calls of a clock and of open connections on a state, Validation pass 1,
--   Running pass 2, and Engine both passes and `execute_plan`.
--
-- - Profile: profile.py. Toml has documents as tomllib returns them, Keys the search for credentials
--   and the readers of one key, Connection the settings of one connection, Document `parse_profile`
--   and the lookup of a section.
-- - Database.Settings: database/settings.py; Database.Causes: the causes and messages of
--   database/failures.py.
-- - Runner: the first engine. Kinds and Comparators: evaluation/comparators.py; Dialect:
--   database/dialect.py, with `re.search` as a parameter; Records: the records of models.py; Sides
--   and Cases: `execute_case` of runner.py and what it asks of a side, and Cases.Compile
--   `check_dialects` and `validate_cases`; Selection: `_select`; Runs: `run`, from what
--   workbook/reader.py returned to the summary. The record `Factory` of Sides has the
--   calls of the executor factory on a state.
--
-- A run starts from a `Plan`. Engine opens the connections and hands the tests whose connections
-- are open to Validation; when no check failed, Running executes the tests, reads each result with
-- Normalization, compares with Comparisons, and words the outcome with Observations. An exception
-- that a handler catches is a value of `Failure` or `Raised`; one that no handler catches ends the
-- run, as `Escape`.
--
-- A run of the first engine decides the rows that are not selected, then the rows whose SQL is of
-- another dialect, and compiles or executes the others one after another through `Factory`; every
-- step hands on the state of the world and the results so far.
--
-- Not modelled: the bounds of decimal exponents. Arithmetic and `display` are total, where Python's
-- raise Overflow for an adjusted exponent above 999999 and round to zero below its least one, and
-- `display` writes integers of any length.
--
-- Not modelled either: files, spreadsheets, the parsing of TOML, prompts, the command line and the database
-- drivers. Progress lines are left out; writing the result workbook is a parameter of `execute_plan`
-- and is left out of the first engine.
pub mod Base
pub mod Models
pub mod Evaluation
pub mod Database
pub mod Profile
pub mod Runner
pub mod Workbook
pub mod Execution
pub mod Security

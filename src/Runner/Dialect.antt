-- ===== src/Runner/Dialect.antt =====
-- database/dialect.py: SQL that one engine cannot compile because it is the other's. What `re.search`
-- finds is a parameter, given the pattern and whether case is ignored.
use execution_auto.Base.{
  Bool, true, false, Option, none, some, List, [], ◌∷◌, ◌++◌, map, if◌then◌else◌, ltb, ◌-◌, length,
  keep, Text, lit, join, str_nat,
}
use execution_auto.Models.{DatabaseType, database_type_text}
use execution_auto.Security.SqlGuard.{strip_comments_and_literals}

-- A pattern, the name of the construct, and the advice
pub record Construct : Type 0 where
  pub pattern : Text
  pub ignores_case : Bool
  pub name : Text
  pub advice : Text

abbrev pub any_case : Text → Text → Text → Construct
any_case p n a = record { pattern = p; ignores_case = true; name = n; advice = a }

abbrev pub exact_case : Text → Text → Text → Construct
exact_case p n a = record { pattern = p; ignores_case = false; name = n; advice = a }

-- `_ORACLE_ONLY`
unfoldable pub oracle_only : List Construct
unfolding lit
oracle_only =
    any_case (lit "\\bFROM\\s+DUAL\\b") (lit "FROM DUAL") (lit "drop it; SQL Server needs no FROM")
    ∷ any_case (lit "\\bNVL\\s*\\(") (lit "NVL(") (lit "use ISNULL( or COALESCE(")
    ∷ any_case (lit "\\bSYSDATE\\b") (lit "SYSDATE") (lit "use GETDATE()")
    ∷ any_case (lit "\\bROWNUM\\b") (lit "ROWNUM") (lit "use TOP or ROW_NUMBER()")
    ∷ any_case (lit "\\bTO_DATE\\s*\\(") (lit "TO_DATE(") (lit "use CONVERT( or CAST(")
    ∷ any_case (lit "\\bTO_CHAR\\s*\\(") (lit "TO_CHAR(") (lit "use CONVERT( or FORMAT(")
    ∷ any_case (lit "\\bTO_NUMBER\\s*\\(") (lit "TO_NUMBER(") (lit "use CAST( ... AS numeric)")
    ∷ exact_case (lit "\\bDATE\\s*''") (lit "DATE 'literal'") (lit "use CAST('...' AS date)")
    ∷ exact_case (lit "\\(\\s*\\+\\s*\\)") (lit "(+) outer join") (lit "use LEFT JOIN")
    ∷ []

-- `_SQLSERVER_ONLY`
unfoldable pub sqlserver_only : List Construct
unfolding lit
sqlserver_only =
    any_case (lit "\\bCOUNT_BIG\\s*\\(") (lit "COUNT_BIG(") (lit "use COUNT(")
    ∷ any_case (lit "\\bGETDATE\\s*\\(") (lit "GETDATE()") (lit "use SYSDATE")
    ∷ any_case (lit "\\bISNULL\\s*\\(") (lit "ISNULL(") (lit "use NVL( or COALESCE(")
    ∷ any_case (lit "\\bDATEADD\\s*\\(") (lit "DATEADD(") (lit "use date arithmetic or INTERVAL")
    ∷ any_case (lit "\\bDATEDIFF\\s*\\(") (lit "DATEDIFF(") (lit "subtract the dates")
    ∷ any_case (lit "\\bSELECT\\s+TOP\\s+\\d") (lit "SELECT TOP n")
        (lit "use FETCH FIRST n ROWS ONLY")
    ∷ any_case (lit "\\bWITH\\s*\\(\\s*NOLOCK\\s*\\)") (lit "WITH (NOLOCK)") (lit "drop it")
    ∷ []

-- `_FOREIGN_TO`
unfoldable pub foreign_to : DatabaseType → List Construct
unfolding oracle_only sqlserver_only
foreign_to DatabaseType.sqlserver = oracle_only
foreign_to DatabaseType.oracle = sqlserver_only

-- `_OTHER_ENGINE`
unfoldable pub other_engine : DatabaseType → Text
unfolding lit
other_engine DatabaseType.sqlserver = lit "Oracle"
other_engine DatabaseType.oracle = lit "SQL Server"

-- `found[:3]`
unfoldable pub first_three : List Construct → List Construct
first_three (a ∷ b ∷ c ∷ rest) = a ∷ b ∷ c ∷ []
first_three found = found

-- The message about the constructs that were found
unfoldable pub incompatibility : DatabaseType → List Construct → Option Text
unfolding other_engine database_type_text join first_three str_nat lit
incompatibility engine [] = none
incompatibility engine (c ∷ found) =
    let shown =
      map (λ d. d.name ++ (lit " (" ++ (d.advice ++ lit ")"))) (first_three (c ∷ found)) in
    let more =
      if ltb 3 (length (c ∷ found))
      then lit " and " ++ (str_nat (length (c ∷ found) - 3) ++ lit " more")
      else [] in
    some (
      other_engine engine
      ++ (lit " syntax in a query the "
          ++ (database_type_text engine
              ++ (lit " connection must compile: "
                  ++ (join (lit ", ") shown ++ (more ++ lit "."))))))

-- `describe_incompatibility`
unfoldable pub describe_incompatibility :
    (Text → Bool → Text → Bool) → Text → DatabaseType → Option Text
unfolding keep foreign_to incompatibility strip_comments_and_literals
describe_incompatibility search sql engine = incompatibility engine (
    keep (λ c. search c.pattern c.ignores_case (strip_comments_and_literals sql))
      (foreign_to engine))

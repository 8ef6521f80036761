-- ===== src/Database/Failures.antt =====
-- errors.py and database/failures.py: what a call of a database raises, as the engine tells the
-- classes apart, and the advice for objects out of reach.
use execution_auto.Base.{List, [], ◌∷◌, if◌then◌else◌, any, Text, lit, has_substring}

-- The class of an exception: those under `ReconciliationError` that a handler names, any other of
-- them, and any exception else.
pub data FailureClass : Type 0 where
  syntax_rejected timed_out connection_failed non_scalar check_unavailable : FailureClass
  other_reconciliation unexpected : FailureClass

pub record Failure : Type 0 where
  pub class : FailureClass
  pub type_name : Text
  pub message : Text

-- `_OBJECT_ACCESS_PHRASES`
unfoldable pub object_access_phrases : List Text
unfolding lit
object_access_phrases =
    lit "invalid object name"
    ∷ lit "could not find server"
    ∷ lit "linked server"
    ∷ lit "is not configured for"
    ∷ lit "cannot open database"
    ∷ lit "the server principal"
    ∷ lit "permission was denied"
    ∷ lit "select permission"
    ∷ lit "table or view does not exist"
    ∷ []

-- `describe_object_access_failure`
unfoldable pub describe_object_access_failure : (Text → Text) → Text → Text
unfolding any has_substring
describe_object_access_failure casefold message =
    if any (λ phrase. has_substring phrase (casefold message)) object_access_phrases
    then lit
        "The query names an object this session cannot reach. Cross-database or linked-server access may need configuring: grant the login read access in the other database, or define the linked server. The SQL is executed verbatim and its identifiers are never rewritten."
    else []

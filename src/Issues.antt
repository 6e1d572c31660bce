-- ===== src/Issues.antt =====
-- packages/snapcook-core/src/snapcook_core/errors.py: findings that do not stop the work.
use snap_cook.Common.{Str, Bool, true, false, ◌||◌, Option, List, [], ◌∷◌, ◌++◌}

pub data Severity : Type 0 where
  info warn error : Severity

pub record ValidationIssue : Type 0 where
  pub code : Str
  pub severity : Severity
  pub message : Str
  pub path : Option Str
  pub element_id : Option Str

-- `IssueCollector.issues`
abbrev pub IssueCollector : Type 0
IssueCollector = List ValidationIssue

-- `IssueCollector.add`
unfoldable pub add :
    Str → Str → Severity → Option Str → Option Str → IssueCollector → IssueCollector
add code message severity path element_id issues =
    issues
    ++ record {
      code = code;
      severity = severity;
      message = message;
      path = path;
      element_id = element_id;
    }
      ∷ []

abbrev pub is_error : Severity → Bool
is_error info = false
is_error warn = false
is_error error = true

-- `IssueCollector.has_errors`
unfoldable pub has_errors : IssueCollector → Bool
has_errors [] = false
has_errors (i ∷ issues) = is_error i.severity || has_errors issues

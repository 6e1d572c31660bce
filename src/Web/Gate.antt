-- ===== src/Web/Gate.antt =====
-- apps/web/api/auth.py (`require_ops_access`) and apps/web/accounts/middleware.py: who passes
-- the gates in front of the routes. The log is a list of its entries.
pub mod Ops
pub mod Login
use snap_cook.Common.{
  Str, codes, str_eq, ℕ, ◌==◌, leb, ◌+◌, ◌&&◌, Bool, true, false, ◌||◌, not, Option, none, some,
  List, [], ◌∷◌, ◌++◌, map, if◌then◌else◌,
}
use snap_cook.Errors.{Result, ok, err, ◌>>=◌}
use snap_cook.Web.Access.{User, anonymous, authenticated}
use snap_cook.Web.Tokens.{compare_digest}

-- What the gates read of a request: `request.user` may be missing.
pub record Request : Type 0 where
  pub user : Option User
  pub path : Str
  pub authorization : Str

pub data Actor : Type 0 where
  session : (pk : Str) → Actor
  token : Actor
  nobody : Actor

pub record LogEntry : Type 0 where
  pub actor : Actor
  pub allowed : Bool

-- `header.partition(" ")`: what stands before the first space, and behind it.
unfoldable pub partition_space : Str → Str × Str
partition_space [] = ([], [])
partition_space (c ∷ s) =
    let rest = partition_space s in if c == 32 then ([], s) else (c ∷ rest.0, rest.1)

-- No letter outside ASCII has a lower case in the word `bearer`.
abbrev pub ascii_lower : Str → Str
ascii_lower s = map (λ (c : ℕ). if leb 65 c && leb c 90 then c + 32 else c) s

abbrev pub is_bearer : Str × Str → Bool
is_bearer (scheme, []) = false
is_bearer (scheme, c ∷ s) = str_eq (ascii_lower scheme) (codes "bearer")

-- `_check_ops_token`
unfoldable pub check_ops_token : (expected : Str) → Request → Result Bool
unfolding partition_space
check_ops_token [] r = ok false
check_ops_token (c ∷ expected) r =
    let parts = partition_space r.authorization in
    if is_bearer parts then compare_digest (c ∷ expected) parts.1 else ok false

abbrev pub staff_key : Option User → Option Str
staff_key none = none
staff_key (some anonymous) = none
staff_key (some (authenticated pk true)) = some pk
staff_key (some (authenticated pk false)) = none

abbrev pub entry : Actor → Bool → LogEntry
entry actor allowed = record { actor = actor; allowed = allowed }

-- `require_ops_access`, with the entry that it logs
unfoldable pub require_ops_access :
    (expected : Str) → Request → List LogEntry → Result (Bool × List LogEntry)
unfolding check_ops_token
require_ops_access expected r log = elim (staff_key r.user) [
  | some pk ↦ ok (true, log ++ entry (session pk) true ∷ [])
  | none ↦ do
    same ← check_ops_token expected r
    ok (
        if same
        then (true, log ++ entry token true ∷ [])
        else (false, log ++ entry nobody false ∷ []))
]

-- `path.startswith(prefix)`
unfoldable pub starts_with : Str → Str → Bool
starts_with [] s = true
starts_with (c ∷ p) [] = false
starts_with (c ∷ p) (x ∷ s) = (c == x) && starts_with p s

abbrev pub exempt_prefixes : List Str
exempt_prefixes =
    codes "/accounts/"
    ∷ codes "/admin/"
    ∷ codes "/api/"
    ∷ codes "/ops/api/"
    ∷ codes "/up"
    ∷ codes "/static/"
    ∷ []

unfoldable pub starts_with_any : List Str → Str → Bool
unfolding starts_with
starts_with_any [] s = false
starts_with_any (p ∷ ps) s = starts_with p s || starts_with_any ps s

-- `LoginRequiredMiddleware._is_exempt`
unfoldable pub is_exempt : Str → Bool
unfolding starts_with_any
is_exempt path = starts_with_any exempt_prefixes path

abbrev pub is_authenticated : Option User → Bool
is_authenticated none = false
is_authenticated (some anonymous) = false
is_authenticated (some (authenticated pk is_staff)) = true

pub data Response : Type 0 where
  redirect_to_login handled : Response

-- `LoginRequiredMiddleware.__call__`
unfoldable pub login_gate : Request → Response
unfolding is_exempt
login_gate r =
    if not (is_authenticated r.user) && not (is_exempt r.path) then redirect_to_login else handled

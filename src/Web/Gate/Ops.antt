-- ===== src/Web/Gate/Ops.antt =====
-- Who gets at the ops routes.
use snap_cook.Common.{
  Str, str_eq_iff, ◌≡◌, ◌≢◌, sym, ◌∙◌, ap, ◌⊎◌, inl, inr, Bool, true, some, List, [], ◌∷◌, ◌++◌,
  if_true, if_false, Bool-cases, Option-cases, arith,
}
use snap_cook.Errors.{Result, ok, >>=-eq-ok}
use snap_cook.Web.Tokens.{compare_digest}
use snap_cook.Web.Gate.{
  Request, Actor, session, token, LogEntry, entry, partition_space, is_bearer, check_ops_token,
  staff_key, require_ops_access,
}

-- The request carries the configured token.
abbrev pub Presents : Str → Request → Type 0
Presents expected r =
    (expected ≢ [])
    × (is_bearer (partition_space r.authorization) ≡ true)
    × ((partition_space r.authorization).1 ≡ expected)

compare_digest-ok : (a b : Str) → compare_digest a b ≡ ok true → a ≡ b
unfolding compare_digest
compare_digest-ok a b h = (str_eq_iff a b).0 (ground arith)

check_ops_token-ok :
    (expected : Str) (r : Request) → check_ops_token expected r ≡ ok true → Presents expected r
unfolding check_ops_token
check_ops_token-ok [] r h = cc
check_ops_token-ok (c ∷ expected) r h =
    elim (Bool-cases (is_bearer (partition_space r.authorization))) [
      | inl e ↦ (
        (λ x. cc x),
        e,
        sym (
            compare_digest-ok (c ∷ expected) (partition_space r.authorization).1
              (sym (if_true _ _ e) ∙ h)),
      )
      | inr e ↦ cc (sym (if_false _ _ e) ∙ h)
    ]

logged :
    {b : Bool} {l m : List LogEntry}
    → ◌≡◌ {A = Result (Bool × List LogEntry)} (ok (b, l)) (ok (b, m))
    → l ≡ m
logged h = cc h

abbrev pub granted : Actor → Bool → List LogEntry → List LogEntry
granted actor allowed log = log ++ entry actor allowed ∷ []

-- Access that is granted comes from a staff session or from the configured token, which is not
-- empty, and is logged under that name.
pub require_ops_access-granted :
    (expected : Str) (r : Request) (log log' : List LogEntry)
    → require_ops_access expected r log ≡ ok (true, log')
    → ((pk : Str) × (staff_key r.user ≡ some pk) × (log' ≡ granted (session pk) true log))
      ⊎ (Presents expected r × (log' ≡ granted token true log))
unfolding require_ops_access
require_ops_access-granted expected r log log' h = elim (Option-cases (staff_key r.user)) [
  | inr (pk, e) ↦ inl (pk, e, sym (logged (rw (e, require_ops_access) at h)))
  | inl e ↦
      let (same, runs, rest) =
        >>=-eq-ok (check_ops_token expected r) _ (rw (e, require_ops_access) at h) in
      elim (Bool-cases same) [
        | inl s ↦ inr (check_ops_token-ok expected r (runs ∙ ap ok s), sym (logged (rw s at rest)))
        | inr s ↦ cc (rw s at rest)
      ]
]

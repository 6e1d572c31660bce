-- ===== src/Web/Tokens/Expiry.antt =====
-- The two answers to whether a token is active.
use snap_cook.Common.{
  ℕ, ltb, ◌≡◌, ap, refl, true, false, ◌&&◌, not, Option, none, some, if◌then◌else◌, arith,
}
use snap_cook.Web.Tokens.{ApiToken, is_unset, is_before, is_listed_active, is_active}

expiry : (now t : ℕ) → not (ltb t now) ≡ true → ltb now t ≡ false → t ≡ now
expiry now t h k = ground arith

-- On the two times of a row.
active_times :
    (now : ℕ) (revoked_at expires_at : Option ℕ)
    → ((if is_unset revoked_at then elim expires_at [ none ↦ true | some t ↦ ltb now t ] else false)
          ≡ true
        → (is_unset revoked_at && not (is_before expires_at now)) ≡ true)
      × ((is_unset revoked_at && not (is_before expires_at now)) ≡ true
          → (if is_unset revoked_at
              then elim expires_at [ none ↦ true | some t ↦ ltb now t ]
              else false)
            ≡ false
          → expires_at ≡ some now)
active_times now (some r) expires_at = ((λ h. cc), (λ h k. cc))
active_times now none none = ((λ h. refl), (λ h k. cc))
active_times now none (some t) = ((λ h. ground arith), (λ h k. ap some (expiry now t h k)))

-- A token that `is_active` calls active is in `active()`; one that is in `active()` but not active
-- for `is_active` expires at this very time.
pub is_active-is_listed_active :
    (now : ℕ) (row : ApiToken)
    → (is_active now row ≡ true → is_listed_active now row ≡ true)
      × (is_listed_active now row ≡ true → is_active now row ≡ false → row.expires_at ≡ some now)
unfolding is_active is_listed_active
is_active-is_listed_active now row = active_times now row.revoked_at row.expires_at

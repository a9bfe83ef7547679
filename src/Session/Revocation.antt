-- ===== src/Session/Revocation.antt =====
-- auth_session.py: `is_active`, `revoke` and `accepts_refresh`.
use andruha_identity_service.Prelude.{
  ◌≤◌, ◌<◌, ◌≡◌, refl, ◌≢◌, ◌↔◌, Bool, true, false, none, some, arith, leb, if◌then◌else◌, is_some,
  if_ind,
}
use andruha_identity_service.Errors.{Result, ok, raise, auth_session_inactive}
use andruha_identity_service.Clock.{DateTime}
use andruha_identity_service.Session.{
  RefreshToken, AuthSession, is_used, is_active, revoke, accepts_refresh,
}
use andruha_identity_service.Session.Valid.{IsValid, validate_session_iff}

-- A live session: not revoked, and `now` lies between its creation and its idle deadline.
pub record IsLive (now : DateTime) (s : AuthSession) : Type 0 where
  pub aware : now.aware ≡ true
  pub kept : s.revoked_at ≡ none
  pub begun : s.created_at.instant ≤ now.instant
  pub fresh : now.instant < s.idle_expires_at.instant

pub is_active_iff : (now : DateTime) (s : AuthSession) → (is_active now s ≡ ok true) ↔ IsLive now s
unfolding is_active
is_active_iff now s = (
  λ h. record {
    aware = ground arith;
    kept = ground arith;
    begun = ground arith;
    fresh = ground arith;
  },
  λ l. ground (arith, l.aware, l.kept, l.begun, l.fresh),
)

-- The session after a revocation at `now`: the first revocation stays.
abbrev pub revoked : DateTime → AuthSession → AuthSession
revoked now s = if is_some s.revoked_at then s else record s { revoked_at = some now }

revoked-IsValid :
    (now : DateTime) (s : AuthSession)
    → IsValid s
    → now.aware ≡ true
    → s.created_at.instant ≤ now.instant
    → IsValid (record s { revoked_at = some now })
revoked-IsValid now s v a o = record {
  created_aware = v.created_aware;
  idle_aware = v.idle_aware;
  lives = v.lives;
  revoked = (a, o);
  presented = v.presented;
  replacement = v.replacement;
  rotated = v.rotated;
}

revoke-succeeds :
    (now : DateTime) (s : AuthSession)
    → IsValid s
    → now.aware ≡ true
    → s.created_at.instant ≤ now.instant
    → revoke now s ≡ ok (revoked now s)
unfolding revoke
revoke-succeeds now s v a o = ground (
  arith,
  (validate_session_iff (record s { revoked_at = some now }) (record s { revoked_at = some now })).1
      (refl, revoked-IsValid now s v a o),
)

-- `revoke` of a valid session, at an aware time not before its creation, gives a valid session
-- that is revoked, at the first of the times at which it was; no time makes it active again.
pub revoke-IsValid :
    (now : DateTime) (s : AuthSession)
    → IsValid s
    → now.aware ≡ true
    → s.created_at.instant ≤ now.instant
    → (revoke now s ≡ ok (revoked now s))
      × IsValid (revoked now s)
      × ((later : DateTime) → is_active later (revoked now s) ≢ ok true)
revoke-IsValid now s v a o = (
  revoke-succeeds now s v a o,
  revoked-valid,
  λ later h. inactive later ((is_active_iff later (revoked now s)).0 h).kept,
)
  where
    revoked-valid : IsValid (revoked now s)
    revoked-valid =
        if_ind IsValid (is_some s.revoked_at) (λ _. v) (λ _. revoked-IsValid now s v a o)

    inactive : (later : DateTime) → (revoked now s).revoked_at ≡ none → ⊥
    inactive later h = ground arith

-- What `accepts_refresh` answers.
abbrev pub answer : DateTime → Bool → RefreshToken → AuthSession → Result (Bool × AuthSession)
answer now able t s =
    if is_used t
    then ok (false, revoked now s)
    else if is_some s.revoked_at
    then raise auth_session_inactive
    else if leb s.idle_expires_at.instant now.instant
    then raise auth_session_inactive
    else if able
    then ok (true, s)
    else ok (false, revoked now s)

-- On a valid session, at an aware time not before its creation, `accepts_refresh` refuses a used
-- token and revokes the session, whatever else holds; for an unused one it raises if the session
-- is revoked or past its idle deadline, revokes the session of an account that may not
-- authenticate, and says yes, changing nothing, to the rest.
pub accepts_refresh_cases :
    (now : DateTime) (able : Bool) (t : RefreshToken) (s : AuthSession)
    → s.refresh_token ≡ some t
    → IsValid s
    → now.aware ≡ true
    → s.created_at.instant ≤ now.instant
    → accepts_refresh now able s ≡ answer now able t s
unfolding accepts_refresh
accepts_refresh_cases now able t s p v a o = ground (arith, revoke-succeeds now s v a o)

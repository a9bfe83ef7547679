-- ===== src/Auth/Replaying.antt =====
-- application/use_cases/refresh/handler.py: the check of the session of a token that is delivered.
use andruha_identity_service.Prelude.{
  ◌≤◌, ◌<◌, ◌≡◌, refl, sym, ap, ◌∙◌, subst, inl, inr, true, not, Option, none, some, arith,
  Option-cases,
}
use andruha_identity_service.Errors.{Result, ok, raise, raise_if, invalid_refresh_token}
use andruha_identity_service.Clock.{DateTime}
use andruha_identity_service.Session.{AuthSession, RefreshToken, can_replay}
use andruha_identity_service.Session.Revocation.{IsLive, is_active_iff}
use andruha_identity_service.SessionStore.{SessionRow}
use andruha_identity_service.SessionStore.Writing.{>>=-ok, joined}
use andruha_identity_service.Auth.Tokens.{TokenPair}
use andruha_identity_service.Auth.Refresh.{check_replay, as_unavailable}

pub replay-IsLive :
    (now : DateTime) (s : AuthSession)
    → can_replay now s ≡ ok true
    → IsLive now s × (t : RefreshToken) × (s.refresh_token ≡ some t) × (t.used_at ≡ none)
unfolding can_replay
replay-IsLive now s h = elim (Option-cases s.refresh_token) [
  | inl n ↦ absurd (ground (arith, h, n))
  | inr (t, e) ↦ ((is_active_iff now s).0 (ground (arith, h, e)), t, e, ground (arith, h, e))
]

pub check-live :
    (now : DateTime) (o : Option AuthSession)
    → check_replay now o ≡ ok tt
    → (s : AuthSession) × (o ≡ some s) × (can_replay now s ≡ ok true)
unfolding check_replay
check-live now none h = absurd (ground arith)
check-live now (some s) h =
    let (able, e, rest) =
      >>=-ok (can_replay now s) (λ able. raise_if (not able) invalid_refresh_token) tt h in
    (s, refl, e ∙ ap ok (ground (arith, rest)))

pub as_unavailable-ok : (r : Result TokenPair) (a : TokenPair) → as_unavailable r ≡ ok a → r ≡ ok a
as_unavailable-ok (ok b) a h = h
as_unavailable-ok (raise e) a h = absurd (ground arith)

pub shown_token :
    (s : AuthSession) (shown t : RefreshToken) (row : SessionRow)
    → s.refresh_token ≡ some shown
    → s ≡ joined row t
    → shown ≡ t
shown_token s shown t row presents same =
    let e = sym presents ∙ ap (λ (x : AuthSession). x.refresh_token) same in ground (arith, e)

pub live_row :
    (now : DateTime) (s : AuthSession) (t : RefreshToken) (row : SessionRow)
    → s ≡ joined row t
    → IsLive now s
    → (row.revoked_at ≡ none)
      × (row.created_at.instant ≤ now.instant)
      × (now.instant < row.idle_expires_at.instant)
live_row now s t row same live = let l = subst (IsLive now) same live in (l.kept, l.begun, l.fresh)

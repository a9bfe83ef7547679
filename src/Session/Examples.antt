-- ===== src/Session/Examples.antt =====
-- A session that is started at 100 for 50 ticks, rotated at 120, and revoked.
use andruha_identity_service.Prelude.{
  ℕ, ◌≤◌, ◌≡◌, refl, ◌≢◌, ◌↔◌, ◌⊎◌, Bool, true, false, none, some, arith,
}
use andruha_identity_service.Errors.{ok, raise, refresh_token_reuse, auth_session_inactive}
use andruha_identity_service.Clock.{DateTime, pos, ◌+ℤ◌, max_instant, Bytes}
use andruha_identity_service.Session.{
  RefreshToken, AuthSession, validate_session, validate_token, is_active, accepts_refresh, start,
  rotate, can_replay,
}
use andruha_identity_service.Session.Valid.{
  IsValid, IsValidToken, validate_session_iff, validate_token_iff,
}
use andruha_identity_service.Session.Revocation.{answer, accepts_refresh_cases}
use andruha_identity_service.Session.Rotation.{CanRotate, issued, rotated, rotate_iff, rotate_once}
use andruha_identity_service.Session.Lifecycle.{
  here, next, rotating, Reach-start-IsValid, Reach-revoked, start_iff,
}

abbrev at : ℕ → DateTime
at t = record { aware = true; instant = t }

abbrev digest : ℕ → Bytes
digest n = record { size = 32; value = n }

abbrev first : RefreshToken
first = record {
  id = 2;
  created_at = at 100;
  session_id = 1;
  token_hash = digest 7;
  used_at = none;
}

abbrev young : AuthSession
young = record {
  id = 1;
  created_at = at 100;
  user_id = 3;
  idle_expires_at = at 150;
  revoked_at = none;
  refresh_token = some first;
  replacement_token = none;
}

abbrev turned : AuthSession
turned = rotated (at 120) (pos 50) (digest 8) 4 first young

abbrev gone : AuthSession
gone = record young { revoked_at = some (at 110) }

young-start : start 1 2 3 (digest 7) (at 100) (pos 50) ≡ ok young
unfolding start max_instant
young-start = refl

turned-rotate :
    rotate (at 120) (pos 50) (digest 8) 4 young ≡ ok (issued (at 120) (digest 8) 4 young, turned)
unfolding rotate max_instant
turned-rotate = refl

young-accepted : validate_session young ≡ ok young
unfolding validate_session
young-accepted = refl

first-accepted : validate_token first ≡ ok first
unfolding validate_token
first-accepted = refl

young-IsValid : IsValid young
young-IsValid = ((validate_session_iff young young).0 young-accepted).1

first-IsValidToken : IsValidToken first
first-IsValidToken = ((validate_token_iff first first).0 first-accepted).1

accepts_refresh_cases_example :
    accepts_refresh (at 130) false young ≡ answer (at 130) false first young
accepts_refresh_cases_example =
    accepts_refresh_cases (at 130) false first young refl young-IsValid refl (omega arith)

rotate_iff_example :
    (rotate (at 120) (pos 50) (digest 8) 4 young ≡ ok (issued (at 120) (digest 8) 4 young, turned))
    ↔ (CanRotate (at 120) (pos 50) (digest 8) 4 first young
        × (issued (at 120) (digest 8) 4 young ≡ issued (at 120) (digest 8) 4 young)
        × (turned ≡ turned))
rotate_iff_example =
    rotate_iff (at 120) (pos 50) (digest 8) 4 first young refl (issued (at 120) (digest 8) 4 young)
      turned young-IsValid first-IsValidToken

rotate_once_example :
    ((rotate (at 130) (pos 50) (digest 9) 5 turned ≡ raise refresh_token_reuse)
      ⊎ (rotate (at 130) (pos 50) (digest 9) 5 turned ≡ raise auth_session_inactive))
    × ((able : Bool)
        → accepts_refresh (at 130) able turned
          ≡ ok (false, record turned { revoked_at = some (at 130) }))
rotate_once_example =
    rotate_once (at 120) (pos 50) (digest 8) 4 first young refl (issued (at 120) (digest 8) 4 young)
      turned (at 130) (pos 50) (digest 9) 5 turned-rotate refl refl (omega arith)

Reach-start-IsValid_example : IsValid turned
Reach-start-IsValid_example =
    Reach-start-IsValid 1 2 3 (digest 7) (at 100) (pos 50) young turned young-start (
      next here (
        rotating (at 120) (pos 50) (digest 8) 4 (issued (at 120) (digest 8) 4 young) turned-rotate))

Reach-revoked_example : (gone ≡ gone) × (is_active (at 120) gone ≢ ok true)
Reach-revoked_example = Reach-revoked (at 120) refl here

start_iff_example :
    ((◌≡◌ {A = Bool} true true)
        × (◌≡◌ {A = Bool} true true)
        × (◌≡◌ {A = ℕ} 32 32)
        × (150 ≤ max_instant)
      → (s : AuthSession) × (start 1 2 3 (digest 7) (at 100) (pos 50) ≡ ok s)
        × (is_active (at 100) s ≡ ok true)
        × (can_replay (at 100) s ≡ ok true)
        × (s.idle_expires_at ≡ at 100 +ℤ pos 50)
        × (s.user_id ≡ 3))
    × ((s : AuthSession)
        → start 1 2 3 (digest 7) (at 100) (pos 50) ≡ ok s
        → (◌≡◌ {A = Bool} true true)
          × (◌≡◌ {A = Bool} true true)
          × (◌≡◌ {A = ℕ} 32 32)
          × (150 ≤ max_instant))
start_iff_example = start_iff 1 2 3 (digest 7) (at 100) (pos 50)

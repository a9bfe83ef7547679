-- ===== src/Session/Rotation.antt =====
-- auth_session.py: `rotate` consumes the presented token once.
use andruha_identity_service.Prelude.{
  ℕ, ◌≤◌, ◌≡◌, refl, subst, ◌≢◌, ◌↔◌, ◌⊎◌, Bool, true, false, none, some, arith,
}
use andruha_identity_service.Errors.{ok, raise, auth_session_inactive, refresh_token_reuse}
use andruha_identity_service.Clock.{DateTime, ℤ, is_positive, ◌+ℤ◌, max_instant, Bytes}
use andruha_identity_service.Session.{
  RefreshToken, AuthSession, rotate, validate_session, accepts_refresh,
}
use andruha_identity_service.Session.Revocation.{IsLive, accepts_refresh_cases}
use andruha_identity_service.Session.Valid.{IsValid, IsValidToken, validate_session_iff}

-- The token that replaces the presented one.
abbrev pub issued : DateTime → Bytes → ℕ → AuthSession → RefreshToken
issued now token_hash token_id s = record {
  id = token_id;
  created_at = now;
  session_id = s.id;
  token_hash = token_hash;
  used_at = none;
}

abbrev pub rotated : DateTime → ℤ → Bytes → ℕ → RefreshToken → AuthSession → AuthSession
rotated now ttl token_hash token_id t s = record s {
  refresh_token = some (record t { used_at = some now });
  replacement_token = some (issued now token_hash token_id s);
  idle_expires_at = now +ℤ ttl;
}

-- What a rotation needs of its arguments, the session and the presented token.
pub record CanRotate (now : DateTime) (ttl : ℤ) (token_hash : Bytes) (token_id : ℕ)
    (t : RefreshToken) (s : AuthSession) : Type 0 where
  pub live : IsLive now s
  pub lasts : is_positive ttl ≡ true
  pub fits : (now +ℤ ttl).instant ≤ max_instant
  pub unused : t.used_at ≡ none
  pub older : t.created_at.instant ≤ now.instant
  pub sized : token_hash.size ≡ 32
  pub other_hash : token_hash ≢ t.token_hash
  pub other_id : token_id ≢ t.id

module _ (now : DateTime) (ttl : ℤ) (token_hash : Bytes) (token_id : ℕ) (t : RefreshToken)
    (s : AuthSession) (presented : s.refresh_token ≡ some t) where
  pub rotate-ok :
      (r : RefreshToken) (s' : AuthSession)
      → rotate now ttl token_hash token_id s ≡ ok (r, s')
      → (r ≡ issued now token_hash token_id s) × (s' ≡ rotated now ttl token_hash token_id t s)
  unfolding rotate
  rotate-ok r s' h = (ground arith, ground arith)

  rotate-CanRotate :
      (r : RefreshToken) (s' : AuthSession)
      → rotate now ttl token_hash token_id s ≡ ok (r, s')
      → CanRotate now ttl token_hash token_id t s
  unfolding rotate
  rotate-CanRotate r s' h = record {
    live = record {
      aware = ground arith;
      kept = ground arith;
      begun = ground arith;
      fresh = ground arith;
    };
    lasts = ground arith;
    fits = ground arith;
    unused = ground arith;
    older = ground arith;
    sized = ground arith;
    other_hash = λ e. ground arith;
    other_id = λ e. ground arith;
  }

  rotate-succeeds :
      IsValid s
      → IsValidToken t
      → CanRotate now ttl token_hash token_id t s
      → rotate now ttl token_hash token_id s
        ≡ ok (issued now token_hash token_id s, rotated now ttl token_hash token_id t s)
  unfolding rotate
  rotate-succeeds v w c = ground (
    arith, v.presented, v.created_aware, v.idle_aware, v.revoked, c.live.aware, c.live.kept,
    c.live.begun, c.live.fresh, c.lasts, c.fits, c.unused, c.older, c.sized, c.other_hash,
    c.other_id,
  )

  -- On a valid session with a valid presented token, `rotate` succeeds exactly when the session is
  -- live, the lifetime is positive, `now` plus the lifetime is a time
  -- that a `datetime` can be, the token is unused and not newer than `now`, and the new hash
  -- and identifier are fresh; then the token is consumed at `now`, the replacement stands beside it
  -- and the idle deadline moves to `now` plus the lifetime.
  pub rotate_iff :
      (r : RefreshToken) (s' : AuthSession)
      → IsValid s
      → IsValidToken t
      → (rotate now ttl token_hash token_id s ≡ ok (r, s')) ↔ (
          CanRotate now ttl token_hash token_id t s
          × (r ≡ issued now token_hash token_id s)
          × (s' ≡ rotated now ttl token_hash token_id t s))
  rotate_iff r s' v w = (
    λ h. (rotate-CanRotate r s' h, (rotate-ok r s' h).0, (rotate-ok r s' h).1),
    λ (c, e, f). rw (e, f) (rotate-succeeds v w c),
  )

  rotated-raises :
      (later : DateTime) (ttl' : ℤ) (hash' : Bytes) (id' : ℕ)
      → is_positive ttl' ≡ true
      → later.aware ≡ true
      → (rotate later ttl' hash' id' (rotated now ttl token_hash token_id t s)
          ≡ raise refresh_token_reuse)
        ⊎ (rotate later ttl' hash' id' (rotated now ttl token_hash token_id t s)
            ≡ raise auth_session_inactive)
  unfolding rotate
  rotated-raises later ttl' hash' id' p a = ground arith

  rotate-validated :
      (r : RefreshToken) (s' : AuthSession)
      → rotate now ttl token_hash token_id s ≡ ok (r, s')
      → validate_session s' ≡ ok s'
  unfolding rotate
  rotate-validated r s' h = ground arith

  accepts-rotated :
      (later : DateTime) (able : Bool)
      → s.revoked_at ≡ none
      → IsValid (rotated now ttl token_hash token_id t s)
      → later.aware ≡ true
      → s.created_at.instant ≤ later.instant
      → accepts_refresh later able (rotated now ttl token_hash token_id t s)
        ≡ ok (false, record (rotated now ttl token_hash token_id t s) { revoked_at = some later })
  accepts-rotated later able kept v a o =
      let s' = rotated now ttl token_hash token_id t s in
      ground
        (arith, accepts_refresh_cases later able (record t { used_at = some now }) s' refl v a o)

  -- A presented token is used once: after a rotation, at any aware time that is not before it,
  -- `rotate` with a positive lifetime reports the reuse or an inactive session, and
  -- `accepts_refresh` answers no and leaves the session revoked.
  pub rotate_once :
      (r : RefreshToken) (s' : AuthSession) (later : DateTime) (ttl' : ℤ) (hash' : Bytes) (id' : ℕ)
      → rotate now ttl token_hash token_id s ≡ ok (r, s')
      → later.aware ≡ true
      → is_positive ttl' ≡ true
      → now.instant ≤ later.instant
      → ((rotate later ttl' hash' id' s' ≡ raise refresh_token_reuse)
          ⊎ (rotate later ttl' hash' id' s' ≡ raise auth_session_inactive))
        × ((able : Bool)
            → accepts_refresh later able s' ≡ ok (false, record s' { revoked_at = some later }))
  rotate_once r s' later ttl' hash' id' h a p o =
      let c = rotate-CanRotate r s' h in
      (
        rw ((rotate-ok r s' h).1) (rotated-raises later ttl' hash' id' p a),
        λ able. rw ((rotate-ok r s' h).1) (
            accepts-rotated later able c.live.kept
              (subst IsValid ((rotate-ok r s' h).1)
                ((validate_session_iff s' s').0 (rotate-validated r s' h)).1)
              a (omega (arith, c.live.begun, o))),
      )

-- ===== src/Session.antt =====
-- domain/entities/refresh_token.py and domain/aggregates/auth_session.py. A model is a record; its
-- validators run on the whole candidate state, as `_change_state` of domain/base.py makes them, so
-- a method returns the new object or the error, and an error leaves the object as it was.
pub mod Valid
pub mod Revocation
pub mod Rotation
pub mod Lifecycle
pub mod Examples
use andruha_identity_service.Prelude.{
  ℕ, zero, suc, ◌+◌, ◌-◌, ◌*◌, ◌/◌, ◌%◌, ◌≤◌, ◌<◌, min, max, String, ◌≡◌, refl, sym, ap, ◌∙◌, subst,
  ◌≢◌, ◌↔◌, ◌⊎◌, inl, inr, Bool, true, false, not, ◌&&◌, ◌||◌, Option, none, some, List, [], ◌∷◌,
  ◌++◌, map, arith, str_eq, eq_iff, ltb, leb, ◌==◌, if◌then◌else◌, is_some, holds, Bool-cases,
  Option-cases, ==-refl, ltb-of_lt, leb-of_le, length, take, length-append, All, All-append,
  All-append_left, All-append_right, All-imp,
}
use andruha_identity_service.Errors.{
  Error, Result, ok, raise, raise_if, ◌>>=◌, ◌>>◌, invalid_domain_state, invalid_timestamp,
  invalid_session_lifetime, invalid_refresh_token, auth_session_inactive, refresh_token_reuse,
}
use andruha_identity_service.Clock.{
  DateTime, ℤ, is_positive, checked_add, before, not_after, require_aware, Bytes, same_bytes,
}

pub record RefreshToken : Type 0 where
  pub id : ℕ
  pub created_at : DateTime
  pub session_id : ℕ
  pub token_hash : Bytes
  pub used_at : Option DateTime

-- A later time of the entity: aware, and not before the creation.
abbrev pub check_since : DateTime → Option DateTime → Result (Unit {0})
check_since created none = ok tt
check_since created (some t) = do require_aware t; raise_if (before t created) invalid_timestamp

-- `RefreshToken.model_validate`: the length of the hash, `validate_created_at`, `validate_used_at`
unfoldable pub validate_token : RefreshToken → Result RefreshToken
validate_token t = do
  raise_if (not (t.token_hash.size == 32)) invalid_domain_state
  require_aware t.created_at
  check_since t.created_at t.used_at
  ok t

abbrev pub is_used : RefreshToken → Bool
is_used t = is_some t.used_at

-- `_consumed`
unfoldable pub consumed : DateTime → RefreshToken → Result RefreshToken
unfolding validate_token
consumed now t = do
  raise_if (is_used t) refresh_token_reuse
  validate_token (record t { used_at = some now })

pub record AuthSession : Type 0 where
  pub id : ℕ
  pub created_at : DateTime
  pub user_id : ℕ
  pub idle_expires_at : DateTime
  pub revoked_at : Option DateTime
  pub refresh_token : Option RefreshToken
  pub replacement_token : Option RefreshToken

abbrev foreign_token : AuthSession → Option RefreshToken → Bool
foreign_token s none = false
foreign_token s (some t) = not (t.session_id == s.id) || before t.created_at s.created_at

abbrev bad_replacement : Option RefreshToken → Option RefreshToken → Bool
bad_replacement none presented = false
bad_replacement (some r) none = true
bad_replacement (some r) (some t) =
    not (is_used t) || (is_used r || (r.id == t.id || same_bytes r.token_hash t.token_hash))

-- `AuthSession.model_validate`: `validate_created_at`, then `validate_lifecycle`
unfoldable pub validate_session : AuthSession → Result AuthSession
validate_session s = do
  require_aware s.created_at
  require_aware s.idle_expires_at
  raise_if (not_after s.idle_expires_at s.created_at) invalid_timestamp
  check_since s.created_at s.revoked_at
  raise_if (foreign_token s s.refresh_token) invalid_domain_state
  raise_if (foreign_token s s.replacement_token) invalid_domain_state
  raise_if (bad_replacement s.replacement_token s.refresh_token) invalid_domain_state
  ok s

-- `_validate_ttl`
abbrev validate_ttl : ℤ → Result (Unit {0})
validate_ttl ttl = raise_if (not (is_positive ttl)) invalid_session_lifetime

-- `start`; the two identifiers are those that `uuid7` gives.
unfoldable pub start : (session_id token_id user_id : ℕ) → Bytes → DateTime → ℤ → Result AuthSession
unfolding validate_session validate_token
start session_id token_id user_id token_hash now idle_ttl = do
  validate_ttl idle_ttl
  idle_expires_at ← checked_add now idle_ttl
  token ← validate_token (record {
    id = token_id;
    created_at = now;
    session_id = session_id;
    token_hash = token_hash;
    used_at = none;
  })
  validate_session (record {
    id = session_id;
    created_at = now;
    user_id = user_id;
    idle_expires_at = idle_expires_at;
    revoked_at = none;
    refresh_token = some token;
    replacement_token = none;
  })

-- `is_active`
unfoldable pub is_active : DateTime → AuthSession → Result Bool
is_active now s = do
  require_aware now
  ok (not (is_some s.revoked_at) && (not_after s.created_at now && before now s.idle_expires_at))

abbrev require_token : AuthSession → Result RefreshToken
require_token s = elim s.refresh_token [ none ↦ raise invalid_refresh_token | some t ↦ ok t ]

-- `revoke`
unfoldable pub revoke : DateTime → AuthSession → Result AuthSession
unfolding validate_session
revoke now s =
    if is_some s.revoked_at then ok s else validate_session (record s { revoked_at = some now })

-- `accepts_refresh`: the answer, and the session with a revocation that the answer implies
unfoldable pub accepts_refresh : DateTime → Bool → AuthSession → Result (Bool × AuthSession)
unfolding is_active
accepts_refresh now user_can_authenticate s = do
  token ← require_token s
  if is_used token then (do s' ← revoke now s; ok (false, s')) else do
    active ← is_active now s
    raise_if (not active) auth_session_inactive
    if not user_can_authenticate then (do s' ← revoke now s; ok (false, s')) else ok (true, s)

-- `rotate`; `token_id` is the identifier that `uuid7` gives the replacement.
unfoldable pub rotate : DateTime → ℤ → Bytes → ℕ → AuthSession → Result (RefreshToken × AuthSession)
unfolding is_active consumed validate_session validate_token
rotate now idle_ttl token_hash token_id s = do
  validate_ttl idle_ttl
  active ← is_active now s
  raise_if (not active) auth_session_inactive
  token ← require_token s
  raise_if (is_used token) refresh_token_reuse
  replacement ← validate_token (record {
    id = token_id;
    created_at = now;
    session_id = s.id;
    token_hash = token_hash;
    used_at = none;
  })
  used ← consumed now token
  idle_expires_at ← checked_add now idle_ttl
  s' ← validate_session (record s {
    refresh_token = some used;
    replacement_token = some replacement;
    idle_expires_at = idle_expires_at;
  })
  ok (replacement, s')

-- `can_replay`
unfoldable pub can_replay : DateTime → AuthSession → Result Bool
unfolding is_active
can_replay now s = do token ← require_token s; if is_used token then ok false else is_active now s

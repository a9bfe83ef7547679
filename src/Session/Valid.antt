-- ===== src/Session/Valid.antt =====
-- auth_session.py, refresh_token.py: what the validators accept, said without them.
use andruha_identity_service.Prelude.{
  ℕ, ◌≤◌, ◌<◌, ◌≡◌, refl, ◌≢◌, ◌↔◌, true, false, Option, none, some, arith,
}
use andruha_identity_service.Errors.{ok}
use andruha_identity_service.Clock.{DateTime, Bytes, same_bytes}
use andruha_identity_service.Session.{
  RefreshToken, AuthSession, is_used, check_since, validate_token, validate_session, foreign_token,
  bad_replacement,
}

abbrev pub Since : DateTime → Option DateTime → Type 0
Since created none = Unit
Since created (some t) = (t.aware ≡ true) × (created.instant ≤ t.instant)

pub record IsValidToken (t : RefreshToken) : Type 0 where
  pub sized : t.token_hash.size ≡ 32
  pub aware : t.created_at.aware ≡ true
  pub used : Since t.created_at t.used_at

-- A token of the session, not older than it.
abbrev pub Owned : ℕ → DateTime → Option RefreshToken → Type 0
Owned session_id created none = Unit
Owned session_id created (some t) =
    (t.session_id ≡ session_id) × (created.instant ≤ t.created_at.instant)

-- A replacement is new, and stands beside the consumed token that it replaces.
abbrev pub Replaces : Option RefreshToken → Option RefreshToken → Type 0
Replaces none presented = Unit
Replaces (some r) none = ⊥
Replaces (some r) (some t) =
    (is_used t ≡ true) × (r.used_at ≡ none) × (r.id ≢ t.id) × (r.token_hash ≢ t.token_hash)

pub record IsValid (s : AuthSession) : Type 0 where
  pub created_aware : s.created_at.aware ≡ true
  pub idle_aware : s.idle_expires_at.aware ≡ true
  pub lives : s.created_at.instant < s.idle_expires_at.instant
  pub revoked : Since s.created_at s.revoked_at
  pub presented : Owned s.id s.created_at s.refresh_token
  pub replacement : Owned s.id s.created_at s.replacement_token
  pub rotated : Replaces s.replacement_token s.refresh_token

check_since-ok : (c : DateTime) (o : Option DateTime) → check_since c o ≡ ok tt → Since c o
check_since-ok c none h = tt
check_since-ok c (some t) h = ground arith

check_since-accepts : (c : DateTime) (o : Option DateTime) → Since c o → check_since c o ≡ ok tt
check_since-accepts c none h = refl
check_since-accepts c (some t) h = ground arith

validate_token-ok :
    (t : RefreshToken) {u : RefreshToken} → validate_token t ≡ ok u → (u ≡ t) × IsValidToken t
unfolding validate_token
validate_token-ok t h = (ground arith, ground arith)

validate_token-accepts : (t : RefreshToken) → IsValidToken t → validate_token t ≡ ok t
unfolding validate_token
validate_token-accepts t h = ground arith

foreign_token-Owned :
    (s : AuthSession) (o : Option RefreshToken)
    → foreign_token s o ≡ false
    → Owned s.id s.created_at o
foreign_token-Owned s none h = tt
foreign_token-Owned s (some t) h = ground arith

Owned-foreign_token :
    (s : AuthSession) (o : Option RefreshToken)
    → Owned s.id s.created_at o
    → foreign_token s o ≡ false
Owned-foreign_token s none h = refl
Owned-foreign_token s (some t) h = ground arith

same_bytes-false : (a b : Bytes) → same_bytes a b ≡ false → a ≢ b
same_bytes-false a b h = ground arith

bad_replacement-Replaces : (r t : Option RefreshToken) → bad_replacement r t ≡ false → Replaces r t
bad_replacement-Replaces none t h = tt
bad_replacement-Replaces (some r) none h = cc
bad_replacement-Replaces (some r) (some t) h =
    ground (arith, same_bytes-false r.token_hash t.token_hash)

Replaces-bad_replacement : (r t : Option RefreshToken) → Replaces r t → bad_replacement r t ≡ false
Replaces-bad_replacement none t h = refl
Replaces-bad_replacement (some r) none h = absurd h
Replaces-bad_replacement (some r) (some t) h = ground arith

validate_session-ok :
    (s : AuthSession) {u : AuthSession} → validate_session s ≡ ok u → (u ≡ s) × IsValid s
unfolding validate_session
validate_session-ok s h = (
  ground arith,
  record {
    created_aware = ground arith;
    idle_aware = ground arith;
    lives = ground arith;
    revoked = check_since-ok s.created_at s.revoked_at (ground arith);
    presented = foreign_token-Owned s s.refresh_token (ground arith);
    replacement = foreign_token-Owned s s.replacement_token (ground arith);
    rotated = bad_replacement-Replaces s.replacement_token s.refresh_token (ground arith);
  },
)

validate_session-accepts : (s : AuthSession) → IsValid s → validate_session s ≡ ok s
unfolding validate_session
validate_session-accepts s v = ground (
  arith,
  v.created_aware,
  v.idle_aware,
  v.lives,
  check_since-accepts s.created_at s.revoked_at v.revoked,
  Owned-foreign_token s s.refresh_token v.presented,
  Owned-foreign_token s s.replacement_token v.replacement,
  Replaces-bad_replacement s.replacement_token s.refresh_token v.rotated,
)

-- A candidate state of a session is accepted, unchanged, exactly when it is valid.
pub validate_session_iff : (s u : AuthSession) → (validate_session s ≡ ok u) ↔ ((u ≡ s) × IsValid s)
validate_session_iff s u = (validate_session-ok s, λ (e, v). rw e (validate_session-accepts s v))

-- The same of a refresh token.
pub validate_token_iff :
    (t u : RefreshToken) → (validate_token t ≡ ok u) ↔ ((u ≡ t) × IsValidToken t)
validate_token_iff t u = (validate_token-ok t, λ (e, v). rw e (validate_token-accepts t v))

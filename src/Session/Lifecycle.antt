-- ===== src/Session/Lifecycle.antt =====
-- auth_session.py: a session from its start over any sequence of its methods.
use andruha_identity_service.Prelude.{
  ℕ, ◌≤◌, ◌≡◌, refl, ap, ◌∙◌, ◌≢◌, ◌⊎◌, inl, inr, Bool, true, none, some, arith, is_some,
}
use andruha_identity_service.Errors.{ok}
use andruha_identity_service.Clock.{DateTime, ℤ, is_positive, ◌+ℤ◌, max_instant, Bytes}
use andruha_identity_service.Session.{
  RefreshToken, AuthSession, validate_session, is_active, revoke, accepts_refresh, start, rotate,
  can_replay,
}
use andruha_identity_service.Session.Valid.{IsValid, validate_session_iff}
use andruha_identity_service.Session.Revocation.{is_active_iff}

-- A method that returned, with its arguments and what it returned.
pub data Step : AuthSession → AuthSession → Type 0 where
  revoking : {s u : AuthSession} (now : DateTime) → revoke now s ≡ ok u → Step s u
  asking :
      {s u : AuthSession} (now : DateTime) (able yes_no : Bool)
      → accepts_refresh now able s ≡ ok (yes_no, u)
      → Step s u
  rotating :
      {s u : AuthSession} (now : DateTime) (ttl : ℤ) (hash : Bytes) (id : ℕ) (r : RefreshToken)
      → rotate now ttl hash id s ≡ ok (r, u)
      → Step s u

pub data Reach (s : AuthSession) : AuthSession → Type 0 where
  here : Reach s s
  next : {t u : AuthSession} → Reach s t → Step t u → Reach s u

start-valid :
    (session_id token_id user_id : ℕ) (hash : Bytes) (now : DateTime) (ttl : ℤ) (s : AuthSession)
    → start session_id token_id user_id hash now ttl ≡ ok s
    → validate_session s ≡ ok s
unfolding start
start-valid session_id token_id user_id hash now ttl s h = ground arith

revoke-valid :
    (now : DateTime) (s u : AuthSession)
    → validate_session s ≡ ok s
    → revoke now s ≡ ok u
    → (u ≡ s) ⊎ (validate_session u ≡ ok u)
unfolding revoke
revoke-valid now s u v h = ground arith

asking-valid :
    (now : DateTime) (able yes_no : Bool) (s u : AuthSession)
    → accepts_refresh now able s ≡ ok (yes_no, u)
    → (u ≡ s) ⊎ (revoke now s ≡ ok u)
unfolding accepts_refresh
asking-valid now able yes_no s u h = ground arith

rotating-valid :
    (now : DateTime) (ttl : ℤ) (hash : Bytes) (id : ℕ) (r : RefreshToken) (s u : AuthSession)
    → rotate now ttl hash id s ≡ ok (r, u)
    → (validate_session u ≡ ok u) × (s.revoked_at ≡ none)
unfolding rotate
rotating-valid now ttl hash id r s u h = (ground arith, ground arith)

revoke-kept :
    (now : DateTime) (s u : AuthSession) → revoke now s ≡ ok u → s.revoked_at ≡ none ⊎ (u ≡ s)
unfolding revoke
revoke-kept now s u h = ground arith

revoke-keeps : (now : DateTime) (s u : AuthSession) → revoke now s ≡ ok u → IsValid s → IsValid u
revoke-keeps now s u h v = elim (revoke-valid now s u ((validate_session_iff s s).1 (refl, v)) h) [
  | inl same ↦ rw same v
  | inr new ↦ ((validate_session_iff u u).0 new).1
]

Step-IsValid : {s u : AuthSession} → Step s u → IsValid s → IsValid u
Step-IsValid {s} {u} (revoking now h) v = revoke-keeps now s u h v
Step-IsValid {s} {u} (asking now able yes_no h) v = elim (asking-valid now able yes_no s u h) [
  | inl same ↦ rw same v
  | inr gone ↦ revoke-keeps now s u gone v
]
Step-IsValid {s} {u} (rotating now ttl hash id r h) v =
    ((validate_session_iff u u).0 (rotating-valid now ttl hash id r s u h).0).1

Step-revoked : {s u : AuthSession} → Step s u → is_some s.revoked_at ≡ true → u ≡ s
Step-revoked {s} {u} (revoking now h) gone = ground (arith, revoke-kept now s u h)
Step-revoked {s} {u} (asking now able yes_no h) gone = elim (asking-valid now able yes_no s u h) [
  | inl same ↦ same
  | inr again ↦ ground (arith, revoke-kept now s u again)
]
Step-revoked {s} {u} (rotating now ttl hash id r h) gone =
    ground (arith, rotating-valid now ttl hash id r s u h)

Reach-IsValid : {s u : AuthSession} → Reach s u → IsValid s → IsValid u
Reach-IsValid here v = v
Reach-IsValid (next r st) v = Step-IsValid st (Reach-IsValid r v)

-- A session that has been started is valid after any methods that returned, in any order, with
-- any arguments.
pub Reach-start-IsValid :
    (session_id token_id user_id : ℕ) (hash : Bytes) (now : DateTime) (ttl : ℤ) (s u : AuthSession)
    → start session_id token_id user_id hash now ttl ≡ ok s
    → Reach s u
    → IsValid u
Reach-start-IsValid session_id token_id user_id hash now ttl s u h r =
    Reach-IsValid r
      ((validate_session_iff s s).0 (start-valid session_id token_id user_id hash now ttl s h)).1

-- A revoked session never changes again, whatever methods are called on it, and is never active.
pub Reach-revoked :
    {s u : AuthSession} (later : DateTime)
    → is_some s.revoked_at ≡ true
    → Reach s u
    → (u ≡ s) × (is_active later u ≢ ok true)
Reach-revoked {s} {u} later gone r = (same r, λ h. inactive h)
  where
    same : {t : AuthSession} → Reach s t → t ≡ s
    same here = refl
    same (next {t = t} q st) = let e = same q in Step-revoked st (rw e gone) ∙ e

    inactive : is_active later u ≡ ok true → ⊥
    inactive h =
        ground (
          arith,
          ((is_active_iff later u).0 h).kept,
          ap (λ (t : AuthSession). t.revoked_at) (same r),
        )

-- A session starts exactly when its lifetime is positive, the time is aware, the hash has 32 bytes
-- and the time plus the lifetime is a time that a `datetime` can be. Then it is live, its presented token is unused and can be replayed, and it ends after
-- the lifetime.
pub start_iff :
    (session_id token_id user_id : ℕ) (hash : Bytes) (now : DateTime) (ttl : ℤ)
    → ((is_positive ttl ≡ true)
          × (now.aware ≡ true)
          × (hash.size ≡ 32)
          × ((now +ℤ ttl).instant ≤ max_instant)
        → (s : AuthSession) × (start session_id token_id user_id hash now ttl ≡ ok s)
          × (is_active now s ≡ ok true)
          × (can_replay now s ≡ ok true)
          × (s.idle_expires_at ≡ now +ℤ ttl)
          × (s.user_id ≡ user_id))
      × ((s : AuthSession)
          → start session_id token_id user_id hash now ttl ≡ ok s
          → (is_positive ttl ≡ true)
            × (now.aware ≡ true)
            × (hash.size ≡ 32)
            × ((now +ℤ ttl).instant ≤ max_instant))
unfolding start is_active can_replay
start_iff session_id token_id user_id hash now ttl = (
  λ (p, a, z, f). (
    record {
      id = session_id;
      created_at = now;
      user_id = user_id;
      idle_expires_at = now +ℤ ttl;
      revoked_at = none;
      refresh_token = some (record {
        id = token_id;
        created_at = now;
        session_id = session_id;
        token_hash = hash;
        used_at = none;
      });
      replacement_token = none;
    },
    ground arith,
    ground arith,
    ground arith,
    refl,
    refl,
  ),
  λ s h. (ground arith, ground arith, ground arith, ground arith),
)

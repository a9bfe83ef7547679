-- ===== src/Auth/Fresh.antt =====
-- application/use_cases/login/handler.py: what a new session and a new pair look like.
use andruha_identity_service.Prelude.{ℕ, String, ◌≡◌, refl, true, none, some, arith, eq_iff}
use andruha_identity_service.Errors.{Result, ok}
use andruha_identity_service.UnitOfWork.{World, Run, close, transaction}
use andruha_identity_service.Clock.{DateTime, ℤ, Bytes}
use andruha_identity_service.Accounts.{User, can_authenticate}
use andruha_identity_service.Session.{
  AuthSession, RefreshToken, start, validate_session, validate_token,
}
use andruha_identity_service.SessionStore.{AuthDatabase}
use andruha_identity_service.Auth.Tokens.{
  IssuedTokenPair, Issuer, issue, issue_refresh, issued_refresh_token,
}
use andruha_identity_service.Auth.Login.{same_account}

-- A transaction that reports a value ran its body, and left what the body made.
pub transaction-ok :
    {A : Type 0} (w : World AuthDatabase) (body : AuthDatabase → Result (A × AuthDatabase))
    (run run' : Run AuthDatabase) (a : A)
    → transaction w body run ≡ (ok a, run')
    → body (w.others run.tick run.state) ≡ ok (a, run'.state)
unfolding transaction close
transaction-ok w body run run' a h = ground arith

-- The session and the token that `start` makes.
pub record Fresh (user_id : ℕ) (digest : Bytes) (s : AuthSession) : Type 0 where
  pub token : RefreshToken
  pub presents : s.refresh_token ≡ some token
  pub whose : s.user_id ≡ user_id
  pub kept : s.revoked_at ≡ none
  pub unused : token.used_at ≡ none
  pub owned : token.session_id ≡ s.id
  pub hashed : token.token_hash ≡ digest

pub start-Fresh :
    (session_id token_id user_id : ℕ) (digest : Bytes) (now : DateTime) (ttl : ℤ) (s : AuthSession)
    → start session_id token_id user_id digest now ttl ≡ ok s
    → Fresh user_id digest s
unfolding start validate_session validate_token
start-Fresh session_id token_id user_id digest now ttl s h = record {
  token = record {
    id = token_id;
    created_at = now;
    session_id = session_id;
    token_hash = digest;
    used_at = none;
  };
  presents = ground arith;
  whose = ground arith;
  kept = ground arith;
  unused = refl;
  owned = ground arith;
  hashed = refl;
}

pub issue-digest :
    (g : Issuer) (draw : ℕ) (u : User) (now : DateTime) (x : IssuedTokenPair)
    → issue g draw u now ≡ ok x
    → x.refresh_digest ≡ g.digest x.pair.refresh_token
unfolding issue issue_refresh issued_refresh_token
issue-digest g draw u now x h = ground arith

pub same_account-able :
    (hash : String) (u : User)
    → same_account hash u ≡ true
    → (can_authenticate u ≡ true) × (u.password_hash ≡ hash)
same_account-able hash u e = (ground arith, ground (arith, eq_iff u.password_hash hash))

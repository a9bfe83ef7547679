-- ===== src/Auth/Login.antt =====
-- application/use_cases/login/handler.py, logout/handler.py and get_current_user/handler.py.
use andruha_identity_service.Prelude.{
  ℕ, String, Bool, true, not, ◌&&◌, Option, none, some, str_eq, if◌then◌else◌,
}
use andruha_identity_service.Errors.{
  Result, ok, raise, raise_if, ◌>>=◌, ◌>>◌, invalid_credentials, invalid_token,
}
use andruha_identity_service.UnitOfWork.{World, Run, transaction, and_then}
use andruha_identity_service.Clock.{DateTime, ℤ}
use andruha_identity_service.Accounts.{User, can_authenticate, has_email}
use andruha_identity_service.Session.{AuthSession, start, revoke}
use andruha_identity_service.SessionStore.{
  AuthDatabase, has_user, load_user, create, save, get_by_refresh_hash_for_update,
}
use andruha_identity_service.Auth.Tokens.{TokenPair, Issuer, issue, Hasher, verify_or_dummy}

-- `LoginCommand`
pub record LoginCommand : Type 0 where
  pub email : String
  pub password : String

abbrev pub candidate_hash : Option User → Option String
candidate_hash none = none
candidate_hash (some u) = if can_authenticate u then some u.password_hash else none

-- The test on the row that was read again
abbrev pub same_account : String → User → Bool
same_account password_hash u = can_authenticate u && str_eq u.password_hash password_hash

module _ (w : World AuthDatabase) (g : Issuer) (h : Hasher) (idle_ttl : ℤ)
    (fresh_session fresh_token : ℕ → ℕ) where
  abbrev pub read_user : String → AuthDatabase → Result (Option User × AuthDatabase)
  read_user email db = load_user g.texts (has_email email) db >>= λ found. ok (found, db)

  unfoldable pub open_for :
      ℕ → String → Option User → AuthDatabase → Result (TokenPair × AuthDatabase)
  unfolding issue start create
  open_for tick password_hash none db = raise invalid_credentials
  open_for tick password_hash (some u) db = do
    raise_if (not (same_account password_hash u)) invalid_credentials
    issued ← issue g tick u (w.clock tick)
    s ←
        start (fresh_session tick) (fresh_token tick) u.id issued.refresh_digest (w.clock tick)
          idle_ttl
    created ← create s db
    ok (issued.pair, created)

  -- The second transaction of `LoginHandler.execute`
  unfoldable pub open_session :
      (tick user_id : ℕ) → String → AuthDatabase → Result (TokenPair × AuthDatabase)
  unfolding open_for
  open_session tick user_id password_hash db = do
    found ← load_user g.texts (has_user user_id) db
    open_for tick password_hash found db

  -- What the verification of the password leads to
  unfoldable pub verified :
      Option User
      → Option String
      → Result Bool
      → Run AuthDatabase
      → Result TokenPair × Run AuthDatabase
  unfolding open_session transaction
  verified candidate password_hash (raise e) run = (raise e, run)
  verified (some u) (some hash) (ok true) run = transaction w (open_session run.tick u.id hash) run
  verified _ _ (ok _) run = (raise invalid_credentials, run)

  -- `LoginHandler.execute`
  unfoldable pub login : LoginCommand → Run AuthDatabase → Result TokenPair × Run AuthDatabase
  unfolding transaction verify_or_dummy verified
  login command run = and_then (transaction w (read_user command.email) run) (λ candidate.
      verified candidate (candidate_hash candidate)
        (verify_or_dummy h command.password (candidate_hash candidate)))

  unfoldable pub close_found : DateTime → Option AuthSession → AuthDatabase → Result AuthDatabase
  unfolding revoke save
  close_found now none db = ok db
  close_found now (some s) db = revoke now s >>= λ revoked. save revoked db

  -- The transaction of `LogoutHandler.execute`
  unfoldable pub close_session : DateTime → String → AuthDatabase → Result (Unit {0} × AuthDatabase)
  unfolding get_by_refresh_hash_for_update close_found
  close_session now raw_token db = do
    found ← get_by_refresh_hash_for_update (g.digest raw_token) db
    saved ← close_found now found db
    ok (tt, saved)

  -- `LogoutHandler.execute`
  unfoldable pub logout : Option String → Run AuthDatabase → Result (Unit {0}) × Run AuthDatabase
  unfolding close_session transaction
  logout none run = (ok tt, run)
  logout (some raw_token) run = transaction w (close_session (w.clock run.tick) raw_token) run

  abbrev able : Option User → Result User
  able none = raise invalid_token
  able (some u) = raise_if (not (can_authenticate u)) invalid_token >> ok u

  -- The transaction of `GetCurrentUserHandler.execute`
  unfoldable pub read_current : ℕ → AuthDatabase → Result (User × AuthDatabase)
  read_current user_id db = do
    found ← load_user g.texts (has_user user_id) db
    u ← able found
    ok (u, db)

  -- `GetCurrentUserHandler.execute`, with the answer of the verifier of the access token
  unfoldable pub current_user : Result ℕ → Run AuthDatabase → Result User × Run AuthDatabase
  unfolding read_current transaction
  current_user (raise e) run = (raise e, run)
  current_user (ok user_id) run = transaction w (read_current user_id) run

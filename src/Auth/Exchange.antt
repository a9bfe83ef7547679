-- ===== src/Auth/Exchange.antt =====
-- application/use_cases/refresh/handler.py: `TransactionalRefreshOperation`. It runs once in a
-- transaction, so the time, the drawn token and the new identifier are arguments.
use andruha_identity_service.Prelude.{ℕ, String, Bool, false, Option, none, some, if◌then◌else◌}
use andruha_identity_service.Errors.{Result, ok, raise, ◌>>=◌, invalid_refresh_token}
use andruha_identity_service.Clock.{DateTime, ℤ, Bytes}
use andruha_identity_service.Accounts.{User, can_authenticate}
use andruha_identity_service.Session.{RefreshToken, AuthSession, accepts_refresh, rotate}
use andruha_identity_service.Idempotency.Record.{IdempotencyIdentity, StoredResult}
use andruha_identity_service.SessionStore.{
  AuthDatabase, has_user, load_user, save, get_by_refresh_hash_for_update,
}
use andruha_identity_service.Auth.Tokens.{TokenPair, Issuer, issue}

-- `ReplayResultProtectorProtocol`, with the JSON of a pair, of the associated data and of a UUID.
pub record Protector : Type 0 where
  pub dump_pair : TokenPair → String
  pub load_pair : String → Result TokenPair
  pub protect : String → (aad : String) → Result String
  pub restore : String → (aad : String) → Result String
  pub replay_aad : IdempotencyIdentity → Bytes → (result_type : String) → (version : ℕ) → String
  pub uuid_text : ℕ → String
  pub parse_uuid : String → Result ℕ

abbrev pub success_type : String
success_type = "auth.refresh.success"

abbrev pub rejected_type : String
rejected_type = "auth.refresh.rejected"

abbrev pub rejected_result : StoredResult
rejected_result = record {
  result_type = rejected_type;
  result_payload = some "{\"code\":\"invalid_refresh\"}";
  result_version = 1;
  resource_type = none;
  resource_id = none;
  resource_version = none;
}

abbrev pub success_result : Protector → String → RefreshToken → StoredResult
success_result p envelope replacement = record {
  result_type = success_type;
  result_payload = some envelope;
  result_version = 1;
  resource_type = some "refresh_token";
  resource_id = some (p.uuid_text replacement.id);
  resource_version = none;
}

-- `user is not None and user.can_authenticate`
abbrev pub may_authenticate : Option User → Bool
may_authenticate none = false
may_authenticate (some u) = can_authenticate u

module _ (g : Issuer) (p : Protector) (idle_ttl : ℤ) (i : IdempotencyIdentity)
    (request_hash : Bytes) (now : DateTime) (draw token_id : ℕ) where
  -- The exchange of an accepted token
  unfoldable pub exchange : User → AuthSession → AuthDatabase → Result (StoredResult × AuthDatabase)
  unfolding issue rotate save
  exchange u s db = do
    issued ← issue g draw u now
    (replacement, rotated) ← rotate now idle_ttl issued.refresh_digest token_id s
    saved ← save rotated db
    envelope ← p.protect (p.dump_pair issued.pair) (p.replay_aad i request_hash success_type 1)
    ok (success_result p envelope replacement, saved)

  unfoldable pub exchange_by :
      Option User → AuthSession → AuthDatabase → Result (StoredResult × AuthDatabase)
  unfolding exchange
  exchange_by none s db = raise invalid_refresh_token
  exchange_by (some u) s db = exchange u s db

  -- The decision on a session that was found
  unfoldable pub present :
      Option User → AuthSession → AuthDatabase → Result (StoredResult × AuthDatabase)
  unfolding accepts_refresh save exchange_by
  present user s db = do
    (accepted, s') ← accepts_refresh now (may_authenticate user) s
    if accepted then exchange_by user s' db else do saved ← save s' db; ok (rejected_result, saved)

  unfoldable pub present_found :
      Option AuthSession → AuthDatabase → Result (StoredResult × AuthDatabase)
  unfolding present
  present_found none db = raise invalid_refresh_token
  present_found (some s) db = do user ← load_user g.texts (has_user s.user_id) db; present user s db

  -- `TransactionalRefreshOperation.execute`
  unfoldable pub refresh_operation : String → AuthDatabase → Result (StoredResult × AuthDatabase)
  unfolding get_by_refresh_hash_for_update present_found
  refresh_operation raw_token db = do
    found ← get_by_refresh_hash_for_update (g.digest raw_token) db
    present_found found db

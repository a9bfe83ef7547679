-- ===== src/Auth/Refresh.antt =====
-- application/use_cases/refresh/handler.py: `RefreshHandler`, on the coordinator of idempotency. The
-- fingerprint of a request is a parameter.
use andruha_identity_service.Prelude.{
  ℕ, String, Bool, true, false, not, Option, none, some, str_eq, if◌then◌else◌,
}
use andruha_identity_service.Errors.{
  Error, Result, ok, raise, raise_if, ◌>>=◌, ◌>>◌, key_conflict, request_in_progress,
  replay_unavailable, runtime_error, value_error, invalid_refresh_token,
}
use andruha_identity_service.Clock.{DateTime, ℤ, Bytes}
use andruha_identity_service.Session.{AuthSession, can_replay}
use andruha_identity_service.Idempotency.Record.{
  IdempotencyIdentity, ExecutionOutcome, executed, replay, conflict, in_progress,
  CompletedIdempotencyResult, ExecutionResult,
}
use andruha_identity_service.Idempotency.Durable
use andruha_identity_service.Idempotency.Durable.{Store, Run}
use andruha_identity_service.Coordinator.Execute.{HotOps, Coordination, execute}
use andruha_identity_service.SessionStore.{AuthDatabase, get_by_refresh_id}
use andruha_identity_service.Auth.Tokens.{TokenPair, Issuer}
use andruha_identity_service.Auth.Exchange.{
  Protector, success_type, rejected_type, refresh_operation,
}

-- `RefreshCommand`
pub record RefreshCommand : Type 0 where
  pub key_hash : Bytes
  pub refresh_token : String

abbrev pub identity : RefreshCommand → IdempotencyIdentity
identity command = record {
  subject_id = "public-refresh";
  operation = "auth.refresh";
  key_hash = command.key_hash;
}

-- `session is None or not session.can_replay(...)`
unfoldable pub check_replay : DateTime → Option AuthSession → Result (Unit {0})
unfolding can_replay
check_replay now none = raise invalid_refresh_token
check_replay now (some s) = can_replay now s >>= λ able. raise_if (not able) invalid_refresh_token

abbrev is_value_error : Error → Bool
is_value_error value_error = true
is_value_error _ = false

-- `except ValueError`
abbrev pub as_unavailable : {A : Type 0} → Result A → Result A
as_unavailable (ok a) = ok a
as_unavailable (raise e) = if is_value_error e then raise replay_unavailable else raise e

module _ (w : Durable.World AuthDatabase) (g : Issuer) (p : Protector) (idle_ttl retention : ℤ)
    (fingerprint : Bytes → Bytes) (command : RefreshCommand) where
  abbrev pub request_hash : Bytes
  request_hash = fingerprint (g.digest command.refresh_token)

  -- The body of the transaction that looks at the session of a delivered token
  unfoldable pub check_session :
      DateTime → ℕ → Store AuthDatabase → Result (Unit {0} × Store AuthDatabase)
  unfolding get_by_refresh_id
  check_session now token_id s = do
    found ← get_by_refresh_id token_id s.state
    check_replay now found
    ok (tt, s)

  -- Reading the pair of a stored result
  unfoldable pub restored : CompletedIdempotencyResult → String → Result TokenPair
  restored c payload = do
    text ←
        p.restore payload (
          p.replay_aad (identity command) request_hash c.result.result_type c.result.result_version)
    p.load_pair text

  unfoldable pub after_check :
      CompletedIdempotencyResult
      → String
      → Result (Unit {0}) × Run AuthDatabase
      → Result TokenPair × Run AuthDatabase
  unfolding restored
  after_check c payload (checked, run) = (checked >>= λ _. restored c payload, run)

  unfoldable pub deliver_parsed :
      CompletedIdempotencyResult
      → (payload : String) → Result ℕ
      → Run AuthDatabase
      → Result TokenPair × Run AuthDatabase
  unfolding Durable.transaction check_session after_check
  deliver_parsed c payload (raise e) run = (raise e, run)
  deliver_parsed c payload (ok token_id) run = after_check c payload (
      Durable.transaction w retention (identity command) request_hash
        (check_session (w.clock run.tick) token_id) run)

  -- The `try` block at the end of `execute`
  unfoldable pub deliver :
      CompletedIdempotencyResult
      → (payload resource_id : String) → Run AuthDatabase
      → Result TokenPair × Run AuthDatabase
  unfolding deliver_parsed
  deliver c payload resource_id run = deliver_parsed c payload (p.parse_uuid resource_id) run

  abbrev pub guarded : Result TokenPair × Run AuthDatabase → Result TokenPair × Run AuthDatabase
  guarded (result, run) = (as_unavailable result, run)

  unfoldable pub successful :
      CompletedIdempotencyResult
      → Option String
      → Option String
      → Run AuthDatabase
      → Result TokenPair × Run AuthDatabase
  unfolding deliver
  successful c (some payload) (some id) run = guarded (deliver c payload id run)
  successful c _ _ run = (raise replay_unavailable, run)

  -- What `execute` makes of a completed result
  unfoldable pub answer_completed :
      CompletedIdempotencyResult → Run AuthDatabase → Result TokenPair × Run AuthDatabase
  unfolding successful
  answer_completed c run =
      if str_eq c.result.result_type rejected_type
      then (raise invalid_refresh_token, run)
      else if not (str_eq c.result.result_type success_type)
      then (raise replay_unavailable, run)
      else successful c c.result.result_payload c.result.resource_id run

  unfoldable pub completed_or :
      Option CompletedIdempotencyResult → Run AuthDatabase → Result TokenPair × Run AuthDatabase
  unfolding answer_completed
  completed_or none run = (raise runtime_error, run)
  completed_or (some c) run = answer_completed c run

  -- What `execute` makes of the answer of the coordinator
  unfoldable pub conclude :
      ExecutionOutcome
      → Option CompletedIdempotencyResult
      → Run AuthDatabase
      → Result TokenPair × Run AuthDatabase
  unfolding completed_or
  conclude conflict c run = (raise key_conflict, run)
  conclude in_progress c run = (raise request_in_progress, run)
  conclude executed c run = completed_or c run
  conclude replay c run = completed_or c run

  module _ {Hot : Type 0} where
    unfoldable pub concluded :
        Result ExecutionResult × Coordination Hot AuthDatabase
        → Result TokenPair × Coordination Hot AuthDatabase
    unfolding conclude
    concluded (raise e, c) = (raise e, c)
    concluded (ok r, c) =
        let (result, run) = conclude r.outcome r.completed c.run in (result, record c { run = run })

    -- `RefreshHandler.execute`
    unfoldable pub refresh :
        Option (HotOps Hot)
        → (owner lease beats : ℕ) → (now : DateTime) → (draw token_id : ℕ)
        → Coordination Hot AuthDatabase
        → Result TokenPair × Coordination Hot AuthDatabase
    unfolding execute concluded refresh_operation
    refresh store owner lease beats now draw token_id c = concluded (
        execute w retention (identity command) request_hash
          (refresh_operation g p idle_ttl (identity command) request_hash now draw token_id
            command.refresh_token)
          store owner lease beats c)

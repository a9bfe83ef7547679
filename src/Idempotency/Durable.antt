-- ===== src/Idempotency/Durable.antt =====
-- application/idempotency/durable.py. `State` is what the business operation writes, in the same
-- transaction as the record; the clock, how transactions end and what others commit before them come
-- from a `World`.
use andruha_identity_service.Prelude.{
  ℕ, ◌+◌, Bool, true, false, not, Option, none, some, List, ◌==◌, if◌then◌else◌,
}
use andruha_identity_service.Errors.{
  Error, Result, ok, raise, raise_if, ◌>>=◌, ◌>>◌, value_error, runtime_error, winner_committed,
}
use andruha_identity_service.UnitOfWork.{Commit, close}
use andruha_identity_service.Clock.{DateTime, ℤ, Bytes, same_bytes}
use andruha_identity_service.Idempotency.Record.{
  IdempotencyIdentity, ExecutionResult, executed, replay, conflict, StoredResult,
  CompletedIdempotencyResult, IdempotencyRecord, validate_completed, get_completed,
  try_add_completed,
}

pub record Store (State : Type 0) : Type 0 where
  pub records : List IdempotencyRecord
  pub state : State

pub record World (State : Type 0) : Type 0 where
  pub clock : ℕ → DateTime
  pub record_id : ℕ → ℕ
  pub commit : ℕ → Commit
  pub rollback : ℕ → Result (Unit {0})
  pub others : ℕ → Store State → Store State

pub record Run (State : Type 0) : Type 0 where
  pub store : Store State
  pub tick : ℕ

abbrev pub is_winner_committed : Error → Bool
is_winner_committed winner_committed = true
is_winner_committed _ = false

module _ {State : Type 0} (w : World State) (retention : ℤ) (i : IdempotencyIdentity)
    (request_hash : Bytes) where
  -- `async with self._uow`
  unfoldable pub transaction :
      {A : Type 0} → (Store State → Result (A × Store State)) → Run State → Result A × Run State
  unfolding close
  transaction body run =
      let before = w.others run.tick run.store in
      let (result, store) = close (w.commit run.tick) (w.rollback run.tick) before (body before) in
      (result, record { store = store; tick = run.tick + 1 })

  -- `_classify`
  unfoldable pub classify : CompletedIdempotencyResult → ExecutionResult
  classify c =
      if not (same_bytes c.request_hash request_hash)
      then record { outcome = conflict; completed = none }
      else record { outcome = replay; completed = some c }

  abbrev pub classified : Option CompletedIdempotencyResult → Option ExecutionResult
  unfolding classify
  classified none = none
  classified (some c) = some (classify c)

  abbrev pub read_only :
      (now : DateTime) → Store State → Result (Option CompletedIdempotencyResult × Store State)
  read_only now s = do c ← get_completed now i s.records; ok (c, s)

  -- `find_existing`
  unfoldable pub find_existing : Run State → Result (Option ExecutionResult) × Run State
  unfolding transaction classify
  find_existing run =
      if not (request_hash.size == 32)
      then (raise value_error, run)
      else let (found, after) = transaction (read_only (w.clock run.tick)) run in
        (found >>= λ c. ok (classified c), after)

  module _ (operation : State → Result (StoredResult × State)) where
    -- The transaction of `execute_once`
    unfoldable pub attempt : ℕ → Store State → Result (CompletedIdempotencyResult × Store State)
    attempt tick s = do
      (stored, state) ← operation s.state
      completed ← validate_completed request_hash stored
      let (added, records) =
          try_add_completed (w.record_id tick) (w.clock tick) retention i completed s.records
      raise_if (not added) winner_committed
      ok (completed, record { records = records; state = state })

    -- What `execute_once` does with the winner that it finds after an error.
    unfoldable pub after_error :
        Error → Result (Option ExecutionResult) × Run State → Result ExecutionResult × Run State
    after_error e (ok (some winner), run) = (ok winner, run)
    after_error e (ok none, run) = (raise (if is_winner_committed e then runtime_error else e), run)
    after_error e (raise f, run) = (raise (if is_winner_committed e then f else e), run)

    unfoldable pub after_attempt :
        Result CompletedIdempotencyResult × Run State → Result ExecutionResult × Run State
    unfolding after_error find_existing
    after_attempt (ok c, run) = (ok (record { outcome = executed; completed = some c }), run)
    after_attempt (raise e, run) = after_error e (find_existing run)

    unfoldable pub after_lookup :
        Result (Option ExecutionResult) × Run State → Result ExecutionResult × Run State
    unfolding after_attempt attempt transaction
    after_lookup (raise e, run) = (raise e, run)
    after_lookup (ok (some existing), run) = (ok existing, run)
    after_lookup (ok none, run) = after_attempt (transaction (attempt run.tick) run)

    -- `execute_once`
    unfoldable pub execute_once : Run State → Result ExecutionResult × Run State
    unfolding after_lookup find_existing
    execute_once run =
        if not (request_hash.size == 32)
        then (raise value_error, run)
        else after_lookup (find_existing run)

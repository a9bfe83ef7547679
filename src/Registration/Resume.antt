-- ===== src/Registration/Resume.antt =====
-- application/use_cases/resume_registration/handler.py, and the unit of work of
-- infrastructure/database/uow.py. What the handler does not decide comes from a `World`: the answers
-- of the profile service, the clock, the jittered delays (floats, as `timedelta`s), how a
-- transaction ends, and what others commit before it.
use andruha_identity_service.Prelude.{
  ℕ, ◌+◌, String, Bool, true, false, not, ◌&&◌, none, some, List, ◌∷◌, leb, if◌then◌else◌, holds,
}
use andruha_identity_service.Errors.{
  Error, Result, ok, raise, ◌>>=◌, ◌>>◌, class_name, value_error, runtime_error, lost_claim,
  finalization_conflict, persistence_unavailable, transaction_conflict, provisioning_unavailable,
  provisioning_rejected,
}
pub use andruha_identity_service.UnitOfWork.{Commit, committed, rolled_back, unknown}
use andruha_identity_service.Clock.{DateTime, ℤ, ◌+ℤ◌}
use andruha_identity_service.Outbox.Message.{OutboxMessage}
use andruha_identity_service.Outbox.Outcome.{Event, publish}
use andruha_identity_service.Accounts.{Texts, User, active, user, validate_user, create_if_absent}
use andruha_identity_service.Registration.Operation.{
  RegistrationOperation, RegistrationResult, outcome_completed, is_claimed, pending_result,
}
use andruha_identity_service.Registration.Repository.{complete, schedule_retry, block}

pub record Database : Type 0 where
  pub operations : List RegistrationOperation
  pub users : List User
  pub outbox : List OutboxMessage

pub record World : Type 0 where
  pub create_profile : (user_id : ℕ) → DateTime → Result (Unit {0})
  pub clock : ℕ → DateTime
  pub database_now : ℕ → DateTime
  pub texts : Texts
  pub delay : ℕ → ℕ → ℤ
  pub commit : ℕ → Commit
  pub rollback : ℕ → Result (Unit {0})
  pub others : ℕ → Database → Database
  pub event_id : ℕ → ℕ
  pub uuid_text : ℕ → String
  pub envelope : (event_id user_id : ℕ) → DateTime → String

-- What the observer is told.
pub data Note : Type 0 where
  operation_completed claim_lost : Note
  retry_scheduled operation_blocked : String → Note

-- The database, how often the world was asked, and the notes, the last one first.
pub record Run : Type 0 where
  pub database : Database
  pub tick : ℕ
  pub notes : List Note

abbrev pub tell : Note → Run → Run
tell note run = record run { notes = note ∷ run.notes }

abbrev pub moved : Database → Run → Run
moved database run = record run { database = database; tick = run.tick + 1 }

-- `async with scope, scope.uow`: what `__aexit__` does after the body.
unfoldable pub transaction {ℓ} :
    {A : Type ℓ} → World → (Database → Result (A × Database)) → Run → Result A × Run
transaction w body run =
    let before = w.others run.tick run.database in
    elim (body before) [
      | raise e ↦ (w.rollback run.tick >> raise e, moved before run)
      | ok (a, after) ↦ elim (w.commit run.tick) [
        | committed ↦ (ok a, moved after run)
        | rolled_back e ↦ (raise e, moved before run)
        | unknown e ↦ (raise e, moved after run)
      ]
    ]

-- `UserRegisteredEvent(...)`
abbrev pub user_registered : World → ℕ → User → Event
user_registered w tick u = record {
  event_id = w.event_id tick;
  partition_key = w.uuid_text u.id;
  event_type = "identity.user_registered.v1";
  envelope = w.envelope (w.event_id tick) u.id u.created_at;
  occurred_at = u.created_at;
}

-- `User(...)` of `_finalize`
abbrev pub user_to_create : RegistrationOperation → String → User
user_to_create o hash = record {
  id = o.user_id;
  created_at = o.created_at;
  updated_at = none;
  email = o.email;
  password_hash = hash;
  role = user;
  status = active;
}

abbrev pub is_deferred : Error → Bool
is_deferred persistence_unavailable = true
is_deferred transaction_conflict = true
is_deferred _ = false

abbrev pub is_rejected : Error → Bool
is_rejected provisioning_rejected = true
is_rejected _ = false

abbrev pub is_unavailable : Error → Bool
is_unavailable provisioning_unavailable = true
is_unavailable _ = false

abbrev pub is_lost_claim : Error → Bool
is_lost_claim lost_claim = true
is_lost_claim _ = false

abbrev pub is_conflict : Error → Bool
is_conflict finalization_conflict = true
is_conflict _ = false

abbrev pub on_operations :
    (List RegistrationOperation → Bool × List RegistrationOperation)
    → Database
    → Result (Bool × Database)
on_operations statement db =
    let (done, operations) = statement db.operations in
    ok (done, record db { operations = operations })

-- The caller's note on whether the statement found its row.
abbrev pub told : Note → Result Bool × Run → Result (Unit {0}) × Run
told note (ok true, run) = (ok tt, tell note run)
told note (ok false, run) = (ok tt, tell claim_lost run)
told note (raise e, run) = (raise e, run)

-- `await self._block(...)`, then `raise`
abbrev pub then_raise : Error → Result (Unit {0}) × Run → Result RegistrationResult × Run
then_raise e (result, run) = (result >> raise e, run)

module _ (w : World) (topic : String) (max_attempts owner : ℕ) where
  -- The body of the transaction of `_finalize`
  unfoldable pub finalization :
      ℕ → RegistrationOperation → User → Database → Result (User × Database)
  finalization tick o u db =
      let (done, operations) =
        complete (w.database_now tick) o.id owner (w.clock tick) db.operations in
      if not done then raise lost_claim else do
        (created, users) ← create_if_absent u db.users
        elim created [
          | none ↦ raise finalization_conflict
          | some new ↦ ok (
            new,
            record {
              operations = operations;
              users = users;
              outbox = publish topic (user_registered w tick new) db.outbox;
            },
          )
        ]

  -- `_finalize`
  unfoldable pub finalize : RegistrationOperation → Run → Result User × Run
  unfolding finalization transaction
  finalize o run = elim o.password_hash [
    | none ↦ (raise runtime_error, run)
    | some hash ↦ elim (validate_user w.texts (user_to_create o hash)) [
      | raise e ↦ (raise e, run)
      | ok u ↦ transaction w (finalization run.tick o u) run
    ]
  ]

  -- `_block`
  unfoldable pub block_operation : RegistrationOperation → Error → Run → Result (Unit {0}) × Run
  unfolding transaction
  block_operation o error run = told (operation_blocked (class_name error)) (
      transaction w
        (on_operations
          (block (w.database_now run.tick) o.id owner (w.clock run.tick) (class_name error)))
        run)

  abbrev pub pending_after :
      RegistrationOperation → DateTime → Result (Unit {0}) × Run → Result RegistrationResult × Run
  pending_after o retry_at (result, run) =
      (result >> ok (pending_result o (w.clock run.tick) (some retry_at)), run)

  -- `_retry_or_block`
  unfoldable pub retry_or_block :
      RegistrationOperation → Error → Run → Result RegistrationResult × Run
  unfolding block_operation transaction
  retry_or_block o error run =
      let attempt = o.attempts + 1 in
      let failed_at = w.clock run.tick in
      let retry_at = failed_at +ℤ w.delay run.tick attempt in
      if leb max_attempts attempt
      then then_raise provisioning_unavailable (block_operation o error run)
      else pending_after o retry_at (
          told (retry_scheduled (class_name error)) (
            transaction w
              (on_operations (
                schedule_retry (w.database_now run.tick) o.id owner failed_at retry_at
                  (class_name error)))
              run))

  unfoldable pub finished :
      RegistrationOperation → Result User × Run → Result RegistrationResult × Run
  unfolding retry_or_block block_operation
  finished o (ok u, run) = (
    ok (record {
      operation_id = o.id;
      user_id = u.id;
      outcome = outcome_completed;
      retry_after_seconds = none;
    }),
    tell operation_completed run,
  )
  finished o (raise e, run) =
      if is_lost_claim e
      then (ok (pending_result o (w.clock run.tick) none), tell claim_lost run)
      else if is_conflict e
      then then_raise provisioning_unavailable (block_operation o e run)
      else if is_deferred e
      then retry_or_block o e run
      else then_raise e (block_operation o e run)

  -- `execute`
  unfoldable pub execute : RegistrationOperation → Run → Result RegistrationResult × Run
  unfolding finalize retry_or_block block_operation finished
  execute o run =
      if not (is_claimed o.status && holds o.claim_token owner)
      then (raise value_error, run)
      else elim (w.create_profile o.user_id o.created_at) [
        | ok _ ↦ finished o (finalize o run)
        | raise e ↦
            if is_rejected e
            then then_raise provisioning_unavailable (block_operation o e run)
            else if is_unavailable e
            then retry_or_block o e run
            else then_raise e (block_operation o e run)
      ]

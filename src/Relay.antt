-- ===== src/Relay.antt =====
-- application/outbox/relay.py: one round of the relay worker. What the worker does not decide comes
-- from a `World`: the broker's answers, the clock, the time of the database (`func.now()`), the
-- jittered delays (floats, as `timedelta`s), the stop signal, how a transaction ends, and what
-- other workers do before it.
pub mod Streams
pub mod Settling
pub mod Settled
pub mod Round
pub mod Loop
pub mod Stopping
pub mod Examples
use andruha_identity_service.Prelude.{
  ℕ, zero, suc, ◌+◌, ◌-◌, ◌*◌, ◌/◌, ◌%◌, ◌≤◌, ◌<◌, min, max, String, ◌≡◌, refl, sym, ap, ◌∙◌, subst,
  ◌≢◌, ◌↔◌, ◌⊎◌, inl, inr, Bool, true, false, not, ◌&&◌, ◌||◌, Option, none, some, List, [], ◌∷◌,
  ◌++◌, map, arith, str_eq, eq_iff, ltb, leb, ◌==◌, if◌then◌else◌, is_some, holds, Bool-cases,
  Option-cases, ==-refl, ltb-of_lt, leb-of_le, if_ind, if_cases, length, take, length-append, All,
  All-append, All-append_left, All-append_right, All-imp,
}
use andruha_identity_service.Errors.{
  Error, Result, ok, raise, raise_if, ◌>>=◌, ◌>>◌, value_error, class_name, retry_exhausted,
  is_permanent_publish_error,
}
use andruha_identity_service.Clock.{DateTime, ℤ, checked_add}
use andruha_identity_service.UnitOfWork.{Commit, committed, rolled_back, unknown}
use andruha_identity_service.Outbox.Message.{OutboxMessage}
use andruha_identity_service.Outbox.Claim.{claim_batch}
use andruha_identity_service.Outbox.Outcome.{finalize_published, schedule_retry, quarantine}

pub record World : Type 0 where
  pub publish : OutboxMessage → Result (Unit {0})
  pub clock : ℕ → DateTime
  pub delay : ℕ → ℕ → ℤ
  pub is_set : ℕ → Bool
  pub database_now : ℕ → DateTime
  pub commit : ℕ → Commit
  pub rollback : ℕ → Result (Unit {0})
  pub others : ℕ → List OutboxMessage → List OutboxMessage

-- What the observer is told.
pub data Note : Type 0 where
  batch_claimed : ℕ → Note
  message_finalized : ℕ → Note
  message_retry_scheduled : (id attempt : ℕ) → Note
  message_quarantined : ℕ → String → Note

-- The table, how often the world was asked, and the notes, the last one first.
pub record Run : Type 0 where
  pub rows : List OutboxMessage
  pub tick : ℕ
  pub notes : List Note

abbrev pub moved : List OutboxMessage → Run → Run
moved rows run = record run { rows = rows; tick = run.tick + 1 }

-- `async with scope, scope.uow` round one statement: a commit that fails has written nothing, unless
-- it is unknown, and then the caller sees the error though the statement is written.
unfoldable pub transaction :
    World → (List OutboxMessage → Bool × List OutboxMessage) → Note → Run → Result (Unit {0}) × Run
transaction w statement note run =
    let rows = w.others run.tick run.rows in
    let (done, rows') = statement rows in
    elim (w.commit run.tick) [
      | rolled_back e ↦ (raise e, moved rows run)
      | unknown e ↦ (raise e, moved rows' run)
      | committed ↦ (
        ok tt,
        record {
          rows = rows';
          tick = run.tick + 1;
          notes = if done then note ∷ run.notes else run.notes;
        },
      )
    ]

module _ (w : World) (max_attempts : ℕ) (owner : ℕ) where
  -- `_quarantine`
  unfoldable pub quarantine_claimed : OutboxMessage → String → Run → Result (Unit {0}) × Run
  unfolding transaction
  quarantine_claimed m error_class run =
      transaction w (quarantine (w.database_now run.tick) m.id owner (w.clock run.tick) error_class)
        (message_quarantined m.id error_class) run

  -- `_schedule_retry`
  unfoldable pub retry_claimed : OutboxMessage → Error → Run → Result (Unit {0}) × Run
  unfolding transaction
  retry_claimed m error run =
      let attempt = m.attempts + 1 in
      elim (checked_add (w.clock run.tick) (w.delay run.tick attempt)) [
        | raise e ↦ (raise e, run)
        | ok available_at ↦
            transaction w
              (schedule_retry (w.database_now run.tick) m.id owner available_at (class_name error))
              (message_retry_scheduled m.id attempt) run
      ]

  -- `_publish_claimed`
  unfoldable pub publish_claimed : OutboxMessage → Run → Result (Unit {0}) × Run
  unfolding quarantine_claimed retry_claimed transaction
  publish_claimed m run = elim (w.publish m) [
    | ok _ ↦
        transaction w (finalize_published (w.database_now run.tick) m.id owner (w.clock run.tick))
          (message_finalized m.id) run
    | raise error ↦
        if is_permanent_publish_error error
        then quarantine_claimed m (class_name error) run
        else if leb max_attempts (m.attempts + 1)
        then quarantine_claimed m (class_name retry_exhausted) run
        else retry_claimed m error run
  ]

  -- `_process_key_stream`; `gather` keeps an exception to itself, and it ends the stream.
  unfoldable pub process_key_stream : List OutboxMessage → Run → Run
  process_key_stream [] run = run
  process_key_stream (m ∷ ms) run =
      let (result, after) = publish_claimed m run in
      let rest = process_key_stream ms after in
      if w.is_set run.tick then run else elim result [ ok _ ↦ rest | raise _ ↦ after ]

  -- The streams run concurrently; each settles rows of its own key, and here they run in turn.
  unfoldable pub process_streams : List (String × List OutboxMessage) → Run → Run
  process_streams [] run = run
  process_streams ((key, ms) ∷ streams) run = process_streams streams (process_key_stream ms run)

-- `by_key[msg.key].append(msg)`
unfoldable pub append_to :
    OutboxMessage → List (String × List OutboxMessage) → List (String × List OutboxMessage)
append_to m [] = (m.key, m ∷ []) ∷ []
append_to m ((key, ms) ∷ streams) =
    if str_eq key m.key then (key, ms ++ m ∷ []) ∷ streams else (key, ms) ∷ append_to m streams

unfoldable pub by_key :
    List (String × List OutboxMessage) → List OutboxMessage → List (String × List OutboxMessage)
by_key streams [] = streams
by_key streams (m ∷ ms) = by_key (append_to m streams) ms

abbrev pub is_empty {ℓ} : {A : Type ℓ} → List A → Bool
is_empty [] = true
is_empty (x ∷ xs) = false

-- `_claim_batch`: the claimed messages, and the state that its transaction leaves
unfoldable pub claim_messages :
    World
    → (owner : ℕ) → (at expires : DateTime) → (ℕ → Bool)
    → (batch_size : ℕ) → Run
    → Result (List OutboxMessage) × Run
claim_messages w owner at expires locked batch_size run =
    let rows = w.others run.tick run.rows in
    elim (claim_batch (w.database_now run.tick) owner at expires batch_size locked rows) [
      | raise e ↦ (w.rollback run.tick >> raise e, moved rows run)
      | ok (messages, rows') ↦ elim (w.commit run.tick) [
        | rolled_back e ↦ (raise e, moved rows run)
        | unknown e ↦ (raise e, moved rows' run)
        | committed ↦ (ok messages, moved rows' run)
      ]
    ]

-- What `run_once` makes of the claim
unfoldable pub claimed_round :
    World → (max_attempts owner : ℕ) → Result (List OutboxMessage) × Run → Result ℕ × Run
claimed_round w max_attempts owner (raise e, run) = (raise e, run)
claimed_round w max_attempts owner (ok messages, run) = if is_empty messages then (ok 0, run) else (
  ok (length messages),
  process_streams w max_attempts owner (by_key [] messages)
      (record run { notes = batch_claimed (length messages) ∷ run.notes }),
)

-- `run_once`: how many messages were claimed, and the state it leaves. `owner` is the token that
-- `uuid4` gives, `locked` the rows that other transactions hold.
unfoldable pub run_once :
    World → (max_attempts owner : ℕ) → ℤ → (ℕ → Bool) → (batch_size : ℕ) → Run → Result ℕ × Run
unfolding claim_messages claimed_round
run_once w max_attempts owner lease locked batch_size run =
    if leb batch_size 0
    then (raise value_error, run)
    else elim (checked_add (w.clock run.tick) lease) [
      | raise e ↦ (raise e, run)
      | ok expires ↦
          claimed_round w max_attempts owner
            (claim_messages w owner (w.clock run.tick) expires locked batch_size run)
    ]

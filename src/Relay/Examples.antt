-- ===== src/Relay/Examples.antt =====
-- A round over two keys: the broker accepts key "a" and does not answer for key "b".
use andruha_identity_service.Prelude.{
  min, leb, ◌≤◌, true, some, arith, ℕ, ◌+◌, ◌≡◌, refl, false, List, [], ◌∷◌, str_eq, if◌then◌else◌,
  length,
}
use andruha_identity_service.Errors.{ok, raise, transient_publish}
use andruha_identity_service.Clock.{max_instant, Fits, pos, ◌+ℤ◌}
use andruha_identity_service.Table.{In}
use andruha_identity_service.Outbox.Message.{OutboxMessage}
use andruha_identity_service.Outbox.Claim.{claim_batch}
use andruha_identity_service.Outbox.Outcome.{owned, finalize_published, schedule_retry, quarantine}
use andruha_identity_service.Errors.{class_name, is_permanent_publish_error}
use andruha_identity_service.Outbox.Fencing.{settled}
use andruha_identity_service.Outbox.Examples.{at, free, message, waiting}
use andruha_identity_service.Relay.{
  World, Run, batch_claimed, message_finalized, message_retry_scheduled, run_once, process_streams,
  process_key_stream, publish_claimed, by_key, append_to,
}
use andruha_identity_service.UnitOfWork.{committed}
use andruha_identity_service.Relay.Settled.{Settled}
use andruha_identity_service.Relay.Settling.{settlement, IsQuiet}
use andruha_identity_service.Relay.Round.{run_once-settles}
use andruha_identity_service.Outbox.Examples.{registered}
use andruha_identity_service.Outbox.Outcome.{publish}
use andruha_identity_service.Outbox.System.{here, next, publishing}
use andruha_identity_service.Outbox.Sound.{IsSound, Reach-IsSound}
use andruha_identity_service.Relay.Loop.{poll}
use andruha_identity_service.Relay.Stopping.{poll-returns}

abbrev calm : World
calm = record {
  publish = λ m. if str_eq m.key "a" then ok tt else raise transient_publish;
  clock = λ n. at (10 + min n 90);
  delay = λ n attempt. pos (5 + min attempt 10);
  is_set = λ n. false;
  database_now = λ n. at (11 + n);
  commit = λ n. committed;
  rollback = λ n. ok tt;
  others = λ n rows. rows;
}

abbrev begin : Run
begin = record { rows = waiting; tick = 0; notes = [] }

abbrev ended : Run
ended = record {
  rows =
      settled (at 12) (settlement calm 10 1 (message 1 "a")) (message 1 "a")
      ∷ message 2 "a"
      ∷ settled (at 13) (settlement calm 10 2 (message 3 "b")) (message 3 "b")
      ∷ [];
  tick = 3;
  notes = message_retry_scheduled 3 1 ∷ message_finalized 1 ∷ batch_claimed 2 ∷ [];
}

begin-run_once : run_once calm 10 7 (pos 30) free 5 begin ≡ (ok 2, ended)
unfolding run_once process_streams publish_claimed process_key_stream by_key append_to claim_batch
    finalize_published schedule_retry quarantine settlement class_name is_permanent_publish_error
    owned max_instant
begin-run_once = refl

min_le : (n k : ℕ) → min n k ≤ k
min_le n k = ground arith

calm-Fits : (n attempt : ℕ) → Fits (calm.clock n) (calm.delay n attempt)
unfolding max_instant
calm-Fits n attempt = omega (arith, min_le n 90, min_le attempt 10)

calm-IsQuiet : IsQuiet calm
calm-IsQuiet = record {
  alone = λ n rows. refl;
  commits = λ n. refl;
  fits = calm-Fits;
  goes_on = λ n. refl;
}

run_once-settles_example :
    (batch : List OutboxMessage) × (rows : List OutboxMessage) × (claim_batch
        (at 11)
        7
        (at 10)
        (at 10 +ℤ pos 30)
        5
        free
        waiting
      ≡ ok (batch, rows))
    × (2 ≡ length batch)
    × ((m : OutboxMessage)
        → In m batch
        → (tick : ℕ) × (row : OutboxMessage) × In row ended.rows × Settled calm 10 tick m row)
run_once-settles_example =
    run_once-settles calm 10 7 (pos 30) free 5 begin ended 2 calm-IsQuiet (refl, (refl, (refl, tt)))
      begin-run_once

-- A worker that is told to stop at the time 5, on an outbox with one message.
abbrev stopping : World
stopping = record calm { is_set = λ n. leb 5 n }

abbrev published : Run
published = record { rows = publish "identity" registered []; tick = 0; notes = [] }

published-IsSound : IsSound (publish "identity" registered [])
published-IsSound =
    Reach-IsSound (publish "identity" registered [])
      (next here (publishing "identity" registered refl (λ m n i j. absurd i)))

set_late : (n : ℕ) → 5 ≤ n → leb 5 n ≡ true
set_late n h = ground arith

poll-returns_example :
    (after : Run) × (poll stopping 10 (λ n. 7) (pos 30) (λ n. free) 5 6 published ≡ some after)
    × (leb 5 after.tick ≡ true)
    × IsSound after.rows
poll-returns_example =
    poll-returns stopping (λ n rows s. s) 10 (λ n. 7) (pos 30) (λ n. free) 5 5 6 published set_late
      (omega arith) published-IsSound

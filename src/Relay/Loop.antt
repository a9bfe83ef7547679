-- ===== src/Relay/Loop.antt =====
-- application/outbox/relay.py: the polling loop of the worker (`run`). The wait for `poll_interval`
-- after an empty round changes nothing that the model has.
use andruha_identity_service.Prelude.{ℕ, zero, suc, ◌+◌, Bool, Option, none, some, if◌then◌else◌}
use andruha_identity_service.Errors.{Result, ok, raise, value_error}
use andruha_identity_service.Clock.{ℤ}
use andruha_identity_service.Relay.{World, Run, run_once}

-- What the loop goes on from. After a round that raised it waits for `poll_interval`: time passes.
abbrev pub after_round : Result ℕ × Run → Run
after_round (ok processed, after) = after
after_round (raise e, after) = record after { tick = after.tick + 1 }

module _ (w : World) (max_attempts : ℕ) (owner : ℕ → ℕ) (lease : ℤ) (locked : ℕ → ℕ → Bool)
    (batch_size : ℕ) where
  -- One iteration of the loop of `run`, whose errors are logged
  unfoldable pub iteration : Run → Run
  unfolding run_once
  iteration run =
      after_round (run_once w max_attempts (owner run.tick) lease (locked run.tick) batch_size run)

  -- The loop of `run`, of at most `fuel` iterations; `none` is one that goes on.
  unfoldable pub poll : (fuel : ℕ) → Run → Option Run
  unfolding iteration
  poll zero run = none
  poll (suc fuel) run =
      let rest = poll fuel (iteration run) in if w.is_set run.tick then some run else rest

  -- `run`
  unfoldable pub run_forever : (poll_interval : ℤ) → (fuel : ℕ) → Run → Result (Option Run)
  unfolding poll
  run_forever (ℤ.pos (suc n)) fuel run = ok (poll fuel run)
  run_forever (ℤ.pos zero) fuel run = raise value_error
  run_forever (ℤ.negsuc n) fuel run = raise value_error

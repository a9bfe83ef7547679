-- ===== src/Idempotency/Examples.antt =====
-- Durable idempotency on a counter: the theorems at inputs where their hypotheses hold.
use andruha_identity_service.Prelude.{ℕ, ◌+◌, ◌≡◌, refl, ◌≢◌, true, none, some, [], ◌∷◌}
use andruha_identity_service.Errors.{Result, ok, raise, runtime_error}
use andruha_identity_service.UnitOfWork.{committed}
use andruha_identity_service.Clock.{pos, Bytes}
use andruha_identity_service.Table.{first}
use andruha_identity_service.Idempotency.Record.{
  IdempotencyIdentity, ExecutionResult, executed, replay, conflict, StoredResult,
  CompletedIdempotencyResult, IdempotencyRecord, validate_completed, get_completed, has_identity,
  try_add_completed,
}
use andruha_identity_service.Idempotency.Durable.{World, Run, execute_once}
use andruha_identity_service.Idempotency.Once.{
  Recorded, execute_once-replays, execute_once-Recorded, execute_once-blocked_key,
}

abbrev hash : ℕ → Bytes
hash n = record { size = 32; value = n }

abbrev identity : IdempotencyIdentity
identity = record { subject_id = "u"; operation = "refresh"; key_hash = hash 1 }

abbrev stored : StoredResult
stored = record {
  result_type = "pair";
  result_payload = some "{}";
  result_version = 1;
  resource_type = none;
  resource_id = none;
  resource_version = none;
}

abbrev result : CompletedIdempotencyResult
result = record { request_hash = hash 2; result = stored }

abbrev count : ℕ → Result (StoredResult × ℕ)
count n = ok (stored, n + 1)

abbrev world : ℕ → World ℕ
world now = record {
  clock = λ n. record { aware = true; instant = now };
  record_id = λ n. n;
  commit = λ n. committed;
  rollback = λ n. ok tt;
  others = λ n s. s;
}

abbrev saved : IdempotencyRecord
saved = record {
  id = 1;
  identity = identity;
  completed = result;
  created_at = record { aware = true; instant = 10 };
  completed_at = record { aware = true; instant = 10 };
  expires_at = record { aware = true; instant = 40 };
}

abbrev run : Run ℕ
run = record { store = record { records = saved ∷ []; state = 1 }; tick = 0 }

abbrev empty : Run ℕ
empty = record { store = record { records = []; state = 0 }; tick = 0 }

listed : first (has_identity identity) run.store.records ≡ some saved
unfolding has_identity
listed = refl

is_valid : validate_completed (hash 2) stored ≡ ok result
unfolding validate_completed
is_valid = refl

execute_once-replays_example :
    (hash 2 ≡ hash 2
      → execute_once (world 20) (pos 30) identity (hash 2) count run ≡ (
        ok (record { outcome = replay; completed = some result }),
        record { store = run.store; tick = 1 },
      ))
    × (hash 2 ≢ hash 2
        → execute_once (world 20) (pos 30) identity (hash 2) count run ≡ (
          ok (record { outcome = conflict; completed = none }),
          record { store = run.store; tick = 1 },
        ))
execute_once-replays_example =
    execute_once-replays (world 20) (pos 30) identity (hash 2) count saved run refl listed refl
      is_valid refl

abbrev reported : ExecutionResult
reported = record { outcome = executed; completed = some result }

abbrev after : Run ℕ
after = (execute_once (world 10) (pos 30) identity (hash 2) count empty).1

runs : execute_once (world 10) (pos 30) identity (hash 2) count empty ≡ (ok reported, after)
unfolding execute_once get_completed validate_completed try_add_completed
runs = refl

execute_once-Recorded_example :
    (at : Run ℕ) × (c : CompletedIdempotencyResult) × (some result ≡ some c)
    × Recorded (world 10) (pos 30) identity (hash 2) count at.tick at.store after.store c
execute_once-Recorded_example =
    execute_once-Recorded (world 10) (pos 30) identity (hash 2) count reported empty after runs refl

execute_once-blocked_key_example :
    execute_once (world 50) (pos 30) identity (hash 2) count run
    ≡ (raise runtime_error, record { store = run.store; tick = 3 })
execute_once-blocked_key_example =
    execute_once-blocked_key (world 50) (pos 30) identity (hash 2) count saved run (λ n s. refl)
      (λ n. refl) (λ n. refl) (λ n. refl) refl listed stored 2 result refl is_valid

-- ===== src/Coordinator/Examples.antt =====
-- The coordinator with the stores of the service: its theorem at a concrete request.
use andruha_identity_service.Prelude.{ℕ, ◌+◌, ◌≡◌, refl, true, false, none, some, [], arith}
use andruha_identity_service.Errors.{Result, ok}
use andruha_identity_service.UnitOfWork.{committed}
use andruha_identity_service.Clock.{pos, Bytes}
use andruha_identity_service.Breaker.{Breaker, closed}
use andruha_identity_service.Idempotency.Record.{IdempotencyIdentity, StoredResult}
use andruha_identity_service.Idempotency.Durable
use andruha_identity_service.Idempotency.Durable.{Run}
use andruha_identity_service.HotStore.Adapter.{Json, answered as replied, Server, Keys}
use andruha_identity_service.Coordinator.Execute.{HotOps, Coordination, execute}
use andruha_identity_service.Coordinator.Stores.{
  valkey, breaking, valkey-FailsCleanly, breaking-FailsCleanly,
}
use andruha_identity_service.Coordinator.Durability.{outcome, answered, execute-refines}

abbrev hash : Bytes
hash = record { size = 32; value = 5 }

abbrev stored : StoredResult
stored = record {
  result_type = "pair";
  result_payload = some "{}";
  result_version = 1;
  resource_type = none;
  resource_id = none;
  resource_version = none;
}

abbrev json : Json
json = record { dumps = λ d. "text"; loads = λ t. ok []; hex = λ b. "05"; fromhex = λ t. ok hash }

abbrev server : Server
server = record { now = λ n. n; link = λ n. replied; others = λ n f. f }

abbrev store : HotOps (Breaker × Keys)
store = breaking (λ keys. keys.calls) (valkey json server "key" 60)

abbrev identity : IdempotencyIdentity
identity = record { subject_id = "u"; operation = "refresh"; key_hash = hash }

abbrev world : Durable.World ℕ
world = record {
  clock = λ n. record { aware = true; instant = n };
  record_id = λ n. n;
  commit = λ n. committed;
  rollback = λ n. ok tt;
  others = λ n s. s;
}

abbrev count : ℕ → Result (StoredResult × ℕ)
count n = ok (stored, n + 1)

abbrev breaker : Breaker
breaker = record {
  fail_max = 3;
  recovery_timeout = 10;
  state = closed;
  failure_count = 0;
  opened_at = none;
  probe_in_progress = false;
  probe_token = none;
  generation = 0;
  next_token = 0;
}

abbrev start : Coordination (Breaker × Keys) ℕ
start = record {
  hot = (breaker, record { entry = λ k. none; calls = 0 });
  run = record { store = record { records = []; state = 0 }; tick = 0 };
  notes = [];
}

execute-refines_example :
    outcome world
      (pos 30)
      identity
      hash
      count
      (execute world (pos 30) identity hash count (some store) 1 30 2 start)
    ≡ answered world (pos 30) identity hash count (store.begin hash 1 30 start.hot).0 start.run
execute-refines_example =
    execute-refines world (pos 30) identity hash count store
      (breaking-FailsCleanly (λ keys. keys.calls) (valkey json server "key" 60)
        (valkey-FailsCleanly json server "key" 60))
      1 30 2 start (omega arith) refl

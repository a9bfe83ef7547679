-- ===== src/HotStore/Examples.antt =====
-- The hot store on one key: the theorems at inputs where their hypotheses hold.
use andruha_identity_service.Prelude.{
  ℕ, ◌≡◌, refl, ◌≢◌, true, Option, none, some, String, List, [], ◌∷◌, arith, All, str_eq, ◌==◌,
  if◌then◌else◌,
}
use andruha_identity_service.Errors.{ok}
use andruha_identity_service.Clock.{Bytes}
use andruha_identity_service.Idempotency.Record.{
  StoredResult, CompletedIdempotencyResult, validate_completed,
}
use andruha_identity_service.HotStore.Script.{Entry, processing}
use andruha_identity_service.HotStore.Adapter.{
  BeginResult, acquired, replay, Value, Dict, payload_of, null_value, str_value, int_value,
  object_value, get_item, Json, answered, Server, Keys, begin, complete,
}
use andruha_identity_service.HotStore.Lease.{
  Call, begins, renews, completes, abandons, after_calls, lease_excludes,
}
use andruha_identity_service.HotStore.Replay.{ReadsBack, complete-begin}

abbrev hash : Bytes
hash = record { size = 32; value = 5 }

abbrev stored : StoredResult
stored = record {
  result_type = "pair";
  result_payload = some "{}";
  result_version = 1;
  resource_type = none;
  resource_id = none;
  resource_version = none;
}

abbrev result : CompletedIdempotencyResult
result = record { request_hash = hash; result = stored }

-- A library that writes a dictionary with this result as the hash in it.
abbrev written : Option Value → String
written (some (str_value hexed)) = hexed
written _ = "null"

abbrev json : Json
json = record {
  dumps = λ d. written (get_item "request_hash" d);
  loads = λ t. ok (
      ("request_hash", str_value t)
      ∷ ("result_type", str_value "pair")
      ∷ ("result_payload", object_value "{}")
      ∷ ("result_version", int_value 1)
      ∷ ("resource_type", null_value)
      ∷ ("resource_id", null_value)
      ∷ ("resource_version", null_value)
      ∷ []);
  hex = λ b. if b.value == 5 then "05" else "ff";
  fromhex = λ t. ok (record { size = 32; value = if str_eq t "05" then 5 else 255 });
}

abbrev server : Server
server = record { now = λ n. n; link = λ n. answered; others = λ n f. f }

abbrev still : Server
still = record server { now = λ n. 5 }

abbrev empty : Keys
empty = record { entry = λ k. none; calls = 0 }

abbrev lease : Entry
lease = record {
  format_version = some 1;
  state = some processing;
  request_hash = some hash;
  owner_token = some 1;
  result = none;
  expires_at = 30;
}

abbrev leased : Keys
leased = record { entry = λ k. some lease; calls = 0 }

abbrev attempts : List (ℕ × Call)
attempts = (2, begins hash 9) ∷ (3, renews 9) ∷ (2, completes 60 result) ∷ (3, abandons) ∷ []

others_only : All (λ ((owner, c) : ℕ × Call). owner ≢ 1) attempts
others_only = (ground arith, (ground arith, (ground arith, (ground arith, tt))))

lease_excludes_example :
    ((after_calls json still "key" attempts leased).entry "key" ≡ some lease)
    × ((h : Bytes) (other term : ℕ) (b : BeginResult)
        → (begin json still "key" h other term (after_calls json still "key" attempts leased)).0
          ≡ ok b
        → b.action ≢ acquired)
lease_excludes_example =
    lease_excludes json still "key" 1 lease
      (record { version = refl; state = refl; hash = (hash, refl); held = refl; result = refl })
      attempts leased others_only (λ n f. refl) (λ n. omega arith) refl

valid : validate_completed hash stored ≡ ok result
unfolding validate_completed
valid = refl

abbrev read_items : Dict
read_items =
    ("request_hash", str_value "05")
    ∷ ("result_type", str_value "pair")
    ∷ ("result_payload", object_value "{}")
    ∷ ("result_version", int_value 1)
    ∷ ("resource_type", null_value)
    ∷ ("resource_id", null_value)
    ∷ ("resource_version", null_value)
    ∷ []

reads_back : ReadsBack json server "key" (λ n. refl) (λ n f. refl) result
unfolding payload_of
reads_back = record { unhexed = refl; items = read_items; loaded = refl; same = λ name. refl }

complete-begin_example :
    let leased_keys = (begin json server "key" hash 1 30 empty).1 in
    let stored_keys = (complete json server "key" 60 1 result leased_keys).1 in
    ((begin json server "key" hash 1 30 empty).0
      ≡ ok (record { action = acquired; completed = none }))
    × ((complete json server "key" 60 1 result leased_keys).0 ≡ ok true)
    × ((begin json server "key" hash 2 30 stored_keys).0
        ≡ ok (record { action = replay; completed = some result }))
complete-begin_example =
    complete-begin json server "key" (λ n. refl) (λ n f. refl) result 1 30 60 2 30 empty valid refl
      reads_back (omega arith) (omega arith) refl (omega arith) (omega arith)

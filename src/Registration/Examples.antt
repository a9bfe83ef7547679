-- ===== src/Registration/Examples.antt =====
-- The registration on concrete operations: the theorems at inputs where their hypotheses hold.
use andruha_identity_service.Prelude.{
  ℕ, ◌+◌, ◌≤◌, String, ◌≡◌, refl, ap, ◌≢◌, ◌↔◌, ◌⊎◌, inl, inr, true, false, none, some, List, [],
  ◌∷◌, arith, ◌&&◌, str_eq,
}
use andruha_identity_service.Errors.{Error, Result, ok, raise, provisioning_unavailable}
use andruha_identity_service.Clock.{DateTime, pos, Bytes}
use andruha_identity_service.Table.{In}
use andruha_identity_service.Outbox.Message.{OutboxMessage}
use andruha_identity_service.Accounts.{Texts, User, validate_user, create_if_absent}
use andruha_identity_service.Registration.Operation.{
  claimed, RegistrationOperation, RegistrationResult, outcome_completed, outcome_pending,
  pending_result, validate_operation,
}
use andruha_identity_service.Registration.Repository.{
  try_create, complete, owned, get_by_key_hash, claim_by_key_hash,
}
use andruha_identity_service.Registration.Lifecycle.{
  HasLifecycle, IsWellFormed, Normalized, validate_operation_iff,
}
use andruha_identity_service.Registration.Sound.{
  Reach, here, next, creating, completing, IsConsistent, Reach-IsConsistent,
}
use andruha_identity_service.Registration.Fencing.{
  completion, stop, end_claim, end_claim_once, end_claim_expired,
}
use andruha_identity_service.Registration.Resume.{committed, unknown, World, Run, execute}
use andruha_identity_service.Registration.Completion.{Completed, execute-Completed}
use andruha_identity_service.Registration.Atomicity.{ReportsCompleted, execute-Kept}
use andruha_identity_service.Registration.Register.{Registrar, load_by_key, register}
use andruha_identity_service.Registration.Registering.{Remembers, register-known_key}
use andruha_identity_service.Registration.Untouched.{register-Kept}

abbrev at : ℕ → DateTime
at n = record { aware = true; instant = n }

abbrev key : Bytes
key = record { size = 32; value = 9 }

abbrev operation : RegistrationOperation
operation = record {
  id = 1;
  user_id = 7;
  email = "a@example.org";
  password_hash = some "hash";
  key_hash = key;
  status = claimed;
  attempts = 0;
  available_at = at 10;
  claim_token = some 3;
  claim_expires_at = some (at 50);
  last_error_class = none;
  terminal_at = none;
  redrive_count = 0;
  created_at = at 10;
  updated_at = none;
}

abbrev plain : Texts
plain = record { email_str = λ e. some e; casefold = λ e. e; strip = λ e. e }

abbrev w : World
w = record {
  create_profile = λ u t. ok tt;
  clock = λ n. at (20 + n);
  database_now = λ n. at (21 + n);
  texts = plain;
  delay = λ n a. pos 5;
  commit = λ n. committed;
  rollback = λ n. ok tt;
  others = λ n db. db;
  event_id = λ n. 100 + n;
  uuid_text = λ n. "uuid";
  envelope = λ e u t. "{}";
}

-- The profile service does not answer.
abbrev down : World
down = record w { create_profile = λ u t. raise provisioning_unavailable }

abbrev start : Run
start = record {
  database = record { operations = operation ∷ []; users = []; outbox = [] };
  tick = 0;
  notes = [];
}

abbrev g : Registrar
g = record {
  hash = λ p. ok "hash";
  verify = λ p h. ok (str_eq p "secret" && str_eq h "hash");
  operation_id = λ n. 1;
  user_id = λ n. 7;
  owner_token = λ n. 3;
  lease = pos 30;
}

abbrev empty : Run
empty = record {
  database = record { operations = []; users = []; outbox = [] };
  tick = 0;
  notes = [];
}

operation-HasLifecycle : HasLifecycle operation
operation-HasLifecycle = (refl, refl, refl, refl)

validate_operation_iff_example : (validate_operation plain operation ≡ ok operation) ↔ (
    (email : String) × Normalized plain "a@example.org" email
    × (operation ≡ record operation { email = email })
    × HasLifecycle operation
    × IsWellFormed operation)
validate_operation_iff_example = validate_operation_iff plain operation operation

run_to_completion : Reach [] (complete (at 31) 1 3 (at 30) (try_create operation []).1).1
run_to_completion =
    next (next here (creating operation operation-HasLifecycle)) (completing (at 31) 1 3 (at 30))

Reach-IsConsistent_example :
    IsConsistent (complete (at 31) 1 3 (at 30) (try_create operation []).1).1
Reach-IsConsistent_example =
    Reach-IsConsistent (complete (at 31) 1 3 (at 30) (try_create operation []).1).1
      run_to_completion

end_claim_once_example :
    end_claim
      (at 41)
      1
      3
      (stop (at 40) "E")
      (end_claim (at 31) 1 3 (completion (at 30)) (operation ∷ [])).1
    ≡ (false, (end_claim (at 31) 1 3 (completion (at 30)) (operation ∷ [])).1)
unfolding end_claim owned
end_claim_once_example =
    end_claim_once (at 31) (at 41) 1 3 (completion (at 30)) (stop (at 40) "E") (operation ∷ [])
      (refl, tt) refl

late :
    (o : RegistrationOperation) (until : DateTime)
    → In o (operation ∷ [])
    → o.id ≡ 1
    → o.claim_expires_at ≡ some until
    → until.instant ≤ 60
late o until (inl e) i h = ground (arith, ap (λ (x : RegistrationOperation). x.claim_expires_at) e)
late o until (inr e) i h = absurd e

end_claim_expired_example :
    end_claim (at 61) 1 3 (completion (at 60)) (operation ∷ []) ≡ (false, operation ∷ [])
end_claim_expired_example = end_claim_expired (at 61) 1 3 (completion (at 60)) (operation ∷ []) late

abbrev finished_run : Run
finished_run = (execute w "topic" 10 3 operation start).1

abbrev result : RegistrationResult
result = record {
  operation_id = 1;
  user_id = 7;
  outcome = outcome_completed;
  retry_after_seconds = none;
}

executed : execute w "topic" 10 3 operation start ≡ (ok result, finished_run)
unfolding execute validate_user complete owned create_if_absent
executed = refl

execute-Completed_example :
    Completed w "topic" 0 operation start.database finished_run.database
    × (result.operation_id ≡ 1)
    × (result.user_id ≡ 7)
execute-Completed_example =
    execute-Completed w "topic" 10 3 operation result start finished_run executed refl

abbrev NoUsers : List User → List OutboxMessage → Type 0
NoUsers users outbox = (users ≡ []) × (outbox ≡ [])

certain : (n : ℕ) (e : Error) → down.commit n ≢ unknown e
certain n e h = cc

execute-Kept_example :
    ReportsCompleted (execute down "topic" 10 3 operation start).0
    ⊎ NoUsers
        (execute down "topic" 10 3 operation start).1.database.users
        (execute down "topic" 10 3 operation start).1.database.outbox
execute-Kept_example =
    execute-Kept down "topic" 10 3 NoUsers (λ n db k. k) certain operation start (refl, refl)

register-Kept_example :
    ReportsCompleted (register down g "topic" 10 "a@example.org" "secret" key empty).0
    ⊎ NoUsers
        (register down g "topic" 10 "a@example.org" "secret" key empty).1.database.users
        (register down g "topic" 10 "a@example.org" "secret" key empty).1.database.outbox
register-Kept_example =
    register-Kept down g "topic" 10 NoUsers (λ n db k. k) certain "a@example.org" "secret" key empty
      (refl, refl)

abbrev loaded : Run
loaded = record start { tick = 1 }

abbrev known : Result RegistrationResult × Run
known = register w g "topic" 10 "a@example.org" "secret" key start

abbrev waiting : RegistrationResult
waiting = record {
  operation_id = 1;
  user_id = 7;
  outcome = outcome_pending;
  retry_after_seconds = some 1;
}

found : load_by_key w g "topic" 10 key start ≡ (ok (some operation), loaded)
unfolding load_by_key get_by_key_hash
found = refl

answered : known ≡ (ok waiting, known.1)
unfolding register get_by_key_hash claim_by_key_hash pending_result
answered = refl

register-known_key_example :
    In operation (operation ∷ [])
    × (key ≡ key)
    × (operation.email ≡ "a@example.org")
    × (hash : String) × Remembers w g "topic" 10 operation [] hash
    × (g.verify "secret" hash ≡ ok true)
register-known_key_example =
    register-known_key w g "topic" 10 "a@example.org" "secret" key operation waiting start loaded
      known.1 found answered

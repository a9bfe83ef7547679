-- ===== src/Registration/Register.antt =====
-- application/use_cases/register/handler.py. The password hasher, the identifiers and the owner
-- tokens come from a `Registrar`, the rest from the `World` of Registration/Resume.
use andruha_identity_service.Prelude.{
  ℕ, String, Bool, true, false, not, Option, none, some, str_eq, if◌then◌else◌,
}
use andruha_identity_service.Errors.{
  Result, ok, raise, ◌>>=◌, key_conflict, user_already_exists, runtime_error,
  provisioning_unavailable,
}
use andruha_identity_service.Clock.{ℤ, ◌+ℤ◌, Bytes}
use andruha_identity_service.Accounts.{User, get, get_by_email}
use andruha_identity_service.Registration.Operation.{
  RegistrationOperation, claimed, RegistrationResult, outcome_completed, is_completed, is_blocked,
  validate_operation, pending_result,
}
use andruha_identity_service.Registration.Repository.{
  try_create, get_by_key_hash, claim_by_key_hash,
}
use andruha_identity_service.Registration.Resume.{Database, World, Run, transaction, execute}

pub record Registrar : Type 0 where
  pub hash : String → Result String
  pub verify : (password hash : String) → Result Bool
  pub operation_id : ℕ → ℕ
  pub user_id : ℕ → ℕ
  pub owner_token : ℕ → ℕ
  pub lease : ℤ

-- `await` of a call that may raise, then the rest
abbrev pub and_then {ℓ κ} :
    {A : Type ℓ} {B : Type κ} → Result A × Run → (A → Run → Result B × Run) → Result B × Run
and_then (ok a, run) rest = rest a run
and_then (raise e, run) rest = (raise e, run)

module _ (w : World) (g : Registrar) (topic : String) (max_attempts : ℕ) where
  -- `_load_by_key`
  unfoldable pub load_by_key : Bytes → Run → Result (Option RegistrationOperation) × Run
  unfolding transaction
  load_by_key key_hash run =
      transaction w (λ db. ok (get_by_key_hash key_hash db.operations, db)) run

  abbrev pub hash_of : Option User → Run → Result String × Run
  hash_of none run = (raise runtime_error, run)
  hash_of (some u) run = (ok u.password_hash, run)

  -- The password hash to verify against
  unfoldable pub stored_hash : RegistrationOperation → Run → Result String × Run
  unfolding transaction
  stored_hash o run = elim o.password_hash [
    | some hash ↦ (ok hash, run)
    | none ↦ and_then (transaction w (λ db. ok (get o.user_id db.users, db)) run) hash_of
  ]

  abbrev pub resume_claimed :
      (owner : ℕ)
      → RegistrationOperation
      → Option RegistrationOperation
      → Run
      → Result RegistrationResult × Run
  resume_claimed owner o none run = (ok (pending_result o (w.clock run.tick) none), run)
  resume_claimed owner o (some taken) run = execute w topic max_attempts owner taken run

  -- `_resume_existing` once the password is verified
  unfoldable pub resume_verified : RegistrationOperation → Run → Result RegistrationResult × Run
  unfolding transaction
  resume_verified o run =
      let now = w.clock run.tick in
      let owner = g.owner_token run.tick in
      if is_completed o.status
      then (
        ok (record {
          operation_id = o.id;
          user_id = o.user_id;
          outcome = outcome_completed;
          retry_after_seconds = none;
        }),
        run,
      )
      else if is_blocked o.status
      then (raise provisioning_unavailable, run)
      else and_then
          (transaction w
            (λ db.
              claim_by_key_hash (w.database_now run.tick) o.key_hash owner now (now +ℤ g.lease)
                db.operations
              >>= λ (taken, operations). ok (taken, record db { operations = operations }))
            run)
          (resume_claimed owner o)

  -- What the verification of the password leads to
  unfoldable pub answer :
      RegistrationOperation → Result Bool → Run → Result RegistrationResult × Run
  unfolding resume_verified
  answer o (raise e) run = (raise e, run)
  answer o (ok false) run = (raise key_conflict, run)
  answer o (ok true) run = resume_verified o run

  -- `_resume_existing`
  unfoldable pub resume_existing :
      RegistrationOperation → (email password : String) → Run → Result RegistrationResult × Run
  unfolding stored_hash answer
  resume_existing o email password run =
      if not (str_eq o.email email)
      then (raise key_conflict, run)
      else and_then (stored_hash o run) (λ hash. answer o (g.verify password hash))

  abbrev pub candidate : (email hash : String) → Bytes → ℕ → RegistrationOperation
  candidate email hash key_hash tick = record {
    id = g.operation_id tick;
    user_id = g.user_id tick;
    email = email;
    password_hash = some hash;
    key_hash = key_hash;
    status = claimed;
    attempts = 0;
    available_at = w.clock tick;
    claim_token = some (g.owner_token tick);
    claim_expires_at = some (w.clock tick +ℤ g.lease);
    last_error_class = none;
    terminal_at = none;
    redrive_count = 0;
    created_at = w.clock tick;
    updated_at = none;
  }

  -- The transaction that creates the operation, unless there is a user with its email
  unfoldable pub create_operation :
      RegistrationOperation → Database → Result (Option RegistrationOperation × Database)
  create_operation o db = elim (get_by_email o.email db.users) [
    | some u ↦ ok (none, db)
    | none ↦
        let (created, operations) = try_create o db.operations in
        ok (created, record db { operations = operations })
  ]

  unfoldable pub existing_or :
      (email password : String)
      → (Run → Result RegistrationResult × Run)
      → Option RegistrationOperation
      → Run
      → Result RegistrationResult × Run
  unfolding resume_existing
  existing_or email password fresh none run = fresh run
  existing_or email password fresh (some o) run = resume_existing o email password run

  unfoldable pub resume_created :
      (email password : String)
      → Bytes
      → (owner : ℕ) → Option RegistrationOperation
      → Run
      → Result RegistrationResult × Run
  unfolding existing_or load_by_key
  resume_created email password key_hash owner none run =
      and_then (load_by_key key_hash run)
        (existing_or email password (λ last. (raise user_already_exists, last)))
  resume_created email password key_hash owner (some o) run =
      execute w topic max_attempts owner o run

  unfoldable pub create_and_resume :
      (email password : String)
      → Bytes
      → (owner : ℕ) → Result RegistrationOperation
      → Run
      → Result RegistrationResult × Run
  unfolding create_operation transaction resume_created
  create_and_resume email password key_hash owner (raise e) run = (raise e, run)
  create_and_resume email password key_hash owner (ok o) run =
      and_then (transaction w (create_operation o) run)
        (resume_created email password key_hash owner)

  -- `execute` for a key that no operation has
  unfoldable pub register_new :
      (email password : String) → Bytes → Run → Result RegistrationResult × Run
  unfolding create_and_resume
  register_new email password key_hash run =
      create_and_resume email password key_hash (g.owner_token run.tick)
        (g.hash password >>= λ hash.
          validate_operation w.texts (candidate email hash key_hash run.tick))
        run

  -- `execute`
  unfoldable pub register :
      (email password : String) → Bytes → Run → Result RegistrationResult × Run
  unfolding existing_or register_new load_by_key
  register email password key_hash run =
      and_then (load_by_key key_hash run)
        (existing_or email password (register_new email password key_hash))

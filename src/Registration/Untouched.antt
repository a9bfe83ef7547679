-- ===== src/Registration/Untouched.antt =====
-- application/use_cases/register/handler.py: a registration that is not completed creates no user
-- and no event.
use andruha_identity_service.Prelude.{
  ℕ, String, ◌≡◌, sym, subst, ◌≢◌, ◌⊎◌, inl, inr, Bool, true, false, not, Option, none, some, List,
  arith, str_eq, Option-cases, if_ind,
}
use andruha_identity_service.Errors.{
  Result-cases, Error, Result, ok, raise, ◌>>=◌, user_already_exists,
}
use andruha_identity_service.Clock.{◌+ℤ◌, Bytes}
use andruha_identity_service.Outbox.Message.{OutboxMessage}
use andruha_identity_service.Accounts.{User, get, get_by_email}
use andruha_identity_service.Registration.Operation.{
  RegistrationOperation, RegistrationResult, is_completed, is_blocked, validate_operation,
}
use andruha_identity_service.Registration.Repository.{get_by_key_hash, claim_by_key_hash}
use andruha_identity_service.Registration.Resume.{Database, unknown, World, Run, transaction}
use andruha_identity_service.UnitOfWork.{Commit-cases}
use andruha_identity_service.Registration.Atomicity.{ReportsCompleted, execute-Kept}
use andruha_identity_service.Registration.Register.{
  Registrar, and_then, load_by_key, hash_of, stored_hash, resume_claimed, resume_verified,
  resume_existing, answer, candidate, create_operation, existing_or, resume_created,
  create_and_resume, register_new, register,
}

module _ (w : World) (g : Registrar) (topic : String) (max_attempts : ℕ) where
  module _ (Kept : List User → List OutboxMessage → Type 0)
      (stable : (n : ℕ) (db : Database)
        → Kept db.users db.outbox
        → Kept (w.others n db).users (w.others n db).outbox)
      (certain : (n : ℕ) (e : Error) → w.commit n ≢ unknown e) where
    abbrev KeptIn : Run → Type 0
    KeptIn run = Kept run.database.users run.database.outbox

    abbrev Good : Result RegistrationResult × Run → Type 0
    Good (result, run) = ReportsCompleted result ⊎ KeptIn run

    and_then-Good :
        {A : Type 0} (x : Result A × Run) (rest : A → Run → Result RegistrationResult × Run)
        → KeptIn x.1
        → ((a : A) (run : Run) → KeptIn run → Good (rest a run))
        → Good (and_then x rest)
    and_then-Good (ok a, run) rest k good = good a run k
    and_then-Good (raise e, run) rest k good = inr k

    transaction-Kept :
        {A : Type 0} (body : Database → Result (A × Database)) (run : Run)
        → ((db after : Database) (a : A)
            → body db ≡ ok (a, after)
            → (after.users ≡ db.users) × (after.outbox ≡ db.outbox))
        → KeptIn run
        → KeptIn (transaction w body run).1
    unfolding transaction
    transaction-Kept {A} body run same k =
        let db = w.others run.tick run.database in
        let kept : Kept db.users db.outbox = stable run.tick run.database k in
        elim (Result-cases (body db)) [
          | inr (e, failed) ↦
              let same_database : last ≡ db = ground (arith, failed) in
              subst (λ (x : Database). Kept x.users x.outbox) (sym same_database) kept
          | inl ((a, after), e) ↦
              let (users, outbox) = same db after a e in
              let moved : Kept after.users after.outbox =
                subst (λ x. Kept after.users x) (sym outbox)
                  (subst (λ x. Kept x db.outbox) (sym users) kept) in
              elim (last_cases after a e) [
                | inl here ↦ subst (λ (x : Database). Kept x.users x.outbox) (sym here) moved
                | inr back ↦ subst (λ (x : Database). Kept x.users x.outbox) (sym back) kept
              ]
        ]
      where
        last : Database
        last = (transaction w body run).1.database

        last_cases :
            (after : Database) (a : A)
            → body (w.others run.tick run.database) ≡ ok (a, after)
            → (last ≡ after) ⊎ (last ≡ w.others run.tick run.database)
        last_cases after a e = elim (Commit-cases (w.commit run.tick)) [
          | inl c ↦ inl (ground (arith, e, c))
          | inr (inl (f, c)) ↦ inr (ground (arith, e, c))
          | inr (inr (f, c)) ↦ inl (ground (arith, e, c))
        ]

    load-Kept :
        (key_hash : Bytes) (run : Run)
        → KeptIn run
        → KeptIn (load_by_key w g topic max_attempts key_hash run).1
    unfolding load_by_key
    load-Kept key_hash run =
        transaction-Kept (λ db. ok (get_by_key_hash key_hash db.operations, db)) run
          (λ db after a e. (ground (arith, e), ground (arith, e)))

    hash-Kept :
        (u : Option User) (run : Run) → KeptIn run → KeptIn (hash_of w g topic max_attempts u run).1
    hash-Kept none run k = k
    hash-Kept (some u) run k = k

    read_user-Kept :
        (x : Result (Option User) × Run)
        → KeptIn x.1
        → KeptIn (and_then x (hash_of w g topic max_attempts)).1
    read_user-Kept (ok u, run) k = hash-Kept u run k
    read_user-Kept (raise e, run) k = k

    stored_hash-Kept :
        (o : RegistrationOperation) (run : Run)
        → KeptIn run
        → KeptIn (stored_hash w g topic max_attempts o run).1
    unfolding stored_hash
    stored_hash-Kept o run k = elim (Option-cases o.password_hash) [
      | inr (hash, e) ↦ rw e k
      | inl e ↦ rw e (
          read_user-Kept (transaction w (λ db. ok (get o.user_id db.users, db)) run) (
            transaction-Kept (λ db. ok (get o.user_id db.users, db)) run
              (λ db after a h. (ground (arith, h), ground (arith, h))) k))
    ]

    resume_claimed-Good :
        (owner : ℕ) (o : RegistrationOperation) (taken : Option RegistrationOperation) (run : Run)
        → KeptIn run
        → Good (resume_claimed w g topic max_attempts owner o taken run)
    resume_claimed-Good owner o none run k = inr k
    resume_claimed-Good owner o (some c) run k =
        execute-Kept w topic max_attempts owner Kept stable certain c run k

    resume_verified-Good :
        (o : RegistrationOperation) (run : Run)
        → KeptIn run
        → Good (resume_verified w g topic max_attempts o run)
    unfolding resume_verified
    resume_verified-Good o run k =
        let now = w.clock run.tick in
        let owner = g.owner_token run.tick in
        let claim = λ (db : Database).
          claim_by_key_hash (w.database_now run.tick) o.key_hash owner now (now +ℤ g.lease)
            db.operations
          >>= λ (taken, operations). ok (taken, record db { operations = operations }) in
        if_ind Good (is_completed o.status) (λ _. inr k)
          (λ _.
            if_ind Good (is_blocked o.status) (λ _. inr k)
              (λ _.
                and_then-Good (transaction w claim run)
                  (resume_claimed w g topic max_attempts owner o)
                  (transaction-Kept claim run
                    (λ db after a h. (ground (arith, h), ground (arith, h))) k)
                  (resume_claimed-Good owner o)))

    answer-Good :
        (o : RegistrationOperation) (verdict : Result Bool) (run : Run)
        → KeptIn run
        → Good (answer w g topic max_attempts o verdict run)
    unfolding answer
    answer-Good o (raise e) run k = inr k
    answer-Good o (ok false) run k = inr k
    answer-Good o (ok true) run k = resume_verified-Good o run k

    resume_existing-Good :
        (o : RegistrationOperation) (email password : String) (run : Run)
        → KeptIn run
        → Good (resume_existing w g topic max_attempts o email password run)
    unfolding resume_existing
    resume_existing-Good o email password run k =
        if_ind Good (not (str_eq o.email email)) (λ _. inr k)
          (λ _.
            and_then-Good (stored_hash w g topic max_attempts o run)
              (λ hash. answer w g topic max_attempts o (g.verify password hash))
              (stored_hash-Kept o run k) (λ hash. answer-Good o (g.verify password hash)))

    existing_or-Good :
        (email password : String) (fresh : Run → Result RegistrationResult × Run)
        → ((run : Run) → KeptIn run → Good (fresh run))
        → (o : Option RegistrationOperation) (run : Run) → KeptIn run
        → Good (existing_or w g topic max_attempts email password fresh o run)
    unfolding existing_or
    existing_or-Good email password fresh good none run k = good run k
    existing_or-Good email password fresh good (some o) run k =
        resume_existing-Good o email password run k

    resume_created-Good :
        (email password : String) (key_hash : Bytes) (owner : ℕ) (o : Option RegistrationOperation)
        (run : Run)
        → KeptIn run
        → Good (resume_created w g topic max_attempts email password key_hash owner o run)
    unfolding resume_created
    resume_created-Good email password key_hash owner none run k =
        and_then-Good (load_by_key w g topic max_attempts key_hash run)
          (existing_or w g topic max_attempts email password
            (λ last. (raise user_already_exists, last)))
          (load-Kept key_hash run k)
          (existing_or-Good email password (λ last. (raise user_already_exists, last))
            (λ last kept. inr kept))
    resume_created-Good email password key_hash owner (some o) run k =
        execute-Kept w topic max_attempts owner Kept stable certain o run k

    create-same :
        (o : RegistrationOperation) (db after : Database) (a : Option RegistrationOperation)
        → create_operation w g topic max_attempts o db ≡ ok (a, after)
        → (after.users ≡ db.users) × (after.outbox ≡ db.outbox)
    unfolding create_operation
    create-same o db after a h = elim (Option-cases (get_by_email o.email db.users)) [
      | inl e ↦ (ground (arith, e, h), ground (arith, e, h))
      | inr (u, e) ↦ (ground (arith, e, h), ground (arith, e, h))
    ]

    create_and_resume-Good :
        (email password : String) (key_hash : Bytes) (owner : ℕ) (o : Result RegistrationOperation)
        (run : Run)
        → KeptIn run
        → Good (create_and_resume w g topic max_attempts email password key_hash owner o run)
    unfolding create_and_resume
    create_and_resume-Good email password key_hash owner (raise e) run k = inr k
    create_and_resume-Good email password key_hash owner (ok o) run k =
        and_then-Good (transaction w (create_operation w g topic max_attempts o) run)
          (resume_created w g topic max_attempts email password key_hash owner)
          (transaction-Kept (create_operation w g topic max_attempts o) run (create-same o) k)
          (resume_created-Good email password key_hash owner)

    register_new-Good :
        (email password : String) (key_hash : Bytes) (run : Run)
        → KeptIn run
        → Good (register_new w g topic max_attempts email password key_hash run)
    unfolding register_new
    register_new-Good email password key_hash run =
        create_and_resume-Good email password key_hash (g.owner_token run.tick)
          (g.hash password >>= λ hash.
            validate_operation w.texts
              (candidate w g topic max_attempts email hash key_hash run.tick))
          run

    -- Whatever others keep true of the users and the outbox is still true after a registration that
    -- does not report completion, however it fails and wherever: no user and no event is created
    -- for it. The commits that fail are taken to say whether they wrote.
    pub register-Kept :
        (email password : String) (key_hash : Bytes) (run : Run)
        → KeptIn run
        → ReportsCompleted (register w g topic max_attempts email password key_hash run).0
          ⊎ KeptIn (register w g topic max_attempts email password key_hash run).1
    unfolding register
    register-Kept email password key_hash run k =
        and_then-Good (load_by_key w g topic max_attempts key_hash run)
          (existing_or w g topic max_attempts email password
            (register_new w g topic max_attempts email password key_hash))
          (load-Kept key_hash run k)
          (existing_or-Good email password
            (register_new w g topic max_attempts email password key_hash)
            (register_new-Good email password key_hash))

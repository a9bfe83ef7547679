-- ===== src/Registration/Atomicity.antt =====
-- application/use_cases/resume_registration/handler.py: a registration that is not completed leaves
-- the users and the outbox alone.
use andruha_identity_service.Prelude.{
  ℕ, ◌+◌, String, ◌≡◌, refl, sym, ap, ◌∙◌, subst, ◌≢◌, ◌⊎◌, inl, inr, Bool, true, false, not, ◌&&◌,
  List, arith, leb, if◌then◌else◌, holds, Option-cases, if_ind,
}
use andruha_identity_service.Errors.{
  Result-cases, Error, Result, ok, raise, class_name, provisioning_unavailable,
}
use andruha_identity_service.Clock.{◌+ℤ◌}
use andruha_identity_service.UnitOfWork.{Commit-cases}
use andruha_identity_service.Outbox.Message.{OutboxMessage}
use andruha_identity_service.Accounts.{User, validate_user}
use andruha_identity_service.Registration.Operation.{
  RegistrationOperation, outcome_completed, RegistrationResult, is_claimed,
}
use andruha_identity_service.Registration.Repository.{schedule_retry, block}
use andruha_identity_service.Registration.Completion.{finalize-eq}
use andruha_identity_service.Registration.Resume.{
  Database, unknown, World, Run, Note, transaction, user_to_create, finalization, finalize, execute,
  block_operation, retry_or_block, then_raise, on_operations, told, finished, is_lost_claim,
  is_conflict, is_deferred, is_rejected, is_unavailable, retry_scheduled, operation_blocked,
}

abbrev pub ReportsCompleted : Result RegistrationResult → Type 0
ReportsCompleted result =
    (r : RegistrationResult) × (result ≡ ok r) × (r.outcome ≡ outcome_completed)

-- A transaction that raises has written nothing, unless its commit is unknown.
transaction-raise :
    {A : Type 0} (w : World) (body : Database → Result (A × Database)) (run after : Run) (e : Error)
    → ((n : ℕ) (f : Error) → w.commit n ≢ unknown f)
    → transaction w body run ≡ (raise e, after)
    → after.database ≡ w.others run.tick run.database
unfolding transaction
transaction-raise w body run after e certain h =
    elim (Result-cases (body (w.others run.tick run.database))) [
      | inr (f, r) ↦ ground (arith, r)
      | inl ((a, db), r) ↦ elim (Commit-cases (w.commit run.tick)) [
        | inl c ↦ absurd (ground (arith, r, c))
        | inr (inl (f, c)) ↦ ground (arith, r, c)
        | inr (inr (f, c)) ↦ absurd (certain run.tick f c)
      ]
    ]

module _ (w : World) (topic : String) (max_attempts owner : ℕ)
    (Kept : List User → List OutboxMessage → Type 0)
    (stable : (n : ℕ) (db : Database)
      → Kept db.users db.outbox
      → Kept (w.others n db).users (w.others n db).outbox) where
  abbrev pub KeptIn : Run → Type 0
  KeptIn run = Kept run.database.users run.database.outbox

  statement-Kept :
      (statement : List RegistrationOperation → Bool × List RegistrationOperation) (run : Run)
      → KeptIn run
      → KeptIn (transaction w (on_operations statement) run).1
  unfolding transaction
  statement-Kept statement run k =
      let before = w.others run.tick run.database in
      let after = (transaction w (on_operations statement) run).1.database in
      let users : after.users ≡ before.users = ground arith in
      let outbox : after.outbox ≡ before.outbox = ground arith in
      subst (λ x. Kept after.users x) (sym outbox)
        (subst (λ x. Kept x before.outbox) (sym users) (stable run.tick run.database k))

  told-Kept : (note : Note) (x : Result Bool × Run) → KeptIn x.1 → KeptIn (told note x).1
  told-Kept note (ok true, run) k = k
  told-Kept note (ok false, run) k = k
  told-Kept note (raise e, run) k = k

  block-Kept :
      (o : RegistrationOperation) (e : Error) (run : Run)
      → KeptIn run
      → KeptIn (block_operation w topic max_attempts owner o e run).1
  unfolding block_operation
  block-Kept o e run k =
      let statement =
        block (w.database_now run.tick) o.id owner (w.clock run.tick) (class_name e) in
      told-Kept (operation_blocked (class_name e)) (transaction w (on_operations statement) run)
        (statement-Kept statement run k)

  retry-Kept :
      (o : RegistrationOperation) (e : Error) (run : Run)
      → KeptIn run
      → KeptIn (retry_or_block w topic max_attempts owner o e run).1
  unfolding retry_or_block
  retry-Kept o e run k =
      let failed_at = w.clock run.tick in
      let retry_at = failed_at +ℤ w.delay run.tick (o.attempts + 1) in
      let statement =
        schedule_retry (w.database_now run.tick) o.id owner failed_at retry_at (class_name e) in
      if_ind (λ (x : Result RegistrationResult × Run). KeptIn x.1)
        (leb max_attempts (o.attempts + 1)) (λ _. block-Kept o e run k)
        (λ _.
          told-Kept (retry_scheduled (class_name e)) (transaction w (on_operations statement) run)
            (statement-Kept statement run k))

  finished-Kept :
      (o : RegistrationOperation) (e : Error) (run : Run)
      → KeptIn run
      → KeptIn (finished w topic max_attempts owner o (raise e, run)).1
  unfolding finished
  finished-Kept o e run k =
      let P = λ (x : Result RegistrationResult × Run). KeptIn x.1 in
      if_ind P (is_lost_claim e) (λ _. k)
        (λ _.
          if_ind P (is_conflict e) (λ _. block-Kept o e run k)
            (λ _. if_ind P (is_deferred e) (λ _. retry-Kept o e run k) (λ _. block-Kept o e run k)))

  module _ (certain : (n : ℕ) (e : Error) → w.commit n ≢ unknown e) where
    finalize-Kept :
        (o : RegistrationOperation) (e : Error) (run after : Run)
        → finalize w topic max_attempts owner o run ≡ (raise e, after)
        → KeptIn run
        → KeptIn after
    unfolding finalize
    finalize-Kept o e run after h k = elim (Option-cases o.password_hash) [
      | inl missing ↦ let same : run ≡ after = ground (arith, missing) in subst KeptIn same k
      | inr (hash, had) ↦ elim (Result-cases (validate_user w.texts (user_to_create o hash))) [
        | inr (f, bad) ↦ let same : run ≡ after = ground (arith, had, bad) in subst KeptIn same k
        | inl (u, valid) ↦
            let same =
              transaction-raise w (finalization w topic max_attempts owner run.tick o u) run after e
                certain (sym (finalize-eq w topic max_attempts owner o hash u run had valid) ∙ h) in
            subst (λ (db : Database). Kept db.users db.outbox) (sym same)
              (stable run.tick run.database k)
      ]
    ]

    after_finalize :
        (o : RegistrationOperation) (x : Result User × Run)
        → ((e : Error) → x.0 ≡ raise e → KeptIn x.1)
        → ReportsCompleted (finished w topic max_attempts owner o x).0
          ⊎ KeptIn (finished w topic max_attempts owner o x).1
    unfolding finished
    after_finalize o (ok u, run) k = inl (_, refl, refl)
    after_finalize o (raise e, run) k = inr (finished-Kept o e run (k e refl))

    raised-Kept :
        (o : RegistrationOperation) (e : Error) (run : Run)
        → KeptIn run
        → KeptIn
            (if is_rejected e
              then then_raise provisioning_unavailable
                  (block_operation w topic max_attempts owner o e run)
              else if is_unavailable e
              then retry_or_block w topic max_attempts owner o e run
              else then_raise e (block_operation w topic max_attempts owner o e run)).1
    raised-Kept o e run k =
        let P = λ (x : Result RegistrationResult × Run). KeptIn x.1 in
        if_ind P (is_rejected e) (λ _. block-Kept o e run k)
          (λ _. if_ind P (is_unavailable e) (λ _. retry-Kept o e run k) (λ _. block-Kept o e run k))

    -- Whatever others keep true of the users and the outbox is still true after the handler, however
    -- the profile service and the database answer, unless it reports a completed registration: the
    -- commits that fail are taken to say whether they wrote.
    pub execute-Kept :
        (o : RegistrationOperation) (run : Run)
        → KeptIn run
        → ReportsCompleted (execute w topic max_attempts owner o run).0
          ⊎ KeptIn (execute w topic max_attempts owner o run).1
    unfolding execute
    execute-Kept o run k =
        let R = λ (x : Result RegistrationResult × Run). ReportsCompleted x.0 ⊎ KeptIn x.1 in
        let x = finalize w topic max_attempts owner o run in
        if_ind R (not (is_claimed o.status && holds o.claim_token owner)) (λ _. inr k)
          (λ _. elim (Result-cases (w.create_profile o.user_id o.created_at)) [
            | inl (_, e) ↦
                rw e
                  (after_finalize o x (λ f h. finalize-Kept o f run x.1 (ap (λ y. (y, x.1)) h) k))
            | inr (err, e) ↦ rw e (inr (raised-Kept o err run k))
          ])

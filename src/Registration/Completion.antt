-- ===== src/Registration/Completion.antt =====
-- application/use_cases/resume_registration/handler.py: what a completed registration leaves in the
-- database, and that nothing else creates a user or an event.
use andruha_identity_service.Prelude.{
  ℕ, ◌+◌, String, ◌≡◌, refl, sym, ap, ◌∙◌, subst, ◌≢◌, ◌⊎◌, inl, inr, Bool, true, false, not, ◌&&◌,
  none, some, List, ◌∷◌, arith, leb, holds, Option-cases, if_cases,
}
use andruha_identity_service.Errors.{
  Result-cases, Error, Result, ok, raise, class_name, provisioning_unavailable,
}
use andruha_identity_service.Clock.{DateTime, ◌+ℤ◌}
use andruha_identity_service.Table.{In, exists, update}
use andruha_identity_service.Table.Laws.{exists-In, update-In, updated}
use andruha_identity_service.Outbox.Outcome.{publish}
use andruha_identity_service.Accounts.{
  User, validate_user, normalized_email, create_if_absent, has_email,
}
use andruha_identity_service.Registration.Operation.{
  RegistrationOperation, RegistrationOutcome, outcome_completed, outcome_pending,
  RegistrationResult, is_completed, is_claimed, pending_result,
}
use andruha_identity_service.Registration.Lifecycle.{Normalized, normalized_email-Normalized}
use andruha_identity_service.Registration.Repository.{complete, owned, done, schedule_retry}
use andruha_identity_service.Registration.Resume.{
  Database, World, Run, transaction, user_registered, user_to_create, finalization, finalize,
  execute, block_operation, retry_or_block, then_raise, pending_after, on_operations, told,
  finished, is_lost_claim, is_conflict, is_deferred, is_rejected, is_unavailable, retry_scheduled,
}

pub transaction-ok :
    {A : Type 0} (w : World) (body : Database → Result (A × Database)) (run after : Run) (a : A)
    → transaction w body run ≡ (ok a, after)
    → body (w.others run.tick run.database) ≡ ok (a, after.database)
unfolding transaction
transaction-ok w body run after a h = ground arith

different : {x : RegistrationOutcome} → x ≡ outcome_completed → x ≢ outcome_pending
different c p = cc

-- What the transaction of a completed registration has written.
pub record Completed (w : World) (topic : String) (tick : ℕ) (o : RegistrationOperation)
    (before after : Database) : Type 0 where
  pub hash : String
  pub had_hash : o.password_hash ≡ some hash
  pub email : String
  pub normal : Normalized w.texts o.email email
  pub operation :
      (c : RegistrationOperation) × In c after.operations
      × (c.id ≡ o.id)
      × (is_completed c.status ≡ true)
      × (c.password_hash ≡ none)
  pub new_email : exists (has_email email) before.users ≡ false
  pub users : after.users ≡ record (user_to_create o hash) { email = email } ∷ before.users
  pub outbox :
      after.outbox ≡ publish topic (user_registered w tick (user_to_create o hash)) before.outbox

module _ (w : World) (topic : String) (max_attempts owner : ℕ) where
  create-cases :
      (u new : User) (users users' : List User)
      → create_if_absent u users ≡ ok (some new, users')
      → (exists (has_email u.email) users ≡ false) × (new ≡ u) × (users' ≡ u ∷ users)
  unfolding create_if_absent
  create-cases u new users users' h = (ground arith, ground arith, ground arith)

  completed_row :
      (stamp : DateTime) (id : ℕ) (at : DateTime) (rows : List RegistrationOperation)
      → exists (owned id owner at) rows ≡ true
      → (c : RegistrationOperation) × In c (update (owned id owner at) (done stamp at) rows)
        × (c.id ≡ id)
        × (is_completed c.status ≡ true)
        × (c.password_hash ≡ none)
  unfolding owned
  completed_row stamp id at rows h =
      let (o, i, e) = exists-In (owned id owner at) rows h in
      let c = done stamp at o in
      let there =
        subst (λ x. In x (update (owned id owner at) (done stamp at) rows)) (taken o e)
          (update-In (owned id owner at) (done stamp at) o rows i) in
      (c, there, ground (arith, e), refl, refl)
    where
      taken :
          (o : RegistrationOperation)
          → owned id owner at o ≡ true
          → updated (owned id owner at) (done stamp at) o ≡ done stamp at o
      taken o e = rw e refl

  module _ (tick : ℕ) (o : RegistrationOperation) (u0 u : User) (before after : Database)
      (h : finalization w topic max_attempts owner tick o u0 before ≡ ok (u, after)) where
    abbrev mine : RegistrationOperation → Bool
    mine = owned o.id owner (w.clock tick)

    claim_held : exists mine before.operations ≡ true
    unfolding finalization complete
    claim_held = ground arith

    written :
        (new : User) (users' : List User)
        → create_if_absent u0 before.users ≡ ok (some new, users')
        → (u ≡ new)
          × (after.operations
              ≡ update mine (done (w.database_now tick) (w.clock tick)) before.operations)
          × (after.users ≡ users')
          × (after.outbox ≡ publish topic (user_registered w tick new) before.outbox)
    unfolding finalization complete
    written new users' e = (ground arith, ground arith, ground arith, ground arith)

    created :
        (new : User) × (users' : List User) × (create_if_absent u0 before.users
          ≡ ok (some new, users'))
    unfolding finalization complete
    created = elim (Result-cases (create_if_absent u0 before.users)) [
      | inl ((some new, users'), e) ↦ (new, users', e)
      | inl ((none, users'), e) ↦ absurd (ground (arith, claim_held))
      | inr (err, e) ↦ absurd (ground (arith, claim_held))
    ]

  finalization-Completed :
      (tick : ℕ) (o : RegistrationOperation) (hash email : String) (u : User)
      (before after : Database)
      → o.password_hash ≡ some hash
      → Normalized w.texts o.email email
      → finalization w topic max_attempts owner tick o
          (record (user_to_create o hash) { email = email })
          before
        ≡ ok (u, after)
      → Completed w topic tick o before after × (u.id ≡ o.user_id)
  finalization-Completed tick o hash email u before after had normal h =
      let u0 = record (user_to_create o hash) { email = email } in
      let (new, users', e) = created tick o u0 u before after h in
      let (fresh, same, grown) = create-cases u0 new before.users users' e in
      let (returned, operations, users, outbox) = written tick o u0 u before after h new users' e in
      let (c, i, same_id, is_done, erased) =
        completed_row (w.database_now tick) o.id (w.clock tick) before.operations
          (claim_held tick o u0 u before after h) in
      (
        record {
          hash = hash;
          had_hash = had;
          email = email;
          normal = normal;
          operation = (c, subst (In c) (sym operations) i, same_id, is_done, erased);
          new_email = fresh;
          users = users ∙ grown;
          outbox = outbox ∙ ap (λ x. publish topic (user_registered w tick x) before.outbox) same;
        },
        ap (λ (x : User). x.id) (returned ∙ same),
      )

  validated :
      (u v : User)
      → validate_user w.texts u ≡ ok v
      → (v ≡ record u { email = v.email }) × (normalized_email w.texts u.email ≡ ok v.email)
  unfolding validate_user
  validated u v h = (ground arith, ground arith)

  pub finalize-eq :
      (o : RegistrationOperation) (hash : String) (v : User) (run : Run)
      → o.password_hash ≡ some hash
      → validate_user w.texts (user_to_create o hash) ≡ ok v
      → finalize w topic max_attempts owner o run
        ≡ transaction w (finalization w topic max_attempts owner run.tick o v) run
  unfolding finalize
  finalize-eq o hash v run had e = ground (arith, had, e)

  finalize-Completed :
      (o : RegistrationOperation) (u : User) (run after : Run)
      → finalize w topic max_attempts owner o run ≡ (ok u, after)
      → Completed w topic run.tick o (w.others run.tick run.database) after.database
        × (u.id ≡ o.user_id)
  unfolding finalize
  finalize-Completed o u run after h = elim (Option-cases o.password_hash) [
    | inl none_left ↦ absurd (ground arith)
    | inr (hash, had) ↦ elim (Result-cases (validate_user w.texts (user_to_create o hash))) [
      | inl (v, e) ↦
          let (same, normal) = validated (user_to_create o hash) v e in
          let run_ok =
            transaction-ok w (finalization w topic max_attempts owner run.tick o v) run after u
              (sym (finalize-eq o hash v run had e) ∙ h) in
          finalization-Completed run.tick o hash v.email u (w.others run.tick run.database)
            after.database had (normalized_email-Normalized w.texts o.email v.email normal)
            (subst
              (λ x.
                finalization w topic max_attempts owner run.tick o x
                  (w.others run.tick run.database)
                ≡ ok (u, after.database))
              same run_ok)
      | inr (err, e) ↦ absurd (ground arith)
    ]
  ]

  then_raise-raises :
      (e : Error) (x : Result (Unit {0}) × Run) (r : RegistrationResult) (after : Run)
      → then_raise e x ≢ (ok r, after)
  then_raise-raises e (ok u, run) r after h = cc
  then_raise-raises e (raise f, run) r after h = cc

  pending_after-pending :
      (o : RegistrationOperation) (at : DateTime) (x : Result (Unit {0}) × Run)
      (r : RegistrationResult) (after : Run)
      → pending_after w topic max_attempts owner o at x ≡ (ok r, after)
      → r.outcome ≡ outcome_pending
  unfolding pending_result
  pending_after-pending o at (ok u, run) r after h = ground arith
  pending_after-pending o at (raise f, run) r after h = cc

  retry_or_block-pending :
      (o : RegistrationOperation) (e : Error) (r : RegistrationResult) (run after : Run)
      → retry_or_block w topic max_attempts owner o e run ≡ (ok r, after)
      → r.outcome ≡ outcome_pending
  unfolding retry_or_block
  retry_or_block-pending o e r run after h =
      let failed_at = w.clock run.tick in
      let retry_at = failed_at +ℤ w.delay run.tick (o.attempts + 1) in
      elim (if_cases (λ (x : Result RegistrationResult × Run). x ≡ (ok r, after))
        (leb max_attempts (o.attempts + 1)) h) [
          | inl (last, k) ↦ absurd (
              then_raise-raises provisioning_unavailable
                (block_operation w topic max_attempts owner o e run) r after k)
          | inr (more, k) ↦
              pending_after-pending o retry_at
                (told (retry_scheduled (class_name e)) (
                  transaction w
                    (on_operations (
                      schedule_retry (w.database_now run.tick) o.id owner failed_at retry_at
                        (class_name e)))
                    run))
                r after k
        ]

  -- Whatever fails, the result is not a completed one.
  finished-raise_pending :
      (o : RegistrationOperation) (e : Error) (r : RegistrationResult) (run after : Run)
      → finished w topic max_attempts owner o (raise e, run) ≡ (ok r, after)
      → r.outcome ≡ outcome_pending
  unfolding finished pending_result
  finished-raise_pending o e r run after h =
      let P = λ (x : Result RegistrationResult × Run). x ≡ (ok r, after) in
      let blocked = block_operation w topic max_attempts owner o e run in
      elim (if_cases P (is_lost_claim e) h) [
        | inl (_, k) ↦ ground arith
        | inr (_, k) ↦ elim (if_cases P (is_conflict e) k) [
          | inl (_, l) ↦ absurd (then_raise-raises provisioning_unavailable blocked r after l)
          | inr (_, l) ↦ elim (if_cases P (is_deferred e) l) [
            | inl (_, m) ↦ retry_or_block-pending o e r run after m
            | inr (_, m) ↦ absurd (then_raise-raises e blocked r after m)
          ]
        ]
      ]

  execute-cases :
      (o : RegistrationOperation) (r : RegistrationResult) (run after : Run)
      → execute w topic max_attempts owner o run ≡ (ok r, after)
      → (finished w topic max_attempts owner o (finalize w topic max_attempts owner o run)
          ≡ (ok r, after))
        ⊎ (r.outcome ≡ outcome_pending)
  unfolding execute
  execute-cases o r run after h =
      let P = λ (x : Result RegistrationResult × Run). x ≡ (ok r, after) in
      elim (if_cases P (not (is_claimed o.status && holds o.claim_token owner)) h) [
        | inl (_, k) ↦ absurd (ground (arith, k))
        | inr (_, k) ↦ elim (Result-cases (w.create_profile o.user_id o.created_at)) [
          | inl (_, e) ↦ inl (rw e at k)
          | inr (err, e) ↦ inr (
              let blocked = block_operation w topic max_attempts owner o err run in
              elim (if_cases P (is_rejected err) (rw e at k)) [
                | inl (_, l) ↦ absurd (then_raise-raises provisioning_unavailable blocked r after l)
                | inr (_, l) ↦ elim (if_cases P (is_unavailable err) l) [
                  | inl (_, m) ↦ retry_or_block-pending o err r run after m
                  | inr (_, m) ↦ absurd (then_raise-raises err blocked r after m)
                ]
              ])
        ]
      ]

  finished-completed :
      (o : RegistrationOperation) (x : Result User × Run) (r : RegistrationResult) (after : Run)
      → finished w topic max_attempts owner o x ≡ (ok r, after)
      → r.outcome ≡ outcome_completed
      → (u : User) × (last : Run) × (x ≡ (ok u, last))
        × (r.operation_id ≡ o.id)
        × (r.user_id ≡ u.id)
        × (after.database ≡ last.database)
  unfolding finished
  finished-completed o (ok u, run) r after h c =
      (u, run, refl, ground arith, ground arith, ground arith)
  finished-completed o (raise e, run) r after h c =
      absurd (different c (finished-raise_pending o e r run after h))

  -- When the handler reports a completed registration, one transaction has completed the operation
  -- and erased its password hash, created the user that the operation describes, with the normalized
  -- email, which no account had, and put the event into the outbox; the result names that operation and that user.
  pub execute-Completed :
      (o : RegistrationOperation) (r : RegistrationResult) (run after : Run)
      → execute w topic max_attempts owner o run ≡ (ok r, after)
      → r.outcome ≡ outcome_completed
      → Completed w topic run.tick o (w.others run.tick run.database) after.database
        × (r.operation_id ≡ o.id)
        × (r.user_id ≡ o.user_id)
  execute-Completed o r run after h c = elim (execute-cases o r run after h) [
    | inr p ↦ absurd (different c p)
    | inl f ↦
        let (u, last, e, id, user_id, same) =
          finished-completed o (finalize w topic max_attempts owner o run) r after f c in
        let (written, u_id) = finalize-Completed o u run last e in
        (
          subst (Completed w topic run.tick o (w.others run.tick run.database)) (sym same) written,
          id,
          user_id ∙ u_id,
        )
  ]

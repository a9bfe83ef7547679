-- ===== src/Idempotency/Once.antt =====
-- application/idempotency/durable.py: an operation takes effect at most once for a key, and its
-- result is replayed.
use andruha_identity_service.Prelude.{
  ℕ, ◌+◌, ◌≡◌, refl, ap, ◌∙◌, subst, ◌≢◌, inl, inr, Bool, true, false, not, Option, none, some,
  List, [], ◌∷◌, arith, ◌==◌, Bool-cases, if_ind, if_cases,
}
use andruha_identity_service.Errors.{
  winner_committed, Result-cases, Error, Result, ok, raise, runtime_error,
}
use andruha_identity_service.UnitOfWork.{committed, close}
use andruha_identity_service.Clock.{DateTime, ℤ, ◌+ℤ◌, Bytes, not_after, same_bytes}
use andruha_identity_service.Table.{exists, first}
use andruha_identity_service.Idempotency.Record.{
  IdempotencyIdentity, ExecutionResult, executed, replay, conflict, StoredResult, has_identity,
  CompletedIdempotencyResult, IdempotencyRecord, validate_completed, get_completed,
  try_add_completed,
}
use andruha_identity_service.Idempotency.Durable.{
  Store, World, Run, transaction, classify, read_only, find_existing, attempt, after_error,
  after_attempt, after_lookup, execute_once,
}

validated-again :
    (h : Bytes) (s : StoredResult) (c : CompletedIdempotencyResult)
    → validate_completed h s ≡ ok c
    → validate_completed c.request_hash c.result ≡ ok c
unfolding validate_completed
validated-again h s c e = ground arith

module _ {State : Type 0} (w : World State) (retention : ℤ) (i : IdempotencyIdentity)
    (request_hash : Bytes) (operation : State → Result (StoredResult × State)) where
  abbrev seen : Run State → Store State
  seen run = w.others run.tick run.store

  get-live :
      (r : IdempotencyRecord) (now : DateTime) (rows : List IdempotencyRecord)
      → first (has_identity i) rows ≡ some r
      → not_after r.expires_at now ≡ false
      → validate_completed r.completed.request_hash r.completed.result ≡ ok r.completed
      → get_completed now i rows ≡ ok (some r.completed)
  unfolding get_completed
  get-live r now rows listed live valid = ground (arith, listed, live, valid)

  lookup-live :
      (r : IdempotencyRecord) (run : Run State)
      → request_hash.size ≡ 32
      → first (has_identity i) (seen run).records ≡ some r
      → not_after r.expires_at (w.clock run.tick) ≡ false
      → validate_completed r.completed.request_hash r.completed.result ≡ ok r.completed
      → w.commit run.tick ≡ committed
      → find_existing w retention i request_hash run ≡ (
        ok (some (classify w retention i request_hash r.completed)),
        record { store = seen run; tick = run.tick + 1 },
      )
  unfolding find_existing close
  lookup-live r run size listed live valid ends =
      ground (arith, size, ends, get-live r (w.clock run.tick) (seen run).records listed live valid)

  -- The answer to a request whose body is that of the record, or another.
  classify-cases :
      (c : CompletedIdempotencyResult)
      → (c.request_hash ≡ request_hash
          → classify w retention i request_hash c ≡ record { outcome = replay; completed = some c })
        × (c.request_hash ≢ request_hash
            → classify w retention i request_hash c
              ≡ record { outcome = conflict; completed = none })
  unfolding classify
  classify-cases c = (
    λ e. ground (arith, ap (λ (b : Bytes). b.size) e, ap (λ (b : Bytes). b.value) e),
    λ other. ground arith,
  )

  -- When the record of a key is live, a request with the key runs nothing and changes nothing: it
  -- gets the recorded result if its body has the recorded hash, and a conflict otherwise.
  pub execute_once-replays :
      (r : IdempotencyRecord) (run : Run State)
      → request_hash.size ≡ 32
      → first (has_identity i) (seen run).records ≡ some r
      → not_after r.expires_at (w.clock run.tick) ≡ false
      → validate_completed r.completed.request_hash r.completed.result ≡ ok r.completed
      → w.commit run.tick ≡ committed
      → (r.completed.request_hash ≡ request_hash
          → execute_once w retention i request_hash operation run ≡ (
            ok (record { outcome = replay; completed = some r.completed }),
            record { store = seen run; tick = run.tick + 1 },
          ))
        × (r.completed.request_hash ≢ request_hash
            → execute_once w retention i request_hash operation run ≡ (
              ok (record { outcome = conflict; completed = none }),
              record { store = seen run; tick = run.tick + 1 },
            ))
  unfolding execute_once after_lookup
  execute_once-replays r run size listed live valid ends =
      let found = lookup-live r run size listed live valid ends in
      let answers = classify-cases r.completed in
      (
        λ e. ground (arith, size, found, answers.0 e),
        λ other. ground (arith, size, found, answers.1 other),
      )

  -- What a request that was executed has written, in one transaction.
  pub record Recorded (tick : ℕ) (before after : Store State) (c : CompletedIdempotencyResult)
      : Type 0 where
    pub stored : StoredResult
    pub new_key : exists (has_identity i) before.records ≡ false
    pub effect : operation before.state ≡ ok (stored, after.state)
    pub valid : validate_completed request_hash stored ≡ ok c
    pub records :
        after.records
        ≡ record {
          id = w.record_id tick;
          identity = i;
          completed = c;
          created_at = w.clock tick;
          completed_at = w.clock tick;
          expires_at = w.clock tick +ℤ retention;
        }
          ∷ before.records

  attempt-Recorded :
      (tick : ℕ) (before after : Store State) (c : CompletedIdempotencyResult)
      → attempt w retention i request_hash operation tick before ≡ ok (c, after)
      → Recorded tick before after c
  unfolding attempt try_add_completed
  attempt-Recorded tick before after c h = elim (Result-cases (operation before.state)) [
    | inr (e, failed) ↦ absurd (ground arith)
    | inl ((stored, state), did) ↦ elim (Result-cases (validate_completed request_hash stored)) [
      | inr (e, failed) ↦ absurd (ground (arith, did))
      | inl (d, valid) ↦ elim (Bool-cases (exists (has_identity i) before.records)) [
        | inl taken ↦ absurd (ground (arith, did, valid))
        | inr fresh ↦
            let same_state : state ≡ after.state = ground (arith, did, valid, fresh) in
            let same : d ≡ c = ground (arith, did, valid, fresh) in
            record {
              stored = stored;
              new_key = fresh;
              effect = did ∙ ap (λ x. ok (stored, x)) same_state;
              valid = valid ∙ ap ok same;
              records = ground (arith, did, valid, fresh);
            }
      ]
    ]
  ]

  after_error-replays :
      (e : Error) (x : Result (Option ExecutionResult) × Run State) (r : ExecutionResult)
      (after : Run State)
      → after_error w retention i request_hash operation e x ≡ (ok r, after)
      → x ≡ (ok (some r), after)
  unfolding after_error
  after_error-replays e (ok (some winner), run) r after h = ground arith
  after_error-replays e (ok none, run) r after h = cc
  after_error-replays e (raise f, run) r after h = cc

  classify-not_executed :
      (c : CompletedIdempotencyResult) → (classify w retention i request_hash c).outcome ≢ executed
  unfolding classify
  classify-not_executed c q =
      if_ind (λ (x : ExecutionResult). x.outcome ≢ executed)
        (not (same_bytes c.request_hash request_hash)) (λ _ p. cc) (λ _ p. cc) q

  found-not_executed :
      (r : ExecutionResult) (run after : Run State)
      → find_existing w retention i request_hash run ≡ (ok (some r), after)
      → r.outcome ≢ executed
  unfolding find_existing
  found-not_executed r run after h q =
      let found =
        transaction w retention i request_hash
          (read_only w retention i request_hash (w.clock run.tick)) run in
      elim (if_cases (λ (x : Result (Option ExecutionResult) × Run State). x ≡ (ok (some r), after))
        (not (request_hash.size == 32)) h) [
          | inl (_, k) ↦ cc
          | inr (_, k) ↦ elim (Result-cases found.0) [
            | inr (e, failed) ↦ absurd (ground (arith, k, failed))
            | inl (none, e) ↦ absurd (ground (arith, k, e))
            | inl (some c, e) ↦
                let same : classify w retention i request_hash c ≡ r = ground (arith, k, e) in
                classify-not_executed c (ap (λ (x : ExecutionResult). x.outcome) same ∙ q)
          ]
        ]

  transaction-wrote :
      {A : Type 0} (body : Store State → Result (A × Store State)) (run after : Run State) (a : A)
      → transaction w retention i request_hash body run ≡ (ok a, after)
      → body (seen run) ≡ ok (a, after.store)
  unfolding transaction close
  transaction-wrote body run after a h = ground arith

  -- What a reported execution comes from.
  abbrev Executed : ExecutionResult → Run State → Type 0
  Executed r after =
      (at : Run State) × (c : CompletedIdempotencyResult) × (r.completed ≡ some c)
      × Recorded at.tick (seen at) after.store c

  attempt-Executed :
      (at : Run State) (x : Result CompletedIdempotencyResult × Run State) (r : ExecutionResult)
      (after : Run State)
      → ((c : CompletedIdempotencyResult) (last : Run State)
          → x ≡ (ok c, last)
          → Recorded at.tick (seen at) last.store c)
      → after_attempt w retention i request_hash operation x ≡ (ok r, after)
      → r.outcome ≡ executed
      → Executed r after
  unfolding after_attempt
  attempt-Executed at (ok c, run) r after wrote h q =
      let same : run ≡ after = ground arith in
      (
        at,
        c,
        ground arith,
        subst (λ (x : Run State). Recorded at.tick (seen at) x.store c) same (wrote c run refl),
      )
  attempt-Executed at (raise e, run) r after wrote h q = absurd (
      found-not_executed r run after
        (after_error-replays e (find_existing w retention i request_hash run) r after h) q)

  lookup-Executed :
      (x : Result (Option ExecutionResult) × Run State) (r : ExecutionResult) (after : Run State)
      → ((s : ExecutionResult) (last : Run State) → x ≡ (ok (some s), last) → s.outcome ≢ executed)
      → after_lookup w retention i request_hash operation x ≡ (ok r, after)
      → r.outcome ≡ executed
      → Executed r after
  unfolding after_lookup
  lookup-Executed (raise e, run) r after fresh h q = cc
  lookup-Executed (ok (some s), run) r after fresh h q =
      absurd (fresh s run refl (ap (λ (x : ExecutionResult). x.outcome) (same s run h) ∙ q))
    where
      same :
          (s : ExecutionResult) (run : Run State)
          → ◌≡◌ {A = Result ExecutionResult × Run State} (ok s, run) (ok r, after)
          → s ≡ r
      same s run e = ground arith
  lookup-Executed (ok none, run) r after fresh h q =
      let body = attempt w retention i request_hash operation run.tick in
      attempt-Executed run (transaction w retention i request_hash body run) r after
        (λ c last e.
          attempt-Recorded run.tick (seen run) last.store c (transaction-wrote body run last c e))
        h q

  -- A request that reports an execution has run the operation once, and written its effect together
  -- with the record of its key, which was free.
  pub execute_once-Recorded :
      (r : ExecutionResult) (run after : Run State)
      → execute_once w retention i request_hash operation run ≡ (ok r, after)
      → r.outcome ≡ executed
      → (at : Run State) × (c : CompletedIdempotencyResult) × (r.completed ≡ some c)
        × Recorded at.tick (seen at) after.store c
  unfolding execute_once
  execute_once-Recorded r run after h q =
      elim (if_cases (λ (x : Result ExecutionResult × Run State). x ≡ (ok r, after))
        (not (request_hash.size == 32)) h) [
          | inl (_, k) ↦ cc
          | inr (_, k) ↦
              lookup-Executed (find_existing w retention i request_hash run) r after
                (λ s last e. found-not_executed s run last e) k q
        ]

  module _ (r : IdempotencyRecord) (run : Run State)
      (alone : (n : ℕ) (s : Store State) → w.others n s ≡ s)
      (ends : (n : ℕ) → w.commit n ≡ committed) (back : (n : ℕ) → w.rollback n ≡ ok tt)
      (late : (n : ℕ) → not_after r.expires_at (w.clock n) ≡ true) (size : request_hash.size ≡ 32)
      (listed : first (has_identity i) run.store.records ≡ some r) where
    get-late :
        (now : DateTime)
        → not_after r.expires_at now ≡ true
        → get_completed now i run.store.records ≡ ok none
    unfolding get_completed
    get-late now h = ground (arith, listed, h)

    abbrev later : ℕ → Run State
    later n = record { store = run.store; tick = n }

    lookup-late :
        (n : ℕ) → find_existing w retention i request_hash (later n) ≡ (ok none, later (n + 1))
    unfolding find_existing close
    lookup-late n = ground (arith, size, ends n, get-late (w.clock n) (late n), alone n run.store)

    first-exists :
        (p : IdempotencyRecord → Bool) (x : IdempotencyRecord) (rows : List IdempotencyRecord)
        → first p rows ≡ some x
        → exists p rows ≡ true
    first-exists p x [] h = cc
    first-exists p x (y ∷ rows) h = ground (arith, first-exists p x rows)

    attempt-late :
        (n : ℕ) (stored : StoredResult) (state : State) (c : CompletedIdempotencyResult)
        → operation run.store.state ≡ ok (stored, state)
        → validate_completed request_hash stored ≡ ok c
        → attempt w retention i request_hash operation n run.store ≡ raise winner_committed
    unfolding attempt try_add_completed
    attempt-late n stored state c did valid =
        ground (arith, did, valid, first-exists (has_identity i) r run.store.records listed)

    transaction-late :
        (n : ℕ) (body : Store State → Result (CompletedIdempotencyResult × Store State))
        → body run.store ≡ raise winner_committed
        → transaction w retention i request_hash body (later n)
          ≡ (raise winner_committed, later (n + 1))
    unfolding transaction close
    transaction-late n body h = ground (arith, h, alone n run.store, back n)

    -- A record that has expired but is still in the table blocks its key: no operation with the key
    -- is executed or replayed, and a request that the business logic accepts ends in a runtime
    -- error and changes nothing, as long as others leave the table alone and transactions commit.
    pub execute_once-blocked_key :
        (stored : StoredResult) (state : State) (c : CompletedIdempotencyResult)
        → operation run.store.state ≡ ok (stored, state)
        → validate_completed request_hash stored ≡ ok c
        → execute_once w retention i request_hash operation run
          ≡ (raise runtime_error, record { store = run.store; tick = run.tick + 3 })
    unfolding execute_once after_lookup after_attempt after_error
    execute_once-blocked_key stored state c did valid =
        let n = run.tick in
        let body = attempt w retention i request_hash operation (n + 1) in
        ground (
          arith,
          size,
          lookup-late n,
          transaction-late (n + 1) body (attempt-late (n + 1) stored state c did valid),
          lookup-late (n + 2),
        )

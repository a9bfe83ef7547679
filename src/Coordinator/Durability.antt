-- ===== src/Coordinator/Durability.antt =====
-- coordinator.py: the hot store can spare the work, and nothing that it does changes the outcome.
use andruha_identity_service.Prelude.{
  ℕ, ◌<◌, String, ◌≡◌, refl, ◌∙◌, Bool, true, not, Option, none, some, ◌∷◌, arith, leb, ◌==◌,
  if◌then◌else◌, if_ind,
}
use andruha_identity_service.Errors.{Error, Result, ok, raise, value_error}
use andruha_identity_service.Clock.{ℤ, Bytes}
use andruha_identity_service.Idempotency.Record.{
  IdempotencyIdentity, replay, conflict, in_progress, StoredResult, CompletedIdempotencyResult,
  ExecutionResult,
}
use andruha_identity_service.Idempotency.Durable
use andruha_identity_service.Idempotency.Durable.{Run, find_existing, execute_once}
use andruha_identity_service.HotStore.Adapter.{BeginAction, BeginResult}
use andruha_identity_service.Coordinator.Execute.{
  HotOps, Coordination, is_unavailable, has_effect, heartbeat, observed, guarded, hot_degraded,
  durably, store_result, settle, lost_lease, with_lease, or_in_progress, decide, begun, execute,
}

-- A store fails only by `IdempotencyStorageUnavailableError`, where an end of a request calls it.
pub record FailsCleanly {Hot : Type 0} (h : HotOps Hot) : Type 0 where
  pub begin :
      (b : Bytes) (owner lease : ℕ) (hot : Hot) (e : Error)
      → b.size ≡ 32
      → 0 < lease
      → (h.begin b owner lease hot).0 ≡ raise e
      → is_unavailable e ≡ true
  pub complete :
      (owner : ℕ) (c : CompletedIdempotencyResult) (hot : Hot) (e : Error)
      → (h.complete owner c hot).0 ≡ raise e
      → is_unavailable e ≡ true
  pub abandon :
      (owner : ℕ) (hot : Hot) (e : Error)
      → (h.abandon owner hot).0 ≡ raise e
      → is_unavailable e ≡ true

module _ {State : Type 0} (w : Durable.World State) (retention : ℤ) (i : IdempotencyIdentity)
    (request_hash : Bytes) (operation : State → Result (StoredResult × State)) where
  abbrev looked_up :
      Result (Option ExecutionResult) × Run State → Result ExecutionResult × Run State
  looked_up (ok (some r), run) = (ok r, run)
  looked_up (ok none, run) = (ok (record { outcome = in_progress; completed = none }), run)
  looked_up (raise e, run) = (raise e, run)

  -- What the durable service alone makes of a request, given the answer of the hot store.
  abbrev pub answered : Result BeginResult → Run State → Result ExecutionResult × Run State
  answered (raise e) run = execute_once w retention i request_hash operation run
  answered (ok b) run = elim b.action [
    | BeginAction.acquired ↦ execute_once w retention i request_hash operation run
    | BeginAction.replay ↦ (ok (record { outcome = replay; completed = b.completed }), run)
    | BeginAction.conflict ↦ (ok (record { outcome = conflict; completed = none }), run)
    | BeginAction.in_progress ↦ looked_up (find_existing w retention i request_hash run)
  ]

module _ {Hot State : Type 0} (w : Durable.World State) (retention : ℤ) (i : IdempotencyIdentity)
    (request_hash : Bytes) (operation : State → Result (StoredResult × State)) where
  -- The result, and the durable store after it.
  abbrev pub outcome :
      Result ExecutionResult × Coordination Hot State → Result ExecutionResult × Run State
  outcome (result, c) = (result, c.run)

  outcome-observed :
      (x : Result ExecutionResult × Coordination Hot State) → outcome (observed x) ≡ outcome x
  outcome-observed (ok r, c) = refl
  outcome-observed (raise e, c) = refl

  outcome-durably :
      (c : Coordination Hot State)
      → outcome (durably w retention i request_hash operation c)
        ≡ execute_once w retention i request_hash operation c.run
  unfolding durably
  outcome-durably c = refl

  outcome-guarded :
      (stage : String) (result : Result ExecutionResult) (x : Result Bool × Hot)
      (c : Coordination Hot State)
      → ((e : Error) → x.0 ≡ raise e → is_unavailable e ≡ true)
      → outcome (guarded stage result x c) ≡ (result, c.run)
  outcome-guarded stage result (ok done, hot) c clean = refl
  outcome-guarded stage result (raise e, hot) c clean = rw (clean e refl)

  outcome-or_in_progress :
      (x : Result (Option ExecutionResult) × Run State) (h : HotOps Hot) (owner lease : ℕ)
      (c : Coordination Hot State)
      → outcome (or_in_progress w retention i request_hash operation h owner lease x c)
        ≡ looked_up w retention i request_hash operation x
  outcome-or_in_progress (ok (some r), run) h owner lease c = refl
  outcome-or_in_progress (ok none, run) h owner lease c = refl
  outcome-or_in_progress (raise e, run) h owner lease c = refl

  module _ (h : HotOps Hot) (clean : FailsCleanly h) (owner lease : ℕ) where
    outcome-store_result :
        (r : ExecutionResult) (stored : Option CompletedIdempotencyResult)
        (c : Coordination Hot State)
        → outcome (store_result w retention i request_hash operation h owner lease r stored c)
          ≡ (ok r, c.run)
    unfolding store_result
    outcome-store_result r none c =
        outcome-guarded "abandon" (ok r) (h.abandon owner c.hot) c (clean.abandon owner c.hot)
    outcome-store_result r (some stored) c =
        let P =
          λ (x : Result ExecutionResult × Coordination Hot State). outcome x ≡ (ok r, c.run) in
        if_ind P (has_effect r.outcome)
          (λ _.
            outcome-guarded "complete" (ok r) (h.complete owner stored c.hot) c
              (clean.complete owner stored c.hot))
          (λ _.
            outcome-guarded "abandon" (ok r) (h.abandon owner c.hot) c (clean.abandon owner c.hot))

    outcome-settle :
        (result : Result ExecutionResult) (c : Coordination Hot State)
        → outcome (settle w retention i request_hash operation h owner lease result c)
          ≡ (result, c.run)
    unfolding settle
    outcome-settle (raise e) c =
        outcome-guarded "abandon" (raise e) (h.abandon owner c.hot) c (clean.abandon owner c.hot)
    outcome-settle (ok r) c = outcome-store_result r r.completed c

    outcome-lost_lease :
        (result : Result ExecutionResult) (c : Coordination Hot State)
        → outcome (lost_lease w retention i request_hash operation h owner lease result c)
          ≡ (result, c.run)
    outcome-lost_lease (raise e) c = refl
    outcome-lost_lease (ok r) c = refl

    outcome-with_lease :
        (beats : ℕ) (c : Coordination Hot State)
        → outcome (with_lease w retention i request_hash operation h owner lease beats c)
          ≡ execute_once w retention i request_hash operation c.run
    unfolding with_lease durably
    outcome-with_lease beats c =
        let (lost, hot) = heartbeat h beats owner lease c.hot in
        let (result, run) = execute_once w retention i request_hash operation c.run in
        let after : Coordination Hot State = record c { hot = hot; run = run } in
        let P =
          λ (x : Result ExecutionResult × Coordination Hot State). outcome x ≡ (result, run) in
        let last =
          if lost
          then lost_lease w retention i request_hash operation h owner lease result after
          else settle w retention i request_hash operation h owner lease result after in
        outcome-observed last
        ∙ if_ind P lost (λ _. outcome-lost_lease result after) (λ _. outcome-settle result after)

    outcome-decide :
        (beats : ℕ) (action : BeginAction) (stored : Option CompletedIdempotencyResult)
        (c : Coordination Hot State)
        → outcome (decide w retention i request_hash operation h owner lease beats action stored c)
          ≡ answered w retention i request_hash operation
              (ok (record { action = action; completed = stored }))
              c.run
    unfolding decide
    outcome-decide beats BeginAction.replay stored c = refl
    outcome-decide beats BeginAction.conflict stored c = refl
    outcome-decide beats BeginAction.in_progress stored c =
        let x = find_existing w retention i request_hash c.run in
        outcome-observed (or_in_progress w retention i request_hash operation h owner lease x c)
        ∙ outcome-or_in_progress x h owner lease c
    outcome-decide beats BeginAction.acquired stored c = outcome-with_lease beats c

    outcome-begun :
        (beats : ℕ) (x : Result BeginResult × Hot) (c : Coordination Hot State)
        → ((e : Error) → x.0 ≡ raise e → is_unavailable e ≡ true)
        → outcome (begun w retention i request_hash operation h owner lease beats x c)
          ≡ answered w retention i request_hash operation x.0 c.run
    unfolding begun durably
    outcome-begun beats (ok b, hot) c ends =
        outcome-decide beats b.action b.completed (record c { hot = hot })
    outcome-begun beats (raise e, hot) c ends = rw (ends e refl) (
        outcome-observed (
          durably w retention i request_hash operation
            (record c { hot = hot; notes = hot_degraded "begin" ∷ c.notes })))

    -- Whatever the hot store does, as long as it fails only by being unavailable, and however often
    -- its lease is renewed or lost, a request has the result and the durable effect that the
    -- durable service alone gives it: an execution if the lease was acquired or the store failed,
    -- a lookup if another owner holds the lease, and none if the store replays or refuses.
    pub execute-refines :
        (beats : ℕ) (c : Coordination Hot State)
        → 0 < lease
        → request_hash.size ≡ 32
        → outcome (execute w retention i request_hash operation (some h) owner lease beats c)
          ≡ answered w retention i request_hash operation
              (h.begin request_hash owner lease c.hot).0
              c.run
    unfolding execute
    execute-refines beats c pos size =
        let x = h.begin request_hash owner lease c.hot in
        let last = begun w retention i request_hash operation h owner lease beats x c in
        entered pos size last
        ∙ outcome-begun beats x c (λ e. clean.begin request_hash owner lease c.hot e size pos)
      where
        entered :
            0 < lease
            → request_hash.size ≡ 32
            → (last : Result ExecutionResult × Coordination Hot State)
            → outcome (
                if leb lease 0
                then (raise value_error, c)
                else if not (request_hash.size == 32)
                then (raise value_error, c)
                else last)
              ≡ outcome last
        entered pos size last = ground arith

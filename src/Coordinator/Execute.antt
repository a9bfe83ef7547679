-- ===== src/Coordinator/Execute.antt =====
-- application/idempotency/coordinator.py, over any hot store that has the methods of
-- application/ports/idempotency/hot_store.py. The heartbeat runs beside the durable execution, which
-- does not touch the hot store: `beats` says how often its sleep ends before it is stopped.
use andruha_identity_service.Prelude.{
  ℕ, zero, suc, String, Bool, true, false, not, Option, none, some, List, ◌∷◌, leb, ◌==◌,
  if◌then◌else◌,
}
use andruha_identity_service.Errors.{Error, Result, ok, raise, value_error, storage_unavailable}
use andruha_identity_service.Clock.{ℤ, Bytes}
use andruha_identity_service.Idempotency.Record.{
  IdempotencyIdentity, ExecutionOutcome, executed, replay, conflict, in_progress, StoredResult,
  CompletedIdempotencyResult, ExecutionResult,
}
use andruha_identity_service.Idempotency.Durable
use andruha_identity_service.Idempotency.Durable.{Run, find_existing, execute_once}
use andruha_identity_service.HotStore.Adapter.{BeginAction, BeginResult}

-- `HotIdempotencyStoreProtocol`, for one identity. `Hot` is what the store keeps.
pub record HotOps (Hot : Type 0) : Type 0 where
  pub begin : Bytes → (owner lease : ℕ) → Hot → Result BeginResult × Hot
  pub renew : (owner lease : ℕ) → Hot → Result Bool × Hot
  pub complete : (owner : ℕ) → CompletedIdempotencyResult → Hot → Result Bool × Hot
  pub abandon : (owner : ℕ) → Hot → Result Bool × Hot

-- What the observer is told.
pub data Note : Type 0 where
  outcome_observed : ExecutionOutcome → Note
  hot_degraded : String → Note

-- The hot store, the durable run and the notes, the last one first.
pub record Coordination (Hot State : Type 0) : Type 0 where
  pub hot : Hot
  pub run : Run State
  pub notes : List Note

abbrev pub is_unavailable : Error → Bool
is_unavailable storage_unavailable = true
is_unavailable _ = false

-- `outcome in {EXECUTED, REPLAY}`
abbrev pub has_effect : ExecutionOutcome → Bool
has_effect executed = true
has_effect replay = true
has_effect _ = false

module _ {Hot : Type 0} (h : HotOps Hot) where
  -- `_heartbeat`: whether the lease was lost, and the store
  unfoldable pub heartbeat : (beats owner lease : ℕ) → Hot → Bool × Hot
  heartbeat zero owner lease hot = (false, hot)
  heartbeat (suc beats) owner lease hot =
      let (renewed, after) = h.renew owner lease hot in
      elim renewed [
        | ok true ↦ heartbeat beats owner lease after
        | ok false ↦ (true, after)
        | raise e ↦ (true, after)
      ]

module _ {Hot State : Type 0} where
  abbrev pub tell : Note → Coordination Hot State → Coordination Hot State
  tell note c = record c { notes = note ∷ c.notes }

  -- `_observe`
  abbrev pub observed :
      Result ExecutionResult × Coordination Hot State
      → Result ExecutionResult × Coordination Hot State
  observed (ok r, c) = (ok r, tell (outcome_observed r.outcome) c)
  observed (raise e, c) = (raise e, c)

  -- `try: await hot_store… except IdempotencyStorageUnavailableError`, then the result
  abbrev pub guarded :
      String
      → Result ExecutionResult
      → Result Bool × Hot
      → Coordination Hot State
      → Result ExecutionResult × Coordination Hot State
  guarded stage result (ok done, hot) c = (result, record c { hot = hot })
  guarded stage result (raise e, hot) c =
      if is_unavailable e
      then (result, record c { hot = hot; notes = hot_degraded stage ∷ c.notes })
      else (raise e, record c { hot = hot })

  module _ (w : Durable.World State) (retention : ℤ) (i : IdempotencyIdentity)
      (request_hash : Bytes) (operation : State → Result (StoredResult × State)) where
    -- `execute_once` of the durable service
    unfoldable pub durably :
        Coordination Hot State → Result ExecutionResult × Coordination Hot State
    unfolding execute_once
    durably c =
        let (result, run) = execute_once w retention i request_hash operation c.run in
        (result, record c { run = run })

    module _ (h : HotOps Hot) (owner lease : ℕ) where
      -- What the end of `execute` does with the lease of a result.
      unfoldable pub store_result :
          ExecutionResult
          → Option CompletedIdempotencyResult
          → Coordination Hot State
          → Result ExecutionResult × Coordination Hot State
      store_result r none c = guarded "abandon" (ok r) (h.abandon owner c.hot) c
      store_result r (some stored) c =
          if has_effect r.outcome
          then guarded "complete" (ok r) (h.complete owner stored c.hot) c
          else guarded "abandon" (ok r) (h.abandon owner c.hot) c

      -- The end of `execute` with a lease that is not lost.
      unfoldable pub settle :
          Result ExecutionResult
          → Coordination Hot State
          → Result ExecutionResult × Coordination Hot State
      unfolding store_result
      settle (raise e) c = guarded "abandon" (raise e) (h.abandon owner c.hot) c
      settle (ok r) c = store_result r r.completed c

      abbrev pub lost_lease :
          Result ExecutionResult
          → Coordination Hot State
          → Result ExecutionResult × Coordination Hot State
      lost_lease (raise e) c = (raise e, c)
      lost_lease (ok r) c = (ok r, tell (hot_degraded "lease") c)

      -- `execute` with an acquired lease
      unfoldable pub with_lease :
          (beats : ℕ) → Coordination Hot State → Result ExecutionResult × Coordination Hot State
      unfolding heartbeat durably settle
      with_lease beats c =
          let (lost, hot) = heartbeat h beats owner lease c.hot in
          let (result, after) = durably (record c { hot = hot }) in
          observed (if lost then lost_lease result after else settle result after)

      abbrev pub or_in_progress :
          Result (Option ExecutionResult) × Run State
          → Coordination Hot State
          → Result ExecutionResult × Coordination Hot State
      or_in_progress (ok (some r), run) c = (ok r, record c { run = run })
      or_in_progress (ok none, run) c =
          (ok (record { outcome = in_progress; completed = none }), record c { run = run })
      or_in_progress (raise e, run) c = (raise e, record c { run = run })

      -- What `execute` does with the answer of `begin`.
      unfoldable pub decide :
          (beats : ℕ)
          → BeginAction
          → Option CompletedIdempotencyResult
          → Coordination Hot State
          → Result ExecutionResult × Coordination Hot State
      unfolding with_lease find_existing
      decide beats BeginAction.replay stored c =
          observed (ok (record { outcome = replay; completed = stored }), c)
      decide beats BeginAction.conflict stored c =
          observed (ok (record { outcome = conflict; completed = none }), c)
      decide beats BeginAction.in_progress stored c =
          observed (or_in_progress (find_existing w retention i request_hash c.run) c)
      decide beats BeginAction.acquired stored c = with_lease beats c

      unfoldable pub begun :
          (beats : ℕ)
          → Result BeginResult × Hot
          → Coordination Hot State
          → Result ExecutionResult × Coordination Hot State
      unfolding decide durably
      begun beats (ok b, hot) c = decide beats b.action b.completed (record c { hot = hot })
      begun beats (raise e, hot) c =
          if is_unavailable e
          then observed (durably (record c { hot = hot; notes = hot_degraded "begin" ∷ c.notes }))
          else (raise e, record c { hot = hot })

    -- `execute`; `none` is a coordinator without a hot store.
    unfoldable pub execute :
        Option (HotOps Hot)
        → (owner lease beats : ℕ) → Coordination Hot State
        → Result ExecutionResult × Coordination Hot State
    unfolding begun durably
    execute store owner lease beats c =
        if leb lease 0
        then (raise value_error, c)
        else if not (request_hash.size == 32)
        then (raise value_error, c)
        else elim store [
          | none ↦ observed (durably (tell (hot_degraded "disabled") c))
          | some h ↦ begun h owner lease beats (h.begin request_hash owner lease c.hot) c
        ]

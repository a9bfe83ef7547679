-- ===== src/HotStore/Guarded.antt =====
-- infrastructure/resilience/circuit_breaking_hot_store.py: each method is the same call of the breaker
-- round a method of the inner store. Every exception counts as a failure of the store.
use andruha_identity_service.Prelude.{ℕ}
use andruha_identity_service.Errors.{Result, ok, raise, storage_unavailable}
use andruha_identity_service.Breaker.{
  Breaker, Admission, rejected, admitted, admit, finish, Outcome, returned, failure,
}

abbrev pub ended {ℓ} : {A : Type ℓ} → Result A → Outcome
ended (ok a) = returned
ended (raise e) = failure

module _ {Inner : Type 0} where
  abbrev pub guarded {ℓ} :
      {A : Type ℓ}
      → ℕ
      → (Inner → Result A × Inner)
      → Inner
      → Admission × Breaker
      → Result A × (Breaker × Inner)
  unfolding finish
  guarded later call inner (rejected, b) = (raise storage_unavailable, (b, inner))
  guarded later call inner (admitted t, b) =
      let (result, inner') = call inner in (result, (finish later t (ended result) b, inner'))

  -- `begin`, `renew`, `complete` and `abandon`: the call starts at `now` and ends at `later`.
  unfoldable pub through {ℓ} :
      {A : Type ℓ}
      → (now later : ℕ) → (Inner → Result A × Inner)
      → Breaker × Inner
      → Result A × (Breaker × Inner)
  unfolding admit guarded
  through now later call (b, inner) = guarded later call inner (admit now b)

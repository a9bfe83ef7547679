-- ===== src/UnitOfWork.antt =====
-- infrastructure/database/uow.py: what `__aexit__` makes of the body of a transaction.
use andruha_identity_service.Prelude.{ℕ, ◌+◌, ◌≡◌, refl, ◌⊎◌, inl, inr}
use andruha_identity_service.Errors.{Error, Result, ok, raise, ◌>>◌}
use andruha_identity_service.Clock.{DateTime}

-- How COMMIT ends; after `unknown` the connection was lost, but the transaction is written.
pub data Commit : Type 0 where
  committed : Commit
  rolled_back unknown : Error → Commit

-- The ways a COMMIT ends.
pub Commit-cases :
    (c : Commit)
    → (c ≡ committed) ⊎ (((e : Error) × (c ≡ rolled_back e)) ⊎ ((e : Error) × (c ≡ unknown e)))
Commit-cases committed = inl refl
Commit-cases (rolled_back e) = inr (inl (e, refl))
Commit-cases (unknown e) = inr (inr (e, refl))

abbrev commit_end {ℓ} :
    {A : Type ℓ} {State : Type 0} → Commit → State → A → State → Result A × State
commit_end committed before a after = (ok a, after)
commit_end (rolled_back e) before a after = (raise e, before)
commit_end (unknown e) before a after = (raise e, after)

-- `__aexit__`: the result of the block, and the state of the database after it
unfoldable pub close {ℓ} :
    {A : Type ℓ} {State : Type 0}
    → Commit
    → Result (Unit {0})
    → State
    → Result (A × State)
    → Result A × State
close commit rollback before (ok (a, after)) = commit_end commit before a after
close commit rollback before (raise e) = (rollback >> raise e, before)

-- What a handler does not decide: the clock, how each transaction ends, and what other workers
-- commit before it. It is asked by a counter, which every transaction advances.
pub record World (State : Type 0) : Type 0 where
  pub clock : ℕ → DateTime
  pub commit : ℕ → Commit
  pub rollback : ℕ → Result (Unit {0})
  pub others : ℕ → State → State

pub record Run (State : Type 0) : Type 0 where
  pub state : State
  pub tick : ℕ

module _ {State : Type 0} where
  -- `async with self._uow`, round a body
  unfoldable pub transaction :
      {A : Type 0} → World State → (State → Result (A × State)) → Run State → Result A × Run State
  unfolding close
  transaction w body run =
      let before = w.others run.tick run.state in
      let (result, state) = close (w.commit run.tick) (w.rollback run.tick) before (body before) in
      (result, record { state = state; tick = run.tick + 1 })

  -- The code after a call that may raise.
  abbrev pub and_then {ℓ} :
      {A : Type 0} {B : Type ℓ}
      → Result A × Run State
      → (A → Run State → Result B × Run State)
      → Result B × Run State
  and_then (ok a, run) rest = rest a run
  and_then (raise e, run) rest = (raise e, run)

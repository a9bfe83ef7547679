-- ===== src/Registration/Repository.antt =====
-- infrastructure/database/repositories/registration_operation_repository.py: each method is one SQL
-- statement on the table of operations.
use andruha_identity_service.Prelude.{
  ℕ, ◌+◌, String, Bool, false, not, ◌&&◌, ◌||◌, Option, none, some, List, ◌∷◌, map, str_eq, ltb,
  leb, ◌==◌, if◌then◌else◌, holds, take,
}
use andruha_identity_service.Errors.{Result, ok, raise_if, ◌>>◌, value_error}
use andruha_identity_service.Clock.{DateTime, before, not_after, Bytes, same_bytes}
use andruha_identity_service.Table.{exists, first, select, update, order_by}
use andruha_identity_service.Registration.Operation.{
  pending, claimed, completed, blocked, RegistrationOperation, is_pending, is_claimed, is_blocked,
}

-- A unique column has the same value in both rows.
abbrev pub conflicts : RegistrationOperation → RegistrationOperation → Bool
conflicts o x =
    x.id == o.id
    || (x.user_id == o.user_id || (str_eq x.email o.email || same_bytes x.key_hash o.key_hash))

-- `try_create`
unfoldable pub try_create :
    RegistrationOperation
    → List RegistrationOperation
    → Option RegistrationOperation × List RegistrationOperation
try_create o rows = if exists (conflicts o) rows then (none, rows) else (some o, o ∷ rows)

-- `get_by_key_hash`
unfoldable pub get_by_key_hash : Bytes → List RegistrationOperation → Option RegistrationOperation
get_by_key_hash key_hash rows = first (λ o. same_bytes o.key_hash key_hash) rows

abbrev due : DateTime → Option DateTime → Bool
due at none = false
due at (some t) = not_after t at

-- `_eligible`
unfoldable pub eligible : DateTime → RegistrationOperation → Bool
eligible claimed_at o =
    is_pending o.status && not_after o.available_at claimed_at
    || is_claimed o.status && due claimed_at o.claim_expires_at

-- `_validate_claim_window`
abbrev validate_claim_window : DateTime → DateTime → Result (Unit {0})
validate_claim_window claimed_at expires = raise_if (not_after expires claimed_at) value_error

-- `stamp` is what `func.now()` is in the transaction: each UPDATE of the ORM sets `updated_at` to it
-- (models/base.py).
abbrev pub claim : DateTime → ℕ → DateTime → RegistrationOperation → RegistrationOperation
claim stamp owner expires o = record o {
  status = claimed;
  claim_token = some owner;
  claim_expires_at = some expires;
  terminal_at = none;
  updated_at = some stamp;
}

unfoldable pub claimable_by_key : Bytes → DateTime → RegistrationOperation → Bool
unfolding eligible
claimable_by_key key_hash claimed_at o = same_bytes o.key_hash key_hash && eligible claimed_at o

-- `claim_by_key_hash`, with `_claim`: the claimed row, if there is one, and the table
unfoldable pub claim_by_key_hash :
    DateTime
    → Bytes
    → (owner : ℕ) (claimed_at expires : DateTime) → List RegistrationOperation
    → Result (Option RegistrationOperation × List RegistrationOperation)
unfolding claimable_by_key
claim_by_key_hash stamp key_hash owner claimed_at expires rows = do
  validate_claim_window claimed_at expires
  let p = claimable_by_key key_hash claimed_at
  ok (
    elim (first p rows) [ none ↦ none | some o ↦ some (claim stamp owner expires o) ],
    update p (claim stamp owner expires) rows,
  )

-- ORDER BY available_at, created_at, id
unfoldable pub sooner : RegistrationOperation → RegistrationOperation → Bool
sooner a b =
    before a.available_at b.available_at
    || (a.available_at.instant == b.available_at.instant
        && (before a.created_at b.created_at
            || (a.created_at.instant == b.created_at.instant && ltb a.id b.id)))

unfoldable pub chosen :
    DateTime → (ℕ → Bool) → ℕ → List RegistrationOperation → RegistrationOperation → Bool
unfolding eligible sooner
chosen claimed_at locked limit rows o =
    exists (λ c. c.id == o.id)
      (take limit (order_by sooner (select (λ r. eligible claimed_at r && not (locked r.id)) rows)))

-- `claim_batch`
unfoldable pub claim_batch :
    (stamp : DateTime) (owner : ℕ) (claimed_at expires : DateTime) (limit : ℕ) (locked : ℕ → Bool)
    → List RegistrationOperation
    → Result (List RegistrationOperation × List RegistrationOperation)
unfolding chosen sooner
claim_batch stamp owner claimed_at expires limit locked rows = do
  raise_if (leb limit 0) value_error
  validate_claim_window claimed_at expires
  let p = chosen claimed_at locked limit rows
  ok (
    order_by sooner (map (claim stamp owner expires) (select p rows)),
    update p (claim stamp owner expires) rows,
  )

abbrev pub outlives : Option DateTime → DateTime → Bool
outlives none at = false
outlives (some t) at = before at t

-- The WHERE clause of the three outcomes: the claim of the owner is live at the time.
unfoldable pub owned : ℕ → ℕ → DateTime → RegistrationOperation → Bool
owned id owner at o =
    o.id == id
    && (is_claimed o.status && (holds o.claim_token owner && outlives o.claim_expires_at at))

abbrev pub done : DateTime → DateTime → RegistrationOperation → RegistrationOperation
done stamp at o = record o {
  status = completed;
  attempts = o.attempts + 1;
  password_hash = none;
  last_error_class = none;
  claim_token = none;
  claim_expires_at = none;
  terminal_at = some at;
  updated_at = some stamp;
}

-- `complete`
unfoldable pub complete :
    DateTime → ℕ → ℕ → DateTime → List RegistrationOperation → Bool × List RegistrationOperation
complete stamp id owner at rows =
    (exists (owned id owner at) rows, update (owned id owner at) (done stamp at) rows)

abbrev pub rescheduled :
    DateTime → DateTime → String → RegistrationOperation → RegistrationOperation
rescheduled stamp available_at error_class o = record o {
  status = pending;
  attempts = o.attempts + 1;
  last_error_class = some error_class;
  available_at = available_at;
  claim_token = none;
  claim_expires_at = none;
  terminal_at = none;
  updated_at = some stamp;
}

-- `schedule_retry`
unfoldable pub schedule_retry :
    DateTime
    → ℕ
    → ℕ
    → (failed_at available_at : DateTime) → String
    → List RegistrationOperation
    → Bool × List RegistrationOperation
schedule_retry stamp id owner failed_at available_at error_class rows = (
  exists (owned id owner failed_at) rows,
  update (owned id owner failed_at) (rescheduled stamp available_at error_class) rows,
)

abbrev pub stopped : DateTime → DateTime → String → RegistrationOperation → RegistrationOperation
stopped stamp at error_class o = record o {
  status = blocked;
  attempts = o.attempts + 1;
  last_error_class = some error_class;
  claim_token = none;
  claim_expires_at = none;
  terminal_at = some at;
  updated_at = some stamp;
}

-- `block`
unfoldable pub block :
    DateTime
    → ℕ
    → ℕ
    → DateTime
    → String
    → List RegistrationOperation
    → Bool × List RegistrationOperation
block stamp id owner at error_class rows = (
  exists (owned id owner at) rows,
  update (owned id owner at) (stopped stamp at error_class) rows,
)

unfoldable pub redrivable : ℕ → RegistrationOperation → Bool
redrivable id o = o.id == id && is_blocked o.status

abbrev pub redriven : DateTime → DateTime → RegistrationOperation → RegistrationOperation
redriven stamp available_at o = record o {
  status = pending;
  attempts = 0;
  last_error_class = none;
  available_at = available_at;
  claim_token = none;
  claim_expires_at = none;
  terminal_at = none;
  redrive_count = o.redrive_count + 1;
  updated_at = some stamp;
}

-- `redrive_blocked`
unfoldable pub redrive_blocked :
    DateTime → ℕ → DateTime → List RegistrationOperation → Bool × List RegistrationOperation
redrive_blocked stamp id available_at rows =
    (exists (redrivable id) rows, update (redrivable id) (redriven stamp available_at) rows)

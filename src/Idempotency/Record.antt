-- ===== src/Idempotency/Record.antt =====
-- application/ports/dto/idempotency.py, application/value_objects/idempotency.py and
-- infrastructure/database/repositories/idempotency_record_repository.py.
use andruha_identity_service.Prelude.{
  ℕ, String, Bool, true, false, not, ◌&&◌, ◌||◌, Option, none, some, List, ◌∷◌, str_eq, ltb, leb,
  ◌==◌, if◌then◌else◌, is_some, length, take,
}
use andruha_identity_service.Errors.{
  Result, ok, raise, raise_if, ◌>>=◌, ◌>>◌, value_error, stored_state,
}
use andruha_identity_service.Clock.{DateTime, ℤ, ◌+ℤ◌, not_after, before, Bytes, same_bytes}
use andruha_identity_service.Table.{exists, first, select, delete, order_by}

pub record IdempotencyIdentity : Type 0 where
  pub subject_id : String
  pub operation : String
  pub key_hash : Bytes

pub data ExecutionOutcome : Type 0 where
  executed replay conflict in_progress : ExecutionOutcome

pub record StoredResult : Type 0 where
  pub result_type : String
  pub result_payload : Option String
  pub result_version : ℕ
  pub resource_type : Option String
  pub resource_id : Option String
  pub resource_version : Option ℕ

abbrev not_positive : Option ℕ → Bool
not_positive none = false
not_positive (some n) = leb n 0

-- `StoredResult.model_validate`, less the bounds on the lengths of texts
unfoldable pub validate_result : StoredResult → Result StoredResult
validate_result r =
    let has_type = is_some r.resource_type in
    let has_id = is_some r.resource_id in
    do
      raise_if (leb r.result_version 0 || not_positive r.resource_version) value_error
      raise_if (if has_type then not has_id else has_id) value_error
      raise_if (not (is_some r.result_payload) && not has_id) value_error
      raise_if (is_some r.resource_version && not has_id) value_error
      ok r

pub record CompletedIdempotencyResult : Type 0 where
  pub request_hash : Bytes
  pub result : StoredResult

-- `CompletedIdempotencyResult(...)`
unfoldable pub validate_completed : Bytes → StoredResult → Result CompletedIdempotencyResult
unfolding validate_result
validate_completed request_hash result = do
  raise_if (not (request_hash.size == 32)) value_error
  valid ← validate_result result
  ok (record { request_hash = request_hash; result = valid })

pub record ExecutionResult : Type 0 where
  pub outcome : ExecutionOutcome
  pub completed : Option CompletedIdempotencyResult

pub record IdempotencyRecord : Type 0 where
  pub id : ℕ
  pub identity : IdempotencyIdentity
  pub completed : CompletedIdempotencyResult
  pub created_at : DateTime
  pub completed_at : DateTime
  pub expires_at : DateTime

unfoldable pub has_identity : IdempotencyIdentity → IdempotencyRecord → Bool
has_identity i r =
    str_eq r.identity.subject_id i.subject_id
    && (str_eq r.identity.operation i.operation && same_bytes r.identity.key_hash i.key_hash)

-- `get_completed`
unfoldable pub get_completed :
    DateTime
    → IdempotencyIdentity
    → List IdempotencyRecord
    → Result (Option CompletedIdempotencyResult)
unfolding has_identity validate_completed
get_completed now i rows = elim (first (has_identity i) rows) [
  | none ↦ ok none
  | some r ↦
      if not_after r.expires_at now
      then ok none
      else elim (validate_completed r.completed.request_hash r.completed.result) [
        | ok c ↦ ok (some c)
        | raise e ↦ raise stored_state
      ]
]

-- `try_add_completed`; `id` is the identifier that `uuid7` gives the record.
unfoldable pub try_add_completed :
    (id : ℕ)
    → DateTime
    → (retention : ℤ) → IdempotencyIdentity
    → CompletedIdempotencyResult
    → List IdempotencyRecord
    → Bool × List IdempotencyRecord
unfolding has_identity
try_add_completed id now retention i c rows =
    if exists (has_identity i) rows then (false, rows) else (
      true,
      record {
        id = id;
        identity = i;
        completed = c;
        created_at = now;
        completed_at = now;
        expires_at = now +ℤ retention;
      }
          ∷ rows,
    )

-- ORDER BY expires_at, id
abbrev expiry_order : IdempotencyRecord → IdempotencyRecord → Bool
expiry_order a b =
    before a.expires_at b.expires_at
    || (a.expires_at.instant == b.expires_at.instant && ltb a.id b.id)

unfoldable pub cleanable :
    DateTime → ℕ → (ℕ → Bool) → List IdempotencyRecord → IdempotencyRecord → Bool
cleanable expires_at limit locked rows r =
    exists (λ c. c.id == r.id)
      (take limit (
        order_by expiry_order
          (select (λ x. not_after x.expires_at expires_at && not (locked x.id)) rows)))

-- `delete_expired`: how many records were deleted, and the table
unfoldable pub delete_expired :
    DateTime → ℕ → (ℕ → Bool) → List IdempotencyRecord → Result (ℕ × List IdempotencyRecord)
unfolding cleanable
delete_expired expires_at limit locked rows = do
  raise_if (leb limit 0) value_error
  ok (
    length (select (cleanable expires_at limit locked rows) rows),
    delete (cleanable expires_at limit locked rows) rows,
  )

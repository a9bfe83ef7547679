-- ===== src/Registration/Operation.antt =====
-- application/ports/dto/registration.py and application/registration/results.py.
use andruha_identity_service.Prelude.{
  ℕ, ◌+◌, ◌-◌, ◌/◌, max, String, Bool, true, false, not, ◌||◌, Option, none, some, ◌==◌,
  if◌then◌else◌, is_some,
}
use andruha_identity_service.Errors.{Result, ok, raise_if, ◌>>=◌, ◌>>◌, value_error}
use andruha_identity_service.Clock.{DateTime, Bytes}
use andruha_identity_service.Accounts.{Texts, normalized_email}

pub data RegistrationStatus : Type 0 where
  pending claimed completed blocked : RegistrationStatus

pub data RegistrationOutcome : Type 0 where
  outcome_completed outcome_pending : RegistrationOutcome

pub record RegistrationOperation : Type 0 where
  pub id : ℕ
  pub user_id : ℕ
  pub email : String
  pub password_hash : Option String
  pub key_hash : Bytes
  pub status : RegistrationStatus
  pub attempts : ℕ
  pub available_at : DateTime
  pub claim_token : Option ℕ
  pub claim_expires_at : Option DateTime
  pub last_error_class : Option String
  pub terminal_at : Option DateTime
  pub redrive_count : ℕ
  pub created_at : DateTime
  pub updated_at : Option DateTime

abbrev pub is_pending : RegistrationStatus → Bool
is_pending pending = true
is_pending _ = false

abbrev pub is_claimed : RegistrationStatus → Bool
is_claimed claimed = true
is_claimed _ = false

abbrev pub is_completed : RegistrationStatus → Bool
is_completed completed = true
is_completed _ = false

abbrev pub is_blocked : RegistrationStatus → Bool
is_blocked blocked = true
is_blocked _ = false

abbrev pub naive : Option DateTime → Bool
naive none = false
naive (some t) = not t.aware

-- `RegistrationOperation.model_validate`: the email, the length of the key hash, `validate_lifecycle`
unfoldable pub validate_operation : Texts → RegistrationOperation → Result RegistrationOperation
unfolding normalized_email
validate_operation x o =
    let has_token = is_some o.claim_token in
    let has_terminal = is_some o.terminal_at in
    do
      email ← normalized_email x o.email
      raise_if (not (o.key_hash.size == 32)) value_error
      raise_if
          (not o.available_at.aware
            || (naive o.claim_expires_at
                || (naive o.terminal_at || (not o.created_at.aware || naive o.updated_at))))
          value_error
      raise_if (if has_token then not (is_some o.claim_expires_at) else is_some o.claim_expires_at)
          value_error
      raise_if (if is_claimed o.status then not has_token || has_terminal else has_token)
          value_error
      raise_if
          (if is_completed o.status || is_blocked o.status then not has_terminal else has_terminal)
          value_error
      raise_if
          (if is_completed o.status then is_some o.password_hash else not (is_some o.password_hash))
          value_error
      ok (record o { email = email })

pub record RegistrationResult : Type 0 where
  pub operation_id : ℕ
  pub user_id : ℕ
  pub outcome : RegistrationOutcome
  pub retry_after_seconds : Option ℕ

abbrev claim_end : RegistrationOperation → Option DateTime → DateTime
claim_end o none = o.available_at
claim_end o (some t) = if is_claimed o.status then t else o.available_at

abbrev effective_retry_at : RegistrationOperation → Option DateTime → DateTime
effective_retry_at o none = claim_end o o.claim_expires_at
effective_retry_at o (some t) = t

-- The microseconds from `now` until `t`, in seconds rounded up; at least 1.
abbrev seconds_until : DateTime → DateTime → ℕ
seconds_until t now = max 1 ((t.instant - now.instant + 999999) / 1000000)

-- `pending_result`
unfoldable pub pending_result :
    RegistrationOperation → DateTime → Option DateTime → RegistrationResult
pending_result o now retry_at = record {
  operation_id = o.id;
  user_id = o.user_id;
  outcome = outcome_pending;
  retry_after_seconds = some (seconds_until (effective_retry_at o retry_at) now);
}

-- ===== src/Errors.antt =====
-- The exceptions that the service raises (domain/exceptions, application/exceptions), and code that
-- may raise. A class that others derive from is a test on its instances.
use andruha_identity_service.Prelude.{String, Bool, true, false, ◌≡◌, refl, ◌⊎◌, inl, inr}

pub data Error : Type 0 where
  -- domain/exceptions/auth.py
  invalid_domain_state invalid_email invalid_password_hash invalid_password invalid_timestamp :
      Error
  invalid_session_lifetime invalid_credentials user_already_exists user_not_found : Error
  invalid_refresh_token auth_session_inactive refresh_token_reuse : Error
  -- application/exceptions/idempotency.py
  storage_unavailable key_conflict request_in_progress replay_unavailable : Error
  -- application/exceptions/outbox.py
  transient_publish permanent_publish retry_exhausted : Error
  -- application/exceptions/persistence.py
  persistence_unavailable transaction_conflict persistence_integrity stored_state : Error
  entity_not_found : Error
  -- application/exceptions/profiles.py
  provisioning_unavailable provisioning_rejected : Error
  -- application/exceptions/security.py
  invalid_token token_issuance password_hashing : Error
  -- private exceptions of handlers
  lost_claim finalization_conflict winner_committed : Error
  -- Python's own, and any class that the service does not name
  value_error runtime_error overflow : Error
  other : String → Error

-- `isinstance(e, InvalidDomainStateError)`
unfoldable pub is_domain_state_error : Error → Bool
is_domain_state_error invalid_domain_state = true
is_domain_state_error invalid_email = true
is_domain_state_error invalid_password_hash = true
is_domain_state_error invalid_password = true
is_domain_state_error invalid_timestamp = true
is_domain_state_error invalid_session_lifetime = true
is_domain_state_error _ = false

-- `isinstance(e, InvalidRefreshTokenError)`
unfoldable pub is_refresh_token_error : Error → Bool
is_refresh_token_error invalid_refresh_token = true
is_refresh_token_error auth_session_inactive = true
is_refresh_token_error refresh_token_reuse = true
is_refresh_token_error _ = false

-- `isinstance(e, PermanentPublishError)`
unfoldable pub is_permanent_publish_error : Error → Bool
is_permanent_publish_error permanent_publish = true
is_permanent_publish_error retry_exhausted = true
is_permanent_publish_error _ = false

-- `type(e).__name__`
unfoldable pub class_name : Error → String
class_name invalid_domain_state = "InvalidDomainStateError"
class_name invalid_email = "InvalidEmailError"
class_name invalid_password_hash = "InvalidPasswordHashError"
class_name invalid_password = "InvalidPasswordError"
class_name invalid_timestamp = "InvalidTimestampError"
class_name invalid_session_lifetime = "InvalidSessionLifetimeError"
class_name invalid_credentials = "InvalidCredentialsError"
class_name user_already_exists = "UserAlreadyExistsError"
class_name user_not_found = "UserNotFoundError"
class_name invalid_refresh_token = "InvalidRefreshTokenError"
class_name auth_session_inactive = "AuthSessionInactiveError"
class_name refresh_token_reuse = "RefreshTokenReuseError"
class_name storage_unavailable = "IdempotencyStorageUnavailableError"
class_name key_conflict = "IdempotencyKeyConflictError"
class_name request_in_progress = "IdempotencyRequestInProgressError"
class_name replay_unavailable = "RefreshReplayUnavailableError"
class_name transient_publish = "TransientPublishError"
class_name permanent_publish = "PermanentPublishError"
class_name retry_exhausted = "RetryExhaustedError"
class_name persistence_unavailable = "PersistenceUnavailableError"
class_name transaction_conflict = "TransactionConflictError"
class_name persistence_integrity = "PersistenceIntegrityError"
class_name stored_state = "StoredStateError"
class_name entity_not_found = "EntityNotFoundError"
class_name provisioning_unavailable = "ProfileProvisioningUnavailableError"
class_name provisioning_rejected = "ProfileProvisioningRejectedError"
class_name invalid_token = "InvalidTokenError"
class_name token_issuance = "TokenIssuanceError"
class_name password_hashing = "PasswordHashingError"
class_name lost_claim = "_LostRegistrationClaim"
class_name finalization_conflict = "_RegistrationFinalizationConflict"
class_name winner_committed = "_ConcurrentWinnerCommitted"
class_name value_error = "ValueError"
class_name runtime_error = "RuntimeError"
class_name overflow = "OverflowError"
class_name (other name) = name

pub data Result {ℓ} (A : Type ℓ) : Type ℓ where
  ok : A → Result A
  raise : Error → Result A

infixl 5 ◌>>=◌ ◌>>◌
abbrev pub ◌>>=◌ {ℓ κ} : {A : Type ℓ} {B : Type κ} → Result A → (A → Result B) → Result B
ok a >>= f = f a
raise e >>= f = raise e

abbrev pub ◌>>◌ {ℓ} : {B : Type ℓ} → Result (Unit {0}) → Result B → Result B
m >> k = m >>= λ _. k

-- `if test: raise e`
abbrev pub raise_if : Bool → Error → Result (Unit {0})
raise_if true e = raise e
raise_if false e = ok tt

-- The two ways a call ends.
pub Result-cases :
    {A : Type 0} (r : Result A) → ((a : A) × (r ≡ ok a)) ⊎ ((e : Error) × (r ≡ raise e))
Result-cases (ok a) = inl (a, refl)
Result-cases (raise e) = inr (e, refl)
